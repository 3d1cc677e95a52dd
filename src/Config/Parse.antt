-- ===== src/Config/Parse.antt =====
-- yaml-cpp as an interface, and the helpers of src/e3_config.cpp that check keys and parse
-- enumerations. A conversion or a lookup that throws is `none` or `throws`.
use Prim.Native.String.{String}
use text.Mathlib.Text.{◌==◌ as str_eq}
use e3controller.Common.{
  ℕ, ℤ, Bool, false, not, ◌||◌, Option, none, some, List, [], ◌∷◌, if◌then◌else◌, Result, ok, err,
  ◌>>◌, refuse_if,
}
use e3controller.Config.Geometry.{GeometryError}
use e3controller.Config.Types.{
  ShmWriter, EncodingFormat, asn1, json, LinkLayer, zmq, posix, TransportLayer, tcp, ipc, sctp,
}

-- What indexing a node gives.
pub data Lookup (N : Type 0) : Type 0 where
  found : N → Lookup N
  absent throws : Lookup N

pub record Yaml : Type 1 where
  pub Node : Type 0
  pub load_file : String → Option Node
  pub is_map : Node → Bool
  pub keys : Node → List (Option String)
  pub child : Node → String → Lookup Node
  pub as_u16 : Node → Option ℕ
  pub as_size : Node → Option ℕ
  pub as_float : Node → Option ℕ
  pub as_int : Node → Option ℤ
  pub as_string : Node → Option String

-- A constructor for each message; `exception` is one of yaml-cpp's on its way up.
pub data ConfigError : Type 0 where
  cannot_load not_a_mapping exception parse_error : ConfigError
  unknown_key : String → String → ConfigError
  bad_encoding bad_link_layer bad_transport bad_writer : String → ConfigError
  bad_geometry : GeometryError → ConfigError
  shm_too_small bad_scale bad_target_slot : ConfigError

abbrev pub Checked : Type 0 → Type 0
Checked A = Result ConfigError A

-- `allowed.find(k) != allowed.end()`
unfoldable pub contains : List String → String → Bool
contains [] k = false
contains (a ∷ as') k = str_eq a k || contains as' k

unfoldable pub check_key_list : List (Option String) → String → List String → Checked (Unit {0})
unfolding contains
check_key_list [] section allowed = ok tt
check_key_list (none ∷ ks) section allowed = err exception
check_key_list (some k ∷ ks) section allowed = do
  refuse_if (not (contains allowed k)) (unknown_key k section)
  check_key_list ks section allowed

unfoldable pub parse_encoding : String → Checked EncodingFormat
parse_encoding s =
    if str_eq s "asn1" || str_eq s "ASN1" || str_eq s "aper"
    then ok asn1
    else if str_eq s "json" || str_eq s "JSON"
    then ok json
    else err (bad_encoding s)

unfoldable pub parse_link_layer : String → Checked LinkLayer
parse_link_layer s =
    if str_eq s "zmq" || str_eq s "ZMQ"
    then ok zmq
    else if str_eq s "posix" || str_eq s "POSIX"
    then ok posix
    else err (bad_link_layer s)

unfoldable pub parse_transport : String → Checked TransportLayer
parse_transport s =
    if str_eq s "tcp" || str_eq s "TCP"
    then ok tcp
    else if str_eq s "ipc" || str_eq s "IPC"
    then ok ipc
    else if str_eq s "sctp" || str_eq s "SCTP"
    then ok sctp
    else err (bad_transport s)

unfoldable pub parse_writer : String → Checked ShmWriter
parse_writer s =
    if str_eq s "controller"
    then ok ShmWriter.controller
    else if str_eq s "gnb"
    then ok ShmWriter.gnb
    else err (bad_writer s)
