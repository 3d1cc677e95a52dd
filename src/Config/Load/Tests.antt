-- ===== src/Config/Load/Tests.antt =====
-- `load_config` on small documents.
use Prim.Native.String.{String}
use package.text.Mathlib.Text.{◌==◌ as str_eq}
use e3controller.Pipeline.Iq.{Machine}
use e3controller.Common.{
  ℕ, ℤ, pos, ◌≡◌, refl, Bool, true, false, Option, none, some, List, [], ◌∷◌, if◌then◌else◌, ok,
  err, All,
}
use e3controller.Config.Geometry.{default_geometry, validate, row_bytes, slots_per_frame}
use e3controller.Config.Types.{ShmWriter, ControllerConfig, default_config, float_positive}
use e3controller.Config.Parse.{Lookup, Yaml, unknown_key, exception, parse_error}
use e3controller.Codelet.Ecpri.{IqSampleData}
use e3controller.Pipeline.Iq.{
  IqPipeline, fresh, run, Event, starts, handler_enters, handles, worker_steps,
}
use e3controller.Controller.{iq_config}
use e3controller.Controller.Wiring.{OfCarrier, wired_sections}
use e3controller.Config.Load.{
  check_config, catch, check_keys, load_sections, derive_socket, load_root, load_config,
}
use e3controller.Config.Load.Laws.{Accepted, load_config-Accepted}

-- Documents: numbers, texts, and mappings with text keys or one that is no text.
mutual
  data Doc : Type 0 where
    num : ℕ → Doc
    text : String → Doc
    mapping : Fields → Doc

  data Fields : Type 0 where
    end : Fields
    field : Option String → Doc → Fields → Fields

abbrev doc_keys : Fields → List (Option String)
doc_keys end = []
doc_keys (field k v fs) = k ∷ doc_keys fs

abbrev is_key : Option String → String → Bool
is_key none k = false
is_key (some j) k = str_eq j k

abbrev find : Fields → String → Lookup Doc
find end k = Lookup.absent
find (field j v fs) k = if is_key j k then Lookup.found v else find fs k

abbrev doc_is_map : Doc → Bool
doc_is_map (mapping fs) = true
doc_is_map _ = false

abbrev doc_key_list : Doc → List (Option String)
doc_key_list (mapping fs) = doc_keys fs
doc_key_list _ = []

abbrev doc_child : Doc → String → Lookup Doc
doc_child (mapping fs) k = find fs k
doc_child _ k = Lookup.throws

abbrev doc_num : Doc → Option ℕ
doc_num (num n) = some n
doc_num _ = none

abbrev doc_int : Doc → Option ℤ
doc_int (num n) = some (pos n)
doc_int _ = none

abbrev doc_text : Doc → Option String
doc_text (text s) = some s
doc_text _ = none

abbrev docs : Doc → Yaml
docs d = record {
  Node = Doc;
  load_file = λ _. some d;
  is_map = doc_is_map;
  keys = doc_key_list;
  child = doc_child;
  as_u16 = doc_num;
  as_size = doc_num;
  as_float = doc_num;
  as_int = doc_int;
  as_string = doc_text;
}

abbrev two_ports : Doc
two_ports = mapping (
    field (some "radio") (mapping (field (some "nof_ports") (num 2) end)) (
      field (some "shm") (mapping (field (some "writer") (text "controller") end))
        (field (some "target_slot") (num 19) end)))

abbrev two_ports_config : ControllerConfig
two_ports_config = record default_config {
  radio = record default_geometry { nof_ports = 2 };
  shm = record (default_config.shm) { writer = ShmWriter.controller };
  jbpf = record (default_config.jbpf) { lcm_socket_path = "/dev/shm/jbpf/jbpf_lcm_ipc" };
  target_slot = pos 19;
}

two_ports_loads : load_config (docs two_ports) "e3.yaml" ≡ ok two_ports_config
unfolding load_config load_root check_keys catch load_sections derive_socket check_config validate
    row_bytes float_positive slots_per_frame
two_ports_loads = refl

-- A misspelt key, and keys that are no text: in a section a parse error, at the top an exception
-- that leaves `load_config`.
misspelt :
    load_config
      (docs (mapping (field (some "radio") (mapping (field (some "nof_port") (num 2) end)) end)))
      "e3.yaml"
    ≡ err (unknown_key "nof_port" "radio")
unfolding load_config load_root check_keys catch load_sections
misspelt = refl

key_no_text :
    load_config
      (docs (mapping (field (some "radio") (mapping (field none (num 2) end)) end)))
      "e3.yaml"
    ≡ err parse_error
unfolding load_config load_root check_keys catch load_sections
key_no_text = refl

root_key_no_text : load_config (docs (mapping (field none (num 2) end))) "e3.yaml" ≡ err exception
unfolding load_config load_root check_keys
root_key_no_text = refl

load_config-Accepted_example : Accepted two_ports_config
load_config-Accepted_example = load_config-Accepted (docs two_ports) "e3.yaml" two_ports_loads

-- A section over the PRBs that this configuration declares, and a run that hands it over.
abbrev whole_carrier : IqSampleData
whole_carrier = record {
  gnb_ts_ns = 1000;
  codelet_ts_ns = 2000;
  timestamp = 3;
  direction = 1;
  frame_id = 0;
  comp_method = 1;
  iq_width = 9;
  subframe_id = 9;
  slot_id = 1;
  symbol_id = 13;
  section_id = 0;
  start_prbu = 0;
  num_prbu = two_ports_config.radio.nof_prbs;
  payload_size = 7644;
  iq_payload = λ i. i;
}

abbrev one_section : List Event
one_section = starts true ∷ handler_enters true ∷ handles 9000 1 ∷ worker_steps ∷ []

abbrev target : Machine
target = record { elapsed = λ e. 0; wide_shift = λ mantissa exponent. 0 }

wired_sections_example : All (OfCarrier two_ports_config) (
    IqPipeline.calls
      (run (λ b. whole_carrier) target (fresh (iq_config two_ports_config) (5 ∷ [])) one_section))
wired_sections_example =
    wired_sections (docs two_ports) "e3.yaml" two_ports_loads (λ b. whole_carrier) target (5 ∷ [])
      one_section
