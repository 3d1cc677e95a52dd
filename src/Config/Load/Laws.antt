-- ===== src/Config/Load/Laws.antt =====
-- What `load_config` guarantees of a configuration that it returns.
use Prim.Native.String.{String}
use e3controller.Common.{
  ℕ, ℤ, pos, ap, ◌*◌, ◌-◌, ◌/◌, ◌≤◌, ◌<◌, ◌≡◌, Bool, not, true, false, Option, none, some, List, [],
  ◌∷◌, ok, ◌>>=◌, refuse_if, >>=-eq-ok, arith,
}
use e3controller.Config.Geometry.Laws.{InRange, validate_iff, row_bytes_exact}
use e3controller.Config.Geometry.{RadioGeometry, validate, row_bytes, slots_per_frame}
use e3controller.Config.Types.{
  ShmConfig, JbpfConfig, E3Config, ThreadConfig, LoggingConfig, ControllerConfig, default_config,
  float_positive,
}
use e3controller.Config.Parse.{Yaml, not_a_mapping, Checked, found, contains, check_key_list}
use e3controller.Config.Load.{
  outside_frame, check_config, check_keys, section, load_radio, load_shm, load_jbpf, load_e3,
  load_threads, load_logging, load_sections, derive_socket, load_root, load_config, catch,
  root_keys, radio_keys, shm_keys, jbpf_keys, e3_keys, threads_keys, logging_keys,
}

-- A slot of the frame, whose number is ten subframes of one slot at 15 kHz, two at 30 kHz and so on; or
-- none, for a negative number.
abbrev pub InFrame : ℤ → ℕ → Type 0
InFrame (pos n) scs_khz = n < 10 * (scs_khz / 15)
InFrame (ℤ.negsuc n) scs_khz = Unit

-- A row is four bytes for each port, symbol and subcarrier, of which a PRB has twelve.
pub record Accepted (c : ControllerConfig) : Type 0 where
  pub geometry : InRange c.radio
  pub header : 64 < c.shm.size_bytes
  pub room :
      2 * (c.radio.nof_ports * (24 * (c.radio.nof_symbols * c.radio.nof_prbs)))
      ≤ (c.shm.size_bytes - 64) / 2
  pub scale : float_positive c.shm.cbf16_scale ≡ true
  pub slot : InFrame c.target_slot c.radio.scs_khz

-- What the last four checks say.
record Checks (c : ControllerConfig) : Type 0 where
  pub geometry : validate c.radio ≡ ok tt
  pub header : 64 < c.shm.size_bytes
  pub room : row_bytes c.radio ≤ (c.shm.size_bytes - 64) / 2
  pub scale : float_positive c.shm.cbf16_scale ≡ true
  pub slot : outside_frame c.target_slot (slots_per_frame c.radio) ≡ false

check_config-Checks :
    (c : ControllerConfig) {d : ControllerConfig} → check_config c ≡ ok d → (d ≡ c) × Checks d
unfolding check_config
check_config-Checks c h = ground arith

inside-InFrame :
    (t : ℤ) (g : RadioGeometry)
    → InRange g
    → outside_frame t (slots_per_frame g) ≡ false
    → InFrame t g.scs_khz
unfolding slots_per_frame
inside-InFrame (pos n) g r h = ground (arith, r.scs)
inside-InFrame (ℤ.negsuc n) g r h = tt

Checks-Accepted : {c : ControllerConfig} → Checks c → Accepted c
Checks-Accepted {c} k =
    let r = (validate_iff c.radio).0 k.geometry in
    let (ant, samples, size, _, _, _) = row_bytes_exact c.radio k.geometry in
    record {
      geometry = r;
      header = k.header;
      room = omega (arith, k.room, size, samples, ap (λ n. c.radio.nof_ports * n) ant);
      scale = k.scale;
      slot = inside-InFrame c.target_slot c.radio r k.slot;
    }

check_config-Accepted :
    (c : ControllerConfig) {d : ControllerConfig} → check_config c ≡ ok d → Accepted d
check_config-Accepted c h = Checks-Accepted (check_config-Checks c h).1

-- Every key of a list is a string, and an allowed one.
abbrev pub KnownKeys : List String → List (Option String) → Type 0
KnownKeys allowed [] = Unit
KnownKeys allowed (none ∷ ks) = ⊥
KnownKeys allowed (some k ∷ ks) = (contains allowed k ≡ true) × KnownKeys allowed ks

check_key_list-KnownKeys :
    (ks : List (Option String)) (name : String) (allowed : List String)
    → check_key_list ks name allowed ≡ ok tt
    → KnownKeys allowed ks
unfolding check_key_list
check_key_list-KnownKeys [] name allowed h = tt
check_key_list-KnownKeys (none ∷ ks) name allowed h = cc
check_key_list-KnownKeys (some k ∷ ks) name allowed h =
    ground (arith, check_key_list-KnownKeys ks name allowed)

module _ (y : Yaml) where
  open y use {Node, load_file, is_map, keys, child}

  -- Where the section is there and a mapping, it has known keys only.
  abbrev pub KnownSection : Node → String → List String → Type 0
  KnownSection root key allowed =
      (n : Node) → child root key ≡ found n → is_map n ≡ true → KnownKeys allowed (keys n)

  check_keys-KnownKeys :
      (n : Node) (name : String) (allowed : List String)
      → check_keys y n name allowed ≡ ok tt
      → is_map n ≡ true
      → KnownKeys allowed (keys n)
  unfolding check_keys
  check_keys-KnownKeys n name allowed h m =
      check_key_list-KnownKeys (keys n) name allowed (rw m at h)

  section-KnownSection :
      {T : Type 0} (root : Node) (key name : String) (allowed : List String)
      (load : Node → T → Checked T) (d : T) {v : T}
      → ((n : Node) (v : T) → load n d ≡ ok v → check_keys y n name allowed ≡ ok tt)
      → section y root key load d ≡ ok v
      → KnownSection root key allowed
  unfolding section
  section-KnownSection root key name allowed load d {v} checks h n e m =
      check_keys-KnownKeys n name allowed (checks n v (rw (e, section) at h)) m

  check_first :
      {T : Type 0} (m : Checked (Unit {0})) (k : Unit {0} → Checked T) {v : T}
      → (m >>= k) ≡ ok v
      → m ≡ ok tt
  check_first m k h = (>>=-eq-ok m k h).1

  -- Each section of the file that is there and a mapping has known keys only.
  pub record SectionsKnown (root : Node) : Type 0 where
    pub in_radio : KnownSection root "radio" radio_keys
    pub in_shm : KnownSection root "shm" shm_keys
    pub in_jbpf : KnownSection root "jbpf" jbpf_keys
    pub in_e3 : KnownSection root "e3" e3_keys
    pub in_threads : KnownSection root "threads" threads_keys
    pub in_logging : KnownSection root "logging" logging_keys

  load_radio-known :
      (root : Node) (d : RadioGeometry) {v : RadioGeometry}
      → section y root "radio" (load_radio y) d ≡ ok v
      → KnownSection root "radio" radio_keys
  unfolding load_radio
  load_radio-known root d =
      section-KnownSection root "radio" "radio" radio_keys (load_radio y) d (λ n v. check_first _ _)

  load_shm-known :
      (root : Node) (d : ShmConfig) {v : ShmConfig}
      → section y root "shm" (load_shm y) d ≡ ok v
      → KnownSection root "shm" shm_keys
  unfolding load_shm
  load_shm-known root d =
      section-KnownSection root "shm" "shm" shm_keys (load_shm y) d (λ n v. check_first _ _)

  load_jbpf-known :
      (root : Node) (d : JbpfConfig × Bool) {v : JbpfConfig × Bool}
      → section y root "jbpf" (load_jbpf y) d ≡ ok v
      → KnownSection root "jbpf" jbpf_keys
  unfolding load_jbpf
  load_jbpf-known root (j, e) =
      section-KnownSection root "jbpf" "jbpf" jbpf_keys (load_jbpf y) (j, e)
        (λ n v. check_first _ _)

  load_e3-known :
      (root : Node) (d : E3Config) {v : E3Config}
      → section y root "e3" (load_e3 y) d ≡ ok v
      → KnownSection root "e3" e3_keys
  unfolding load_e3
  load_e3-known root d =
      section-KnownSection root "e3" "e3" e3_keys (load_e3 y) d (λ n v. check_first _ _)

  load_threads-known :
      (root : Node) (d : ThreadConfig) {v : ThreadConfig}
      → section y root "threads" (load_threads y) d ≡ ok v
      → KnownSection root "threads" threads_keys
  unfolding load_threads
  load_threads-known root d =
      section-KnownSection root "threads" "threads" threads_keys (load_threads y) d
        (λ n v. check_first _ _)

  load_logging-known :
      (root : Node) (d : LoggingConfig) {v : LoggingConfig}
      → section y root "logging" (load_logging y) d ≡ ok v
      → KnownSection root "logging" logging_keys
  unfolding load_logging
  load_logging-known root d =
      section-KnownSection root "logging" "logging" logging_keys (load_logging y) d
        (λ n v. check_first _ _)

  load_sections-SectionsKnown :
      (root : Node) {r : ControllerConfig × Bool}
      → load_sections y root default_config ≡ ok r
      → SectionsKnown root
  unfolding load_sections
  load_sections-SectionsKnown root h =
      let (_, e_radio, h_radio) =
        >>=-eq-ok (section y root "radio" (load_radio y) default_config.radio) _ h in
      let (_, e_shm, h_shm) =
        >>=-eq-ok (section y root "shm" (load_shm y) default_config.shm) _ h_radio in
      let (_, e_jbpf, h_jbpf) =
        >>=-eq-ok (section y root "jbpf" (load_jbpf y) (default_config.jbpf, false)) _ h_shm in
      let (_, e_e3, h_e3) =
        >>=-eq-ok (section y root "e3" (load_e3 y) default_config.e3) _ h_jbpf in
      let (_, e_threads, h_threads) =
        >>=-eq-ok (section y root "threads" (load_threads y) default_config.threads) _ h_e3 in
      let (_, e_logging, h_logging) =
        >>=-eq-ok (section y root "logging" (load_logging y) default_config.logging) _ h_threads in
      record {
        in_radio = load_radio-known root _ e_radio;
        in_shm = load_shm-known root _ e_shm;
        in_jbpf = load_jbpf-known root _ e_jbpf;
        in_e3 = load_e3-known root _ e_e3;
        in_threads = load_threads-known root _ e_threads;
        in_logging = load_logging-known root _ e_logging;
      }

  -- Whatever `load_config` returns has 1 to 8 ports, 1 to 275 PRBs, 12 or 14 symbols and a spacing of
  -- 15, 30, 60 or 120 kHz; a region that holds the 64 bytes of its header and, in each of two buffers,
  -- one row of four bytes for each port, symbol and subcarrier; a positive scale; and a target slot
  -- that is negative or one of the frame's at this spacing.
  pub load_config-Accepted :
      (path : String) {c : ControllerConfig} → load_config y path ≡ ok c → Accepted c
  unfolding load_config
  load_config-Accepted path h =
      let (root, _, h₁) = >>=-eq-ok (load_root y (load_file path)) _ h in
      let (_, _, h₂) = >>=-eq-ok (refuse_if (not (is_map root)) not_a_mapping) _ h₁ in
      let (_, _, h₃) = >>=-eq-ok (check_keys y root "<root>" root_keys) _ h₂ in
      let (r, _, h₄) = >>=-eq-ok (catch (load_sections y root default_config)) _ h₃ in
      check_config-Accepted (derive_socket y r.0 r.1) h₄

  catch-eq-ok : {T : Type 0} (m : Checked T) {v : T} → catch m ≡ ok v → m ≡ ok v
  unfolding catch
  catch-eq-ok m h = ground arith

  -- A configuration is returned only for a file that loads as a mapping in which every key is
  -- known, at the top and in each of the six sections that is there and a mapping: an unknown key
  -- is never ignored.
  pub load_config-keys :
      (path : String) {c : ControllerConfig}
      → load_config y path ≡ ok c
      → (root : Node) × (load_file path ≡ some root)
        × (is_map root ≡ true)
        × KnownKeys root_keys (keys root)
        × SectionsKnown root
  unfolding load_config load_root
  load_config-keys path h =
      let (root, e₀, h₁) = >>=-eq-ok (load_root y (load_file path)) _ h in
      let (_, e₁, h₂) = >>=-eq-ok (refuse_if (not (is_map root)) not_a_mapping) _ h₁ in
      let (_, e₂, h₃) = >>=-eq-ok (check_keys y root "<root>" root_keys) _ h₂ in
      let (r, e₃, _) = >>=-eq-ok (catch (load_sections y root default_config)) _ h₃ in
      let m : is_map root ≡ true = refused_not _ e₁ in
      (
        root,
        load_root-eq (load_file path) e₀,
        m,
        check_keys-KnownKeys root "<root>" root_keys e₂ m,
        load_sections-SectionsKnown root (catch-eq-ok _ e₃),
      )
    where
      refused_not : (b : Bool) → refuse_if (not b) not_a_mapping ≡ ok tt → b ≡ true
      refused_not b e = ground arith

      load_root-eq : (o : Option Node) {r : Node} → load_root y o ≡ ok r → o ≡ some r
      load_root-eq o e = ground arith
