-- ===== src/Config/Load.antt =====
-- `load_config` of src/e3_config.cpp. The out-parameter is the result: the code resets it first,
-- and its caller leaves when the call fails.
pub mod Laws
mod Tests
use Prim.Native.String.{String, ◌++◌}
use e3controller.Common.{
  ℕ, ◌-◌, ◌/◌, ℤ, pos, negsuc, Bool, true, false, not, ◌||◌, Option, none, some, List, [], ◌∷◌, ltb,
  leb, if◌then◌else◌, Result, ok, err, ◌>>=◌, ◌>>◌, refuse_if,
}
use e3controller.Config.Geometry.{
  RadioGeometry, GeometryError, validate, row_bytes, slots_per_frame,
}
use e3controller.Config.Types.{
  ShmConfig, JbpfConfig, E3Config, ThreadConfig, LoggingConfig, ControllerConfig, default_config,
  float_positive,
}
use e3controller.Config.Parse.{
  found, absent, throws, Yaml, ConfigError, cannot_load, not_a_mapping, exception, parse_error,
  bad_geometry, shm_too_small, bad_scale, bad_target_slot, Checked, check_key_list, parse_encoding,
  parse_link_layer, parse_transport, parse_writer,
}

-- The keys that each section allows.
abbrev pub radio_keys : List String
radio_keys = "nof_ports" ∷ "nof_prbs" ∷ "nof_symbols" ∷ "scs_khz" ∷ []

abbrev pub shm_keys : List String
shm_keys = "name" ∷ "size_bytes" ∷ "cbf16_scale" ∷ "writer" ∷ []

abbrev pub jbpf_keys : List String
jbpf_keys =
    "ipc_name" ∷ "run_path" ∷ "mem_size_bytes" ∷ "lcm_socket_path" ∷ "codelet_base_path" ∷ []

abbrev pub e3_keys : List String
e3_keys =
    "encoding" ∷ "link_layer" ∷ "transport" ∷ "setup_port" ∷ "publisher_port" ∷ "subscriber_port"
    ∷ []

abbrev pub threads_keys : List String
threads_keys = "poll_core" ∷ "worker_core" ∷ "publisher_core" ∷ "poll_interval_us" ∷ []

abbrev pub logging_keys : List String
logging_keys = "drops_log_path" ∷ "spectrum_stats_log_path" ∷ "latrec_dir" ∷ []

abbrev pub root_keys : List String
root_keys = "radio" ∷ "shm" ∷ "jbpf" ∷ "e3" ∷ "threads" ∷ "logging" ∷ "target_slot" ∷ []

-- `catch (const std::exception&)`
pub catch : {A : Type 0} → Checked A → Checked A
catch (ok a) = ok a
catch (err exception) = err parse_error
catch (err e) = err e

as_config_error : Result GeometryError (Unit {0}) → Checked (Unit {0})
as_config_error (ok u) = ok u
as_config_error (err e) = err (bad_geometry e)

-- `target_slot >= 0 && static_cast<uint32_t>(target_slot) >= slots_per_frame()`
abbrev pub outside_frame : ℤ → ℕ → Bool
outside_frame (pos n) slots = leb slots n
outside_frame (negsuc n) slots = false

-- The last four checks, once all keys are read.
pub check_config : ControllerConfig → Checked ControllerConfig
unfolding as_config_error
check_config c = do
  as_config_error (validate c.radio)
  refuse_if (leb c.shm.size_bytes 64 || ltb ((c.shm.size_bytes - 64) / 2) (row_bytes c.radio))
      shm_too_small
  refuse_if (not (float_positive c.shm.cbf16_scale)) bad_scale
  refuse_if (outside_frame c.target_slot (slots_per_frame c.radio)) bad_target_slot
  ok c

module _ (y : Yaml) where
  open y use {Node, load_file, is_map, keys, child, as_u16, as_size, as_float, as_int, as_string}

  pub check_keys : Node → String → List String → Checked (Unit {0})
  unfolding check_key_list
  check_keys node section allowed =
      if is_map node then check_key_list (keys node) section allowed else ok tt

  -- A value that is there, converted, or the one that `out` has.
  pub get : {T : Type 0} → (Node → Option T) → Node → String → T → Checked T
  get convert n key out = elim (child n key) [
    | found m ↦ elim (convert m) [ some v ↦ ok v | none ↦ err exception ]
    | absent ↦ ok out
    | throws ↦ err exception
  ]

  -- `if (n[key] && !parse(n[key].as<std::string>(), out, err)) return false;`
  get_parsed : {T : Type 0} → (String → Checked T) → Node → String → T → Checked T
  get_parsed parse n key out = elim (child n key) [
    | found m ↦ elim (as_string m) [ some s ↦ parse s | none ↦ err exception ]
    | absent ↦ ok out
    | throws ↦ err exception
  ]

  -- `if (const auto n = root[key]) { ... }`
  pub section : {T : Type 0} → Node → String → (Node → T → Checked T) → T → Checked T
  section root key load out = elim (child root key) [
    | found n ↦ load n out
    | absent ↦ ok out
    | throws ↦ err exception
  ]

  pub load_radio : Node → RadioGeometry → Checked RadioGeometry
  unfolding check_keys get
  load_radio n r = do
    check_keys n "radio" radio_keys
    ports ← get as_u16 n "nof_ports" r.nof_ports
    prbs ← get as_u16 n "nof_prbs" r.nof_prbs
    symbols ← get as_u16 n "nof_symbols" r.nof_symbols
    scs ← get as_u16 n "scs_khz" r.scs_khz
    ok (record { nof_ports = ports; nof_prbs = prbs; nof_symbols = symbols; scs_khz = scs })

  pub load_shm : Node → ShmConfig → Checked ShmConfig
  unfolding check_keys get get_parsed parse_writer
  load_shm n s = do
    check_keys n "shm" shm_keys
    name ← get as_string n "name" s.name
    size ← get as_size n "size_bytes" s.size_bytes
    scale ← get as_float n "cbf16_scale" s.cbf16_scale
    writer ← get_parsed parse_writer n "writer" s.writer
    ok (record { name = name; size_bytes = size; writer = writer; cbf16_scale = scale })

  -- With whether the LCM socket path was set.
  pub load_jbpf : Node → JbpfConfig × Bool → Checked (JbpfConfig × Bool)
  unfolding check_keys get
  load_jbpf n (j, explicit) = do
    check_keys n "jbpf" jbpf_keys
    ipc_name ← get as_string n "ipc_name" j.ipc_name
    run_path ← get as_string n "run_path" j.run_path
    mem_size ← get as_size n "mem_size_bytes" j.mem_size_bytes
    (socket, set) ←
        get (λ m. elim (as_string m) [ some s ↦ some (s, true) | none ↦ none ]) n "lcm_socket_path"
          (j.lcm_socket_path, explicit)
    base_path ← get as_string n "codelet_base_path" j.codelet_base_path
    ok (
      record {
        ipc_name = ipc_name;
        run_path = run_path;
        mem_size_bytes = mem_size;
        lcm_socket_path = socket;
        codelet_base_path = base_path;
      },
      set,
    )

  pub load_e3 : Node → E3Config → Checked E3Config
  unfolding check_keys get get_parsed parse_encoding parse_link_layer parse_transport
  load_e3 n e = do
    check_keys n "e3" e3_keys
    encoding ← get_parsed parse_encoding n "encoding" e.encoding
    link_layer ← get_parsed parse_link_layer n "link_layer" e.link_layer
    transport ← get_parsed parse_transport n "transport" e.transport
    setup ← get as_u16 n "setup_port" e.setup_port
    publisher ← get as_u16 n "publisher_port" e.publisher_port
    subscriber ← get as_u16 n "subscriber_port" e.subscriber_port
    ok (record {
      encoding = encoding;
      link_layer = link_layer;
      transport = transport;
      setup_port = setup;
      publisher_port = publisher;
      subscriber_port = subscriber;
    })

  pub load_threads : Node → ThreadConfig → Checked ThreadConfig
  unfolding check_keys get
  load_threads n t = do
    check_keys n "threads" threads_keys
    poll ← get as_int n "poll_core" t.poll_core
    worker ← get as_int n "worker_core" t.worker_core
    publisher ← get as_int n "publisher_core" t.publisher_core
    interval ← get as_int n "poll_interval_us" t.poll_interval_us
    ok (record {
      poll_core = poll;
      worker_core = worker;
      publisher_core = publisher;
      poll_interval_us = interval;
    })

  pub load_logging : Node → LoggingConfig → Checked LoggingConfig
  unfolding check_keys get
  load_logging n l = do
    check_keys n "logging" logging_keys
    drops ← get as_string n "drops_log_path" l.drops_log_path
    stats ← get as_string n "spectrum_stats_log_path" l.spectrum_stats_log_path
    latrec ← get as_string n "latrec_dir" l.latrec_dir
    ok (record { drops_log_path = drops; spectrum_stats_log_path = stats; latrec_dir = latrec })

  -- The body of the `try`.
  pub load_sections : Node → ControllerConfig → Checked (ControllerConfig × Bool)
  unfolding section load_radio load_shm load_jbpf load_e3 load_threads load_logging
  load_sections root d = do
    radio ← section root "radio" load_radio d.radio
    shm ← section root "shm" load_shm d.shm
    (jbpf, explicit) ← section root "jbpf" load_jbpf (d.jbpf, false)
    e3 ← section root "e3" load_e3 d.e3
    threads ← section root "threads" load_threads d.threads
    logging ← section root "logging" load_logging d.logging
    target_slot ← get as_int root "target_slot" d.target_slot
    ok (
      record {
        radio = radio;
        shm = shm;
        jbpf = jbpf;
        e3 = e3;
        threads = threads;
        logging = logging;
        target_slot = target_slot;
      },
      explicit,
    )

  -- `if (!lcm_explicit) lcm_socket_path = run_path + "/jbpf/jbpf_lcm_ipc";`
  pub derive_socket : ControllerConfig → Bool → ControllerConfig
  derive_socket c true = c
  derive_socket c false = record c {
    jbpf = record (c.jbpf) { lcm_socket_path = c.jbpf.run_path ++ "/jbpf/jbpf_lcm_ipc" };
  }

  pub load_root : Option Node → Checked Node
  load_root none = err cannot_load
  load_root (some root) = ok root

  pub load_config : String → Checked ControllerConfig
  load_config path = do
    root ← load_root (load_file path)
    refuse_if (not (is_map root)) not_a_mapping
    check_keys root "<root>" root_keys
    (c, explicit) ← catch (load_sections root default_config)
    check_config (derive_socket c explicit)
