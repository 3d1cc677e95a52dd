-- ===== src/Controller.antt =====
-- `main` of src/e3_controller.cpp: the command line, the wiring of the configuration into the agent
-- and the two pipelines, the start, the polling loop and the shutdown. What it calls is recorded in a
-- list of calls; what these answer is in `Env`. Output on the console is left out.
pub mod Lifetime
pub mod Wiring
mod Tests
use Prim.Native.String.{String}
use text.Mathlib.Text.{◌==◌ as str_eq}
use e3controller.Common.{
  ℕ, zero, suc, ◌%◌, ◌^◌, ℤ, pos, is_nonneg, Bool, true, false, not, ◌&&◌, ◌||◌, Option, none, some,
  List, [], ◌∷◌, ◌++◌, Result, err, ok, ltb, if◌then◌else◌,
}
use e3controller.Config.Types.{ControllerConfig, EncodingFormat, LinkLayer, TransportLayer}
use e3controller.Config.Parse.{Yaml}
use e3controller.Config.Load.{load_config}
use e3controller.Pipeline.Slot
use e3controller.Pipeline.Iq

-- What the arguments ask for: a usage text with an exit code, or a configuration file.
unfoldable pub parse_args : String → List String → Result ℕ String
parse_args path [] = if str_eq path "" then err 1 else ok path
parse_args path (a ∷ []) = if str_eq a "--help" || str_eq a "-h" then err 0 else err 1
parse_args path (a ∷ b ∷ args) =
    let rest = parse_args b args in
    if str_eq a "--config"
    then rest
    else (if str_eq a "--help" || str_eq a "-h" then err 0 else err 1)

-- libe3::E3Config, as far as it is set.
pub record AgentConfig : Type 0 where
  pub ran_identifier : String
  pub link_layer : LinkLayer
  pub transport_layer : TransportLayer
  pub encoding : EncodingFormat
  pub setup_port : ℕ
  pub publisher_port : ℕ
  pub subscriber_port : ℕ
  pub log_level : ℕ
  pub io_thread_affinity : Option ℤ

abbrev pub agent_config : ControllerConfig → AgentConfig
agent_config c = record {
  ran_identifier = "ocudu-janus";
  link_layer = c.e3.link_layer;
  transport_layer = c.e3.transport;
  encoding = c.e3.encoding;
  setup_port = c.e3.setup_port;
  publisher_port = c.e3.publisher_port;
  subscriber_port = c.e3.subscriber_port;
  log_level = 5;
  io_thread_affinity =
      if is_nonneg c.threads.publisher_core then some c.threads.publisher_core else none;
}

-- `pipeline_cfg`; its PRB count is a uint16_t.
abbrev pub iq_config : ControllerConfig → Iq.Config
iq_config c = record {
  auto_load = not (str_eq c.jbpf.codelet_base_path "");
  expected_num_prbu = c.radio.nof_prbs % 2 ^ 16;
}

-- `slot_pipeline_cfg`, its epoch the default; `bytes` gives the bytes of a string.
abbrev pub slot_config : (String → List ℕ) → ControllerConfig → Slot.Config
slot_config bytes c = record {
  auto_load = not (str_eq c.jbpf.codelet_base_path "");
  writer = c.shm.writer;
  shm_name = bytes c.shm.name;
  radio = c.radio;
  cbf16_scale = c.shm.cbf16_scale;
  shm_epoch = 1;
}

-- The calls of `main` that act on the outside.
pub data Call : Type 0 where
  set_output_dir : String → Call
  install_signals : Call
  io_init : (run_path ipc_name : String) (memory_size : ℕ) → Call
  register_thread io_stop : Call
  agent_init register_spectrum register_layer1 agent_start agent_stop : Call
  set_affinity : ℤ → Call
  poll pause : Call
  usleep : ℤ → Call
  stop_slot_pipeline stop_iq_pipeline : Call

-- Whether each call succeeds, and after how many rounds of the loop a signal has cleared `g_running`.
-- `agent_init_ok` is said of ALREADY_INITIALIZED too.
pub record Env : Type 0 where
  pub signals_ok : Bool
  pub io_ok : Bool
  pub thread_ok : Bool
  pub agent_init_ok : Bool
  pub spectrum_ok : Bool
  pub layer1_ok : Bool
  pub agent_start_ok : Bool
  pub affinity_ok : Bool
  pub rounds : ℕ

-- A step of the start: its call, whether it succeeds, and what is called before `main` returns if not.
pub record Step : Type 0 where
  pub call : Call
  pub succeeds : Bool
  pub on_failure : List Call

-- The steps in their order, up to the first that fails: the calls made, and whether all succeeded.
unfoldable pub attempt : List Step → List Call × Bool
attempt [] = ([], true)
attempt (s ∷ steps) =
    let rest = attempt steps in
    if s.succeeds then (s.call ∷ rest.0, rest.1) else (s.call ∷ s.on_failure, false)

abbrev pub start_steps : Env → ControllerConfig → List Step
start_steps env c =
    record { call = install_signals; succeeds = env.signals_ok; on_failure = [] }
    ∷ record {
      call = io_init c.jbpf.run_path c.jbpf.ipc_name c.jbpf.mem_size_bytes;
      succeeds = env.io_ok;
      on_failure = [];
    }
    ∷ record { call = register_thread; succeeds = env.thread_ok; on_failure = io_stop ∷ [] }
    ∷ record { call = agent_init; succeeds = env.agent_init_ok; on_failure = [] }
    ∷ record { call = register_spectrum; succeeds = env.spectrum_ok; on_failure = [] }
    ∷ record { call = register_layer1; succeeds = env.layer1_ok; on_failure = [] }
    ∷ record { call = agent_start; succeeds = env.agent_start_ok; on_failure = [] }
    ∷ []

-- The pinning of the polling thread, and whether it polls without sleeping.
unfoldable pub pin : Env → ℤ → List Call × Bool
pin env poll_core =
    if is_nonneg poll_core then (set_affinity poll_core ∷ [], env.affinity_ok) else ([], false)

unfoldable pub wait : Bool → ℤ → List Call
wait busy_poll (pos zero) = if busy_poll then pause ∷ [] else []
wait busy_poll (pos (suc n)) = if busy_poll then pause ∷ [] else usleep (pos (suc n)) ∷ []
wait busy_poll (ℤ.negsuc n) = if busy_poll then pause ∷ [] else []

unfoldable pub poll_loop : ℕ → Bool → ℤ → List Call
unfolding wait
poll_loop zero busy_poll interval = []
poll_loop (suc rounds) busy_poll interval =
    poll ∷ (wait busy_poll interval ++ poll_loop rounds busy_poll interval)

abbrev pub shutdown : List Call
shutdown = agent_stop ∷ stop_slot_pipeline ∷ stop_iq_pipeline ∷ io_stop ∷ []

pub record Exit : Type 0 where
  pub code : ℕ
  pub calls : List Call

abbrev pub latrec : String → List Call
latrec dir = if str_eq dir "" then [] else set_output_dir dir ∷ []

-- `main` from the accepted configuration on.
unfoldable pub run : Env → ControllerConfig → Exit
unfolding attempt pin poll_loop
run env c =
    let (started, all_ok) = attempt (start_steps env c) in
    let (pinned, busy_poll) = pin env c.threads.poll_core in
    if not all_ok
    then record { code = 1; calls = latrec c.logging.latrec_dir ++ started }
    else record {
      code = 0;
      calls =
          (latrec c.logging.latrec_dir ++ started)
          ++ (pinned ++ (poll_loop env.rounds busy_poll c.threads.poll_interval_us ++ shutdown));
    }

module _ (y : Yaml) where
  abbrev with_config : Env → Result ℕ String → Exit
  with_config env (err code) = record { code = code; calls = [] }
  with_config env (ok path) = elim (load_config y path) [
    | err e ↦ record { code = 1; calls = [] }
    | ok c ↦ run env c
  ]

  -- `main`, its arguments those behind the program's name.
  unfoldable pub main : Env → List String → Exit
  unfolding run parse_args
  main env args = with_config env (parse_args "" args)
