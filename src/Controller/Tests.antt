-- ===== src/Controller/Tests.antt =====
-- A run of `main` with three rounds of the loop, and one where the agent does not start.
use e3controller.Common.{
  ◌≡◌, refl, true, false, not, ◌&&◌, List, [], ◌∷◌, ◌++◌, err, if◌then◌else◌, All,
}
use e3controller.Config.Types.{default_config}
use e3controller.Controller.{
  Call, agent_stop, stop_slot_pipeline, stop_iq_pipeline, io_stop, Env, run, parse_args,
}
use text.Mathlib.Text.{◌==◌ as str_eq}
use e3controller.Common.{is_nonneg}
use e3controller.Controller.{
  set_output_dir, install_signals, io_init, register_thread, agent_init, register_spectrum,
  register_layer1, agent_start, set_affinity,
}
use e3controller.Controller.Lifetime.{Polls, polls_in, io_stops_in, run-order, run-fails}

abbrev up : Env
up = record {
  signals_ok = true;
  io_ok = true;
  thread_ok = true;
  agent_init_ok = true;
  spectrum_ok = true;
  layer1_ok = true;
  agent_start_ok = true;
  affinity_ok = true;
  rounds = 3;
}

abbrev no_agent : Env
no_agent = record up { agent_start_ok = false }

-- An option without its value is refused, and a request for help is not an error.
no_value : parse_args "" ("--config" ∷ []) ≡ err 1
unfolding parse_args
no_value = refl

asks_help : parse_args "" ("--config" ∷ "e3.yaml" ∷ "-h" ∷ []) ≡ err 0
unfolding parse_args
asks_help = refl

run-order_example :
    let dir = default_config.logging.latrec_dir in
    let core = default_config.threads.poll_core in
    (loop : List Call) × ((run up default_config).code ≡ 0)
    × ((run up default_config).calls
        ≡ (if str_eq dir "" then [] else set_output_dir dir ∷ [])
          ++ ((install_signals
                ∷ io_init default_config.jbpf.run_path default_config.jbpf.ipc_name
                    default_config.jbpf.mem_size_bytes
                ∷ register_thread
                ∷ agent_init
                ∷ register_spectrum
                ∷ register_layer1
                ∷ agent_start
                ∷ [])
              ++ ((if is_nonneg core then set_affinity core ∷ [] else [])
                  ++ (loop
                      ++ (agent_stop ∷ stop_slot_pipeline ∷ stop_iq_pipeline ∷ io_stop ∷ [])))))
    × All Polls loop
    × (polls_in loop ≡ 3)
run-order_example = run-order up default_config refl

run-fails_example :
    ((run no_agent default_config).code ≡ 1)
    × (polls_in (run no_agent default_config).calls ≡ 0)
    × (io_stops_in (run no_agent default_config).calls
        ≡ (if true && true && not true then 1 else 0))
run-fails_example = run-fails no_agent default_config refl
