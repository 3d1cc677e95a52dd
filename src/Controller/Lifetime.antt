-- ===== src/Controller/Lifetime.antt =====
-- In which order `main` starts, polls and stops, and what it leaves behind where a start fails.
use Prim.Native.String.{String}
use mathlib.Core.List.{append_assoc}
use text.Mathlib.Text.{◌==◌ as str_eq}
use e3controller.Common.{
  if_cases, is_nonneg, ℕ, zero, suc, ◌+◌, ◌≡◌, refl, ap, ◌∙◌, ℤ, pos, Bool, true, false, not, ◌&&◌,
  List, [], ◌∷◌, ◌++◌, if◌then◌else◌, arith, All, All-append,
}
use e3controller.Config.Types.{ControllerConfig}
use e3controller.Controller.{
  Call, set_output_dir, install_signals, io_init, register_thread, io_stop, agent_init,
  register_spectrum, register_layer1, agent_start, agent_stop, set_affinity, poll, pause, usleep,
  stop_slot_pipeline, stop_iq_pipeline, Env, attempt, start_steps, pin, wait, poll_loop, shutdown,
  latrec, run,
}

-- The part of `main` that a call belongs to.
pub data Phase : Type 0 where
  starting polling stopping : Phase

abbrev pub phase_of : Call → Phase
phase_of io_stop = stopping
phase_of agent_stop = stopping
phase_of stop_slot_pipeline = stopping
phase_of stop_iq_pipeline = stopping
phase_of poll = polling
phase_of pause = polling
phase_of (usleep us) = polling
phase_of (set_output_dir d) = starting
phase_of install_signals = starting
phase_of (io_init r n s) = starting
phase_of register_thread = starting
phase_of agent_init = starting
phase_of register_spectrum = starting
phase_of register_layer1 = starting
phase_of agent_start = starting
phase_of (set_affinity core) = starting

abbrev pub Polls : Call → Type 0
Polls c = phase_of c ≡ polling

-- How often a list of calls polls.
abbrev pub is_poll : Call → ℕ
is_poll poll = 1
is_poll c = 0

abbrev pub polls_in : List Call → ℕ
polls_in [] = 0
polls_in (c ∷ cs) = is_poll c + polls_in cs

polls_in-append : (xs ys : List Call) → polls_in (xs ++ ys) ≡ polls_in xs + polls_in ys
polls_in-append [] ys = omega arith
polls_in-append (c ∷ cs) ys = omega (arith, polls_in-append cs ys)

-- Whether every call of the start succeeds, and whether the start gets as far as to register its
-- thread and fails there.
abbrev pub all_succeed : Env → Bool
all_succeed env =
    env.signals_ok && env.io_ok && env.thread_ok && env.agent_init_ok && env.spectrum_ok
    && env.layer1_ok && env.agent_start_ok

wait-Polls :
    (busy : Bool) (interval : ℤ)
    → All Polls (wait busy interval) × (polls_in (wait busy interval) ≡ 0)
unfolding wait
wait-Polls true (pos zero) = ((refl, tt), refl)
wait-Polls false (pos zero) = (tt, refl)
wait-Polls true (pos (suc n)) = ((refl, tt), refl)
wait-Polls false (pos (suc n)) = ((refl, tt), refl)
wait-Polls true (ℤ.negsuc n) = ((refl, tt), refl)
wait-Polls false (ℤ.negsuc n) = (tt, refl)

poll_loop-Polls :
    (rounds : ℕ) (busy : Bool) (interval : ℤ)
    → All Polls (poll_loop rounds busy interval)
      × (polls_in (poll_loop rounds busy interval) ≡ rounds)
unfolding poll_loop
poll_loop-Polls zero busy interval = (tt, refl)
poll_loop-Polls (suc n) busy interval =
    let (p, k) = poll_loop-Polls n busy interval in
    let (q, j) = wait-Polls busy interval in
    (
      (refl, All-append Polls (wait busy interval) (poll_loop n busy interval) q p),
      omega (arith, polls_in-append (wait busy interval) (poll_loop n busy interval), k, j),
    )

attempt-ok : (env : Env) (c : ControllerConfig) → (attempt (start_steps env c)).1 ≡ all_succeed env
unfolding attempt
attempt-ok env c = ground arith

abbrev start_calls : ControllerConfig → List Call
start_calls c =
    install_signals
    ∷ io_init c.jbpf.run_path c.jbpf.ipc_name c.jbpf.mem_size_bytes
    ∷ register_thread
    ∷ agent_init
    ∷ register_spectrum
    ∷ register_layer1
    ∷ agent_start
    ∷ []

attempt-calls :
    (env : Env) (c : ControllerConfig)
    → all_succeed env ≡ true
    → (attempt (start_steps env c)).0 ≡ start_calls c
unfolding attempt
attempt-calls env c h =
    let e1 : env.signals_ok ≡ true = ground arith in
    let e2 : env.io_ok ≡ true = ground arith in
    let e3 : env.thread_ok ≡ true = ground arith in
    let e4 : env.agent_init_ok ≡ true = ground arith in
    let e5 : env.spectrum_ok ≡ true = ground arith in
    let e6 : env.layer1_ok ≡ true = ground arith in
    let e7 : env.agent_start_ok ≡ true = ground arith in rw (e1, e2, e3, e4, e5, e6, e7) refl

-- How often the calls stop jbpf's IO.
abbrev pub is_io_stop : Call → ℕ
is_io_stop io_stop = 1
is_io_stop c = 0

abbrev pub io_stops_in : List Call → ℕ
io_stops_in [] = 0
io_stops_in (c ∷ cs) = is_io_stop c + io_stops_in cs

attempt-fails :
    (env : Env) (c : ControllerConfig)
    → all_succeed env ≡ false
    → let calls = (attempt (start_steps env c)).0 in
      (polls_in calls ≡ 0)
      × (io_stops_in calls ≡ (if env.signals_ok && env.io_ok && not env.thread_ok then 1 else 0))
unfolding attempt
attempt-fails env c h = (ground arith, ground arith)

latrec-counts :
    (dir : String) (cs : List Call)
    → (polls_in (latrec dir ++ cs) ≡ polls_in cs)
      × (io_stops_in (latrec dir ++ cs) ≡ io_stops_in cs)
latrec-counts dir cs =
    if_cases (λ l. (polls_in (l ++ cs) ≡ polls_in cs) × (io_stops_in (l ++ cs) ≡ io_stops_in cs))
      (str_eq dir "") (λ e. (refl, refl)) (λ e. (omega arith, omega arith))

pin-calls :
    (env : Env) (core : ℤ)
    → (pin env core).0 ≡ (if is_nonneg core then set_affinity core ∷ [] else [])
unfolding pin
pin-calls env core =
    if_cases
      (λ (r : List Call × Bool). r.0 ≡ (if is_nonneg core then set_affinity core ∷ [] else []))
      (is_nonneg core) (λ t. rw t refl) (λ f. rw f refl)

-- Where every call of the start succeeds, `main` returns 0. It makes, in this order and no other: the
-- call for the output directory if one is configured; the signals, jbpf's IO with the configured paths
-- and size, the registration of the thread, the agent's init, the two service models, the agent's
-- start; the pinning if a core is configured. Then it polls once in each round until a signal has come,
-- with nothing but waits between, and then stops the agent, the slot pipeline, the IQ pipeline and
-- jbpf's IO, in this order and last.
pub run-order :
    (env : Env) (c : ControllerConfig)
    → all_succeed env ≡ true
    → let dir = c.logging.latrec_dir in
      let core = c.threads.poll_core in
      (loop : List Call) × ((run env c).code ≡ 0)
      × ((run env c).calls
          ≡ (if str_eq dir "" then [] else set_output_dir dir ∷ [])
            ++ ((install_signals
                  ∷ io_init c.jbpf.run_path c.jbpf.ipc_name c.jbpf.mem_size_bytes
                  ∷ register_thread
                  ∷ agent_init
                  ∷ register_spectrum
                  ∷ register_layer1
                  ∷ agent_start
                  ∷ [])
                ++ ((if is_nonneg core then set_affinity core ∷ [] else [])
                    ++ (loop
                        ++ (agent_stop ∷ stop_slot_pipeline ∷ stop_iq_pipeline ∷ io_stop ∷ [])))))
      × All Polls loop
      × (polls_in loop ≡ env.rounds)
unfolding run
run-order env c h =
    let (pinned, busy) = pin env c.threads.poll_core in
    let dir = latrec c.logging.latrec_dir in
    let loop = poll_loop env.rounds busy c.threads.poll_interval_us in
    let (p, k) = poll_loop-Polls env.rounds busy c.threads.poll_interval_us in
    let ok' = attempt-ok env c ∙ h in
    (
      loop,
      rw ok' refl,
      rw ok' (
          append_assoc dir (attempt (start_steps env c)).0 (pinned ++ (loop ++ shutdown))
          ∙ ap (λ l. dir ++ (l ++ (pinned ++ (loop ++ shutdown)))) (attempt-calls env c h)
          ∙ ap (λ l. dir ++ (start_calls c ++ (l ++ (loop ++ shutdown))))
              (pin-calls env c.threads.poll_core)),
      p,
      k,
    )

-- Where a call of the start fails, `main` returns 1 and never polls. It stops jbpf's IO only where it
-- is the registration of the thread that fails: where the agent or a service model fails after it,
-- the IO that was initialised is left as it is.
pub run-fails :
    (env : Env) (c : ControllerConfig)
    → all_succeed env ≡ false
    → ((run env c).code ≡ 1)
      × (polls_in (run env c).calls ≡ 0)
      × (io_stops_in (run env c).calls
          ≡ (if env.signals_ok && env.io_ok && not env.thread_ok then 1 else 0))
unfolding run
run-fails env c h =
    let ok' = attempt-ok env c ∙ h in
    let started = (attempt (start_steps env c)).0 in
    let (p, i) = latrec-counts c.logging.latrec_dir started in
    let (p', i') = attempt-fails env c h in (rw ok' refl, rw ok' (p ∙ p'), rw ok' (i ∙ i'))
