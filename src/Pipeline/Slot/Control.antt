-- ===== src/Pipeline/Slot/Control.antt =====
-- When the codelet is told where the rows go: `maybe_send_shm_cfg` over the pipeline's life.
use e3controller.Common.{
  ℕ, ◌≡◌, refl, sym, ap, ◌∙◌, Bool, true, false, not, ◌&&◌, ◌||◌, List, [], ◌∷◌, ◌++◌, if_cases,
  ||-false, arith,
}
use e3controller.Config.Types.{is_controller}
use e3controller.Pipeline.Spsc.{is_empty, is_full}
use e3controller.Pipeline.Slot.{
  SlotDesc, SlotIqPipeline, Worker, queue_capacity, Config, ErrorCode, fresh, start, stop_request,
  stop_finish, maybe_send_shm_cfg, shm_cfg, slot_sel, Message, shm_in, sel_in, process_buffer,
  worker_turn, worker_loop, Event, step, run, is_absent, starts, stop_requests, stop_finishes,
  worker_steps, handler_returns, handler_enters, handles,
}

-- The two messages, in their order.
abbrev pub both_messages : Config → List Message
both_messages c = shm_in (shm_cfg c) ∷ sel_in (slot_sel c) ∷ []

-- The flag is up only when the last two messages sent are the configuration and the selector; in
-- controller mode nothing is ever sent.
record Configured (p : SlotIqPipeline) : Type 0 where
  pub both : p.shm_cfg_sent ≡ true → (pre : List Message) × (p.sent ≡ pre ++ both_messages p.config)
  pub silent : is_controller p.config.writer ≡ true → p.sent ≡ []

-- A step that leaves the messages alone, and leaves the flag alone or lowers it.
quiet :
    (p q : SlotIqPipeline)
    → q.config ≡ p.config
    → q.sent ≡ p.sent
    → (q.shm_cfg_sent ≡ true → p.shm_cfg_sent ≡ true)
    → Configured p
    → Configured q
quiet p q c s f v = record {
  both =
      λ t. let (pre, h) = v.both (f t) in (pre, s ∙ h ∙ ap (λ d. pre ++ both_messages d) (sym c));
  silent = λ m. s ∙ v.silent (ap (λ d. is_controller (Config.writer d)) (sym c) ∙ m);
}

send-Configured :
    (p : SlotIqPipeline) (cfg_ok sel_ok : Bool)
    → Configured p
    → Configured (maybe_send_shm_cfg p cfg_ok sel_ok)
unfolding maybe_send_shm_cfg
send-Configured p cfg_ok sel_ok v =
    if_cases Configured (p.shm_cfg_sent || is_controller p.config.writer) (λ s. v)
      (λ s.
        let (unsent, gnb) = ||-false p.shm_cfg_sent (is_controller p.config.writer) s in
        if_cases Configured cfg_ok
          (λ c.
            if_cases Configured sel_ok
              (λ l. record { both = λ t. (p.sent, refl); silent = λ m. cc })
              (λ l. record { both = λ t. cc; silent = λ m. cc }))
          (λ c. v))

module _ (mem : ℕ → SlotDesc) where
  turn-Configured :
      (w : Worker) (p : SlotIqPipeline) → Configured p → Configured (worker_turn mem w p)
  unfolding worker_turn
  turn-Configured Worker.absent p v = v
  turn-Configured Worker.polling p v =
      if_cases Configured p.is_running
        (λ on.
          if_cases Configured (is_empty p.queue) (λ e. v) (λ e. quiet p _ refl refl (λ t. t) v))
        (λ off. quiet p _ refl refl (λ t. t) v)
  turn-Configured Worker.fanned_out p v = quiet p _ refl refl (λ t. t) v
  turn-Configured Worker.released_buf p v = quiet p _ refl refl (λ t. t) v

  start-Configured :
      (p : SlotIqPipeline) (load_ok : Bool) → Configured p → Configured (start p load_ok).0
  unfolding start
  start-Configured p load_ok v =
      if_cases (λ (r : SlotIqPipeline × ErrorCode). Configured r.0) p.is_running (λ on. v)
        (λ off.
          if_cases (λ (r : SlotIqPipeline × ErrorCode). Configured r.0)
            (p.config.auto_load && not load_ok) (λ f. v) (λ f. quiet p _ refl refl (λ t. cc) v))

  step-Configured : (p : SlotIqPipeline) (e : Event) → Configured p → Configured (step mem p e)
  unfolding step worker_loop stop_request stop_finish process_buffer
  step-Configured p (starts load_ok) v =
      if_cases Configured p.joining (λ j. v) (λ j. start-Configured p load_ok v)
  step-Configured p stop_requests v =
      if_cases Configured p.joining (λ j. v)
        (λ j. if_cases Configured p.is_running (λ r. quiet p _ refl refl (λ t. t) v) (λ r. v))
  step-Configured p stop_finishes v =
      if_cases Configured (p.joining && is_absent p.worker) (λ h. quiet p _ refl refl (λ t. t) v)
        (λ h. v)
  step-Configured p worker_steps v = turn-Configured p.worker p v
  step-Configured p (handler_enters cfg_ok sel_ok) v =
      if_cases Configured (p.registered && not p.in_handler)
        (λ h.
          quiet (maybe_send_shm_cfg p cfg_ok sel_ok) _ refl refl (λ t. t)
            (send-Configured p cfg_ok sel_ok v))
        (λ h. v)
  step-Configured p (handles now b) v =
      if_cases Configured p.in_handler
        (λ h.
          if_cases Configured (is_full queue_capacity p.queue) (λ f. quiet p _ refl refl (λ t. t) v)
            (λ f. quiet p _ refl refl (λ t. t) v))
        (λ h. v)
  step-Configured p handler_returns v = quiet p _ refl refl (λ t. t) v

  run-Configured : (es : List Event) (p : SlotIqPipeline) → Configured p → Configured (run mem p es)
  unfolding run
  run-Configured [] p v = v
  run-Configured (e ∷ es) p v = run-Configured es (step mem p e) (step-Configured p e v)

  -- After any interleaving: where the pipeline counts the codelet as configured, the last two
  -- messages sent are the region's configuration and the selector, in that order; and in controller
  -- mode no message was ever sent.
  pub sent_in_order :
      (c : Config) (cs : List ℕ) (es : List Event)
      → let p = run mem (fresh c cs) es in
        (p.shm_cfg_sent ≡ true → (pre : List Message) × (p.sent ≡ pre ++ both_messages p.config))
        × (is_controller p.config.writer ≡ true → p.sent ≡ [])
  sent_in_order c cs es =
      let v = run-Configured es (fresh c cs) (record { both = λ t. cc; silent = λ m. refl }) in
      (v.both, v.silent)

  -- Every start configures the codelet that it loads: from a pipeline in gnb mode that is stopped,
  -- whatever it sent before, a start whose load succeeds and then the first batch, if both sends
  -- succeed, append the two messages and raise the flag.
  pub restart-configures :
      (p : SlotIqPipeline)
      → p.is_running ≡ false
      → p.joining ≡ false
      → p.in_handler ≡ false
      → is_controller p.config.writer ≡ false
      → let q = run mem p (starts true ∷ handler_enters true true ∷ []) in
        (q.sent ≡ p.sent ++ both_messages p.config) × (q.shm_cfg_sent ≡ true)
  unfolding run step start maybe_send_shm_cfg
  restart-configures p r j h g = ground arith
