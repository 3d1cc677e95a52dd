-- ===== src/Pipeline/Slot/Counting.antt =====
-- How the slots are numbered and counted as they arrive.
use e3controller.Common.{
  ℕ, zero, suc, ◌+◌, ◌%◌, ◌^◌, ◌≡◌, refl, sym, ap, ◌∙◌, Bool, not, ◌&&◌, ◌||◌, List, [], ◌∷◌, ◌++◌,
  map, length, length-append, if_cases, arith,
}
use e3controller.Config.Types.{is_controller}
use e3controller.Pipeline.Spsc.{QueueEntry, is_empty, is_full}
use e3controller.Pipeline.Slot.{
  SlotDesc, SlotIqPipeline, Worker, queue_capacity, Config, ErrorCode, fresh, start, stop_request,
  stop_finish, maybe_send_shm_cfg, entry_of, process_buffer, worker_turn, worker_loop, Event, step,
  run, is_absent, starts, stop_requests, stop_finishes, worker_steps, handler_returns,
  handler_enters, handles,
}
use mathlib.Core.List.{map-append}
use mathlib.Core.Path.{ap₂}

abbrev pub id_of : QueueEntry → ℕ
id_of e = e.sample_id

-- The first `n` sample ids: 1, 2, and so on, in uint32_t.
abbrev pub first_ids : ℕ → List ℕ
first_ids zero = []
first_ids (suc n) = first_ids n ++ (suc n % 2 ^ 32 ∷ [])

record Counted (p : SlotIqPipeline) : Type 0 where
  pub total : p.total_samples_received ≡ length p.accepted % 2 ^ 32
  pub refused : (n : ℕ) × (length p.received ≡ length p.accepted + n) × (p.dropped ≡ n % 2 ^ 64)
  pub ids : map id_of p.accepted ≡ first_ids (length p.accepted)

module _ (mem : ℕ → SlotDesc) where
  -- A step that takes no buffer.
  still :
      (p q : SlotIqPipeline)
      → q.total_samples_received ≡ p.total_samples_received
      → q.accepted ≡ p.accepted
      → q.received ≡ p.received
      → q.dropped ≡ p.dropped
      → Counted p
      → Counted q
  still p q t a r d v = record {
    total = t ∙ v.total ∙ ap (λ l. length l % 2 ^ 32) (sym a);
    refused =
        let (n, l, m) = v.refused in (n, ap length r ∙ l ∙ ap (λ k. length k + n) (sym a), d ∙ m);
    ids = ap (λ k. map id_of k) a ∙ v.ids ∙ ap (λ k. first_ids (length k)) (sym a);
  }

  accept-ids :
      (p : SlotIqPipeline) (now b : ℕ)
      → Counted p
      → map id_of (p.accepted ++ (entry_of mem p now b ∷ []))
        ≡ first_ids (length (p.accepted ++ (entry_of mem p now b ∷ [])))
  accept-ids p now b v =
      let e = entry_of mem p now b in
      let len : length (p.accepted ++ (e ∷ [])) ≡ suc (length p.accepted) =
        omega (arith, length-append p.accepted (e ∷ [])) in
      let id : e.sample_id ≡ suc (length p.accepted) % 2 ^ 32 = omega (arith, v.total) in
      map-append id_of p.accepted (e ∷ [])
      ∙ ap₂ (λ l i. l ++ (i ∷ [])) v.ids id
      ∙ ap first_ids (sym len)

  buffer-Counted :
      (p : SlotIqPipeline) (now b : ℕ) → Counted p → Counted (process_buffer mem p now b)
  unfolding process_buffer
  buffer-Counted p now b v =
      let (n, l, m) = v.refused in
      if_cases Counted (is_full queue_capacity p.queue)
        (λ full. record {
          total = v.total;
          refused = (suc n, omega (arith, length-append p.received (b ∷ [])), omega arith);
          ids = v.ids;
        })
        (λ room. record {
          total = omega (arith, v.total, length-append p.accepted (entry_of mem p now b ∷ []));
          refused = (
            n,
            omega (
              arith,
              length-append p.received (b ∷ []),
              length-append p.accepted (entry_of mem p now b ∷ []),
            ),
            m,
          );
          ids = accept-ids p now b v;
        })

  turn-Counted : (w : Worker) (p : SlotIqPipeline) → Counted p → Counted (worker_turn mem w p)
  unfolding worker_turn
  turn-Counted Worker.absent p v = v
  turn-Counted Worker.polling p v =
      if_cases Counted p.is_running
        (λ on. if_cases Counted (is_empty p.queue) (λ e. v) (λ e. still p _ refl refl refl refl v))
        (λ off. still p _ refl refl refl refl v)
  turn-Counted Worker.fanned_out p v = still p _ refl refl refl refl v
  turn-Counted Worker.released_buf p v = still p _ refl refl refl refl v

  start-Counted : (p : SlotIqPipeline) (load_ok : Bool) → Counted p → Counted (start p load_ok).0
  unfolding start
  start-Counted p load_ok v =
      if_cases (λ (r : SlotIqPipeline × ErrorCode). Counted r.0) p.is_running (λ on. v)
        (λ off.
          if_cases (λ (r : SlotIqPipeline × ErrorCode). Counted r.0)
            (p.config.auto_load && not load_ok) (λ f. v) (λ f. still p _ refl refl refl refl v))

  send-Counted :
      (p : SlotIqPipeline) (cfg_ok sel_ok : Bool)
      → Counted p
      → Counted (maybe_send_shm_cfg p cfg_ok sel_ok)
  unfolding maybe_send_shm_cfg
  send-Counted p cfg_ok sel_ok v =
      if_cases Counted (p.shm_cfg_sent || is_controller p.config.writer) (λ s. v)
        (λ s.
          if_cases Counted cfg_ok
            (λ c.
              if_cases Counted sel_ok (λ l. still p _ refl refl refl refl v)
                (λ l. still p _ refl refl refl refl v))
            (λ c. v))

  step-Counted : (p : SlotIqPipeline) (e : Event) → Counted p → Counted (step mem p e)
  unfolding step worker_loop stop_request stop_finish
  step-Counted p (starts load_ok) v =
      if_cases Counted p.joining (λ j. v) (λ j. start-Counted p load_ok v)
  step-Counted p stop_requests v =
      if_cases Counted p.joining (λ j. v)
        (λ j. if_cases Counted p.is_running (λ r. still p _ refl refl refl refl v) (λ r. v))
  step-Counted p stop_finishes v =
      if_cases Counted (p.joining && is_absent p.worker) (λ h. still p _ refl refl refl refl v)
        (λ h. v)
  step-Counted p worker_steps v = turn-Counted p.worker p v
  step-Counted p (handler_enters cfg_ok sel_ok) v =
      if_cases Counted (p.registered && not p.in_handler)
        (λ h.
          still (maybe_send_shm_cfg p cfg_ok sel_ok) _ refl refl refl refl
            (send-Counted p cfg_ok sel_ok v))
        (λ h. v)
  step-Counted p (handles now b) v =
      if_cases Counted p.in_handler (λ h. buffer-Counted p now b v) (λ h. v)
  step-Counted p handler_returns v = still p _ refl refl refl refl v

  run-Counted : (es : List Event) (p : SlotIqPipeline) → Counted p → Counted (run mem p es)
  unfolding run
  run-Counted [] p v = v
  run-Counted (e ∷ es) p v = run-Counted es (step mem p e) (step-Counted p e v)

  -- After any interleaving: the accepted entries carry the sample ids 1, 2, 3 and so on in uint32_t,
  -- without a gap for a slot that was dropped or a restart; and every buffer delivered was accepted
  -- or is counted as dropped.
  pub numbered :
      (c : Config) (cs : List ℕ) (es : List Event)
      → let p = run mem (fresh c cs) es in
        (map id_of p.accepted ≡ first_ids (length p.accepted))
        × ((n : ℕ) × (length p.received ≡ length p.accepted + n) × (p.dropped ≡ n % 2 ^ 64))
  numbered c cs es =
      let start' : Counted (fresh c cs) = record {
        total = refl;
        refused = (0, refl, refl);
        ids = refl;
      } in
      let v = run-Counted es (fresh c cs) start' in (v.ids, v.refused)
