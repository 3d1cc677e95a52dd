-- ===== src/System/SlotParts.antt =====
-- What the events of the slot pipeline do to the arrivals and to the flags
-- that the dispatcher depends on.
use e3controller.Common.{ℕ, ◌≡◌, refl, sym, ◌∙◌, Bool, true, false, not, ◌&&◌, ◌||◌, if_cases}
use e3controller.Config.Types.{is_controller}
use e3controller.Pipeline.Spsc.{is_empty, is_full}
use e3controller.Pipeline.Worker.{Worker, is_absent}
use e3controller.Pipeline.Slot
use e3controller.Pipeline.Slot.{SlotDesc, SlotIqPipeline}
use e3controller.System.{Act, starts, stop_requests, stop_finishes, worker_steps, slot_event}
use e3controller.System.Parts.{
  slot_flags, Acted, Settled, same, Took, took, Entered, entered, enters,
}

module _ (mem : ℕ → SlotDesc) where
  abbrev SlotActed : SlotIqPipeline → SlotIqPipeline → Type 0
  SlotActed p q = Acted (slot_flags p) (slot_flags q)

  slot_worker-Acted :
      (w : Worker) (p : SlotIqPipeline)
      → Settled (slot_flags p)
      → SlotActed p (Slot.worker_turn mem w p)
  unfolding Slot.worker_turn
  slot_worker-Acted Worker.absent p r = same r
  slot_worker-Acted Worker.polling p r =
      if_cases (SlotActed p) p.is_running
        (λ on. if_cases (SlotActed p) (is_empty p.queue) (λ e. same r) (λ e. same r))
        (λ off. same r)
  slot_worker-Acted Worker.fanned_out p r = same r
  slot_worker-Acted Worker.released_buf p r = same r

  slot_start-Acted :
      (p : SlotIqPipeline) (load_ok : Bool)
      → Settled (slot_flags p)
      → SlotActed p (Slot.start p load_ok).0
  unfolding Slot.start
  slot_start-Acted p load_ok r =
      if_cases (λ (q : SlotIqPipeline × Slot.ErrorCode). SlotActed p q.0) p.is_running
        (λ on. same r)
        (λ off.
          if_cases (λ (q : SlotIqPipeline × Slot.ErrorCode). SlotActed p q.0)
            (p.config.auto_load && not load_ok) (λ f. same r)
            (λ f. record { received = refl; in_handler = refl; registered = refl }))

  -- What the pipeline's own threads do.
  pub slot_acted :
      (p : SlotIqPipeline) (a : Act)
      → Settled (slot_flags p)
      → SlotActed p (Slot.step mem p (slot_event a))
  unfolding Slot.step Slot.worker_loop Slot.stop_request Slot.stop_finish
  slot_acted p (starts load_ok) r =
      if_cases (SlotActed p) p.joining (λ j. same r) (λ j. slot_start-Acted p load_ok r)
  slot_acted p stop_requests r =
      if_cases (SlotActed p) p.joining (λ j. same r)
        (λ j.
          if_cases (SlotActed p) p.is_running
            (λ on. record { received = refl; in_handler = refl; registered = refl })
            (λ off. same r))
  slot_acted p stop_finishes r =
      if_cases (SlotActed p) (p.joining && is_absent p.worker) (λ j. same r) (λ j. same r)
  slot_acted p worker_steps r = slot_worker-Acted p.worker p r

  abbrev SlotTook : SlotIqPipeline → ℕ → SlotIqPipeline → Type 0
  SlotTook p b q = Took (slot_flags p) (slot_flags q) b

  -- A buffer that the handler takes.
  pub slot_takes :
      (p : SlotIqPipeline) (now b : ℕ)
      → p.in_handler ≡ true
      → SlotTook p b (Slot.step mem p (Slot.handles now b))
  unfolding Slot.step Slot.process_buffer
  slot_takes p now b h =
      if_cases (SlotTook p b) p.in_handler
        (λ on.
          if_cases (SlotTook p b) (is_full Slot.queue_capacity p.queue) (λ f. took b) (λ r. took b))
        (λ off. let z = sym h ∙ off in cc)

  abbrev SlotEntered : SlotIqPipeline → SlotIqPipeline → Type 0
  SlotEntered p q = Entered (slot_flags p) (slot_flags (record q { in_handler = true }))

  slot_send :
      (p : SlotIqPipeline) (cfg_ok sel_ok : Bool)
      → SlotEntered p (Slot.maybe_send_shm_cfg p cfg_ok sel_ok)
  unfolding Slot.maybe_send_shm_cfg
  slot_send p cfg_ok sel_ok =
      if_cases (SlotEntered p) (p.shm_cfg_sent || is_controller p.config.writer) (λ s. entered)
        (λ s.
          if_cases (SlotEntered p) cfg_ok
            (λ c. if_cases (SlotEntered p) sel_ok (λ l. entered) (λ l. entered)) (λ c. entered))

  -- The dispatcher's call of the handler.
  pub slot_enters :
      (p : SlotIqPipeline) (cfg_ok sel_ok : Bool)
      → p.registered ≡ true
      → p.in_handler ≡ false
      → Entered (slot_flags p) (slot_flags (Slot.step mem p (Slot.handler_enters cfg_ok sel_ok)))
  unfolding Slot.step
  slot_enters p cfg_ok sel_ok r h =
      if_cases (λ (q : SlotIqPipeline). Entered (slot_flags p) (slot_flags q))
        (p.registered && not p.in_handler) (λ on. slot_send p cfg_ok sel_ok)
        (λ off. let z = sym (enters r h) ∙ off in cc)
