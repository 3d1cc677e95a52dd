-- ===== src/System/IqParts.antt =====
-- What the events of the IQ pipeline do to the arrivals and to the flags
-- that the dispatcher depends on.
use e3controller.Pipeline.Iq.{Machine}
use e3controller.Common.{ℕ, ◌≡◌, refl, sym, ◌∙◌, Bool, true, false, not, ◌&&◌, if_cases}
use e3controller.Codelet.Ecpri.{IqSampleData}
use e3controller.Pipeline.Spsc.{is_empty, is_full}
use e3controller.Pipeline.Worker.{Worker, is_absent}
use e3controller.Pipeline.Iq
use e3controller.Pipeline.Iq.{IqPipeline}
use e3controller.System.{Act, starts, stop_requests, stop_finishes, worker_steps, iq_event}
use e3controller.System.Parts.{iq_flags, Acted, Settled, same, Took, took, Entered, entered, enters}

module _ (mem : ℕ → IqSampleData) (machine : Machine) where
  abbrev IqActed : IqPipeline → IqPipeline → Type 0
  IqActed p q = Acted (iq_flags p) (iq_flags q)

  iq_worker-Acted :
      (w : Worker) (p : IqPipeline)
      → Settled (iq_flags p)
      → IqActed p (Iq.worker_turn mem machine w p)
  unfolding Iq.worker_turn
  iq_worker-Acted Worker.absent p r = same r
  iq_worker-Acted Worker.polling p r =
      if_cases (IqActed p) p.is_running
        (λ on. if_cases (IqActed p) (is_empty p.queue) (λ e. same r) (λ e. same r)) (λ off. same r)
  iq_worker-Acted Worker.fanned_out p r = same r
  iq_worker-Acted Worker.released_buf p r = same r

  iq_start-Acted :
      (p : IqPipeline) (load_ok : Bool) → Settled (iq_flags p) → IqActed p (Iq.start p load_ok).0
  unfolding Iq.start
  iq_start-Acted p load_ok r =
      if_cases (λ (q : IqPipeline × Iq.ErrorCode). IqActed p q.0) p.is_running (λ on. same r)
        (λ off.
          if_cases (λ (q : IqPipeline × Iq.ErrorCode). IqActed p q.0)
            (p.config.auto_load && not load_ok) (λ f. same r)
            (λ f. record { received = refl; in_handler = refl; registered = refl }))

  -- What the pipeline's own threads do.
  pub iq_acted :
      (p : IqPipeline) (a : Act)
      → Settled (iq_flags p)
      → IqActed p (Iq.step mem machine p (iq_event a))
  unfolding Iq.step Iq.worker_loop Iq.stop_request Iq.stop_finish
  iq_acted p (starts load_ok) r =
      if_cases (IqActed p) p.joining (λ j. same r) (λ j. iq_start-Acted p load_ok r)
  iq_acted p stop_requests r =
      if_cases (IqActed p) p.joining (λ j. same r)
        (λ j.
          if_cases (IqActed p) p.is_running
            (λ on. record { received = refl; in_handler = refl; registered = refl })
            (λ off. same r))
  iq_acted p stop_finishes r =
      if_cases (IqActed p) (p.joining && is_absent p.worker) (λ j. same r) (λ j. same r)
  iq_acted p worker_steps r = iq_worker-Acted p.worker p r

  abbrev IqTook : IqPipeline → ℕ → IqPipeline → Type 0
  IqTook p b q = Took (iq_flags p) (iq_flags q) b

  -- A buffer that the handler takes.
  pub iq_takes :
      (p : IqPipeline) (now b : ℕ)
      → p.in_handler ≡ true
      → IqTook p b (Iq.step mem machine p (Iq.handles now b))
  unfolding Iq.step Iq.process_buffer
  iq_takes p now b h =
      if_cases (IqTook p b) p.in_handler
        (λ on.
          if_cases (IqTook p b) (Iq.filtered mem machine p b) (λ f. took b)
            (λ k.
              if_cases (IqTook p b) (is_full Iq.queue_capacity p.queue) (λ f. took b)
                (λ r. took b)))
        (λ off. let z = sym h ∙ off in cc)

  abbrev IqEntered : IqPipeline → IqPipeline → Type 0
  IqEntered p q = Entered (iq_flags p) (iq_flags (record q { in_handler = true }))

  -- The dispatcher's call of the handler.
  pub iq_enters :
      (p : IqPipeline) (send_ok : Bool)
      → p.registered ≡ true
      → p.in_handler ≡ false
      → Entered (iq_flags p) (iq_flags (Iq.step mem machine p (Iq.handler_enters send_ok)))
  unfolding Iq.step Iq.send_prb_config
  iq_enters p send_ok r h =
      if_cases (λ (q : IqPipeline). Entered (iq_flags p) (iq_flags q))
        (p.registered && not p.in_handler)
        (λ on.
          if_cases (IqEntered p) (not p.prb_config_sent && send_ok) (λ s. entered) (λ s. entered))
        (λ off. let z = sym (enters r h) ∙ off in cc)
