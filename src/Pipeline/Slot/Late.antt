-- ===== src/Pipeline/Slot/Late.antt =====
-- A handler that is under way when the slot pipeline stops.
use e3controller.Common.{
  if_cases, ℕ, zero, suc, ◌^◌, ◌≤◌, ◌<◌, leb, ◌≡◌, refl, sym, ap, ◌∙◌, ◌&&◌, true, false, List, [],
  ◌∷◌, ◌++◌, arith,
}
use e3controller.Pipeline.Spsc.{used, is_full, is_empty, push}
use e3controller.Pipeline.Worker.{Worker, absent, is_absent}
use e3controller.Pipeline.Halting.{stop, works}
use e3controller.Pipeline.Slot.{
  SlotDesc, SlotIqPipeline, queue_capacity, Config, fresh, stop_request, stop_finish,
  process_buffer, worker_turn, worker_loop, Event, stop_requests, stop_finishes, worker_steps,
  handles, step, run,
}
use e3controller.Pipeline.Slot.Invariant.{fresh-Inv}
use e3controller.Pipeline.Slot.Run.{run-Inv}
use e3controller.Pipeline.Slot.Completion.{halting, halted}

accepted_when_empty :
    (mem : ℕ → SlotDesc) (p : SlotIqPipeline) (now b : ℕ)
    → p.queue.head < 2 ^ 64
    → p.queue.tail < 2 ^ 64
    → used p.queue ≡ 0
    → let q = process_buffer mem p now b in
      (q.released ≡ p.released)
      × (q.received ≡ p.received ++ (b ∷ []))
      × (used q.queue ≡ 1)
      × (q.is_running ≡ p.is_running)
      × (q.worker ≡ p.worker)
unfolding process_buffer is_full push
accepted_when_empty mem p now b h t none =
    let room : leb queue_capacity (used p.queue) ≡ false = ground arith in
    rw (room) (refl, refl, omega (arith, none, h, t), refl, refl)

module _ (mem : ℕ → SlotDesc) where
  -- The steps of a stop leave the poll thread where it is.
  abbrev Stays : SlotIqPipeline → SlotIqPipeline → Type 0
  Stays p q = q.in_handler ≡ p.in_handler

  turn-Stays : (w : Worker) (p : SlotIqPipeline) → Stays p (worker_turn mem w p)
  unfolding worker_turn
  turn-Stays Worker.absent p = refl
  turn-Stays Worker.polling p =
      if_cases (Stays p) p.is_running
        (λ on. if_cases (Stays p) (is_empty p.queue) (λ e. refl) (λ e. refl)) (λ off. refl)
  turn-Stays Worker.fanned_out p = refl
  turn-Stays Worker.released_buf p = refl

  finish-Stays : (p : SlotIqPipeline) → Stays p (step mem p stop_finishes)
  unfolding step stop_finish
  finish-Stays p = if_cases (Stays p) (p.joining && is_absent p.worker) (λ t. refl) (λ f. refl)

  works-Stays :
      (n : ℕ) (p : SlotIqPipeline)
      → Stays p (run mem p (works (halting mem) n ++ (stop_finishes ∷ [])))
  unfolding run
  works-Stays zero p = finish-Stays p
  works-Stays (suc n) p =
      let t : Stays p (step mem p worker_steps) =
        unfold step in unfold worker_loop in turn-Stays p.worker p in
      works-Stays n (step mem p worker_steps) ∙ t

  stop-Stays : (n : ℕ) (p : SlotIqPipeline) → Stays p (run mem p (stop (halting mem) n))
  unfolding run step stop_request
  stop-Stays n p =
      let t : Stays p (step mem p stop_requests) =
        if_cases (Stays p) p.joining (λ j. refl)
          (λ j. if_cases (Stays p) p.is_running (λ on. refl) (λ off. refl)) in
      works-Stays n (step mem p stop_requests) ∙ t

  handles_inside :
      (p : SlotIqPipeline) (now b : ℕ)
      → p.in_handler ≡ true
      → step mem p (handles now b) ≡ process_buffer mem p now b
  unfolding step
  handles_inside p now b h =
      if_cases (λ q. q ≡ process_buffer mem p now b) p.in_handler (λ t. refl)
        (λ f. let z = sym h ∙ f in cc)

module _ (mem : ℕ → SlotDesc) (c : Config) (cs : List ℕ) (es : List Event) where
  -- A stop does not wait for the handler. Take any interleaving that leaves the pipeline running and the
  -- poll thread inside the handler: when the stop has come to its end, three steps of the worker or more
  -- between its request and its join, the poll thread is still inside the handler; and the buffer that
  -- it handles next is not released, and waits in the queue of a pipeline that is not running and has no
  -- worker.
  pub late_buffer-waits :
      (n now b : ℕ)
      → let p = run mem (fresh c cs) es in
        p.is_running ≡ true
        → p.in_handler ≡ true
        → 3 ≤ n
        → let stopped = run mem p (stop (halting mem) n) in
          let q = step mem stopped (handles now b) in
          (stopped.in_handler ≡ true)
          × (q.released ≡ stopped.released)
          × (q.received ≡ stopped.received ++ (b ∷ []))
          × (used q.queue ≡ 1)
          × (q.is_running ≡ false)
          × (q.worker ≡ absent)
  late_buffer-waits n now b on inside enough =
      let p = run mem (fresh c cs) es in
      let v = run-Inv mem es (fresh c cs) (fresh-Inv mem c cs) in
      let stopped = run mem p (stop (halting mem) n) in
      let v' = run-Inv mem (stop (halting mem) n) p v in
      let (s, none) = halted mem n p v on enough in
      let still = stop-Stays mem n p ∙ inside in
      let e = handles_inside mem stopped now b still in
      let (r, x, u, o, w) =
        accepted_when_empty mem stopped now b v'.plane.ring.head_lt v'.plane.ring.tail_lt none in
      (
        still,
        ap (λ (q : SlotIqPipeline). q.released) e ∙ r,
        ap (λ (q : SlotIqPipeline). q.received) e ∙ x,
        ap (λ (q : SlotIqPipeline). used q.queue) e ∙ u,
        ap (λ (q : SlotIqPipeline). q.is_running) e ∙ o ∙ s.off,
        ap (λ (q : SlotIqPipeline). q.worker) e ∙ w ∙ s.ended,
      )
