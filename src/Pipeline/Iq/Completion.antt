-- ===== src/Pipeline/Iq/Completion.antt =====
-- That a stop of the IQ pipeline comes to its end: the worker ends after the request, so that the
-- join returns, and the rest of the stop releases what waits.
use mathlib.Core.Path.{subst}
use e3controller.Pipeline.Iq.{Machine}
use e3controller.Common.{
  if_cases, ℕ, ◌-◌, ◌≤◌, ◌≡◌, refl, sym, ap, ◌∙◌, true, false, ◌&&◌, List, [], ◌∷◌,
}
use e3controller.Codelet.Ecpri.{IqSampleData}
use e3controller.Pipeline.Spsc.{used}
use e3controller.Pipeline.Worker.{Worker, absent, is_absent, Lifecycle-free}
use e3controller.Pipeline.Halting.{steps_left, Halting, stop, works, stop-halts}
use e3controller.Pipeline.Iq.{
  stop_requests, stop_finishes, IqPipeline, stop_request, stop_finish, worker_turn, worker_loop,
  Event, worker_steps, step, run,
}
use e3controller.Pipeline.Iq.Invariant.{Inv}
use e3controller.Pipeline.Iq.Run.{run-Inv, finish-used}

module _ (mem : ℕ → IqSampleData) (machine : Machine) where
  pub asks :
      (p : IqPipeline)
      → p.is_running ≡ true
      → p.joining ≡ false
      → let q = step mem machine p stop_requests in
        (q.is_running ≡ false) × (q.joining ≡ true) × (q.worker ≡ p.worker)
  unfolding step stop_request
  asks p on free =
      let P : IqPipeline → Type 0 =
        λ q. (q.is_running ≡ false) × (q.joining ≡ true) × (q.worker ≡ p.worker) in
      if_cases P p.joining (λ j. let z = sym free ∙ j in cc)
        (λ j. if_cases P p.is_running (λ r. (refl, refl, refl)) (λ off. let z = sym on ∙ off in cc))

  -- A turn of a worker that finds nothing running.
  record Turned (w : Worker) (p q : IqPipeline) : Type 0 where
    pub off : q.is_running ≡ false
    pub waits : q.joining ≡ p.joining
    pub fewer : steps_left q.worker ≡ steps_left w - 1

  turn-Turned :
      (w : Worker) (p : IqPipeline)
      → p.worker ≡ w
      → p.is_running ≡ false
      → Turned w p (worker_turn mem machine w p)
  unfolding worker_turn
  turn-Turned Worker.absent p e off = record { off = off; waits = refl; fewer = ap steps_left e }
  turn-Turned Worker.polling p e off =
      if_cases (Turned Worker.polling p) p.is_running (λ on. let z = sym off ∙ on in cc)
        (λ off. record { off = off; waits = refl; fewer = refl })
  turn-Turned Worker.fanned_out p e off = record { off = off; waits = refl; fewer = refl }
  turn-Turned Worker.released_buf p e off = record { off = off; waits = refl; fewer = refl }

  pub turns :
      (p : IqPipeline)
      → p.is_running ≡ false
      → let q = step mem machine p worker_steps in
        (q.is_running ≡ false)
        × (q.joining ≡ p.joining)
        × (steps_left q.worker ≡ steps_left p.worker - 1)
  unfolding step worker_loop
  turns p off = let t = turn-Turned p.worker p refl off in (t.off, t.waits, t.fewer)

  pub joins :
      (p : IqPipeline)
      → p.joining ≡ true
      → p.worker ≡ absent
      → step mem machine p stop_finishes ≡ stop_finish p
  unfolding step
  joins p waits ended =
      if_cases (λ q. q ≡ stop_finish p) (p.joining && is_absent p.worker) (λ t. refl)
        (λ f. let z = sym f ∙ ap (λ b. b && is_absent p.worker) waits ∙ ap is_absent ended in cc)

  pub run_none : (p : IqPipeline) → run mem machine p [] ≡ p
  unfolding run
  run_none p = refl

  pub run_one :
      (p : IqPipeline) (e : Event) (es : List Event)
      → run mem machine p (e ∷ es) ≡ run mem machine (step mem machine p e) es
  unfolding run
  run_one p e es = refl

  abbrev pub halting : Halting IqPipeline Event
  halting = record {
    is_running = λ p. p.is_running;
    joining = λ p. p.joining;
    worker = λ p. p.worker;
    step = step mem machine;
    run = run mem machine;
    stop_finish = stop_finish;
    stop_requests = stop_requests;
    stop_finishes = stop_finishes;
    worker_steps = worker_steps;
    run-none = run_none;
    run-one = run_one;
    asks = asks;
    turns = turns;
    joins = joins;
  }

pub record Stopped (p : IqPipeline) : Type 0 where
  pub off : p.is_running ≡ false
  pub ended : p.worker ≡ absent
  pub joined : p.joining ≡ false
  pub unloaded : p.codelets_loaded ≡ false

finish-Stopped :
    (p : IqPipeline) → p.is_running ≡ false → p.worker ≡ absent → Stopped (stop_finish p)
unfolding stop_finish
finish-Stopped p off ended = record { off = off; ended = ended; joined = refl; unloaded = refl }

module _ (mem : ℕ → IqSampleData) (machine : Machine) where
  -- A stop of a running pipeline leaves it stopped, and its queue empty.
  pub halted :
      (n : ℕ) (p : IqPipeline)
      → Inv mem machine p
      → p.is_running ≡ true
      → 3 ≤ n
      → let q = run mem machine p (stop (halting mem machine) n) in Stopped q × (used q.queue ≡ 0)
  halted n p v on enough =
      let (at, whole) =
        stop-halts (halting mem machine) n p on (Lifecycle-free v.lifecycle on) enough in
      let q = run mem machine p (stop_requests ∷ works (halting mem machine) n) in
      let v' = run-Inv mem machine (stop_requests ∷ works (halting mem machine) n) p v in
      subst (λ (r : IqPipeline). Stopped r × (used r.queue ≡ 0)) (sym whole)
        (finish-Stopped q at.off at.ended, finish-used mem machine q v')
