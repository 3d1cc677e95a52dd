-- ===== src/System/Shutdown.antt =====
-- The end of src/e3_controller.cpp's main: the polling has ended, the slot pipeline stops and then the
-- IQ pipeline, each with its worker's last steps.
use e3controller.Pipeline.Iq.{Machine}
use e3controller.Common.{
  ℕ, zero, suc, ◌≤◌, ◌≡◌, ◌≢◌, refl, ap, ◌∙◌, Bool, true, false, Option, none, if_cases, ◌==◌, List,
  [], ◌∷◌, ◌++◌, map,
}
use e3controller.Common.Bags.{bag}
use e3controller.Codelet.Ecpri.{IqSampleData}
use e3controller.Dispatcher.{StreamEntry}
use e3controller.Pipeline.Spsc.{used}
use e3controller.Pipeline.Worker.{absent}
use e3controller.Pipeline.Halting
use e3controller.Pipeline.Iq
use e3controller.Pipeline.Iq.Completion as IqCompletion
use e3controller.Pipeline.Slot.{SlotDesc}
use e3controller.Pipeline.Slot
use e3controller.Pipeline.Slot.Completion as SlotCompletion
use e3controller.System.{
  idle, System, iq_handler, slot_handler, fresh_system, Act, stop_requests, stop_finishes,
  worker_steps, iq_event, slot_event, Event, iq_acts, slot_acts, step, run,
}
use e3controller.System.Serving.{serves, Serving}
use e3controller.System.Steps.{run-Inv}
use e3controller.System.Release.{releases, quiet, reached}

abbrev worker_acts : ℕ → List Act
worker_acts zero = []
worker_acts (suc n) = worker_steps ∷ worker_acts n

-- A whole stop of a pipeline, with `n` steps of its worker before the join.
abbrev pub stop_acts : ℕ → List Act
stop_acts n = stop_requests ∷ (worker_acts n ++ (stop_finishes ∷ []))

-- `slot_iq_pipeline.stop()` and then `iq_pipeline.stop()`.
abbrev pub shutdown_events : (n m : ℕ) → List Event
shutdown_events n m = map slot_acts (stop_acts n) ++ map iq_acts (stop_acts m)

module _ (iq_mem : ℕ → IqSampleData) (machine : Machine) (slot_mem : ℕ → SlotDesc)
    (iq_stream slot_stream : ℕ) where
  slot_works :
      (n : ℕ)
      → map slot_event (worker_acts n ++ (stop_finishes ∷ []))
        ≡ Halting.works (SlotCompletion.halting slot_mem) n ++ (Slot.stop_finishes ∷ [])
  slot_works zero = refl
  slot_works (suc n) = ap (λ es. Slot.worker_steps ∷ es) (slot_works n)

  iq_works :
      (n : ℕ)
      → map iq_event (worker_acts n ++ (stop_finishes ∷ []))
        ≡ Halting.works (IqCompletion.halting iq_mem machine) n ++ (Iq.stop_finishes ∷ [])
  iq_works zero = refl
  iq_works (suc n) = ap (λ es. Iq.worker_steps ∷ es) (iq_works n)

  -- The slot pipeline's own threads alone.
  record SlotAlone (s t : System) (es : List Slot.Event) : Type 0 where
    pub iq : t.iq ≡ s.iq
    pub slot : t.slot ≡ Slot.run slot_mem s.slot es
    pub poller : t.poller ≡ s.poller

  slot_alone :
      (acts : List Act) (s : System)
      → SlotAlone s
          (run iq_mem machine slot_mem iq_stream slot_stream s (map slot_acts acts))
          (map slot_event acts)
  unfolding run step Slot.run
  slot_alone [] s = record { iq = refl; slot = refl; poller = refl }
  slot_alone (a ∷ acts) s =
      let t =
        slot_alone acts (step iq_mem machine slot_mem iq_stream slot_stream s (slot_acts a)) in
      record { iq = t.iq; slot = t.slot; poller = t.poller }

  -- The IQ pipeline's own threads alone.
  record IqAlone (s t : System) (es : List Iq.Event) : Type 0 where
    pub iq : t.iq ≡ Iq.run iq_mem machine s.iq es
    pub slot : t.slot ≡ s.slot
    pub poller : t.poller ≡ s.poller

  iq_alone :
      (acts : List Act) (s : System)
      → IqAlone s
          (run iq_mem machine slot_mem iq_stream slot_stream s (map iq_acts acts))
          (map iq_event acts)
  unfolding run step Iq.run
  iq_alone [] s = record { iq = refl; slot = refl; poller = refl }
  iq_alone (a ∷ acts) s =
      let t = iq_alone acts (step iq_mem machine slot_mem iq_stream slot_stream s (iq_acts a)) in
      record { iq = t.iq; slot = t.slot; poller = t.poller }

  run_append :
      (s : System) (es fs : List Event)
      → run iq_mem machine slot_mem iq_stream slot_stream s (es ++ fs)
        ≡ run iq_mem machine slot_mem iq_stream slot_stream
            (run iq_mem machine slot_mem iq_stream slot_stream s es)
            fs
  unfolding run
  run_append s [] fs = refl
  run_append s (e ∷ es) fs =
      run_append (step iq_mem machine slot_mem iq_stream slot_stream s e) es fs

  nobody_served :
      (iq_runs slot_runs : Bool) (handlers : ℕ → Option StreamEntry)
      → iq_runs ≡ false
      → slot_runs ≡ false
      → Serving iq_stream slot_stream iq_runs slot_runs handlers
      → (stream : ℕ) → handlers stream ≡ none
  nobody_served iq_runs slot_runs handlers i l v stream =
      v stream
      ∙ if_cases (λ (o : Option StreamEntry). o ≡ none) (iq_stream == stream)
          (λ t. ap (λ r. serves r iq_handler) i)
          (λ f.
            if_cases (λ (o : Option StreamEntry). o ≡ none) (slot_stream == stream)
              (λ t. ap (λ r. serves r slot_handler) l) (λ f. refl))

  module _ (ic : Iq.Config) (ics : List ℕ) (sc : Slot.Config) (scs : List ℕ)
      (apart : iq_stream ≢ slot_stream) (es : List Event) where
    -- With the two pipelines on different streams, after any interleaving of batches, starts, stops
    -- and steps of the workers that leaves the poll thread in no handler and both pipelines running,
    -- the controller's shutdown comes to its end and loses nothing: with three steps of each worker or
    -- more, a stop of the slot pipeline and then of the IQ pipeline leave neither running, no worker,
    -- no stream registered, and exactly the buffers delivered released, each as often acts it was.
    pub shutdown-releases :
        (n m : ℕ)
        → let s =
            run iq_mem machine slot_mem iq_stream slot_stream (fresh_system ic ics sc scs) es in
          s.poller ≡ idle
          → s.slot.is_running ≡ true
          → s.iq.is_running ≡ true
          → 3 ≤ n
          → 3 ≤ m
          → let q = run iq_mem machine slot_mem iq_stream slot_stream s (shutdown_events n m) in
            (q.slot.is_running ≡ false)
            × (q.slot.worker ≡ absent)
            × (q.iq.is_running ≡ false)
            × (q.iq.worker ≡ absent)
            × ((stream : ℕ) → q.dispatcher.handlers stream ≡ none)
            × (bag q.delivered ≡ bag (releases q))
    shutdown-releases n m at_idle slot_on iq_on n_enough m_enough =
        let s = run iq_mem machine slot_mem iq_stream slot_stream (fresh_system ic ics sc scs) es in
        let v = reached iq_mem machine slot_mem iq_stream slot_stream ic ics sc scs apart es in
        let t = run iq_mem machine slot_mem iq_stream slot_stream s (map slot_acts (stop_acts n)) in
        let q = run iq_mem machine slot_mem iq_stream slot_stream s (shutdown_events n m) in
        let first = slot_alone (stop_acts n) s in
        let second = iq_alone (stop_acts m) t in
        let whole = run_append s (map slot_acts (stop_acts n)) (map iq_acts (stop_acts m)) in
        let v' =
          run-Inv iq_mem machine slot_mem iq_stream slot_stream (shutdown_events n m) s apart v in
        let (slot_stopped, slot_none) =
          SlotCompletion.halted slot_mem n s.slot v.slot slot_on n_enough in
        let (iq_stopped, iq_none) = IqCompletion.halted iq_mem machine m s.iq v.iq iq_on m_enough in
        let slot_end : q.slot
            ≡ Slot.run slot_mem s.slot (Halting.stop (SlotCompletion.halting slot_mem) n) =
          ap (λ (r : System). r.slot) whole
          ∙ second.slot
          ∙ first.slot
          ∙ ap (λ es. Slot.run slot_mem s.slot (Slot.stop_requests ∷ es)) (slot_works n) in
        let iq_end : q.iq
            ≡ Iq.run iq_mem machine s.iq (Halting.stop (IqCompletion.halting iq_mem machine) m) =
          ap (λ (r : System). r.iq) whole
          ∙ second.iq
          ∙ ap (λ p. Iq.run iq_mem machine p (map iq_event (stop_acts m))) first.iq
          ∙ ap (λ es. Iq.run iq_mem machine s.iq (Iq.stop_requests ∷ es)) (iq_works m) in
        let slot_off = ap (λ (p : Slot.SlotIqPipeline). p.is_running) slot_end ∙ slot_stopped.off in
        let iq_off = ap (λ (p : Iq.IqPipeline). p.is_running) iq_end ∙ iq_stopped.off in
        (
          slot_off,
          ap (λ (p : Slot.SlotIqPipeline). p.worker) slot_end ∙ slot_stopped.ended,
          iq_off,
          ap (λ (p : Iq.IqPipeline). p.worker) iq_end ∙ iq_stopped.ended,
          nobody_served q.iq.is_running q.slot.is_running q.dispatcher.handlers iq_off slot_off
              v'.serving,
          quiet iq_mem machine slot_mem iq_stream slot_stream q v'
              (ap (λ (r : System). r.poller) whole ∙ second.poller ∙ first.poller ∙ at_idle)
              (ap (λ (p : Iq.IqPipeline). used p.queue) iq_end ∙ iq_none)
              (ap (λ (p : Slot.SlotIqPipeline). used p.queue) slot_end ∙ slot_none),
        )
