-- ===== src/System/Release.antt =====
-- Who releases the buffers that jbpf delivers, and which handler a batch can reach, over any
-- interleaving of the poll thread, the workers and the subscription threads.
use mathlib.Core.List.{append-nil}
use mathlib.Core.Path.{subst}
use e3controller.Pipeline.Iq.{Machine}
use e3controller.Common.{ℕ, ◌≡◌, ◌≢◌, refl, ap, ◌∙◌, List, [], ◌++◌, map, count-append, arith}
use e3controller.Common.Bags.{bag, bag_ext}
use e3controller.Codelet.Ecpri.{IqSampleData}
use e3controller.Pipeline.Spsc.{used}
use e3controller.Pipeline.Ledger.{buf_of, unreleased}
use e3controller.Pipeline.Plane.{nothing_queued}
use e3controller.Pipeline.Iq
use e3controller.Pipeline.Iq.Invariant as IqInvariant
use e3controller.Pipeline.Slot.{SlotDesc}
use e3controller.Pipeline.Slot
use e3controller.Pipeline.Slot.Invariant as SlotInvariant
use e3controller.System.{idle, System, fresh_system, Event, run}
use e3controller.System.Serving.{At, Serving}
use e3controller.System.Invariant.{Inv, fresh-Inv}
use e3controller.System.Steps.{run-Inv}

-- The buffers released, by the dispatcher and by each pipeline.
abbrev pub releases : System → List ℕ
releases s = s.dispatcher.released ++ (s.iq.released ++ s.slot.released)

-- The buffers that are held: the rest of the batch in a handler, and those that wait unreleased in
-- the queues.
abbrev pub held : System → List ℕ
held s =
    s.waiting
    ++ (map buf_of (unreleased s.iq.worker (IqInvariant.queued s.iq))
        ++ map buf_of (unreleased s.slot.worker (SlotInvariant.queued s.slot)))

none_held :
    (s : System) → s.waiting ≡ [] → used s.iq.queue ≡ 0 → used s.slot.queue ≡ 0 → held s ≡ []
none_held s w i l =
    rw
      (
        w,
        nothing_queued s.iq.worker Iq.queue_capacity s.iq.queue i,
        nothing_queued s.slot.worker Slot.queue_capacity s.slot.queue l,
      )
      refl

module _ (iq_mem : ℕ → IqSampleData) (machine : Machine) (slot_mem : ℕ → SlotDesc)
    (iq_stream slot_stream : ℕ) where
  bags :
      (s : System)
      → Inv iq_mem machine slot_mem iq_stream slot_stream s
      → bag s.delivered ≡ bag (releases s ++ held s)
  bags s v =
      let iq_held = map buf_of (unreleased s.iq.worker (IqInvariant.queued s.iq)) in
      let slot_held = map buf_of (unreleased s.slot.worker (SlotInvariant.queued s.slot)) in
      bag_ext λ b. omega (
        arith,
        v.conserve.total b,
        v.iq.plane.balanced.conserve b,
        v.slot.plane.balanced.conserve b,
        count-append b (releases s) (held s),
        count-append b s.dispatcher.released (s.iq.released ++ s.slot.released),
        count-append b s.iq.released s.slot.released,
        count-append b s.waiting (iq_held ++ slot_held),
        count-append b iq_held slot_held,
      )

  pub quiet :
      (s : System)
      → Inv iq_mem machine slot_mem iq_stream slot_stream s
      → s.poller ≡ idle
      → used s.iq.queue ≡ 0
      → used s.slot.queue ≡ 0
      → bag s.delivered ≡ bag (releases s)
  quiet s v p i l =
      let (a, b, w) = subst (λ u. At u s.iq.in_handler s.slot.in_handler s.waiting) p v.at_poller in
      bags s v ∙ ap bag (ap (λ h. releases s ++ h) (none_held s w i l) ∙ append-nil (releases s))

  module _ (ic : Iq.Config) (ics : List ℕ) (sc : Slot.Config) (scs : List ℕ)
      (apart : iq_stream ≢ slot_stream) (es : List Event) where
    pub reached :
        Inv iq_mem machine slot_mem iq_stream slot_stream
          (run iq_mem machine slot_mem iq_stream slot_stream (fresh_system ic ics sc scs) es)
    reached =
        run-Inv iq_mem machine slot_mem iq_stream slot_stream es (fresh_system ic ics sc scs) apart
          (fresh-Inv iq_mem machine slot_mem iq_stream slot_stream ic ics sc scs)

    -- With the two pipelines on different streams, after any interleaving of batches that jbpf
    -- delivers, starts, stops and steps of the workers: the bag of the buffers delivered is the bag of
    -- those released, by the dispatcher and the two pipelines together, and of those held, in the
    -- batch of the handler that runs or unreleased in a queue. So no buffer is lost, and none is
    -- released more often than it was delivered.
    pub delivered-released_or_held :
        let s = run iq_mem machine slot_mem iq_stream slot_stream (fresh_system ic ics sc scs) es in
        bag s.delivered ≡ bag (releases s ++ held s)
    delivered-released_or_held =
        bags (run iq_mem machine slot_mem iq_stream slot_stream (fresh_system ic ics sc scs) es)
          reached

    -- With the two pipelines on different streams, after any such interleaving, the dispatcher's map
    -- holds the stream of a pipeline exactly while that pipeline runs, with its own handler and the
    -- release left to it, and no other stream; and the poll thread is in the handler that the
    -- pipelines take it to be in, at most one, with nothing of a batch left when it is in none.
    pub serves_running :
        let s = run iq_mem machine slot_mem iq_stream slot_stream (fresh_system ic ics sc scs) es in
        Serving iq_stream slot_stream s.iq.is_running s.slot.is_running s.dispatcher.handlers
        × At s.poller s.iq.in_handler s.slot.in_handler s.waiting
    serves_running = (reached.serving, reached.at_poller)
