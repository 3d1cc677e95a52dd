-- ===== src/Pipeline/Iq/Buffers.antt =====
-- Who releases a buffer of the IQ pipeline, in which order the consumers see the sections, and what
-- `stop` leaves.
use e3controller.Pipeline.Iq.{Machine}
use e3controller.Common.{ℕ, ◌+◌, ◌≤◌, ◌≡◌, refl, sym, ap, ◌∙◌, false, List, ◌++◌, map, count, arith}
use e3controller.Codelet.Ecpri.{IqSampleData}
use e3controller.Pipeline.Spsc.{used}
use e3controller.Pipeline.Spsc.Fifo.{window, IsCapacity-64}
use e3controller.Pipeline.Worker.{absent}
use e3controller.Pipeline.Ledger.{buf_of, entry_left, unreleased, pending, calls_of}
use e3controller.Pipeline.Plane.{IsPlane-at}
use e3controller.Pipeline.Iq.{
  IqPipeline, queue_capacity, Config, fresh, stop_finish, dispatch_sample, Event, run,
}
use e3controller.Pipeline.Iq.Invariant.{queued, fresh-Inv}
use e3controller.Pipeline.Iq.Run.{run-Inv, finish-Inv, finish-used}

nothing_waits :
    (p : IqPipeline)
    → used p.queue ≡ 0
    → (b : ℕ) → count b p.released + count b (map buf_of (queued p)) ≡ count b p.released
nothing_waits p none b =
    ap
      (λ n.
        count b p.released
        + count b (map buf_of (window queue_capacity p.queue.slots p.queue.tail n)))
      none
    ∙ omega arith

module _ (mem : ℕ → IqSampleData) (machine : Machine) (c : Config) (cs : List ℕ) where
  -- After any interleaving of the poll thread, the worker and start and stop calls, each buffer, those
  -- that the filters skip included, was released exactly as often as it was delivered, less the times
  -- that it waits unreleased in the queue of at most 64 entries; and the entries accepted are, in
  -- their order, those that left the queue and then those that the consumers have not seen, where the
  -- consumers were called for those that left by a fan-out.
  pub sections_settle :
      (es : List Event) (b : ℕ)
      → let p = run mem machine (fresh c cs) es in
        (count b p.received
          ≡ count b p.released + count b (map buf_of (unreleased p.worker (queued p))))
        × (used p.queue ≤ queue_capacity)
        × (p.accepted ≡ map entry_left p.left ++ pending p.worker (queued p))
        × (p.calls ≡ calls_of (dispatch_sample mem machine p.consumers) p.left)
  sections_settle es b =
      let v = run-Inv mem machine es (fresh c cs) (fresh-Inv mem machine c cs) in
      (v.plane.balanced.conserve b, v.plane.ring.used_le, v.plane.balanced.order, v.called)

  -- Once the worker has ended, `stop` leaves an empty queue, no codelet loaded, and every buffer
  -- delivered so far released exactly as often as it was delivered.
  pub stop-settles :
      (es : List Event) (b : ℕ)
      → IqPipeline.worker (run mem machine (fresh c cs) es) ≡ absent
      → let p = stop_finish (run mem machine (fresh c cs) es) in
        (used p.queue ≡ 0) × (p.codelets_loaded ≡ false) × (count b p.released ≡ count b p.received)
  unfolding stop_finish
  stop-settles es b w =
      let p = run mem machine (fresh c cs) es in
      let v = run-Inv mem machine es (fresh c cs) (fresh-Inv mem machine c cs) in
      let none = finish-used mem machine p v in
      let v' = finish-Inv mem machine p w v in
      let at = IsPlane-at IsCapacity-64 w v'.plane in
      (none, refl, sym (at.balanced.conserve b ∙ nothing_waits (stop_finish p) none b))
