-- ===== src/Pipeline/Slot/Shutdown.antt =====
-- Who releases a buffer, in which order the consumers see the slots, and what `stop` leaves.
use e3controller.Common.{ℕ, ◌+◌, ◌≤◌, ◌≡◌, refl, sym, ap, ◌∙◌, false, List, ◌++◌, map, count, arith}
use e3controller.Pipeline.Spsc.{used}
use e3controller.Pipeline.Spsc.Fifo.{window, IsCapacity-32}
use e3controller.Pipeline.Slot.{
  SlotDesc, SlotIqPipeline, absent, queue_capacity, Config, fresh, stop_finish, Event, run,
}
use e3controller.Pipeline.Ledger.{buf_of, entry_left, unreleased, pending}
use e3controller.Pipeline.Plane.{IsPlane-at}
use e3controller.Pipeline.Slot.Ledger.{calls_of}
use e3controller.Pipeline.Slot.Invariant.{queued, fresh-Inv}
use e3controller.Pipeline.Slot.Run.{run-Inv, finish-Inv, finish-used}

nothing_waits :
    (p : SlotIqPipeline)
    → used p.queue ≡ 0
    → (b : ℕ) → count b p.released + count b (map buf_of (queued p)) ≡ count b p.released
nothing_waits p none b =
    ap
      (λ n.
        count b p.released
        + count b (map buf_of (window queue_capacity p.queue.slots p.queue.tail n)))
      none
    ∙ omega arith

module _ (mem : ℕ → SlotDesc) (c : Config) (cs : List ℕ) where
  -- After any interleaving of the poll thread, the worker and start and stop calls, each buffer was
  -- released exactly as often as the dispatcher delivered it, less the times that it still waits in
  -- the queue without having been released; and at most 32 entries wait.
  pub released_once :
      (es : List Event) (b : ℕ)
      → let p = run mem (fresh c cs) es in
        (count b p.received
          ≡ count b p.released + count b (map buf_of (unreleased p.worker (queued p))))
        × (used p.queue ≤ queue_capacity)
  released_once es b =
      let v = run-Inv mem es (fresh c cs) (fresh-Inv mem c cs) in
      (v.plane.balanced.conserve b, v.plane.ring.used_le)

  -- After any interleaving, the entries that were accepted are, in their order, those that left the
  -- queue and then those that the consumers have not seen; and the calls of the consumers are, entry by
  -- entry of those that left by a fan-out, one call of each consumer in the order of registration, with
  -- the descriptor of the entry's buffer, no IQ, and the entry's times and number.
  pub fan_out_in_order :
      (es : List Event)
      → let p = run mem (fresh c cs) es in
        (p.accepted ≡ map entry_left p.left ++ pending p.worker (queued p))
        × (p.calls ≡ calls_of mem p.consumers p.left)
  fan_out_in_order es =
      let v = run-Inv mem es (fresh c cs) (fresh-Inv mem c cs) in (v.plane.balanced.order, v.called)

  -- Once the worker has ended, `stop` leaves an empty queue, no codelet loaded, and every buffer
  -- that was delivered so far released exactly as often as it was delivered.
  pub stop_finish-releases :
      (es : List Event) (b : ℕ)
      → SlotIqPipeline.worker (run mem (fresh c cs) es) ≡ absent
      → let p = stop_finish (run mem (fresh c cs) es) in
        (used p.queue ≡ 0) × (p.codelets_loaded ≡ false) × (count b p.released ≡ count b p.received)
  unfolding stop_finish
  stop_finish-releases es b w =
      let p = run mem (fresh c cs) es in
      let v = run-Inv mem es (fresh c cs) (fresh-Inv mem c cs) in
      let none = finish-used mem p v in
      let v' = finish-Inv mem p w v in
      let bal = IsPlane-at IsCapacity-32 w v'.plane in
      (none, refl, sym (bal.balanced.conserve b ∙ nothing_waits (stop_finish p) none b))
