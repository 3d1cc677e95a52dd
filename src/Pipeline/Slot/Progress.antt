-- ===== src/Pipeline/Slot/Progress.antt =====
-- That the worker of the slot pipeline catches up with its queue while the pipeline runs.
use mathlib.Core.Path.{subst}
use e3controller.Common.{
  if_cases, ℕ, zero, suc, ◌+◌, ◌*◌, ◌≤◌, ◌≡◌, ◌≢◌, ◌⊎◌, refl, sym, ap, ◌∙◌, true, false, inl, inr,
  Bool-cases, ==→eq, List, [], ◌∷◌, ◌++◌, map, count, arith,
}
use e3controller.Pipeline.Spsc.{QueueEntry, is_empty, pop, used}
use e3controller.Pipeline.Spsc.Fifo.{used_none, IsCapacity-32, empty-contents, used-pop}
use mathlib.Core.List.{append-nil, append_cancel_left, map-append}
use e3controller.Pipeline.Ledger.{buf_of, entry_left, pending}
use e3controller.Pipeline.Plane.{IsPlane-at, busy_queue}
use e3controller.Pipeline.Slot.{
  dispatched, SlotDesc, SlotIqPipeline, Worker, absent, polling, fanned_out, released_buf,
  queue_capacity, Config, fresh, worker_turn, worker_loop, Event, worker_steps, step, run,
}
use e3controller.Pipeline.Slot.Ledger.{calls_of}
use e3controller.Pipeline.Slot.Invariant.{Inv, fresh-Inv, queued}
use e3controller.Pipeline.Slot.WorkerRun.{works, works-Grew}
use e3controller.Pipeline.Slot.Run.{run-Inv, step-Inv}

-- The worker is at the head of its loop in a running pipeline, with nothing to do.
record CaughtUp (p : SlotIqPipeline) : Type 0 where
  pub run : p.is_running ≡ true
  pub at_head : p.worker ≡ polling
  pub none_left : is_empty p.queue ≡ true

module _ (mem : ℕ → SlotDesc) where
  -- One step, by where the worker stands.
  pub step_lem :
      (p : SlotIqPipeline) (w : Worker)
      → p.worker ≡ w
      → step mem p worker_steps ≡ worker_turn mem w p
  unfolding step worker_loop
  step_lem p w e = ap (λ v. worker_turn mem v p) e

  idle_turn :
      (p : SlotIqPipeline)
      → p.is_running ≡ true
      → is_empty p.queue ≡ true
      → worker_turn mem polling p ≡ p
  unfolding worker_turn
  idle_turn p r e =
      if_cases (λ q. q ≡ p) p.is_running
        (λ on. if_cases (λ q. q ≡ p) (is_empty p.queue) (λ t. refl) (λ f. let z = sym e ∙ f in cc))
        (λ off. let z = sym r ∙ off in cc)

  stays : (m : ℕ) (p : SlotIqPipeline) → CaughtUp p → CaughtUp (run mem p (works m))
  unfolding run
  stays zero p c = c
  stays (suc m) p c =
      subst (λ q. CaughtUp (run mem q (works m)))
        (sym (step_lem p polling c.at_head ∙ idle_turn p c.run c.none_left)) (stays m p c)

  -- A round of the loop takes one entry off the queue.
  record Turned (p q : SlotIqPipeline) : Type 0 where
    pub run : q.is_running ≡ p.is_running
    pub at_head : q.worker ≡ polling
    pub popped : q.queue ≡ pop p.queue

  round :
      (p : SlotIqPipeline)
      → p.is_running ≡ true
      → p.worker ≡ polling
      → is_empty p.queue ≡ false
      → Turned p (step mem (step mem (step mem p worker_steps) worker_steps) worker_steps)
  unfolding step worker_loop worker_turn
  round p r w e =
      let P : SlotIqPipeline → Type 0 =
        λ q. Turned p (step mem (step mem q worker_steps) worker_steps) in
      subst P (sym (step_lem p polling w)) (
        if_cases P p.is_running
          (λ on.
            if_cases P (is_empty p.queue) (λ t. let z = sym e ∙ t in cc)
              (λ f. record { run = refl; at_head = refl; popped = refl }))
          (λ off. let z = sym r ∙ off in cc))

  catches_up :
      (n m : ℕ) (p : SlotIqPipeline)
      → Inv mem p
      → p.is_running ≡ true
      → p.worker ≡ polling
      → used p.queue ≤ n
      → 3 * n ≤ m
      → CaughtUp (run mem p (works m))
  unfolding run
  catches_up zero m p v r w few enough = elim (Bool-cases (is_empty p.queue)) [
    | inl e ↦ stays m p (record { run = r; at_head = w; none_left = e })
    | inr e ↦
        absurd (omega (arith, few, used-pop p.queue v.plane.ring.head_lt v.plane.ring.tail_lt e))
  ]
  catches_up (suc n) zero p v r w few enough = absurd (omega (arith, enough))
  catches_up (suc n) (suc zero) p v r w few enough = absurd (omega (arith, enough))
  catches_up (suc n) (suc (suc zero)) p v r w few enough = absurd (omega (arith, enough))
  catches_up (suc n) (suc (suc (suc m))) p v r w few enough = elim (Bool-cases (is_empty p.queue)) [
    | inl e ↦ stays (suc (suc (suc m))) p (record { run = r; at_head = w; none_left = e })
    | inr e ↦
        let t = round p r w e in
        let one = step mem p worker_steps in
        let two = step mem one worker_steps in
        let v' =
          step-Inv mem two worker_steps
            (step-Inv mem one worker_steps (step-Inv mem p worker_steps v)) in
        let less = used-pop p.queue v.plane.ring.head_lt v.plane.ring.tail_lt e in
        catches_up n m (step mem two worker_steps) v' (t.run ∙ r) t.at_head
          (omega (arith, few, less, ap used t.popped)) (omega (arith, enough))
  ]

  -- In the middle of a round the queue is not empty.
  shrinks :
      (p : SlotIqPipeline)
      → Inv mem p
      → (p.worker ≡ fanned_out) ⊎ (p.worker ≡ released_buf)
      → used p.queue ≡ suc (used (pop p.queue))
  shrinks p v (inl e) =
      let (x, ys, s) = (IsPlane-at IsCapacity-32 e v.plane).balanced.busy in
      used-pop p.queue v.plane.ring.head_lt v.plane.ring.tail_lt
        (busy_queue IsCapacity-32 x ys v.plane.ring s)
  shrinks p v (inr e) =
      let (x, ys, s) = (IsPlane-at IsCapacity-32 e v.plane).balanced.busy in
      used-pop p.queue v.plane.ring.head_lt v.plane.ring.tail_lt
        (busy_queue IsCapacity-32 x ys v.plane.ring s)

  released_turn :
      (p : SlotIqPipeline) → p.worker ≡ released_buf → Turned p (step mem p worker_steps)
  unfolding worker_turn
  released_turn p e =
      subst (Turned p) (sym (step_lem p released_buf e))
        (record { run = refl; at_head = refl; popped = refl })

  fanned_turns :
      (p : SlotIqPipeline)
      → p.worker ≡ fanned_out
      → Turned p (step mem (step mem p worker_steps) worker_steps)
  unfolding step worker_loop worker_turn
  fanned_turns p e =
      subst (λ q. Turned p (step mem q worker_steps)) (sym (step_lem p fanned_out e))
        (record { run = refl; at_head = refl; popped = refl })

  -- From anywhere in the loop.
  from_anywhere :
      (w : Worker) (m : ℕ) (p : SlotIqPipeline)
      → p.worker ≡ w
      → w ≢ absent
      → Inv mem p
      → p.is_running ≡ true
      → 3 * used p.queue + 2 ≤ m
      → CaughtUp (run mem p (works m))
  unfolding run
  from_anywhere Worker.absent m p e ne v r h = absurd (ne refl)
  from_anywhere Worker.polling m p e ne v r h =
      catches_up (used p.queue) m p v r e (omega arith) (omega (arith, h))
  from_anywhere Worker.released_buf zero p e ne v r h = absurd (omega (arith, h))
  from_anywhere Worker.released_buf (suc m) p e ne v r h =
      let s = released_turn p e in
      catches_up (used p.queue) m (step mem p worker_steps) (step-Inv mem p worker_steps v)
        (s.run ∙ r) s.at_head (omega (arith, ap used s.popped, shrinks p v (inr e)))
        (omega (arith, h))
  from_anywhere Worker.fanned_out zero p e ne v r h = absurd (omega (arith, h))
  from_anywhere Worker.fanned_out (suc zero) p e ne v r h = absurd (omega (arith, h))
  from_anywhere Worker.fanned_out (suc (suc m)) p e ne v r h =
      let s = fanned_turns p e in
      let one = step mem p worker_steps in
      catches_up (used p.queue) m (step mem one worker_steps)
        (step-Inv mem one worker_steps (step-Inv mem p worker_steps v)) (s.run ∙ r) s.at_head
        (omega (arith, ap used s.popped, shrinks p v (inl e))) (omega (arith, h))

entry_left-dispatched : (es : List QueueEntry) → map entry_left (map dispatched es) ≡ es
entry_left-dispatched [] = refl
entry_left-dispatched (e ∷ es) = ap (λ r. e ∷ r) (entry_left-dispatched es)

module _ (mem : ℕ → SlotDesc) (c : Config) (cs : List ℕ) (es : List Event) where
  -- In a running slot pipeline, whatever came before, three steps of the worker for each entry that
  -- waits and two more empty the queue while the pipeline runs on: the entries that the consumers had
  -- not seen leave it by a fan-out, all of them and in their order, the calls of the consumers are
  -- those of the entries that ever left by one, and every buffer that arrived was released as often.
  pub worker_catches_up :
      (n : ℕ)
      → let p = run mem (fresh c cs) es in
        p.is_running ≡ true
        → 3 * used p.queue + 2 ≤ n
        → let q = run mem p (works n) in
          (q.is_running ≡ true)
          × (used q.queue ≡ 0)
          × (q.left ≡ p.left ++ map dispatched (pending p.worker (queued p)))
          × (q.calls ≡ calls_of mem q.consumers q.left)
          × ((b : ℕ) → count b q.received ≡ count b q.released)
  unfolding is_empty
  worker_catches_up n r h =
      let p = run mem (fresh c cs) es in
      let v = run-Inv mem es (fresh c cs) (fresh-Inv mem c cs) in
      let q = run mem p (works n) in
      let v' = run-Inv mem (works n) p v in
      let k = from_anywhere mem p.worker n p refl (v.lifecycle.alive r) v r h in
      let bal = (IsPlane-at IsCapacity-32 k.at_head v'.plane).balanced in
      let none = empty-contents queue_capacity IsCapacity-32 v'.plane.ring k.none_left in
      let g = works-Grew mem n p in
      let fanned : g.fanned ≡ pending p.worker (queued p) =
        append_cancel_left (map entry_left p.left) _ _ (
          ap (λ l. map entry_left p.left ++ l) (sym (entry_left-dispatched g.fanned))
          ∙ sym (map-append entry_left p.left (map dispatched g.fanned))
          ∙ ap (map entry_left) (sym g.left)
          ∙ sym (append-nil (map entry_left q.left))
          ∙ ap (λ xs. map entry_left q.left ++ xs) (sym none)
          ∙ sym bal.order
          ∙ g.accepted
          ∙ v.plane.balanced.order) in
      (
        k.run,
        used_none q.queue.head q.queue.tail v'.plane.ring.head_lt
            (==→eq q.queue.head q.queue.tail k.none_left),
        g.left ∙ ap (λ l. p.left ++ map dispatched l) fanned,
        v'.called,
        λ b.
            bal.conserve b
            ∙ ap (λ xs. count b q.released + count b (map buf_of xs)) none
            ∙ omega arith,
      )
