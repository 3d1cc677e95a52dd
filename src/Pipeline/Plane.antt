-- ===== src/Pipeline/Plane.antt =====
-- The data plane of a pipeline: its ring and its ledger together, at each step that one of the two
-- pipelines makes.
use mathlib.Core.Path.{subst}
use e3controller.Common.{
  ℕ, zero, suc, ◌≤◌, ◌≡◌, refl, sym, ap, ◌∙◌, false, inl, inr, Bool-cases, List, [], ◌∷◌, ◌++◌, map,
  arith,
}
use e3controller.Pipeline.Spsc.{
  QueueEntry, Spsc, empty_queue, is_empty, pop, is_full, push, front, used, drain_loop,
}
use e3controller.Pipeline.Spsc.Fifo.{
  IsCapacity, contents, window, IsRing, push-contents, pop-contents, empty-contents, used-pop,
}
use e3controller.Pipeline.Worker.{Worker, Leaving, dispatched, drained}
use e3controller.Pipeline.Ledger.{
  buf_of, unreleased, Balanced, Balanced-refuse, Balanced-push, Balanced-fan_out, Balanced-release,
  Balanced-advance, Balanced-drain,
}

pub record IsPlane (cap : ℕ) (w : Worker) (q : Spsc) (received released : List ℕ)
    (accepted : List QueueEntry) (left : List Leaving) : Type 0 where
  pub ring : IsRing cap q
  pub balanced : Balanced w (contents cap q) received released accepted left

module _ {cap : ℕ} (c : IsCapacity cap) where
  pub IsPlane-fresh : IsPlane cap Worker.absent empty_queue [] [] [] []
  IsPlane-fresh = record {
    ring = record { head_lt = omega arith; tail_lt = omega arith; used_le = omega arith };
    balanced = record { busy = tt; conserve = λ b. refl; order = refl };
  }

  -- The loop releases what the queue holds, in order, and as many rounds as it has places are enough.
  drain_loop-contents :
      (n : ℕ) (q : Spsc) → IsRing cap q → used q ≤ n → drain_loop cap n q ≡ contents cap q
  unfolding drain_loop
  drain_loop-contents zero q v h =
      let none : 0 ≡ used q = omega arith in ap (window cap q.slots q.tail) none
  drain_loop-contents (suc n) q v h = elim (Bool-cases (is_empty q)) [
    | inl e ↦ rw (e, empty-contents cap c v e) refl
    | inr e ↦
        let (v', s) = pop-contents cap c v e in
        let enough : used (pop q) ≤ n = omega (arith, used-pop q v.head_lt v.tail_lt e) in
        rw (e, s) (ap (λ r. front cap q ∷ r) (drain_loop-contents n (pop q) v' enough))
  ]

  pub busy_queue :
      {q : Spsc} (x : QueueEntry) (ys : List QueueEntry)
      → IsRing cap q
      → contents cap q ≡ x ∷ ys
      → is_empty q ≡ false
  busy_queue {q} x ys r s = elim (Bool-cases (is_empty q)) [
    | inl e ↦ let n : x ∷ ys ≡ [] = sym s ∙ empty-contents cap c r e in cc
    | inr e ↦ e
  ]

  -- After the drain the queue is empty.
  pub drained-queue : {q : Spsc} → IsRing cap q → used (record q { tail = q.head }) ≡ 0
  drained-queue r = omega (arith, r.head_lt)

  module _ {q : Spsc} {rx rl : List ℕ} {acc : List QueueEntry} {left : List Leaving} where
    pub IsPlane-at :
        {w w' : Worker} → w ≡ w' → IsPlane cap w q rx rl acc left → IsPlane cap w' q rx rl acc left
    IsPlane-at e v = subst (λ w. IsPlane cap w q rx rl acc left) e v

    pub IsPlane-refuse :
        {w : Worker} (b : ℕ)
        → IsPlane cap w q rx rl acc left
        → IsPlane cap w q (rx ++ (b ∷ [])) (rl ++ (b ∷ [])) acc left
    IsPlane-refuse b v = record { ring = v.ring; balanced = Balanced-refuse b v.balanced }

    pub IsPlane-push :
        {w : Worker} (e : QueueEntry)
        → is_full cap q ≡ false
        → IsPlane cap w q rx rl acc left
        → IsPlane cap w (push cap q e) (rx ++ (e.buf ∷ [])) rl (acc ++ (e ∷ [])) left
    IsPlane-push e room v =
        let (ring', s) = push-contents cap c e v.ring room in
        record { ring = ring'; balanced = rw s (Balanced-push e v.balanced) }

    -- A worker that starts or ends.
    pub IsPlane-start :
        IsPlane cap Worker.absent q rx rl acc left → IsPlane cap Worker.polling q rx rl acc left
    IsPlane-start v = record {
      ring = v.ring;
      balanced = record { busy = tt; conserve = v.balanced.conserve; order = v.balanced.order };
    }

    pub IsPlane-end :
        IsPlane cap Worker.polling q rx rl acc left → IsPlane cap Worker.absent q rx rl acc left
    IsPlane-end v = record {
      ring = v.ring;
      balanced = record { busy = tt; conserve = v.balanced.conserve; order = v.balanced.order };
    }

    pub IsPlane-fan_out :
        is_empty q ≡ false
        → IsPlane cap Worker.polling q rx rl acc left
        → IsPlane cap Worker.fanned_out q rx rl acc (left ++ (dispatched (front cap q) ∷ []))
    IsPlane-fan_out e v = record {
      ring = v.ring;
      balanced = Balanced-fan_out (pop-contents cap c v.ring e).1 v.balanced;
    }

    pub IsPlane-release :
        IsPlane cap Worker.fanned_out q rx rl acc left
        → IsPlane cap Worker.released_buf q rx (rl ++ (QueueEntry.buf (front cap q) ∷ [])) acc left
    IsPlane-release v =
        let (x, ys, s) = v.balanced.busy in
        let p = pop-contents cap c v.ring (busy_queue x ys v.ring s) in
        record { ring = v.ring; balanced = Balanced-release p.1 v.balanced }

    pub IsPlane-advance :
        IsPlane cap Worker.released_buf q rx rl acc left
        → IsPlane cap Worker.polling (pop q) rx rl acc left
    IsPlane-advance v =
        let (x, ys, s) = v.balanced.busy in
        let p = pop-contents cap c v.ring (busy_queue x ys v.ring s) in
        record { ring = p.0; balanced = Balanced-advance p.1 v.balanced }

    -- `stop` releases what waits.
    pub IsPlane-drain :
        IsPlane cap Worker.absent q rx rl acc left
        → let es = drain_loop cap cap q in
          IsPlane cap Worker.absent
            (record q { tail = q.head })
            rx
            (rl ++ map buf_of es)
            acc
            (left ++ map drained es)
    IsPlane-drain v =
        let none = drained-queue v.ring in
        let empty : contents cap (record q { tail = q.head }) ≡ [] =
          ap (window cap q.slots q.head) none in
        rw (drain_loop-contents cap q v.ring v.ring.used_le) (record {
          ring = record {
            head_lt = v.ring.head_lt;
            tail_lt = v.ring.head_lt;
            used_le = omega (arith, none);
          };
          balanced = rw empty (Balanced-drain v.balanced);
        })

none_unreleased : (w : Worker) → unreleased w [] ≡ []
none_unreleased Worker.absent = refl
none_unreleased Worker.polling = refl
none_unreleased Worker.fanned_out = refl
none_unreleased Worker.released_buf = refl

-- Of an empty queue, no buffer waits.
pub nothing_queued :
    (w : Worker) (cap : ℕ) (q : Spsc) → used q ≡ 0 → map buf_of (unreleased w (contents cap q)) ≡ []
nothing_queued w cap q none =
    ap (λ n. map buf_of (unreleased w (window cap q.slots q.tail n))) none
    ∙ ap (map buf_of) (none_unreleased w)
