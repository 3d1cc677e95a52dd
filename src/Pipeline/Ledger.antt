-- ===== src/Pipeline/Ledger.antt =====
-- The ledger of a pipeline on lists: what has arrived, what was released and what waits in
-- the queue, at each point of the worker's loop.
use mathlib.Core.List.{append_assoc, append-nil, map-append}
use e3controller.Common.{
  ℕ, ◌+◌, ◌≡◌, refl, sym, ap, ◌∙◌, List, [], ◌∷◌, ◌++◌, map, count, count-append, arith,
}
use e3controller.Pipeline.Spsc.{QueueEntry}
use e3controller.Pipeline.Worker.{Worker, Leaving, dispatched, drained}

abbrev pub buf_of : QueueEntry → ℕ
buf_of e = e.buf

abbrev pub entry_left : Leaving → QueueEntry
entry_left (dispatched e) = e
entry_left (drained e) = e

abbrev rest : List QueueEntry → List QueueEntry
rest [] = []
rest (x ∷ xs) = xs

-- Of the queue's contents: what is not released yet, and what the consumers have not seen yet.
abbrev pub unreleased : Worker → List QueueEntry → List QueueEntry
unreleased Worker.absent xs = xs
unreleased Worker.polling xs = xs
unreleased Worker.fanned_out xs = xs
unreleased Worker.released_buf xs = rest xs

abbrev pub pending : Worker → List QueueEntry → List QueueEntry
pending Worker.absent xs = xs
pending Worker.polling xs = xs
pending Worker.fanned_out xs = rest xs
pending Worker.released_buf xs = rest xs

-- In the middle of a round, the worker's entry is still the first of the queue.
abbrev pub Busy : Worker → List QueueEntry → Type 0
Busy Worker.absent xs = Unit
Busy Worker.polling xs = Unit
Busy Worker.fanned_out xs = (x : QueueEntry) × (ys : List QueueEntry) × (xs ≡ x ∷ ys)
Busy Worker.released_buf xs = (x : QueueEntry) × (ys : List QueueEntry) × (xs ≡ x ∷ ys)

-- The consumers' calls that the entries which left by a fan-out account for.
module _ {ℓ} {Call : Type ℓ} (fan : QueueEntry → List Call) where
  abbrev pub calls_of : List Leaving → List Call
  calls_of [] = []
  calls_of (dispatched e ∷ ls) = fan e ++ calls_of ls
  calls_of (drained e ∷ ls) = calls_of ls

  pub calls_of-append : (ls ms : List Leaving) → calls_of (ls ++ ms) ≡ calls_of ls ++ calls_of ms
  calls_of-append [] ms = refl
  calls_of-append (dispatched e ∷ ls) ms =
      ap (λ r. fan e ++ r) (calls_of-append ls ms)
      ∙ sym (append_assoc (fan e) (calls_of ls) (calls_of ms))
  calls_of-append (drained e ∷ ls) ms = calls_of-append ls ms

  calls_of-drained : (es : List QueueEntry) → calls_of (map drained es) ≡ []
  calls_of-drained [] = refl
  calls_of-drained (e ∷ es) = calls_of-drained es

  -- A fan-out adds its calls; a drain adds none.
  pub calls_of-fan_out :
      (ls : List Leaving) (e : QueueEntry)
      → calls_of ls ++ fan e ≡ calls_of (ls ++ (dispatched e ∷ []))
  calls_of-fan_out ls e =
      rw (calls_of-append ls (dispatched e ∷ []))
        (ap (λ r. calls_of ls ++ r) (sym (append-nil (fan e))))

  pub calls_of-drain :
      (ls : List Leaving) (es : List QueueEntry) → calls_of (ls ++ map drained es) ≡ calls_of ls
  calls_of-drain ls es =
      rw (calls_of-append ls (map drained es), calls_of-drained es) (append-nil (calls_of ls))

entry_left-drained : (es : List QueueEntry) → map entry_left (map drained es) ≡ es
entry_left-drained [] = refl
entry_left-drained (e ∷ es) = ap (λ r. e ∷ r) (entry_left-drained es)

unreleased-push :
    (w : Worker) (xs : List QueueEntry) (e : QueueEntry)
    → Busy w xs
    → unreleased w (xs ++ (e ∷ [])) ≡ unreleased w xs ++ (e ∷ [])
unreleased-push Worker.absent xs e b = refl
unreleased-push Worker.polling xs e b = refl
unreleased-push Worker.fanned_out xs e b = refl
unreleased-push Worker.released_buf xs e (x, ys, q) = rw (q) refl

pending-push :
    (w : Worker) (xs : List QueueEntry) (e : QueueEntry)
    → Busy w xs
    → pending w (xs ++ (e ∷ [])) ≡ pending w xs ++ (e ∷ [])
pending-push Worker.absent xs e b = refl
pending-push Worker.polling xs e b = refl
pending-push Worker.fanned_out xs e (x, ys, q) = rw (q) refl
pending-push Worker.released_buf xs e (x, ys, q) = rw (q) refl

Busy-push :
    (w : Worker) (xs : List QueueEntry) (e : QueueEntry) → Busy w xs → Busy w (xs ++ (e ∷ []))
Busy-push Worker.absent xs e b = tt
Busy-push Worker.polling xs e b = tt
Busy-push Worker.fanned_out xs e (x, ys, q) = (x, ys ++ (e ∷ []), ap (λ r. r ++ (e ∷ [])) q)
Busy-push Worker.released_buf xs e (x, ys, q) = (x, ys ++ (e ∷ []), ap (λ r. r ++ (e ∷ [])) q)

-- Every buffer that arrived was released, or waits; and the entries accepted are those that left,
-- in their order, followed by those that wait.
pub record Balanced (w : Worker) (xs : List QueueEntry) (received released : List ℕ)
    (accepted : List QueueEntry) (left : List Leaving) : Type 0 where
  pub busy : Busy w xs
  pub conserve :
      (b : ℕ) → count b received ≡ count b released + count b (map buf_of (unreleased w xs))
  pub order : accepted ≡ map entry_left left ++ pending w xs

module _ {xs : List QueueEntry} {rx rl : List ℕ} {acc : List QueueEntry} {left : List Leaving} where
  pub Balanced-refuse :
      {w : Worker} (b : ℕ)
      → Balanced w xs rx rl acc left
      → Balanced w xs (rx ++ (b ∷ [])) (rl ++ (b ∷ [])) acc left
  Balanced-refuse {w} b v = record {
    busy = v.busy;
    conserve =
        λ c. omega (arith, count-append c rx (b ∷ []), count-append c rl (b ∷ []), v.conserve c);
    order = v.order;
  }

  pub Balanced-push :
      {w : Worker} (e : QueueEntry)
      → Balanced w xs rx rl acc left
      → Balanced w (xs ++ (e ∷ [])) (rx ++ (e.buf ∷ [])) rl (acc ++ (e ∷ [])) left
  Balanced-push {w} e v = record {
    busy = Busy-push w xs e v.busy;
    conserve = λ c.
        count-append c rx (e.buf ∷ [])
        ∙ rw (unreleased-push w xs e v.busy, map-append buf_of (unreleased w xs) (e ∷ [])) omega
            (arith, count-append c (map buf_of (unreleased w xs)) (e.buf ∷ []), v.conserve c);
    order =
        ap (λ r. r ++ (e ∷ [])) v.order
        ∙ append_assoc (map entry_left left) (pending w xs) (e ∷ [])
        ∙ ap (λ r. map entry_left left ++ r) (sym (pending-push w xs e v.busy));
  }

  pub Balanced-fan_out :
      {e : QueueEntry} {ys : List QueueEntry}
      → xs ≡ e ∷ ys
      → Balanced Worker.polling xs rx rl acc left
      → Balanced Worker.fanned_out xs rx rl acc (left ++ (dispatched e ∷ []))
  Balanced-fan_out {e} {ys} q v = record {
    busy = (e, ys, q);
    conserve = v.conserve;
    order =
        rw (v.order, q, map-append entry_left left (dispatched e ∷ []))
          (sym (append_assoc (map entry_left left) (e ∷ []) ys));
  }

  pub Balanced-release :
      {e : QueueEntry} {ys : List QueueEntry}
      → xs ≡ e ∷ ys
      → Balanced Worker.fanned_out xs rx rl acc left
      → Balanced Worker.released_buf xs rx (rl ++ (e.buf ∷ [])) acc left
  Balanced-release {e} {ys} q v = record {
    busy = (e, ys, q);
    conserve = λ c. v.conserve c ∙ rw (q) omega (arith, count-append c rl (e.buf ∷ []));
    order = v.order;
  }

  pub Balanced-advance :
      {e : QueueEntry} {ys : List QueueEntry}
      → xs ≡ e ∷ ys
      → Balanced Worker.released_buf xs rx rl acc left
      → Balanced Worker.polling ys rx rl acc left
  Balanced-advance {e} {ys} q v = record {
    busy = tt;
    conserve = λ c. v.conserve c ∙ rw (q) refl;
    order = v.order ∙ rw (q) refl;
  }

  pub Balanced-drain :
      Balanced Worker.absent xs rx rl acc left
      → Balanced Worker.absent [] rx (rl ++ map buf_of xs) acc (left ++ map drained xs)
  Balanced-drain v = record {
    busy = tt;
    conserve = λ c. omega (arith, v.conserve c, count-append c rl (map buf_of xs));
    order =
        rw (v.order, map-append entry_left left (map drained xs), entry_left-drained xs)
          (sym (append-nil (map entry_left left ++ xs)));
  }
