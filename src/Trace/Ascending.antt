-- ===== src/Trace/Ascending.antt =====
-- The ring ascends, whatever times are stamped.
use e3controller.Common.{
  ℕ, ◌+◌, ◌%◌, ◌^◌, ◌≤◌, ◌<◌, ◌≡◌, ◌⊎◌, inl, inr, refl, List, [], ◌∷◌, leb, leb→le, length,
  if_cases, arith,
}
use e3controller.Trace.{Stage, Record, Trace, monotone, stamp_at}

-- A stamp to be made.
pub record Stamp : Type 0 where
  pub seq : ℕ
  pub stage : Stage
  pub aux : ℕ
  pub aux2 : ℕ
  pub t_ns : ℕ

unfoldable pub stamp_all : Trace → List Stamp → Trace
stamp_all t [] = t
stamp_all t (s ∷ ss) = stamp_all (stamp_at t s.seq s.stage s.aux s.aux2 s.t_ns) ss

-- Strictly ascending times, the latest first.
abbrev pub Before : List Record → ℕ → Type 0
Before [] t = Unit
Before (r ∷ rs) t = (r.t_ns < t) × Before rs r.t_ns

-- The ring ascends, and the floor is its latest time.
abbrev pub Ascends : Trace → Type 0
Ascends t = Before t.ring (t.floor_ns + 1)

-- No stamp is later than `bound`.
abbrev pub AtMost : List Stamp → ℕ → Type 0
AtMost [] bound = Unit
AtMost (s ∷ ss) bound = (s.t_ns ≤ bound) × AtMost ss bound

Before-weaken : (rs : List Record) (t u : ℕ) → t ≤ u → Before rs t → Before rs u
Before-weaken [] t u h b = tt
Before-weaken (r ∷ rs) t u h (b, c) = (omega arith, c)

AtMost-weaken : (ss : List Stamp) (bound : ℕ) → AtMost ss bound → AtMost ss (bound + 1)
AtMost-weaken [] bound h = tt
AtMost-weaken (s ∷ ss) bound (h, k) = (omega arith, AtMost-weaken ss bound k)

-- What one stamp does: the ring still ascends, its new record is not earlier than the time asked
-- for, and either it is that time or one more clamp is counted.
abbrev Stamped : Trace → ℕ → ℕ → Trace → Type 0
Stamped t t_ns bound t' =
    Ascends t'
    × (t'.floor_ns ≤ bound + 1)
    × (t_ns ≤ t'.floor_ns)
    × (((t'.floor_ns ≡ t_ns) × (t'.clamped ≡ t.clamped)) ⊎ (t'.clamped ≡ (t.clamped + 1) % 2 ^ 64))

pushed : Stamp → ℕ × Trace → Trace
pushed s r = record r.1 {
  ring = record { seq = s.seq; stage = s.stage; aux = s.aux; aux2 = s.aux2; t_ns = r.0 } ∷ r.1.ring;
}

stamp_at-Stamped :
    (t : Trace) (s : Stamp) (bound : ℕ)
    → s.t_ns ≤ bound
    → t.floor_ns ≤ bound
    → bound + 1 < 2 ^ 64
    → Ascends t
    → Stamped t s.t_ns bound (stamp_at t s.seq s.stage s.aux s.aux2 s.t_ns)
unfolding stamp_at monotone pushed
stamp_at-Stamped t s bound h k room a =
    if_cases (λ (r : ℕ × Trace). Stamped t s.t_ns bound (pushed s r)) (leb s.t_ns t.floor_ns)
      (λ late.
        let le : s.t_ns ≤ t.floor_ns = leb→le s.t_ns t.floor_ns late in
        let next : (t.floor_ns + 1) % 2 ^ 64 ≡ t.floor_ns + 1 = omega arith in
        (
          (omega arith, Before-weaken t.ring (t.floor_ns + 1) _ (omega (arith, next)) a),
          omega (arith, next),
          omega (arith, next),
          inr refl,
        ))
      (λ early.
        let after : t.floor_ns + 1 ≤ s.t_ns = ground arith in
        (
          (omega arith, Before-weaken t.ring (t.floor_ns + 1) s.t_ns after a),
          omega arith,
          omega arith,
          inl (refl, refl),
        ))

-- Whatever times are stamped, in whatever order, the ring ascends strictly, as the reader of rings
-- needs it, where the times stay so far below 2^64 that each stamp could be moved by one nanosecond.
pub stamp_all-Ascends :
    (ss : List Stamp) (t : Trace) (bound : ℕ)
    → AtMost ss bound
    → t.floor_ns ≤ bound
    → bound + length ss < 2 ^ 64
    → Ascends t
    → Ascends (stamp_all t ss)
unfolding stamp_all
stamp_all-Ascends [] t bound h k room a = a
stamp_all-Ascends (s ∷ ss) t bound (h, hs) k room a =
    let (a', k', late, exact) = stamp_at-Stamped t s bound h k (omega arith) a in
    stamp_all-Ascends ss (stamp_at t s.seq s.stage s.aux s.aux2 s.t_ns) (bound + 1)
      (AtMost-weaken ss bound hs) k' (omega arith) a'
