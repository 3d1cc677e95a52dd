-- ===== src/Layer1/Summary.antt =====
-- `drops_summary`, as the numbers that its text shows.
use Prim.Native.String.{String}
use e3controller.Common.{
  ℕ, ◌+◌, ◌%◌, ◌^◌, ◌≡◌, refl, Option, none, some, List, [], ◌∷◌, map, ◌==◌, if◌then◌else◌,
  if_cases, arith,
}
use e3controller.Layer1.State.{
  E3SmLayer1, Drop, drop_name, drop_count, sum_drops, total_drops, published_slots, not_running,
  slot_filtered, geometry_mismatch, no_iq, blob_too_small, ran_published_nothing, no_subscribers,
  encode_failed, emit_failed,
}

-- The enumerators in their order.
abbrev drop_list : List Drop
drop_list =
    not_running ∷ slot_filtered ∷ geometry_mismatch ∷ no_iq ∷ blob_too_small ∷ ran_published_nothing
    ∷ no_subscribers ∷ encode_failed ∷ emit_failed ∷ []

-- A line for each reason that has a count.
abbrev pub reason_lines : E3SmLayer1 → List Drop → List (String × ℕ)
reason_lines l [] = []
reason_lines l (d ∷ ds) =
    if drop_count l d == 0
    then reason_lines l ds
    else (drop_name d, drop_count l d) ∷ reason_lines l ds

-- What the text shows: the clamped stamps where there are any, and where slots were dropped, of how
-- many arrivals they are a share, and the reasons.
pub record DropsSummary : Type 0 where
  pub published : ℕ
  pub dropped : ℕ
  pub clamped : Option ℕ
  pub arrivals : Option ℕ
  pub reasons : List (String × ℕ)

-- The head line.
abbrev head_line : E3SmLayer1 → (clamped : ℕ) → DropsSummary
head_line l clamped = record {
  published = published_slots l;
  dropped = total_drops l;
  clamped = if clamped == 0 then none else some clamped;
  arrivals = none;
  reasons = [];
}

unfoldable pub drops_summary : E3SmLayer1 → (clamped : ℕ) → DropsSummary
drops_summary l clamped =
    if total_drops l == 0 then head_line l clamped else record (head_line l clamped) {
      arrivals = some ((total_drops l + published_slots l) % 2 ^ 64);
      reasons = reason_lines l drop_list;
    }

abbrev sum_of : List (String × ℕ) → ℕ
sum_of [] = 0
sum_of ((name, n) ∷ lines) = n + sum_of lines

sum_of-line :
    (l : E3SmLayer1) (d : Drop) (ds : List Drop)
    → sum_of (reason_lines l (d ∷ ds)) ≡ drop_count l d + sum_of (reason_lines l ds)
sum_of-line l d ds =
    if_cases (λ lines. sum_of lines ≡ drop_count l d + sum_of (reason_lines l ds))
      (drop_count l d == 0) (λ z. ground arith) (λ n. refl)

sums_of-lines :
    (l : E3SmLayer1) (ds : List Drop)
    → sum_of (reason_lines l ds) ≡ sum_of (map (λ d. (drop_name d, drop_count l d)) ds)
sums_of-lines l [] = refl
sums_of-lines l (d ∷ ds) = omega (arith, sum_of-line l d ds, sums_of-lines l ds)

-- The reasons that the text lists add up to the number of dropped slots that it gives, up to the width
-- of that number.
pub drops_summary-total :
    (l : E3SmLayer1) (clamped : ℕ)
    → let s = drops_summary l clamped in sum_of s.reasons % 2 ^ 64 ≡ s.dropped
unfolding drops_summary sum_drops
drops_summary-total l clamped =
    if_cases (λ (s : DropsSummary). sum_of s.reasons % 2 ^ 64 ≡ s.dropped) (total_drops l == 0)
      (λ z. ground arith) (λ n. omega (arith, sums_of-lines l drop_list))
