-- ===== src/Pipeline/Halting.antt =====
-- That a stop comes to its end, for any pipeline whose worker steps, request and join do what the
-- interface `Halting` says; the two pipelines fill it.
use mathlib.Core.Path.{subst}
use e3controller.Common.{
  ℕ, zero, suc, ◌-◌, ◌≤◌, ◌≡◌, refl, sym, ap, ◌∙◌, Bool, true, false, List, [], ◌∷◌, ◌++◌, arith,
}
use e3controller.Pipeline.Worker.{Worker, absent}

-- How many steps the worker is from its end once nothing runs.
abbrev pub steps_left : Worker → ℕ
steps_left Worker.absent = 0
steps_left Worker.polling = 1
steps_left Worker.released_buf = 2
steps_left Worker.fanned_out = 3

steps_left_le : (w : Worker) → steps_left w ≤ 3
steps_left_le Worker.absent = omega arith
steps_left_le Worker.polling = omega arith
steps_left_le Worker.released_buf = omega arith
steps_left_le Worker.fanned_out = omega arith

steps_left→absent : (w : Worker) → steps_left w ≤ 0 → w ≡ absent
steps_left→absent Worker.absent h = refl
steps_left→absent Worker.polling h = absurd (omega (arith, h))
steps_left→absent Worker.released_buf h = absurd (omega (arith, h))
steps_left→absent Worker.fanned_out h = absurd (omega (arith, h))

-- The pipeline `P` with its threads' steps `E`, and what the stop relies on.
pub record Halting (P E : Type 0) : Type 0 where
  pub is_running : P → Bool
  pub joining : P → Bool
  pub worker : P → Worker
  pub step : P → E → P
  pub run : P → List E → P
  pub stop_finish : P → P
  pub stop_requests : E
  pub stop_finishes : E
  pub worker_steps : E
  pub run-none : (p : P) → run p [] ≡ p
  pub run-one : (p : P) (e : E) (es : List E) → run p (e ∷ es) ≡ run (step p e) es
  pub asks :
      (p : P)
      → is_running p ≡ true
      → joining p ≡ false
      → let q = step p stop_requests in
        (is_running q ≡ false) × (joining q ≡ true) × (worker q ≡ worker p)
  pub turns :
      (p : P)
      → is_running p ≡ false
      → let q = step p worker_steps in
        (is_running q ≡ false)
        × (joining q ≡ joining p)
        × (steps_left (worker q) ≡ steps_left (worker p) - 1)
  pub joins : (p : P) → joining p ≡ true → worker p ≡ absent → step p stop_finishes ≡ stop_finish p

module _ {P E : Type 0} (H : Halting P E) where
  -- `n` steps of the worker.
  abbrev pub works : ℕ → List E
  works zero = []
  works (suc n) = H.worker_steps ∷ works n

  -- A whole stop, with `n` steps of the worker between the request and the join.
  abbrev pub stop : ℕ → List E
  stop n = H.stop_requests ∷ (works n ++ (H.stop_finishes ∷ []))

  -- The pipeline when the join returns.
  pub record AtJoin (p : P) : Type 0 where
    pub off : H.is_running p ≡ false
    pub waits : H.joining p ≡ true
    pub ended : H.worker p ≡ absent

  run_append : (p : P) (es fs : List E) → H.run p (es ++ fs) ≡ H.run (H.run p es) fs
  run_append p [] fs = ap (λ q. H.run q fs) (sym (H.run-none p))
  run_append p (e ∷ es) fs =
      H.run-one p e (es ++ fs)
      ∙ run_append (H.step p e) es fs
      ∙ ap (λ q. H.run q fs) (sym (H.run-one p e es))

  works-AtJoin :
      (n : ℕ) (p : P)
      → H.is_running p ≡ false
      → H.joining p ≡ true
      → steps_left (H.worker p) ≤ n
      → AtJoin (H.run p (works n))
  works-AtJoin zero p off waits few =
      subst AtJoin (sym (H.run-none p))
        (record { off = off; waits = waits; ended = steps_left→absent (H.worker p) few })
  works-AtJoin (suc n) p off waits few =
      let (off', waits', fewer) = H.turns p off in
      subst AtJoin (sym (H.run-one p H.worker_steps (works n)))
        (works-AtJoin n (H.step p H.worker_steps) off' (waits' ∙ waits) (omega (arith, few, fewer)))

  -- Three steps of the worker are enough for a stop: the join returns, and the rest of the stop runs.
  pub stop-halts :
      (n : ℕ) (p : P)
      → H.is_running p ≡ true
      → H.joining p ≡ false
      → 3 ≤ n
      → let q = H.run p (H.stop_requests ∷ works n) in
        AtJoin q × (H.run p (stop n) ≡ H.stop_finish q)
  stop-halts n p on free enough =
      let (off, waits, same) = H.asks p on free in
      let few : steps_left (H.worker (H.step p H.stop_requests)) ≤ n =
        omega (arith, enough, steps_left_le (H.worker (H.step p H.stop_requests))) in
      let at =
        subst AtJoin (sym (H.run-one p H.stop_requests (works n)))
          (works-AtJoin n (H.step p H.stop_requests) off waits few) in
      let q = H.run p (H.stop_requests ∷ works n) in
      (
        at,
        run_append p (H.stop_requests ∷ works n) (H.stop_finishes ∷ [])
            ∙ H.run-one q H.stop_finishes []
            ∙ H.run-none (H.step q H.stop_finishes)
            ∙ H.joins q at.waits at.ended,
      )
