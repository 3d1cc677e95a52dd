-- ===== src/Trace/Tests.antt =====
-- A slot that was stamped late, and one whose times precede it.
use e3controller.Common.{ℕ, ◌≡◌, refl, List, [], ◌∷◌, map, arith}
use e3controller.Trace.{Stage, record_begin, process_begin, Record, fresh_trace, stamp_at, monotone}
use e3controller.Trace.Ascending.{Stamp, stamp_all, Ascends, stamp_all-Ascends}

abbrev stamp : Stage → ℕ → Stamp
stamp stage t_ns = record { seq = 1; stage = stage; aux = 0; aux2 = 0; t_ns = t_ns }

abbrev interleaved : List Stamp
interleaved =
    stamp record_begin 100
    ∷ stamp process_begin 200
    ∷ stamp record_begin 150
    ∷ stamp process_begin 300
    ∷ []

stamp_all-Ascends_example : Ascends (stamp_all fresh_trace interleaved)
stamp_all-Ascends_example =
    stamp_all-Ascends interleaved fresh_trace 300
      (omega arith, (omega arith, (omega arith, (omega arith, tt)))) (omega arith) (omega arith) tt

one_clamp : (stamp_all fresh_trace interleaved).clamped ≡ 1
unfolding stamp_all stamp_at monotone
one_clamp = refl

clamped_times :
    map (λ (r : Record). r.t_ns) (stamp_all fresh_trace interleaved).ring
    ≡ 300 ∷ 201 ∷ 200 ∷ 100 ∷ []
unfolding stamp_all stamp_at monotone
clamped_times = refl
