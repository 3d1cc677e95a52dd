-- ===== src/Common/Numbers.antt =====
-- Residues of the native numbers.
use Prim.Native.Nat.{ℕ, ◌+◌, ◌-◌, ◌%◌, ◌≤◌, ◌<◌}
use mathlib.Core.Logic.{◌≢◌, inl, inr}
use native.Mathlib.Nat.{mod-eq_of_lt, mod-eq-sub-mod}
use native.Mathlib.Omega.{arith}
use e3controller.Common.Tests.{Bool-cases, ltb, ltb→lt}

-- A step that is shorter than the whole turn ends elsewhere.
pub add-mod-ne : {total s k : ℕ} → s < total → 0 < k → k < total → (s + k) % total ≢ s
add-mod-ne {total} {s} {k} h lo hi = elim (Bool-cases (ltb (s + k) total)) [
  | inl b ↦ omega (arith, mod-eq_of_lt (ltb→lt _ _ b))
  | inr b ↦
      let past : total ≤ s + k = ground arith in
      omega (arith, mod-eq-sub-mod past, mod-eq_of_lt {n = s + k - total} {m = total} (omega arith))
]
