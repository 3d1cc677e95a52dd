-- ===== src/Shm/Convert/Scalar.antt =====
-- The two scalar conversions of a scaled float32 side by side.
use e3controller.Common.{
  ℕ, ◌+◌, ◌*◌, ◌/◌, ◌%◌, ◌^◌, ◌<◌, ◌≡◌, Bool, ◌&&◌, ◌||◌, ltb, ◌==◌, ◌!=◌, if◌then◌else◌, arith,
}
use e3controller.Shm.Convert.{bf16_to_fp16, bf16_to_fp16_scalar}

-- Whether the bits of a float32 that a half drops round it up.
abbrev pub rounds_up : ℕ → Bool
rounds_up v = ltb 0x1000 (v % 2 ^ 13) || (v % 2 ^ 13 == 0x1000 && v / 2 ^ 13 % 2 != 0)

-- Where the scaled value is a normal half, the two functions agree exactly when the dropped bits do
-- not round up, and otherwise the writer's fallback is one below the scalar of the shared header.
pub scalar_conversions_differ :
    (fmul : ℕ → ℕ → ℕ) (scale bf16 : ℕ)
    → let v = fmul (bf16 * 2 ^ 16) scale in
      112 < v / 2 ^ 23 % 256
      → v / 2 ^ 23 % 256 < 143
      → bf16_to_fp16_scalar fmul scale bf16
        ≡ bf16_to_fp16 fmul scale bf16 + (if rounds_up v then 1 else 0)
unfolding bf16_to_fp16_scalar bf16_to_fp16
scalar_conversions_differ fmul scale bf16 lo hi = ground arith
