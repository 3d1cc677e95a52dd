-- ===== src/Shm/Convert.antt =====
-- The sample conversions of src/e3sm/utils/e3sm_shm_writer.cpp and the scalar reference of
-- codelets/include/e3_slot_convert.h. An integer is its value, a float its bit pattern. Where the
-- source joins disjoint bit fields by `|`, the fields are added.
mod Rounding
mod Scalar
mod Tests
use e3controller.Common.{
  ℕ, zero, suc, ◌+◌, ◌-◌, ◌*◌, ◌/◌, ◌%◌, ◌^◌, ℤ, pos, negsuc, Bool, ◌&&◌, ◌||◌, ltb, leb, ◌==◌,
  ◌!=◌, if◌then◌else◌,
}

-- 31 - __builtin_clz(mag), the position of the leading one; the fuel is the number of bits.
msb_fuel : ℕ → ℕ → ℕ
msb_fuel zero mag = 0
msb_fuel (suc f) mag = let above = msb_fuel f (mag / 2) in if ltb mag 2 then 0 else suc above

msb : ℕ → ℕ
unfolding msb_fuel
msb mag = msb_fuel 32 mag

-- The round and sticky bits where the leading one is at position 10: the source shifts by -1
-- there, which C++ leaves undefined, so the compiled code's values are an argument.
pub record UndefinedShift : Type 0 where
  pub round_bit : ℕ
  pub sticky : ℕ

fp16_of : UndefinedShift → ℕ → ℕ → ℕ
unfolding msb
fp16_of u sign mag =
    let m = msb mag in
    let exp_biased = m + 15 - 11 in
    let shift = m - 10 in
    let mantissa = if leb 10 m then mag / 2 ^ shift % 1024 else mag * 2 ^ (10 - m) % 1024 in
    let round_bit =
      if leb 10 m then (if m == 10 then u.round_bit else mag / 2 ^ (shift - 1) % 2) else 0 in
    let sticky =
      if leb 10 m
      then (if m == 10 then u.sticky else if mag % 2 ^ (shift - 1) != 0 then 1 else 0)
      else 0 in
    let half = (sign + exp_biased * 1024 + mantissa) % 2 ^ 16 in
    if round_bit != 0 && (sticky != 0 || mantissa % 2 != 0) then (half + 1) % 2 ^ 16 else half

pub int16_to_fp16 : UndefinedShift → ℤ → ℕ
int16_to_fp16 u (pos zero) = 0
int16_to_fp16 u (pos (suc n)) = fp16_of u 0 (suc n)
int16_to_fp16 u (negsuc n) = fp16_of u 0x8000 (suc n)

-- The fallback of `bf16_to_fp16`, from the bits of the scaled float32 on.
fp32_to_fp16 : ℕ → ℕ
fp32_to_fp16 v =
    let sign = v / 2 ^ 31 % 2 in
    let exp8 = v / 2 ^ 23 % 256 in
    let man23 = v % 2 ^ 23 in
    if exp8 == 0
    then sign * 2 ^ 15
    else if exp8 == 0xff
    then sign * 2 ^ 15 + 0x1f * 2 ^ 10 + (if man23 != 0 then 1 else 0)
    else if leb exp8 112
    then sign * 2 ^ 15
    else if leb (0x1f + 112) exp8
    then sign * 2 ^ 15 + 0x1f * 2 ^ 10
    else sign * 2 ^ 15 + (exp8 - 112) * 2 ^ 10 + man23 / 2 ^ 13

-- The float multiplication of the target, on bit patterns.
pub bf16_to_fp16 : (ℕ → ℕ → ℕ) → ℕ → ℕ → ℕ
unfolding fp32_to_fp16
bf16_to_fp16 fmul scale bf16 = fp32_to_fp16 (fmul (bf16 * 2 ^ 16) scale)

-- `bf16_to_fp16_scalar` of e3_slot_convert.h, on a target without F16C and NEON, from the bits of
-- the scaled float32 on.
slot_fp32_to_fp16 : ℕ → ℕ
slot_fp32_to_fp16 v =
    let sign = v / 2 ^ 31 % 2 in
    let exp8 = v / 2 ^ 23 % 256 in
    let man23 = v % 2 ^ 23 in
    let exp5 = exp8 - 112 in
    let man10 = man23 / 2 ^ 13 in
    let rem = man23 % 2 ^ 13 in
    let round_up = ltb 0x1000 rem || (rem == 0x1000 && man10 % 2 != 0) in
    if exp8 == 0
    then sign * 2 ^ 15
    else if exp8 == 0xff
    then sign * 2 ^ 15 + 0x1f * 2 ^ 10 + (if man23 != 0 then 0x200 else 0)
    else if leb (0x1f + 112) exp8
    then sign * 2 ^ 15 + 0x1f * 2 ^ 10
    else if leb exp8 112
    then sign * 2 ^ 15
    else if round_up
    then (if man10 + 1 == 0x400
        then (if leb 0x1f (exp5 + 1)
            then sign * 2 ^ 15 + 0x1f * 2 ^ 10
            else sign * 2 ^ 15 + (exp5 + 1) * 2 ^ 10)
        else sign * 2 ^ 15 + exp5 * 2 ^ 10 + (man10 + 1))
    else sign * 2 ^ 15 + exp5 * 2 ^ 10 + man10

pub bf16_to_fp16_scalar : (ℕ → ℕ → ℕ) → ℕ → ℕ → ℕ
unfolding slot_fp32_to_fp16
bf16_to_fp16_scalar fmul scale bf16 = slot_fp32_to_fp16 (fmul (bf16 * 2 ^ 16) scale)
