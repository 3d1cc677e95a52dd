-- ===== src/Shm/Convert/Tests.antt =====
-- Tests of the conversions.
use e3controller.Common.{ℕ, ◌+◌, ◌≡◌, refl, pos, negsuc, arith}
use e3controller.Shm.Convert.{
  UndefinedShift, fp16_of, int16_to_fp16, fp32_to_fp16, slot_fp32_to_fp16,
}
use e3controller.Shm.Convert.Rounding.{Nearest, int16_to_fp16-Nearest}

-- A shift by -1 that takes the 31st bit, as x86 does.
abbrev x86 : UndefinedShift
x86 = record { round_bit = 0; sticky = 1 }

-- 2048 / 2048 is one, and the least int16 is -16.
unit : (int16_to_fp16 x86 (pos 2048) ≡ 0x3c00) × (int16_to_fp16 x86 (negsuc 32767) ≡ 0xcc00)
unfolding int16_to_fp16 fp16_of
unit = (refl, refl)

-- 1.0 as a float32 is 1.0 as a half, in both; a NaN keeps another payload.
one_and_nan :
    (fp32_to_fp16 0x3f80_0000 ≡ 0x3c00)
    × (slot_fp32_to_fp16 0x3f80_0000 ≡ 0x3c00)
    × (fp32_to_fp16 0x7fc0_0000 ≡ 0x7c01)
    × (slot_fp32_to_fp16 0x7fc0_0000 ≡ 0x7e00)
unfolding fp32_to_fp16 slot_fp32_to_fp16
one_and_nan = (refl, refl, refl, refl)

int16_to_fp16-Nearest_example :
    Nearest 4097 (int16_to_fp16 x86 (pos 4097))
    × (int16_to_fp16 x86 (negsuc 4096) ≡ 0x8000 + int16_to_fp16 x86 (pos 4097))
int16_to_fp16-Nearest_example = int16_to_fp16-Nearest x86 4096 refl (omega arith)

-- A product with dropped bits above one half.
abbrev product : ℕ → ℕ → ℕ
product a scale = a + 0x1800
