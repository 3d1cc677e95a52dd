-- ===== src/Bfp.antt =====
-- The 9-bit block floating point decompression of src/e3sm/utils/bfp_decompress.cpp. An int16 is its
-- 16-bit pattern; `bytes` is `data`, and gives the bytes from the pointer on, beyond `data_len` too.
pub mod Bits
pub mod Output
mod Tests
use e3controller.Common.{
  ℕ, zero, suc, ◌+◌, ◌-◌, ◌*◌, ◌/◌, ◌%◌, ◌^◌, Bool, true, false, Option, none, some, List, [], ◌∷◌,
  ◌++◌, ltb, ◌!=◌, if◌then◌else◌,
}

-- BFP_PRB_SIZE and INT16_PER_PRB
abbrev pub bfp_prb_size : ℕ
bfp_prb_size = 28

abbrev pub int16_per_prb : ℕ
int16_per_prb = 24

-- A byte that is read.
abbrev pub byte : (ℕ → ℕ) → ℕ → ℕ
byte bytes i = bytes i % 256

-- The 24-bit window, and the nine bits in it.
unfoldable pub window_at : (ℕ → ℕ) → ℕ → ℕ
window_at bytes bit_offset =
    byte bytes (bit_offset / 8) * 2 ^ 16
    + byte bytes (bit_offset / 8 + 1) * 2 ^ 8
    + byte bytes (bit_offset / 8 + 2)

unfoldable pub raw_9bit : (ℕ → ℕ) → ℕ → ℕ
unfolding window_at
raw_9bit bytes bit_offset = window_at bytes bit_offset / 2 ^ (24 - bit_offset % 8 - 9) % 512

-- `(raw & 0x100) ? (int16_t)(raw | 0xFE00) : (int16_t)raw`
unfoldable pub sign_extend : ℕ → ℕ
sign_extend raw = if raw / 256 % 2 != 0 then raw + 0xfe00 else raw

unfoldable pub extract_9bit : (ℕ → ℕ) → ℕ → ℕ
unfolding raw_9bit sign_extend
extract_9bit bytes bit_offset = sign_extend (raw_9bit bytes bit_offset)

-- `(int16_t)(mantissa << exponent)`: the int that the mantissa is promoted to, shifted, and its low
-- half. C++17 leaves the shift by 32 or more undefined, so what the compiled code gives there is the
-- argument `wide_shift`; it leaves that of a negative int undefined too, and below 32 this is what two's
-- complement gives.
unfoldable pub scale : (wide_shift : ℕ → ℕ → ℕ) (mantissa exponent : ℕ) → ℕ
scale wide_shift mantissa exponent =
    let promoted = if ltb mantissa 0x8000 then mantissa else mantissa + 0xffff0000 in
    if ltb exponent 32
    then promoted * 2 ^ exponent % 2 ^ 32 % 2 ^ 16
    else wide_shift mantissa exponent % 2 ^ 16

module _ (wide_shift : ℕ → ℕ → ℕ) where
  -- The loop over the 24 values of a block, from `i` on.
  unfoldable pub prb_loop : ℕ → (ℕ → ℕ) → ℕ → List ℕ
  unfolding extract_9bit scale
  prb_loop zero block i = []
  prb_loop (suc left) block i =
      scale wide_shift (extract_9bit (λ k. block (1 + k)) (i * 9)) (byte block 0)
      ∷ prb_loop left block (i + 1)

  -- The loop over the blocks, from `prb` on.
  unfoldable pub prbs_loop : ℕ → (ℕ → ℕ) → ℕ → List ℕ
  unfolding prb_loop
  prbs_loop zero bytes prb = []
  prbs_loop (suc left) bytes prb =
      prb_loop int16_per_prb (λ k. bytes (prb * bfp_prb_size + k)) 0
      ++ prbs_loop left bytes (prb + 1)

  -- `decompress_bfp_9bit`, with what it leaves in `out_iq`.
  unfoldable pub decompress_bfp_9bit : (ℕ → ℕ) → ℕ → ℕ → Option (List ℕ)
  unfolding prbs_loop
  decompress_bfp_9bit bytes data_len num_prbu =
      if ltb data_len (num_prbu * bfp_prb_size) then none else some (prbs_loop num_prbu bytes 0)
