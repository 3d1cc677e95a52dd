-- ===== src/Bfp/Output.antt =====
-- What `decompress_bfp_9bit` leaves in the output, entry by entry.
use mathlib.Core.Path.{ap₂, subst}
use native.Mathlib.Nat.{mod-lt}
use e3controller.Common.{
  ℕ, zero, suc, sym, ◌+◌, ◌-◌, ◌/◌, ◌^◌, ◌*◌, ◌≤◌, ◌<◌, ◌≡◌, refl, ap, ◌∙◌, none, some, List, ◌++◌,
  length, length-append, get_or, get_or-append_left, get_or-append_right, arith,
}
use e3controller.Bfp.{
  byte, sign_extend, extract_9bit, scale, prb_loop, prbs_loop, decompress_bfp_9bit,
}
use e3controller.Bfp.Bits.{packed, field, raw_9bit-field, scaled_value, scale-value}

-- The value `i` of a block: the nine bits at `9 * i` of the 27 bytes after its first, a number in two's
-- complement, times two to the power of the whole first byte, as an int16.
abbrev pub block_value : (ℕ → ℕ) → ℕ → ℕ
block_value block i = scaled_value (field (λ k. block (1 + k)) i) (byte block 0)

abbrev block_at : (ℕ → ℕ) → ℕ → ℕ → ℕ
block_at bytes prb k = bytes (prb * 28 + k)

-- The first byte of each block, by which its values are shifted, is below 32.
abbrev pub Shifts : (ℕ → ℕ) → ℕ → Type 0
Shifts bytes num_prbu = (q : ℕ) → q < num_prbu → byte (λ k. bytes (q * 28 + k)) 0 < 32

module _ (wide_shift : ℕ → ℕ → ℕ) where
  length-prb_loop : (n : ℕ) (block : ℕ → ℕ) (i : ℕ) → length (prb_loop wide_shift n block i) ≡ n
  unfolding prb_loop
  length-prb_loop zero block i = refl
  length-prb_loop (suc n) block i = ap suc (length-prb_loop n block (i + 1))

  entry_value :
      (block : ℕ → ℕ) (i : ℕ)
      → byte block 0 < 32
      → i < 24
      → scale wide_shift (extract_9bit (λ k. block (1 + k)) (i * 9)) (byte block 0)
        ≡ block_value block i
  unfolding extract_9bit
  entry_value block i shift k =
      ap (λ r. scale wide_shift (sign_extend r) (byte block 0))
        (raw_9bit-field (λ m. block (1 + m)) i k)
      ∙ scale-value wide_shift (field (λ m. block (1 + m)) i) (byte block 0)
          (mod-lt (packed (λ m. block (1 + m)) 27 / 2 ^ (207 - 9 * i)) (omega arith)) shift

  prb_loop-entry :
      (n : ℕ) (block : ℕ → ℕ) (i j : ℕ)
      → byte block 0 < 32
      → i + n ≤ 24
      → j < n
      → get_or (prb_loop wide_shift n block i) j 0 ≡ block_value block (i + j)
  unfolding prb_loop
  prb_loop-entry zero block i j shift h k = absurd (omega arith)
  prb_loop-entry (suc n) block i zero shift h k =
      entry_value block i shift (omega arith) ∙ ap (λ m. block_value block m) (omega arith)
  prb_loop-entry (suc n) block i (suc j) shift h k =
      prb_loop-entry n block (i + 1) j shift (omega arith) (omega arith)
      ∙ ap (λ m. block_value block m) (omega arith)

  length-prbs_loop :
      (n : ℕ) (bytes : ℕ → ℕ) (p : ℕ) → length (prbs_loop wide_shift n bytes p) ≡ n * 24
  unfolding prbs_loop
  length-prbs_loop zero bytes p = refl
  length-prbs_loop (suc n) bytes p = omega (
    arith,
    length-append (prb_loop wide_shift 24 (block_at bytes p) 0)
        (prbs_loop wide_shift n bytes (p + 1)),
    length-prb_loop 24 (block_at bytes p) 0,
    length-prbs_loop n bytes (p + 1),
  )

  prbs_loop-entry :
      (n : ℕ) (bytes : ℕ → ℕ) (p q i : ℕ)
      → byte (block_at bytes (p + q)) 0 < 32
      → q < n
      → i < 24
      → get_or (prbs_loop wide_shift n bytes p) (q * 24 + i) 0
        ≡ block_value (block_at bytes (p + q)) i
  unfolding prbs_loop
  prbs_loop-entry zero bytes p q i shift h k = absurd (omega arith)
  prbs_loop-entry (suc n) bytes p zero i shift h k =
      let first = prb_loop wide_shift 24 (block_at bytes p) 0 in
      let rest = prbs_loop wide_shift n bytes (p + 1) in
      let len : length first ≡ 24 = length-prb_loop 24 (block_at bytes p) 0 in
      let here : p ≡ p + 0 = omega arith in
      let from_zero : 0 + i ≡ i = omega arith in
      let start : 0 * 24 + i ≡ i = omega arith in
      ap (λ m. get_or (first ++ rest) m 0) start
      ∙ get_or-append_left first rest i 0 (omega (arith, len))
      ∙ prb_loop-entry 24 (block_at bytes p) 0 i
          (subst (λ m. byte (block_at bytes m) 0 < 32) (sym here) shift) (omega arith) k
      ∙ ap₂ (λ m r. block_value (block_at bytes m) r) here from_zero
  prbs_loop-entry (suc n) bytes p (suc q) i shift h k =
      let first = prb_loop wide_shift 24 (block_at bytes p) 0 in
      let rest = prbs_loop wide_shift n bytes (p + 1) in
      let len : length first ≡ 24 = length-prb_loop 24 (block_at bytes p) 0 in
      let index : suc q * 24 + i ≡ length first + (q * 24 + i) = omega (arith, len) in
      let along : p + 1 + q ≡ p + suc q = omega arith in
      ap (λ m. get_or (first ++ rest) m 0) index
      ∙ get_or-append_right first rest (q * 24 + i) 0
      ∙ prbs_loop-entry n bytes (p + 1) q i
          (subst (λ m. byte (block_at bytes m) 0 < 32) (sym along) shift) (omega arith) k
      ∙ ap (λ m. block_value (block_at bytes m) i) along

  -- Where the first byte of each block is below 32, and given 28 bytes to a block at least, the call
  -- succeeds with 24 values to a block: the value `i` of block `q` is the nine bits at `9 * i` of the
  -- 27 bytes after the block's first, as a number in two's complement, times two to the power of that
  -- first byte, modulo 2 ^ 16. Given fewer bytes, the call fails.
  pub decompress-entries :
      (bytes : ℕ → ℕ) (data_len num_prbu : ℕ)
      → Shifts bytes num_prbu
      → (num_prbu * 28 ≤ data_len
          → (out : List ℕ) × (decompress_bfp_9bit wide_shift bytes data_len num_prbu ≡ some out)
            × (length out ≡ num_prbu * 24)
            × ((q i : ℕ)
                → q < num_prbu
                → i < 24
                → get_or out (q * 24 + i) 0 ≡ block_value (λ k. bytes (q * 28 + k)) i))
        × (data_len < num_prbu * 28 → decompress_bfp_9bit wide_shift bytes data_len num_prbu ≡ none)
  unfolding decompress_bfp_9bit
  decompress-entries bytes data_len num_prbu shifts =
      let shift_at = λ (q : ℕ) (a : q < num_prbu).
        (let same : q ≡ 0 + q = omega arith in
          subst (λ m. byte (block_at bytes m) 0 < 32) same (shifts q a)) in
      (
        λ h. (
          prbs_loop wide_shift num_prbu bytes 0,
          ground arith,
          length-prbs_loop num_prbu bytes 0,
          λ q i a b.
              prbs_loop-entry num_prbu bytes 0 q i (shift_at q a) a b
              ∙ ap (λ m. block_value (block_at bytes m) i) (omega arith),
        ),
        λ h. ground arith,
      )
