-- ===== src/Bfp/Tests.antt =====
-- The decompression of one block: exponent 2, and the fields 1, -1, then zeros.
use e3controller.Common.{
  ℕ, zero, suc, arith, ◌+◌, ◌*◌, ◌≤◌, ◌<◌, ◌≡◌, refl, none, some, List, [], ◌∷◌, length, get_or,
}
use e3controller.Bfp.{decompress_bfp_9bit, scale, sign_extend, raw_9bit}
use e3controller.Bfp.Output.{block_value, Shifts, decompress-entries}

-- 0x02, then 000000001 111111111 0...
abbrev sample_bytes : ℕ → ℕ
sample_bytes i = get_or (2 ∷ 0 ∷ 255 ∷ 192 ∷ []) i 0

abbrev undefined : ℕ → ℕ → ℕ
undefined mantissa exponent = 0

shifts : Shifts sample_bytes 1
shifts zero h = omega arith
shifts (suc q) h = absurd (omega arith)

first_values : decompress_bfp_9bit undefined sample_bytes 27 1 ≡ none
unfolding decompress_bfp_9bit
first_values = refl

two_values :
    (scale undefined (sign_extend (raw_9bit (λ k. sample_bytes (1 + k)) 0)) 2 ≡ 4)
    × (scale undefined (sign_extend (raw_9bit (λ k. sample_bytes (1 + k)) 9)) 2 ≡ 0xfffc)
unfolding scale sign_extend raw_9bit
two_values = (refl, refl)

decompress-entries_example :
    (1 * 28 ≤ 28
      → (out : List ℕ) × (decompress_bfp_9bit undefined sample_bytes 28 1 ≡ some out)
        × (length out ≡ 1 * 24)
        × ((q i : ℕ)
            → q < 1
            → i < 24
            → get_or out (q * 24 + i) 0 ≡ block_value (λ k. sample_bytes (q * 28 + k)) i))
    × (28 < 1 * 28 → decompress_bfp_9bit undefined sample_bytes 28 1 ≡ none)
decompress-entries_example = decompress-entries undefined sample_bytes 28 1 shifts
