-- ===== src/Bfp/Bits.antt =====
-- The bit extraction against the packed number that it reads.
use mathlib.Core.Path.{subst}
use native.Mathlib.Nat.{mod-lt}
use e3controller.Common.{
  ℕ, zero, suc, ◌+◌, ◌-◌, ◌*◌, ◌/◌, ◌%◌, ◌^◌, ◌≤◌, ◌<◌, ◌≡◌, inl, inr, ltb, arith, Bool-cases,
  ltb→lt, lt→ltb, if◌then◌else◌, ◌∙◌, ap, true, false, ◌!=◌,
}
use e3controller.Bfp.{byte, window_at, raw_9bit, sign_extend, scale}

-- The number that the first `n` bytes spell, most significant first.
abbrev pub packed : (ℕ → ℕ) → ℕ → ℕ
packed bytes zero = 0
packed bytes (suc n) = packed bytes n * 256 + byte bytes n

-- The nine bits at `9 * i`, of the 216 bits that 27 bytes spell.
abbrev pub field : (ℕ → ℕ) → ℕ → ℕ
field bytes i = packed bytes 27 / 2 ^ (207 - 9 * i) % 512

raw_range : (bytes : ℕ → ℕ) (o : ℕ) → raw_9bit bytes o < 512
unfolding raw_9bit
raw_range bytes o = mod-lt (window_at bytes o / 2 ^ (24 - o % 8 - 9)) (omega arith)

-- A property of the first `n` numbers, one by one.
abbrev All : (ℕ → Type 0) → ℕ → Type 0
All P zero = Unit
All P (suc n) = All P n × P n

All-lookup : (P : ℕ → Type 0) (n : ℕ) → All P n → (i : ℕ) → i < n → P i
All-lookup P zero ps i h = absurd (omega arith)
All-lookup P (suc n) (ps, p) i h = elim (Bool-cases (ltb i n)) [
  | inl b ↦ All-lookup P n ps i (ltb→lt i n b)
  | inr b ↦ let e : n ≡ i = ground arith in subst P e p
]

fields : (bytes : ℕ → ℕ) → All (λ i. raw_9bit bytes (i * 9) ≡ field bytes i) 24
unfolding raw_9bit window_at
fields bytes = (
  (
    (
      (
        (
          (
            (
              (
                (
                  (
                    (
                      (
                        (
                          (
                            (
                              (
                                (
                                  (
                                    (
                                      (
                                        (
                                          (((tt, omega arith), omega arith), omega arith),
                                          omega arith,
                                        ),
                                        omega arith,
                                      ),
                                      omega arith,
                                    ),
                                    omega arith,
                                  ),
                                  omega arith,
                                ),
                                omega arith,
                              ),
                              omega arith,
                            ),
                            omega arith,
                          ),
                          omega arith,
                        ),
                        omega arith,
                      ),
                      omega arith,
                    ),
                    omega arith,
                  ),
                  omega arith,
                ),
                omega arith,
              ),
              omega arith,
            ),
            omega arith,
          ),
          omega arith,
        ),
        omega arith,
      ),
      omega arith,
    ),
    omega arith,
  ),
  omega arith,
)

-- The extraction reads the field, though its window is three bytes wide: the byte past the
-- block, which the last value's window takes in, does not enter.
pub raw_9bit-field : (bytes : ℕ → ℕ) (i : ℕ) → i < 24 → raw_9bit bytes (i * 9) ≡ field bytes i
raw_9bit-field bytes i h =
    All-lookup (λ k. raw_9bit bytes (k * 9) ≡ field bytes k) 24 (fields bytes) i h

-- The nine bits `raw` as a number in two's complement, times a power of two, as an int16.
abbrev pub scaled_value : (raw exponent : ℕ) → ℕ
scaled_value raw exponent =
    if ltb raw 256
    then raw * 2 ^ exponent % 2 ^ 16
    else (2 ^ 16 - (512 - raw) * 2 ^ exponent % 2 ^ 16) % 2 ^ 16

times_sum : (a b p : ℕ) → a * p + b * p ≡ (a + b) * p
times_sum a b p = grind arith

low_bits : (x : ℕ) → x % 2 ^ 32 % 2 ^ 16 ≡ x % 2 ^ 16
low_bits x = omega arith

low_half : (x t k : ℕ) → x + t ≡ 2 ^ 32 * k → x % 2 ^ 32 % 2 ^ 16 ≡ (2 ^ 16 - t % 2 ^ 16) % 2 ^ 16
low_half x t k h = omega (arith, h)

-- The promotion of a field that is extended with ones is 512 - raw short of 2 ^ 32.
negative_scaled :
    (raw p : ℕ)
    → 256 ≤ raw
    → raw < 512
    → (raw + 0xfe00 + 0xffff0000) * p % 2 ^ 32 % 2 ^ 16
      ≡ (2 ^ 16 - (512 - raw) * p % 2 ^ 16) % 2 ^ 16
negative_scaled raw p lo hi =
    let whole : raw + 0xfe00 + 0xffff0000 + (512 - raw) ≡ 2 ^ 32 = omega arith in
    low_half ((raw + 0xfe00 + 0xffff0000) * p) ((512 - raw) * p) p
      (times_sum (raw + 0xfe00 + 0xffff0000) (512 - raw) p ∙ ap (λ n. n * p) whole)

-- Below a shift of 32, the scaling of the extended field is that of the number in two's complement.
pub scale-value :
    (wide_shift : ℕ → ℕ → ℕ) (raw e : ℕ)
    → raw < 512
    → e < 32
    → scale wide_shift (sign_extend raw) e ≡ scaled_value raw e
unfolding scale sign_extend
scale-value wide_shift raw e h k = elim (Bool-cases (ltb raw 256)) [
  | inl t ↦
      let lo = ltb→lt raw 256 t in
      let plain : (raw / 256 % 2 != 0) ≡ false = ground (arith, lo) in
      let positive : ltb raw 0x8000 ≡ true = ground (arith, lo) in
      rw (lt→ltb e 32 k, plain, positive, t) (low_bits (raw * 2 ^ e))
  | inr f ↦
      let hi : 256 ≤ raw = ground (arith, f) in
      let extended : (raw / 256 % 2 != 0) ≡ true = ground (arith, hi, h) in
      let negative : ltb (raw + 0xfe00) 0x8000 ≡ false = ground (arith, hi, h) in
      rw (lt→ltb e 32 k, extended, negative, f) (negative_scaled raw (2 ^ e) hi h)
]
