-- ===== src/Shm/Convert/Rounding.antt =====
-- The rounding of `int16_to_fp16`, by evaluation at every magnitude of an int16.
use mathlib.Core.Path.{subst}
use e3controller.Common.{
  ℕ, zero, suc, ◌+◌, ◌-◌, ◌*◌, ◌/◌, ◌%◌, ◌^◌, ◌≤◌, ◌<◌, ◌≡◌, refl, pos, negsuc, Bool, true, ◌&&◌,
  ◌||◌, Bool-cases, sym, inl, inr, ==→eq, ltb→lt, leb, ◌==◌, ◌!=◌, ltb, arith,
}
use e3controller.Shm.Convert.{UndefinedShift, fp16_of, int16_to_fp16}

-- What a positive normal half stands for, in units of 2^-25: a mantissa of 11 bits, shifted.
abbrev pub decode : ℕ → ℕ
decode h = (1024 + h % 1024) * 2 ^ (h / 1024)

abbrev pub distance : ℕ → ℕ → ℕ
distance a b = (a - b) + (b - a)

-- `h` is the half nearest to n / 2048, the even one where two are equally near; in units of 2^-25
-- an integer n / 2048 is n * 2^14, and neighbours of `h` are 2^(h / 1024) apart.
nearest : ℕ → ℕ → Bool
nearest n h =
    let d = 2 * distance (decode h) (n * 2 ^ 14) in
    let ulp = 2 ^ (h / 1024) in leb d ulp && (d != ulp || h % 2 == 0)

check : UndefinedShift → ℕ → Bool
unfolding nearest
check u n =
    let h = fp16_of u 0 n in
    nearest n h && fp16_of u 0x8000 n == 0x8000 + h && leb 1024 h && ltb h 0x7c00

both : {a b : Bool} → (a && b) ≡ true → (a ≡ true) × (b ≡ true)
both {a} {b} h = ground arith

all_from : ℕ → ℕ → (ℕ → Bool) → Bool
all_from zero n p = true
all_from (suc k) n p = p n && all_from k (suc n) p

all_from_sound : (k n x : ℕ) (p : ℕ → Bool) → all_from k n p ≡ true → n ≤ x → x < n + k → p x ≡ true
unfolding all_from
all_from_sound zero n x p h lo hi = absurd (omega arith)
all_from_sound (suc k) n x p h lo hi = elim (Bool-cases (x == n)) [
  | inl e ↦ subst (λ m. p m ≡ true) (sym (==→eq x n e)) (both h).0
  | inr e ↦ all_from_sound k (suc n) x p (both h).1 (ground arith) (omega arith)
]

-- One table of 4096 values, by evaluation.
abbrev Table : ℕ → Type 0
Table n = (s : ℕ) → all_from 4096 n (check (record { round_bit = 0; sticky = s })) ≡ true

Table-0 : Table 1
unfolding all_from check fp16_of
Table-0 s = refl

Table-1 : Table 4097
unfolding all_from check fp16_of
Table-1 s = refl

Table-2 : Table 8193
unfolding all_from check fp16_of
Table-2 s = refl

Table-3 : Table 12289
unfolding all_from check fp16_of
Table-3 s = refl

Table-4 : Table 16385
unfolding all_from check fp16_of
Table-4 s = refl

Table-5 : Table 20481
unfolding all_from check fp16_of
Table-5 s = refl

Table-6 : Table 24577
unfolding all_from check fp16_of
Table-6 s = refl

Table-7 : Table 28673
unfolding all_from check fp16_of
Table-7 s = refl

in-Table :
    {m : ℕ} (t : Table m) (u : UndefinedShift) (n : ℕ)
    → u.round_bit ≡ 0
    → m ≤ n
    → n < m + 4096
    → check u n ≡ true
in-Table {m} t u n e lo hi =
    subst (λ r. check (record { round_bit = r; sticky = u.sticky }) n ≡ true) (sym e)
      (all_from_sound 4096 m n (check (record { round_bit = 0; sticky = u.sticky })) (t u.sticky) lo
        hi)

-- A table on top of what is checked below it.
on_top :
    {m : ℕ} (t : Table m) (u : UndefinedShift) (n : ℕ)
    → u.round_bit ≡ 0
    → (n < m → check u n ≡ true)
    → n < m + 4096
    → check u n ≡ true
on_top {m} t u n e below hi = elim (Bool-cases (ltb n m)) [
  | inl b ↦ below (ltb→lt n m b)
  | inr b ↦ in-Table t u n e (ground arith) hi
]

checked : (u : UndefinedShift) (n : ℕ) → u.round_bit ≡ 0 → 0 < n → n ≤ 32768 → check u n ≡ true
checked u n e lo hi =
    on_top Table-7 u n e
      (λ h7.
        on_top Table-6 u n e
          (λ h6.
            on_top Table-5 u n e
              (λ h5.
                on_top Table-4 u n e
                  (λ h4.
                    on_top Table-3 u n e
                      (λ h3.
                        on_top Table-2 u n e
                          (λ h2. on_top Table-1 u n e (λ h1. in-Table Table-0 u n e lo h1) h2) h3)
                      h4)
                  h5)
              h6)
          h7)
      (omega arith)

pub record Nearest (n h : ℕ) : Type 0 where
  pub normal : (1024 ≤ h) × (h < 0x7c00)
  pub close : 2 * distance (decode h) (n * 2 ^ 14) ≤ 2 ^ (h / 1024)
  pub even : 2 * distance (decode h) (n * 2 ^ 14) ≡ 2 ^ (h / 1024) → h % 2 ≡ 0

checked_parts :
    (u : UndefinedShift) (n : ℕ)
    → check u n ≡ true
    → Nearest n (fp16_of u 0 n) × (fp16_of u 0x8000 n ≡ 0x8000 + fp16_of u 0 n)
unfolding check nearest
checked_parts u n h = ground arith

-- At every magnitude of an int16 the conversion gives the normal half that is nearest to the value
-- over 2048, ties to even, and the negative value gets the same half with the sign bit; provided
-- that the shift by -1, met at magnitudes 1024 to 2047, yields a clear round bit.
pub int16_to_fp16-Nearest :
    (u : UndefinedShift) (n : ℕ)
    → u.round_bit ≡ 0
    → suc n ≤ 32768
    → Nearest (suc n) (int16_to_fp16 u (pos (suc n)))
      × (int16_to_fp16 u (negsuc n) ≡ 0x8000 + int16_to_fp16 u (pos (suc n)))
unfolding int16_to_fp16
int16_to_fp16-Nearest u n e h = checked_parts u (suc n) (checked u (suc n) e (omega arith) h)
