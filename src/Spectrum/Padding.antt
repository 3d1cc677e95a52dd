-- ===== src/Spectrum/Padding.antt =====
-- The size of the FFT, and where each subcarrier lands in the padded buffer.
use native.Mathlib.Nat.{pow-suc}
use e3controller.Common.{
  ℕ, zero, suc, ◌+◌, ◌-◌, ◌*◌, ◌/◌, ◌%◌, ◌^◌, ◌≤◌, ◌<◌, ◌≡◌, ◌⊎◌, inl, inr, refl, ap, ◌∙◌,
  Bool-cases, ltb, ltb→lt, if◌then◌else◌, arith,
}
use e3controller.Shm.Memory.{convert_loop, convert_loop_lem, within}
use e3controller.Spectrum.{fft_loop, fft_size_of, padded}

swap_two : (a b : ℕ) → a * 2 * b ≡ a * (b * 2)
swap_two a b = grind arith

doubled : (k fuel : ℕ) → 2 ^ suc k * 2 ^ fuel ≡ 2 ^ k * 2 ^ suc fuel
doubled k fuel = rw (pow-suc 2 k, pow-suc 2 fuel) (swap_two (2 ^ k) (2 ^ fuel))

-- From a power of two on, the loop ends at the first one that is at least `n`, where its fuel
-- reaches that far.
fft_loop_lem :
    (fuel k n : ℕ)
    → n ≤ 2 ^ 31
    → n ≤ 2 ^ k * 2 ^ fuel
    → (2 ^ k ≡ 1) ⊎ (2 ^ k < 2 * n)
    → (j : ℕ) × (fft_loop fuel (2 ^ k) n ≡ 2 ^ j) × (n ≤ 2 ^ j) × ((2 ^ j ≡ 1) ⊎ (2 ^ j < 2 * n))
unfolding fft_loop
fft_loop_lem zero k n h r b = (k, refl, omega arith, b)
fft_loop_lem (suc fuel) k n h r b = elim (Bool-cases (ltb (2 ^ k) n)) [
  | inl more ↦
      let up : 2 ^ k < n = ltb→lt (2 ^ k) n more in
      let next : 2 ^ k * 2 % 2 ^ 32 ≡ 2 ^ suc k = omega (arith, pow-suc 2 k) in
      let reach : n ≤ 2 ^ suc k * 2 ^ fuel = omega (arith, doubled k fuel) in
      let (j, e, l, t) = fft_loop_lem fuel (suc k) n h reach (inr (omega (arith, pow-suc 2 k))) in
      let once : fft_loop (suc fuel) (2 ^ k) n ≡ fft_loop fuel (2 ^ suc k) n =
        rw (more, next) refl in
      (j, once ∙ e, l, t)
  | inr stop ↦ (k, rw (stop) refl, ground arith, b)
]

-- For every number of subcarriers up to 2^31, the size is a power of two, large enough, and the
-- least such: below twice the number.
pub fft_size_of-least :
    (n : ℕ)
    → 0 < n
    → n ≤ 2 ^ 31
    → ((j : ℕ) × (fft_size_of n ≡ 2 ^ j)) × (n ≤ fft_size_of n) × (fft_size_of n < 2 * n)
unfolding fft_size_of
fft_size_of-least n p h =
    let (j, e, l, t) = fft_loop_lem 32 0 n h (omega arith) (inl refl) in
    (
      (j, e),
      omega (arith, e, l),
      elim t [ inl o ↦ omega (arith, e, o) | inr o ↦ omega (arith, e, o) ],
    )

-- A cell of the padded buffer, by where it lies.
padded-cell :
    (iq : ℕ → ℕ) (half j : ℕ)
    → let start = (fft_size_of (half * 2) - half) * 2 in
      padded iq (half * 2) j ≡ (
        if within 0 (half * 2) j
        then iq (half * 2 + j)
        else (if within start (half * 2) j then iq (j - start) else 0))
unfolding padded
padded-cell iq half j =
    let fft = fft_size_of (half * 2) in
    let start = (fft - half) * 2 in
    let halved : half * 2 / 2 ≡ half = omega arith in
    let first = convert_loop (half * 2) iq start 0 (λ i. 0) in
    let second = convert_loop_lem (half * 2) (λ i. iq (half * 2 + i)) 0 0 first j in
    let inner = convert_loop_lem (half * 2) iq start 0 (λ i. 0) j in
    rw (halved) (ground (arith, second, inner))

-- The padded buffer of an even number of subcarriers is the centred mapping: the subcarriers of the
-- first half stand at the end of the FFT's bins, those of the second half at its start, each with
-- both its values, and every bin between them is zero.
pub padded-centred :
    (iq : ℕ → ℕ) (half c : ℕ)
    → 0 < half
    → half ≤ 2 ^ 30
    → c < 2
    → let n = half * 2 in
      let fft = fft_size_of n in
      ((k : ℕ) → k < half → padded iq n ((fft - half + k) * 2 + c) ≡ iq (k * 2 + c))
      × ((k : ℕ) → k < half → padded iq n (k * 2 + c) ≡ iq ((half + k) * 2 + c))
      × ((j : ℕ) → half ≤ j → j < fft - half → padded iq n (j * 2 + c) ≡ 0)
padded-centred iq half c p h low =
    let (pow, enough, tight) = fft_size_of-least (half * 2) (omega arith) (omega arith) in
    let fft = fft_size_of (half * 2) in
    (
      λ k b.
          let at : (fft - half + k) * 2 + c - (fft - half) * 2 ≡ k * 2 + c = omega arith in
          ground (arith, padded-cell iq half ((fft - half + k) * 2 + c), ap iq at),
      λ k b.
          let at : half * 2 + (k * 2 + c) ≡ (half + k) * 2 + c = omega arith in
          ground (arith, padded-cell iq half (k * 2 + c), ap iq at),
      λ j l r. ground (arith, padded-cell iq half (j * 2 + c)),
    )
