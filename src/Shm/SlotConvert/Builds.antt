-- ===== src/Shm/SlotConvert/Builds.antt =====
-- What the builds of the row conversion write: the tail of the vector loop is empty where eight divides
-- the length, and the rounds are enough.
use e3controller.Common.{
  ℕ, zero, suc, ◌+◌, ◌-◌, ◌*◌, ◌%◌, ◌≡◌, refl, sym, ap, ◌∙◌, Bool-cases, inl, inr, leb, leb→le,
  if◌then◌else◌, arith,
}
use e3controller.Shm.Memory.{
  Mem, convert_loop, store_lanes, vector_loop, vector_loop-eq-convert_loop,
}
use e3controller.Shm.Writer.{convert_ports}
use e3controller.Shm.SlotConvert.{
  Build, avx2, neon, scalar, lane_loop, convert_ant, ants_loop, has_vector_path,
}

lane_loop-vector :
    (fuel n : ℕ) (lane value : ℕ → ℕ) (dst i : ℕ) (m : Mem)
    → (n - i) % 8 ≡ 0
    → lane_loop fuel n lane value dst i m ≡ vector_loop fuel n lane dst i m
unfolding lane_loop vector_loop convert_loop
lane_loop-vector zero n lane value dst i m h = refl
lane_loop-vector (suc fuel) n lane value dst i m h = elim (Bool-cases (leb (i + 8) n)) [
  | inl more ↦ rw more (
      lane_loop-vector fuel n lane value dst (i + 8) (store_lanes lane dst i m)
        (omega (arith, h, leb→le _ _ more)))
  | inr done ↦
      let none : n - i ≡ 0 = ground (arith, h, done) in
      rw done (
        ap (λ k. convert_loop k value dst i m) none
        ∙ sym (ap (λ k. convert_loop k lane dst i m) none))
]

-- The conversion that counts in a build.
abbrev pub chosen : Build → (by_lane by_scalar : ℕ → ℕ → ℕ) → ℕ → ℕ → ℕ
chosen build by_lane by_scalar scale x =
    if has_vector_path build then by_lane scale x else by_scalar scale x

convert_ant-chosen :
    (build : Build) (lane value : ℕ → ℕ) (dst n : ℕ) (m : Mem)
    → n % 8 ≡ 0
    → convert_ant build lane value dst n m
      ≡ vector_loop (n + 1) n (λ i. if has_vector_path build then lane i else value i) dst 0 m
unfolding convert_ant
convert_ant-chosen avx2 lane value dst n m h =
    lane_loop-vector (n + 1) n lane value dst 0 m (omega (arith, h))
convert_ant-chosen neon lane value dst n m h =
    lane_loop-vector (n + 1) n lane value dst 0 m (omega (arith, h))
convert_ant-chosen scalar lane value dst n m h =
    let whole : n ≡ n - 0 = omega arith in
    ap (λ k. convert_loop k value dst 0 m) whole
    ∙ sym (vector_loop-eq-convert_loop (n + 1) n value dst 0 m (omega arith))

pub ants_loop-eq-convert_ports :
    (build : Build) (left n a : ℕ) (lane value : ℕ → ℕ) (dst : ℕ) (m : Mem)
    → n % 8 ≡ 0
    → ants_loop build left n a lane value dst m
      ≡ convert_ports left n a (λ i. if has_vector_path build then lane i else value i) dst m
unfolding ants_loop convert_ports
ants_loop-eq-convert_ports build zero n a lane value dst m h = refl
ants_loop-eq-convert_ports build (suc left) n a lane value dst m h =
    let next =
      convert_ant build (λ i. lane (a * n + i)) (λ i. value (a * n + i)) (dst + a * n) n m in
    ants_loop-eq-convert_ports build left n (a + 1) lane value dst next h
    ∙ ap (convert_ports left n (a + 1) (λ i. if has_vector_path build then lane i else value i) dst)
        (convert_ant-chosen build (λ i. lane (a * n + i)) (λ i. value (a * n + i)) (dst + a * n) n m
          h)
