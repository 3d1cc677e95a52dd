-- ===== src/Shm/SlotConvert.antt =====
-- The row conversion that the RAN side and the controller share, `convert_ant` and `convert_slot` of
-- codelets/include/e3_slot_convert.h, in each of its three builds. The conversion of one sample at a
-- scale, by a lane of a vector and by `bf16_to_fp16_scalar`, is a parameter.
pub mod Builds
pub mod Agreement
use e3controller.Common.{
  ℕ, zero, suc, ◌+◌, ◌-◌, ◌*◌, ◌%◌, ◌^◌, leb, Bool, true, false, if◌then◌else◌,
}
use e3controller.Shm.Memory.{Mem, convert_loop, store_lanes}
use e3controller.Shm.Writer.{clamp_ports}

-- RowGeometry
pub record RowGeometry : Type 0 where
  pub nof_symbols : ℕ
  pub nof_subcarriers : ℕ
  pub nof_ants : ℕ

-- RowGeometry::u16_per_ant, in size_t.
unfoldable pub u16_per_ant : RowGeometry → ℕ
u16_per_ant g = g.nof_symbols * g.nof_subcarriers * 2 % 2 ^ 64

-- Which path is compiled in.
pub data Build : Type 0 where
  avx2 neon scalar : Build

-- The vector loop: eight lanes to a round, and the scalar conversion for what is left. The fuel bounds
-- the rounds.
unfoldable pub lane_loop : ℕ → ℕ → (lane value : ℕ → ℕ) → ℕ → ℕ → Mem → Mem
lane_loop zero n lane value dst i m = m
lane_loop (suc fuel) n lane value dst i m =
    let rest = lane_loop fuel n lane value dst (i + 8) (store_lanes lane dst i m) in
    if leb (i + 8) n then rest else convert_loop (n - i) value dst i m

-- `convert_ant`, its destination from the cell `dst` on; `lane i` and `value i` are the sample `i`
-- converted by a lane and by the scalar function.
unfoldable pub convert_ant : Build → (lane value : ℕ → ℕ) → (dst n_u16 : ℕ) → Mem → Mem
unfolding lane_loop
convert_ant avx2 lane value dst n_u16 m = lane_loop (n_u16 + 1) n_u16 lane value dst 0 m
convert_ant neon lane value dst n_u16 m = lane_loop (n_u16 + 1) n_u16 lane value dst 0 m
convert_ant scalar lane value dst n_u16 m = convert_loop n_u16 value dst 0 m

-- The loop over the antennas, `left` to go from `a` on.
unfoldable pub ants_loop : Build → ℕ → ℕ → ℕ → (lane value : ℕ → ℕ) → ℕ → Mem → Mem
unfolding convert_ant
ants_loop build zero n a lane value dst m = m
ants_loop build (suc left) n a lane value dst m =
    ants_loop build left n (a + 1) lane value dst
      (convert_ant build (λ i. lane (a * n + i)) (λ i. value (a * n + i)) (dst + a * n) n m)

-- `convert_slot`: the memory after it, and the bytes written.
unfoldable pub convert_slot :
    Build
    → (by_lane by_scalar : ℕ → ℕ → ℕ) → (ℕ → ℕ)
    → RowGeometry
    → (nof_ports scale dst : ℕ) → Mem
    → Mem × ℕ
unfolding ants_loop
convert_slot build by_lane by_scalar src geom nof_ports scale dst m =
    let ports = clamp_ports geom.nof_ants nof_ports in
    let n = u16_per_ant geom in
    (
      ants_loop build ports n 0 (λ i. by_lane scale (src i)) (λ i. by_scalar scale (src i)) dst m,
      ports * n * 2 % 2 ^ 64,
    )

abbrev pub has_vector_path : Build → Bool
has_vector_path avx2 = true
has_vector_path neon = true
has_vector_path scalar = false
