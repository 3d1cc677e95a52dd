-- ===== src/Shm/Writer/Limits.antt =====
-- Where `open` of `ShmIqWriter` fails, what is left behind, and the size past which its buffers overlap.
use Prim.Native.String.{String}
use native.Mathlib.Nat.{mod-eq_of_lt, div-eq_of_lt}
use e3controller.Common.{
  ℕ, zero, suc, ◌+◌, ◌-◌, ◌*◌, ◌/◌, ◌%◌, ◌^◌, ◌≤◌, ◌<◌, ◌≡◌, inl, inr, refl, true, false,
  Bool-cases, ltb, lt→ltb, if◌then◌else◌, ok, arith, ◌==◌,
}
use e3controller.Config.Geometry.{RadioGeometry, validate, u16_per_ant, row_bytes}
use e3controller.Config.Geometry.Laws.{
  row_bytes_exact, validate_iff, ant_sizes, times_ports, u16_per_ant-mod,
}
use e3controller.Config.Types.{ShmWriter}
use e3controller.Shm.Writer.{ShmIqWriter, OsOutcome, open_shm, close, lay_out}
use e3controller.Shm.Writer.Open.{div_times, times_le, div_above}

div_small : (u s : ℕ) → u < s → u / s ≡ 0
div_small u s h = div-eq_of_lt h

pub close_released : (w : ShmIqWriter) → ((close w).is_mapped ≡ false) × ((close w).has_fd ≡ false)
unfolding close
close_released w = ground arith

-- No row fits: the branch that closes again.
lay_out_refused :
    (w : ShmIqWriter) (total_size : ℕ) (g : RadioGeometry) (scale : ℕ) (writer : ShmWriter)
    → (lay_out w total_size g scale writer).1 ≡ true
    → validate g ≡ ok tt
    → (64 < total_size) × (row_bytes g ≤ (total_size - 64) / 2)
unfolding lay_out
lay_out_refused w total_size g scale writer h valid =
    let (_, _, _, _, pos_row, _) = row_bytes_exact g valid in
    ground (arith, div_small ((total_size - 64) / 2) (row_bytes g), div_small 0 (row_bytes g))

lay_out_failed :
    (w : ShmIqWriter) (total_size : ℕ) (g : RadioGeometry) (scale : ℕ) (writer : ShmWriter)
    → let (w', opened) = lay_out w total_size g scale writer in
      opened ≡ false → (w'.is_mapped ≡ false) × (w'.has_fd ≡ false)
unfolding lay_out
lay_out_failed w total_size g scale writer =
    elim (Bool-cases (usable / 2 / row_bytes g % 2 ^ 32 == 0)) [
      | inl e ↦ rw e (λ _. close_released _)
      | inr e ↦ rw e (λ h. cc)
    ]
  where
    usable : ℕ
    usable = if ltb 64 total_size then total_size - 64 else 0

-- An open that fails holds nothing: neither a mapping nor a file descriptor.
pub open_shm-failed :
    (os : OsOutcome) (w : ShmIqWriter) (name : String) (total_size : ℕ) (g : RadioGeometry)
    (scale : ℕ) (writer : ShmWriter)
    → w.is_mapped ≡ false
    → w.has_fd ≡ false
    → let (w', opened) = open_shm os w name total_size g scale writer in
      opened ≡ false → (w'.is_mapped ≡ false) × (w'.has_fd ≡ false)
unfolding open_shm
open_shm-failed os w name total_size g scale writer m f = elim (Bool-cases os.shm_open_ok) [
  | inr e₁ ↦ simp (m, e₁) (λ _. (refl, f))
  | inl e₁ ↦ elim (Bool-cases os.ftruncate_ok) [
    | inr e₂ ↦ simp (m, e₁, e₂) (λ _. (refl, refl))
    | inl e₂ ↦ elim (Bool-cases os.mmap_ok) [
      | inr e₃ ↦ simp (m, e₁, e₂, e₃) (λ _. (refl, refl))
      | inl e₃ ↦ simp (m, e₁, e₂, e₃) (lay_out_failed _ total_size g scale writer)
    ]
  ]
]

nonzero : (q s : ℕ) → 2 ^ 32 ≤ q * s → (q == 0) ≡ false
nonzero zero s h = absurd (omega arith)
nonzero (suc q) s h = ground arith

-- Where the system calls succeed on an object that is not open yet, and the geometry is valid, a region
-- of at least 8 GiB, two rows and 64 bytes, and of at most 64 GiB, opens with a size of its buffers
-- that has wrapped in uint32: the second buffer starts before the rows of the first one end.
pub open_shm-wraps :
    (w : ShmIqWriter) (name : String) (total_size : ℕ) (g : RadioGeometry) (scale : ℕ)
    (writer : ShmWriter)
    → w.is_mapped ≡ false
    → validate g ≡ ok tt
    → 2 ^ 33 + 2 * row_bytes g + 64 ≤ total_size
    → total_size ≤ 2 ^ 36
    → let (w', opened) =
        open_shm
          (record { shm_open_ok = true; ftruncate_ok = true; mmap_ok = true })
          w
          name
          total_size
          g
          scale
          writer in
      (opened ≡ true) × (w'.buffer_size < w'.num_rows * w'.row_size)
unfolding open_shm lay_out
open_shm-wraps w name total_size g scale writer m valid large bound =
    let (_, samples, size, _, _, _) = row_bytes_exact g valid in
    let (_, _, _, pos_ant, _) = ant_sizes g ((validate_iff g).0 valid) in
    let r = (validate_iff g).0 valid in
    let s = row_bytes g in
    let u = (total_size - 64) / 2 in
    let big : 16 ≤ s = omega (
      arith,
      size,
      samples,
      u16_per_ant-mod g,
      times_ports g.nof_ports (u16_per_ant g) r.ports.0 r.ports.1,
    ) in
    let below : u / s < 2 ^ 32 =
      omega (arith, div_times u s (omega arith), times_le (u / s) 16 s big) in
    let above : 2 ^ 32 ≤ u / s * s = omega (arith, div_above u s (omega arith)) in
    rw (m, lt→ltb 64 total_size (omega arith), mod-eq_of_lt below, nonzero (u / s) s above)
      (refl, omega (arith, above))
