-- ===== src/Shm/Writer/Open.antt =====
-- When `open` of `ShmIqWriter` opens the region.
use Prim.Native.String.{String}
use native.Mathlib.Nat.{mod-eq_of_lt}
use e3controller.Common.{
  ℕ, ◌+◌, ◌-◌, ◌*◌, ◌/◌, ◌%◌, ◌^◌, ◌≤◌, ◌<◌, ◌≡◌, refl, Bool, true, false, ltb, lt→ltb,
  if◌then◌else◌, ok, arith, ◌==◌,
}
use e3controller.Config.Geometry.{RadioGeometry, validate, row_bytes}
use e3controller.Config.Geometry.Laws.{row_bytes_exact}
use e3controller.Config.Types.{ShmWriter}
use e3controller.Shm.Writer.{ShmIqWriter, OsOutcome, open_shm, lay_out}
use e3controller.Shm.Writer.Ring.{IsOpen}

-- The rows that fit into one buffer.
abbrev pub rows_of : ℕ → ℕ → ℕ
rows_of total_size size = (total_size - 64) / 2 / size

pub div_times : (u s : ℕ) → 0 < s → u / s * s ≤ u
div_times u s h = grind arith

pub times_le : (q a b : ℕ) → a ≤ b → q * a ≤ q * b
times_le q a b h = grind arith

pub div_above : (u s : ℕ) → 0 < s → u < u / s * s + s
div_above u s h = grind arith

div_pos : (u s : ℕ) → 0 < s → s ≤ u → 0 < u / s
div_pos u s h k = grind arith

div_le : (u s : ℕ) → u / s ≤ u
div_le u s = grind arith

abbrev Opened : ShmIqWriter × Bool → ℕ → RadioGeometry → ShmWriter → Type 0
Opened r total_size g writer =
    (r.1 ≡ true)
    × IsOpen r.0
    × (r.0.num_rows ≡ rows_of total_size (row_bytes g))
    × (r.0.writer ≡ writer)
    × (r.0.next_row ≡ 0)
    × (r.0.next_buf ≡ 0)

-- The sizes that `open` computes, none of which wraps.
lay_out_sizes :
    (total_size : ℕ) (g : RadioGeometry)
    → validate g ≡ ok tt
    → 64 < total_size
    → row_bytes g ≤ (total_size - 64) / 2
    → total_size ≤ 2 ^ 33
    → let usable = if ltb 64 total_size then total_size - 64 else 0 in
      let rows = usable / 2 / row_bytes g % 2 ^ 32 in
      (rows ≡ rows_of total_size (row_bytes g))
      × ((rows == 0) ≡ false)
      × (rows < 2 ^ 32)
      × (rows * row_bytes g % 2 ^ 32 ≡ rows * row_bytes g)
      × (64 + 2 * (rows * row_bytes g % 2 ^ 32) ≤ total_size)
lay_out_sizes total_size g valid header room small =
    let (_, _, _, _, pos_row, _) = row_bytes_exact g valid in
    let u = (total_size - 64) / 2 in
    rw (lt→ltb 64 total_size header) (
      ground (
        arith,
        div_times u (row_bytes g) pos_row,
        div_pos u (row_bytes g) pos_row room,
        div_le u (row_bytes g),
        mod-eq_of_lt {n = u / row_bytes g} {m = 2 ^ 32} (omega (arith, div_le u (row_bytes g))),
      ))

lay_out-Opened :
    (w : ShmIqWriter) (total_size : ℕ) (g : RadioGeometry) (scale : ℕ) (writer : ShmWriter)
    → validate g ≡ ok tt
    → 64 < total_size
    → row_bytes g ≤ (total_size - 64) / 2
    → total_size ≤ 2 ^ 33
    → Opened (lay_out w total_size g scale writer) total_size g writer
unfolding lay_out
lay_out-Opened w total_size g scale writer valid header room small =
    let (_, samples, size, _, pos_row, _) = row_bytes_exact g valid in
    let (rows, nonzero, lt, wrap, fits) = lay_out_sizes total_size g valid header room small in
    rw nonzero (
      refl,
      record {
        mapped = refl;
        geometry = valid;
        samples = refl;
        size = size;
        nonempty = pos_row;
        buffers = refl;
        rows = (ground arith, lt);
        stride = wrap;
        fits = fits;
        row_in = ground arith;
        buf_in = omega arith;
      },
      rows,
      refl,
      refl,
      refl,
    )

-- Where the system calls succeed on an object that is not open yet, a valid geometry whose row fits
-- into each of two buffers opens the region, with the cursor on the first row. The size is below
-- 8 GiB, past which the uint32 buffer size wraps.
pub open_shm-IsOpen :
    (os : OsOutcome) (w : ShmIqWriter) (name : String) (total_size : ℕ) (g : RadioGeometry)
    (scale : ℕ) (writer : ShmWriter)
    → w.is_mapped ≡ false
    → (os.shm_open_ok ≡ true) × (os.ftruncate_ok ≡ true) × (os.mmap_ok ≡ true)
    → validate g ≡ ok tt
    → 64 < total_size
    → row_bytes g ≤ (total_size - 64) / 2
    → total_size ≤ 2 ^ 33
    → let (w', opened) = open_shm os w name total_size g scale writer in
      (opened ≡ true)
      × IsOpen w'
      × (w'.num_rows ≡ rows_of total_size (row_bytes g))
      × (w'.writer ≡ writer)
      × (w'.next_row ≡ 0)
      × (w'.next_buf ≡ 0)
unfolding open_shm
open_shm-IsOpen os w name total_size g scale writer m (o₁, o₂, o₃) valid header room small =
    rw (m, o₁, o₂, o₃) (lay_out-Opened _ total_size g scale writer valid header room small)
