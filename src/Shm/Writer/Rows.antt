-- ===== src/Shm/Writer/Rows.antt =====
-- What a published row holds, cell by cell.
use e3controller.Common.{
  ℕ, zero, suc, ◌+◌, ◌-◌, ◌*◌, ◌/◌, ◌%◌, ◌≤◌, ◌<◌, ◌≡◌, ap, ◌∙◌, ℤ, true, if◌then◌else◌, arith,
}
use e3controller.Config.Geometry.{u16_per_ant, nof_subcarriers}
use e3controller.Config.Geometry.Laws.{row_bytes_exact, validate_iff, ant_sizes, times_ports}
use e3controller.Shm.Memory.{
  Mem, within, convert_loop, convert_loop_lem, zero_cells_lem, vector_loop,
  vector_loop-eq-convert_loop,
}
use e3controller.Shm.Writer.{
  ShmIqWriter, writes_rows, row_cell, advance, publish_row, publish_row_cbf16, clear_tail,
  convert_ports, clamp_ports,
}
use e3controller.Shm.Writer.Ring.{IsOpen}

value_at :
    (value : ℕ → ℕ) (dst k j : ℕ) → dst + k ≤ j → value (k + (j - (dst + k))) ≡ value (j - dst)
value_at value dst k j h = ap value (omega arith)

-- One antenna: the vector loop over its cells.
ant_loop_lem :
    (n k : ℕ) (value : ℕ → ℕ) (dst : ℕ) (m : Mem) (j : ℕ)
    → vector_loop (n + 1) n (λ i. value (k + i)) (dst + k) 0 m j
      ≡ (if within (dst + k) n j then value (j - dst) else m j)
ant_loop_lem n k value dst m j = ground (
  arith,
  ap (λ f. f j)
      (vector_loop-eq-convert_loop (n + 1) n (λ i. value (k + i)) (dst + k) 0 m (omega arith)),
  convert_loop_lem (n - 0) (λ i. value (k + i)) (dst + k) 0 m j,
  value_at value dst k j,
)

pub convert_ports_lem :
    (left n a : ℕ) (value : ℕ → ℕ) (dst : ℕ) (m : Mem) (j : ℕ)
    → convert_ports left n a value dst m j
      ≡ (if within (dst + a * n) (left * n) j then value (j - dst) else m j)
unfolding convert_ports
convert_ports_lem zero n a value dst m j = ground arith
convert_ports_lem (suc left) n a value dst m j = ground (
  arith,
  convert_ports_lem left n (a + 1) value dst
      (vector_loop (n + 1) n (λ i. value (a * n + i)) (dst + a * n) 0 m) j,
  ant_loop_lem n (a * n) value dst m j,
)

clear_tail_lem :
    (w : ShmIqWriter) (written : ℕ) (m : Mem) (j : ℕ)
    → written * 2 ≤ w.row_size
    → w.row_size % 2 ≡ 0
    → clear_tail w written m j
      ≡ (if within (row_cell w + written) (w.row_size / 2 - written) j then 0 else m j)
unfolding clear_tail
clear_tail_lem w written m j h e =
    ground (arith, zero_cells_lem (row_cell w + written) ((w.row_size - written * 2) / 2) m j)

cells-advance : (w : ShmIqWriter) → (advance w).cells ≡ w.cells
unfolding advance
cells-advance w = ground arith

pub clamp_ports-le : (capacity n : ℕ) → clamp_ports capacity n ≤ capacity
unfolding clamp_ports
clamp_ports-le capacity n = ground arith

clamp_ports-pos : (capacity n : ℕ) → 0 < capacity → 0 < clamp_ports capacity n
unfolding clamp_ports
clamp_ports-pos capacity n h = ground arith

times_mono : (a b n : ℕ) → a ≤ b → a * n ≤ b * n
times_mono a b n h = grind arith

-- The number of cells that the antennas of a slot fill, against the row's.
filled_cells :
    {w : ShmIqWriter} (nof_ports : ℕ)
    → IsOpen w
    → let ports = clamp_ports w.geom.nof_ports nof_ports in
      (ports * u16_per_ant w.geom ≤ w.num_samples) × (0 < ports)
filled_cells {w} nof_ports v =
    let r = (validate_iff w.geom).0 v.geometry in
    let (_, total, _, _, _, _) = row_bytes_exact w.geom v.geometry in
    (
      omega (
        arith,
        v.samples,
        total,
        times_mono (clamp_ports w.geom.nof_ports nof_ports) w.geom.nof_ports (u16_per_ant w.geom)
            (clamp_ports-le w.geom.nof_ports nof_ports),
      ),
      clamp_ports-pos w.geom.nof_ports nof_ports r.ports.0,
    )

row_cells :
    (w : ShmIqWriter) (value : ℕ → ℕ) (ports n j : ℕ)
    → ports * n ≤ w.num_samples
    → w.row_size ≡ 2 * w.num_samples
    → (if within (row_cell w + ports * n) (w.row_size / 2 - ports * n) j
        then 0
        else convert_ports ports n 0 value (row_cell w) w.cells j)
      ≡ (if within (row_cell w) (ports * n) j
          then value (j - row_cell w)
          else if within (row_cell w + ports * n) (w.num_samples - ports * n) j
          then 0
          else w.cells j)
row_cells w value ports n j fits e =
    ground (arith, convert_ports_lem ports n 0 value (row_cell w) w.cells j)

-- After the cbf16 path has published a slot, the row that it reports holds each delivered antenna
-- converted, in the blob's order, and zeros in the antennas that were not delivered; every other
-- cell of the region is as before.
pub publish_row_cbf16-cells :
    {w : ShmIqWriter} (convert : ℕ → ℕ → ℕ) (iq : ℕ → ℕ) (nof_ports j : ℕ)
    → IsOpen w
    → writes_rows w ≡ true
    → let filled = clamp_ports w.geom.nof_ports nof_ports * u16_per_ant w.geom in
      (publish_row_cbf16 convert iq nof_ports w).after.cells j ≡ (
        if within (row_cell w) filled j
        then convert w.cbf16_scale (iq (j - row_cell w))
        else if within (row_cell w + filled) (w.num_samples - filled) j
        then 0
        else w.cells j)
unfolding publish_row_cbf16
publish_row_cbf16-cells {w} convert iq nof_ports j v e =
    let n = u16_per_ant w.geom in
    let ports = clamp_ports w.geom.nof_ports nof_ports in
    let value = λ (i : ℕ). convert w.cbf16_scale (iq i) in
    let (fits, _) = filled_cells nof_ports v in
    rw e (
      ap (λ f. f j) (cells-advance _)
      ∙ clear_tail_lem w (ports * n) _ j (omega (arith, v.size)) (omega (arith, v.size))
      ∙ row_cells w value ports n j fits v.size)

-- The cells of antenna 0 in the int16 path.
pairs_fit :
    {w : ShmIqWriter}
    → IsOpen w
    → (w.geom.nof_symbols * nof_subcarriers w.geom * 2 ≡ u16_per_ant w.geom)
      × (u16_per_ant w.geom ≤ w.num_samples)
pairs_fit {w} v =
    let r = (validate_iff w.geom).0 v.geometry in
    let (_, total, _, _, _, _) = row_bytes_exact w.geom v.geometry in
    let (sc, per_ant, _, _, _) = ant_sizes w.geom r in
    (
      omega (arith, per_ant, ap (λ k. w.geom.nof_symbols * k) sc),
      omega (
        arith,
        v.samples,
        total,
        times_ports w.geom.nof_ports (u16_per_ant w.geom) r.ports.0 r.ports.1,
      ),
    )

int16_cells :
    (w : ShmIqWriter) (value : ℕ → ℕ) (n j : ℕ)
    → n ≤ w.num_samples
    → w.row_size ≡ 2 * w.num_samples
    → (if within (row_cell w + n) (w.row_size / 2 - n) j
        then 0
        else convert_loop n value (row_cell w) 0 w.cells j)
      ≡ (if within (row_cell w) n j
          then value (j - row_cell w)
          else if within (row_cell w + n) (w.num_samples - n) j
          then 0
          else w.cells j)
int16_cells w value n j fits e = ground (arith, convert_loop_lem n value (row_cell w) 0 w.cells j)

-- After the int16 path has published a slot, antenna 0 of the reported row holds the converted
-- samples, its other antennas are zero, and every other cell of the region is as before.
pub publish_row-cells :
    {w : ShmIqWriter} (convert : ℤ → ℕ) (iq : ℕ → ℤ) (j : ℕ)
    → IsOpen w
    → writes_rows w ≡ true
    → let filled = u16_per_ant w.geom in
      (publish_row convert iq w).after.cells j ≡ (
        if within (row_cell w) filled j
        then convert (iq (j - row_cell w))
        else if within (row_cell w + filled) (w.num_samples - filled) j
        then 0
        else w.cells j)
unfolding publish_row
publish_row-cells {w} convert iq j v e =
    let value = λ (i : ℕ). convert (iq i) in
    let (pairs, fits) = pairs_fit v in
    rw (e, pairs)
      (ap (λ f. f j) (cells-advance _)
        ∙ clear_tail_lem w (u16_per_ant w.geom) _ j (omega (arith, v.size)) (omega (arith, v.size))
        ∙ int16_cells w value (u16_per_ant w.geom) j fits v.size)
