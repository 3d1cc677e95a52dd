-- ===== src/Shm/Writer/Tests.antt =====
-- The theorems of the writer at concrete objects.
use e3controller.Common.{
  ℕ, ◌+◌, ◌-◌, ◌*◌, ◌^◌, ◌≤◌, ◌<◌, ◌≡◌, refl, true, [], ◌∷◌, ok, arith, if◌then◌else◌,
}
use e3controller.Config.Geometry.{RadioGeometry, validate, u16_per_ant, row_bytes}
use e3controller.Config.Types.{ShmWriter, float_one}
use e3controller.Shm.Memory.{within}
use e3controller.Shm.SlotConvert.{scalar, convert_slot}
use e3controller.Shm.Convert.{bf16_to_fp16, bf16_to_fp16_scalar}
use e3controller.Common.{◌↔◌, false}
use e3controller.Shm.SlotConvert.Agreement.{row_geometry, rows_agree}
use e3controller.Shm.Writer.{
  ShmIqWriter, fresh_writer, OsOutcome, open_shm, lay_out, writes_rows, row_cell, advance,
  publish_row_cbf16, clamp_ports,
}
use e3controller.Shm.Writer.Ring.{IsOpen, row-in_mapping, publish_all, publish-no_reuse}
use e3controller.Shm.Writer.Rows.{publish_row_cbf16-cells}
use e3controller.Shm.Writer.Open.{rows_of, open_shm-IsOpen}
use e3controller.Shm.Writer.Limits.{open_shm-wraps}

-- One PRB and 12 symbols on two ports: 288 cells to an antenna, 1152 bytes to a row.
abbrev tiny : RadioGeometry
tiny = record { nof_ports = 2; nof_prbs = 1; nof_symbols = 12; scs_khz = 30 }

abbrev all_well : OsOutcome
all_well = record { shm_open_ok = true; ftruncate_ok = true; mmap_ok = true }

-- A region of three rows in each buffer.
abbrev opened : ShmIqWriter
opened = (open_shm all_well fresh_writer "/rows" 7000 tiny float_one ShmWriter.controller).0

tiny-valid : validate tiny ≡ ok tt
unfolding validate
tiny-valid = refl

open_shm-IsOpen_example :
    let (w', opened) =
      open_shm all_well fresh_writer "/rows" 7000 tiny float_one ShmWriter.controller in
    (opened ≡ true)
    × IsOpen w'
    × (w'.num_rows ≡ rows_of 7000 (row_bytes tiny))
    × (w'.writer ≡ ShmWriter.controller)
    × (w'.next_row ≡ 0)
    × (w'.next_buf ≡ 0)
unfolding row_bytes
open_shm-IsOpen_example =
    open_shm-IsOpen all_well fresh_writer "/rows" 7000 tiny float_one ShmWriter.controller refl
      (refl, refl, refl) tiny-valid (omega arith) (omega arith) (omega arith)

opened-IsOpen : IsOpen opened
opened-IsOpen = open_shm-IsOpen_example.1

open_shm-wraps_example :
    let (w', opened) =
      open_shm all_well fresh_writer "/rows" (2 ^ 34) tiny float_one ShmWriter.controller in
    (opened ≡ true) × (w'.buffer_size < w'.num_rows * w'.row_size)
unfolding row_bytes
open_shm-wraps_example =
    open_shm-wraps fresh_writer "/rows" (2 ^ 34) tiny float_one ShmWriter.controller refl tiny-valid
      (omega arith) (omega arith)

abbrev no_scale : ℕ → ℕ → ℕ
no_scale scale x = x

abbrev ramp : ℕ → ℕ
ramp i = i + 1

-- Three slots fill the rows of the first buffer, and the fourth goes to the second.
ring_wraps :
    let w = publish_all no_scale ((ramp, 2) ∷ (ramp, 2) ∷ (ramp, 2) ∷ []) opened in
    (w.next_buf ≡ 1) × (w.next_row ≡ 0)
unfolding publish_row_cbf16 advance writes_rows open_shm lay_out row_bytes
ring_wraps = (refl, refl)

opened_writes : writes_rows opened ≡ true
unfolding writes_rows open_shm lay_out row_bytes
opened_writes = refl

row-in_mapping_example : 64 + 2 * row_cell opened + opened.row_size ≤ opened.mapped_size
row-in_mapping_example = row-in_mapping opened-IsOpen

publish-no_reuse_example :
    let p = publish_row_cbf16 no_scale ramp 2 opened in
    let q = publish_row_cbf16 no_scale ramp 2 (publish_all no_scale ((ramp, 1) ∷ []) opened) in
    ¬ ((q.buffer_index ≡ p.buffer_index) × (q.write_index ≡ p.write_index))
unfolding open_shm lay_out row_bytes
publish-no_reuse_example =
    publish-no_reuse no_scale ((ramp, 1) ∷ []) ramp 2 opened opened-IsOpen opened_writes
      (omega arith) (omega arith)

-- One port delivered of two: cell 300 lies in the antenna that is cleared.
publish_row_cbf16-cells_example : (publish_row_cbf16 no_scale ramp 1 opened).after.cells 300 ≡ (
    let filled = clamp_ports opened.geom.nof_ports 1 * u16_per_ant opened.geom in
    if within (row_cell opened) filled 300
    then no_scale opened.cbf16_scale (ramp (300 - row_cell opened))
    else if within (row_cell opened + filled) (opened.num_samples - filled) 300
    then 0
    else opened.cells 300)
publish_row_cbf16-cells_example =
    publish_row_cbf16-cells no_scale ramp 1 300 opened-IsOpen opened_writes

-- The scalar build, with the two scalar functions at a scale that leaves a value as it is.
abbrev unscaled : ℕ → ℕ → ℕ
unscaled v scale = v

rows_agree_example :
    let filled = clamp_ports opened.geom.nof_ports 1 * u16_per_ant opened.geom in
    let own = (publish_row_cbf16 (bf16_to_fp16 unscaled) ramp 1 opened).after.cells in
    let shared =
      convert_slot scalar no_scale
        (bf16_to_fp16_scalar unscaled)
        ramp
        (row_geometry opened.geom)
        1
        opened.cbf16_scale
        (row_cell opened)
        opened.cells in
    (((j : ℕ)
        → within (row_cell opened + filled) (opened.num_samples - filled) j ≡ false
        → own j ≡ shared.0 j)
      ↔ ((i : ℕ)
          → i < filled
          → bf16_to_fp16 unscaled opened.cbf16_scale (ramp i)
            ≡ bf16_to_fp16_scalar unscaled opened.cbf16_scale (ramp i)))
    × ((j : ℕ)
        → within (row_cell opened + filled) (opened.num_samples - filled) j ≡ true
        → (own j ≡ 0) × (shared.0 j ≡ opened.cells j))
    × (shared.1 ≡ filled * 2)
rows_agree_example =
    rows_agree opened scalar no_scale (bf16_to_fp16_scalar unscaled) (bf16_to_fp16 unscaled) ramp 1
      opened-IsOpen opened_writes
