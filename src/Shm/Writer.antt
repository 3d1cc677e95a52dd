-- ===== src/Shm/Writer.antt =====
-- `ShmIqWriter` of src/e3sm/utils/e3sm_shm_writer.h and .cpp. The system calls' outcomes are
-- arguments, and the calls made are logged. The rows are the uint16_t cells of `Memory`.
pub mod Ring
pub mod Rows
pub mod Open
pub mod Limits
mod Tests
use Prim.Native.String.{String}
use package.text.Mathlib.Text.{◌==◌ as str_eq}
use e3controller.Common.{
  zero, suc, ℕ, ◌+◌, ◌-◌, ◌*◌, ◌/◌, ◌%◌, ◌^◌, ℤ, Bool, true, false, not, List, [], ◌∷◌, ltb, leb,
  ◌==◌, if◌then◌else◌,
}
use e3controller.Config.Geometry.{
  RadioGeometry, default_geometry, nof_subcarriers, u16_per_ant, num_fh_samples, row_bytes,
}
use e3controller.Config.Types.{ShmWriter, is_controller, float_one}
use e3controller.Shm.Memory.{Mem, convert_loop, zero_cells, vector_loop}

-- SharedMemoryHeader, without the reserved words, which are zero.
pub record SharedMemoryHeader : Type 0 where
  pub version : ℕ
  pub fh_buffer_size : ℕ
  pub pusch_buffer_size : ℕ
  pub hest_buffer_size : ℕ
  pub num_fh_samples : ℕ
  pub num_fh_rows : ℕ
  pub num_pusch_rows : ℕ
  pub num_hest_rows : ℕ
  pub max_hest_samples_per_row : ℕ

abbrev pub zero_header : SharedMemoryHeader
zero_header = record {
  version = 0;
  fh_buffer_size = 0;
  pusch_buffer_size = 0;
  hest_buffer_size = 0;
  num_fh_samples = 0;
  num_fh_rows = 0;
  num_pusch_rows = 0;
  num_hest_rows = 0;
  max_hest_samples_per_row = 0;
}

-- sizeof(SharedMemoryHeader)
abbrev pub header_bytes : ℕ
header_bytes = 64

pub data OsCall : Type 0 where
  shm_open shm_unlink : String → OsCall
  ftruncate mmap munmap : ℕ → OsCall
  close_fd : OsCall

pub record OsOutcome : Type 0 where
  pub shm_open_ok : Bool
  pub ftruncate_ok : Bool
  pub mmap_ok : Bool

-- The object; `is_mapped` is `mapped_ != nullptr`, and `has_fd` is `fd_ >= 0`.
pub record ShmIqWriter : Type 0 where
  pub is_mapped : Bool
  pub has_fd : Bool
  pub mapped_size : ℕ
  pub shm_name : String
  pub header : SharedMemoryHeader
  pub cells : Mem
  pub num_samples : ℕ
  pub row_size : ℕ
  pub num_rows : ℕ
  pub num_buffers : ℕ
  pub buffer_size : ℕ
  pub next_row : ℕ
  pub next_buf : ℕ
  pub cbf16_scale : ℕ
  pub geom : RadioGeometry
  pub writer : ShmWriter
  pub calls : List OsCall

abbrev pub fresh_writer : ShmIqWriter
fresh_writer = record {
  is_mapped = false;
  has_fd = false;
  mapped_size = 0;
  shm_name = "";
  header = zero_header;
  cells = λ _. 0;
  num_samples = 0;
  row_size = 0;
  num_rows = 0;
  num_buffers = 0;
  buffer_size = 0;
  next_row = 0;
  next_buf = 0;
  cbf16_scale = float_one;
  geom = default_geometry;
  writer = ShmWriter.controller;
  calls = [];
}

unfoldable pub writes_rows : ShmIqWriter → Bool
writes_rows w = is_controller w.writer

close_mapping : ShmIqWriter → ShmIqWriter
close_mapping w =
    if w.is_mapped
    then record w { is_mapped = false; calls = munmap w.mapped_size ∷ w.calls }
    else w

close_file : ShmIqWriter → ShmIqWriter
close_file w = if w.has_fd then record w { has_fd = false; calls = close_fd ∷ w.calls } else w

unlink_name : ShmIqWriter → ShmIqWriter
unlink_name w =
    if str_eq w.shm_name ""
    then w
    else record w { shm_name = ""; calls = shm_unlink w.shm_name ∷ w.calls }

unfoldable pub close : ShmIqWriter → ShmIqWriter
unfolding close_mapping close_file unlink_name
close w = record (unlink_name (close_file (close_mapping w))) { mapped_size = 0 }

-- The rest of `open`, from the mapping on.
unfoldable pub lay_out : ShmIqWriter → ℕ → RadioGeometry → ℕ → ShmWriter → ShmIqWriter × Bool
lay_out w total_size g scale writer =
    let samples = num_fh_samples g in
    let size = row_bytes g in
    let usable = if ltb header_bytes total_size then total_size - header_bytes else 0 in
    let rows = usable / 2 / size % 2 ^ 32 in
    let mapped = record w {
      is_mapped = true;
      mapped_size = total_size;
      header = zero_header;
      cells = λ _. 0;
      geom = g;
      cbf16_scale = scale;
      writer = writer;
      num_samples = samples;
      row_size = size;
      num_buffers = 2;
      num_rows = rows;
    } in
    let bytes = rows * size % 2 ^ 32 in
    if rows == 0 then (close mapped, false) else (
      record mapped {
        buffer_size = bytes;
        header = record zero_header {
          version = 1;
          fh_buffer_size = bytes;
          num_fh_samples = samples;
          num_fh_rows = rows;
        };
        next_row = 0;
        next_buf = 0;
      },
      true,
    )

unfoldable pub open_shm :
    OsOutcome → ShmIqWriter → String → ℕ → RadioGeometry → ℕ → ShmWriter → ShmIqWriter × Bool
open_shm os w name total_size g scale writer =
    let named = record w { shm_name = name; calls = shm_open name ∷ w.calls } in
    let sized = record named { has_fd = true; calls = ftruncate total_size ∷ named.calls } in
    let mapped = record sized { calls = mmap total_size ∷ sized.calls } in
    if w.is_mapped
    then (w, false)
    else if not os.shm_open_ok
    then (named, false)
    else if not os.ftruncate_ok
    then (record sized { has_fd = false; calls = close_fd ∷ sized.calls }, false)
    else if not os.mmap_ok
    then (record mapped { has_fd = false; calls = close_fd ∷ mapped.calls }, false)
    else lay_out mapped total_size g scale writer

-- The first cell of the row that the cursor points at; `row_base` is twice that in bytes.
unfoldable pub row_cell : ShmIqWriter → ℕ
row_cell w = (w.next_buf * w.buffer_size + w.next_row * w.row_size) / 2

-- `if (++next_row_ >= num_fh_rows_) { ... }`
unfoldable pub advance : ShmIqWriter → ShmIqWriter
advance w =
    let row = (w.next_row + 1) % 2 ^ 32 in
    if leb w.num_rows row
    then record w { next_row = 0; next_buf = (w.next_buf + 1) % w.num_buffers % 2 ^ 8 }
    else record w { next_row = row }

-- `if (written < row_bytes_) memset(row_base + written, 0, row_bytes_ - written);`, `written` being
-- twice the cells written.
unfoldable pub clear_tail : ShmIqWriter → ℕ → Mem → Mem
clear_tail w written m =
    if ltb (written * 2) w.row_size
    then zero_cells (row_cell w + written) ((w.row_size - written * 2) / 2) m
    else m

-- What a publish call gives: the object after it, and the row's buffer and index, or a refusal.
pub record Published : Type 0 where
  pub after : ShmIqWriter
  pub done : Bool
  pub buffer_index : ℕ
  pub write_index : ℕ

-- The int16 path, antenna 0 only; `convert` is `int16_to_fp16`.
unfoldable pub publish_row : (ℤ → ℕ) → (ℕ → ℤ) → ShmIqWriter → Published
publish_row convert iq w =
    let n_pairs = w.geom.nof_symbols * nof_subcarriers w.geom in
    let filled = convert_loop (n_pairs * 2) (λ i. convert (iq i)) (row_cell w) 0 w.cells in
    if not (writes_rows w)
    then record { after = w; done = false; buffer_index = 0; write_index = 0 }
    else record {
      after = advance (record w { cells = clear_tail w (n_pairs * 2) filled });
      done = true;
      buffer_index = w.next_buf;
      write_index = w.next_row;
    }

-- `ports = nof_ports ? nof_ports : 1`, at most the row's capacity.
unfoldable pub clamp_ports : ℕ → ℕ → ℕ
clamp_ports capacity nof_ports =
    let ports = if nof_ports == 0 then 1 else nof_ports in
    if ltb capacity ports then capacity else ports

-- The loop over the antennas, `left` to go from `a` on, by the vector loop.
unfoldable pub convert_ports : ℕ → ℕ → ℕ → (ℕ → ℕ) → ℕ → Mem → Mem
convert_ports zero n a value dst m = m
convert_ports (suc left) n a value dst m =
    convert_ports left n (a + 1) value dst
      (vector_loop (n + 1) n (λ i. value (a * n + i)) (dst + a * n) 0 m)

-- The cbf16 path; `convert` is `bf16_to_fp16` at the object's scale, and `iq` the blob's cells.
unfoldable pub publish_row_cbf16 : (ℕ → ℕ → ℕ) → (ℕ → ℕ) → ℕ → ShmIqWriter → Published
publish_row_cbf16 convert iq nof_ports w =
    let n = u16_per_ant w.geom in
    let ports = clamp_ports w.geom.nof_ports nof_ports in
    let filled = convert_ports ports n 0 (λ i. convert w.cbf16_scale (iq i)) (row_cell w) w.cells in
    if not (writes_rows w)
    then record { after = w; done = false; buffer_index = 0; write_index = 0 }
    else record {
      after = advance (record w { cells = clear_tail w (ports * n) filled });
      done = true;
      buffer_index = w.next_buf;
      write_index = w.next_row;
    }
