-- ===== src/Layer1.antt =====
-- E3SMLayer1, the service model of RAN function 2, of src/e3sm/l1_kpm/e3sm_layer_1.cpp, on top of
-- the slot pipeline and the shared-memory writer. The encoders of src/e3sm/l1_kpm and libe3 are in
-- the environment.
pub mod State
pub mod Lifecycle
pub mod Ledger
pub mod Accounting
pub mod Rows
pub mod Acceptance
pub mod Reports
pub mod Summary
pub mod Fate
mod Tests
use Prim.Native.String.{String}
use e3controller.Common.{
  ℕ, zero, suc, ◌+◌, ◌-◌, ◌*◌, ◌/◌, ◌%◌, ◌^◌, ℤ, pos, is_nonneg, Bool, true, false, not, ◌&&◌, ◌||◌,
  List, [], ◌∷◌, ◌++◌, Option, none, some, ◌==◌, ◌!=◌, ltb, if◌then◌else◌, Result, ok, err,
}
use e3controller.Config.Geometry.{RadioGeometry, cbf16_bytes_per_ant, validate_against_ran}
use e3controller.Config.Types.{ControllerConfig, EncodingFormat}
use e3controller.Shm.Writer.{
  ShmIqWriter, fresh_writer, writes_rows, publish_row_cbf16, Published, OsOutcome, open_shm, close,
}
use e3controller.Pipeline.Slot.{
  SlotDesc, SlotSample, SlotIqPipeline, ErrorCode, success, internal_error,
}
use e3controller.Layer1.State.*

-- `abs_slot != target_slot_`, where the filter is on.
abbrev pub filtered_out : ℤ → ℕ → Bool
filtered_out (pos t) slot = slot != t
filtered_out (ℤ.negsuc t) slot = false

-- The check of the first slot.
abbrev pub is_ok : {E A : Type 0} → Result E A → Bool
is_ok (ok a) = true
is_ok (err e) = false

unfoldable pub check_geometry : E3SmLayer1 → SlotSample → E3SmLayer1
check_geometry l s =
    let confirmed =
      is_ok
        (validate_against_ran l.geom s.desc.nof_ports s.desc.nof_symbols s.desc.nof_subcarriers) in
    record l {
      geometry_checked = true;
      geometry_ok =
          if l.geometry_checked
          then l.geometry_ok
          else (if confirmed then l.geometry_ok else false);
    }

-- `ports_clamped`
unfoldable pub ports_clamped : RadioGeometry → ℕ → ℕ
ports_clamped g nof_ports =
    if nof_ports == 0 then 1 else (if ltb g.nof_ports nof_ports then g.nof_ports else nof_ports)

-- `kExpectedBytes`
unfoldable pub expected_bytes : RadioGeometry → ℕ → ℕ
unfolding ports_clamped
expected_bytes g nof_ports = ports_clamped g nof_ports * cbf16_bytes_per_ant g % 2 ^ 32

-- The bit E3_SLOT_FLAG_TRUNCATED.
abbrev pub is_truncated : ℕ → Bool
is_truncated flags = flags % 2 != 0

-- What is wrong with the slot's data, by the writer's mode; and the warnings that it sets off.
unfoldable pub data_fault : E3SmLayer1 → SlotSample → Option Drop
unfolding expected_bytes
data_fault l s =
    if writes_rows l.shm_writer
    then (if not s.has_iq || s.iq_size_bytes == 0
        then some no_iq
        else (if ltb s.iq_size_bytes (expected_bytes l.geom s.desc.nof_ports)
            then some blob_too_small
            else none))
    else (if is_truncated s.desc.flags || s.desc.bytes_written == 0
        then some ran_published_nothing
        else none)

abbrev is_no_iq : Drop → Bool
is_no_iq no_iq = true
is_no_iq d = false

abbrev is_ran_published_nothing : Drop → Bool
is_ran_published_nothing ran_published_nothing = true
is_ran_published_nothing d = false

abbrev warn : E3SmLayer1 → Drop → E3SmLayer1
warn l d = record l {
  writer_mode_warned = l.writer_mode_warned || is_no_iq d;
  truncated_warned = l.truncated_warned || is_ran_published_nothing d;
}

-- The row of the slot: written by this object, or by the RAN.
unfoldable pub place_row : Env → E3SmLayer1 → SlotSample → (ℕ → ℕ) → ShmIqWriter × ℕ × ℕ
place_row env l s iq =
    let p = publish_row_cbf16 env.convert iq (ports_clamped l.geom s.desc.nof_ports) l.shm_writer in
    if writes_rows l.shm_writer
    then (Published.after p, Published.buffer_index p, Published.write_index p)
    else (l.shm_writer, s.desc.fh_buffer_index, s.desc.fh_write_index)

abbrev pub indication_of : E3SmLayer1 → SlotSample → (buffer_index write_index : ℕ) → Indication
indication_of l s buffer_index write_index = record {
  timestamp = s.desc.gnb_ts_ns;
  sfn = s.desc.sfn;
  slot = s.desc.slot_id;
  shm_name = l.shm_name;
  fh_buffer_index = buffer_index;
  fh_write_index = write_index;
  nof_ports = ports_clamped l.geom s.desc.nof_ports;
}

-- The loop over the subscribers.
unfoldable pub fan_out : Env → List ℕ → List ℕ → E3SmLayer1 → E3SmLayer1
fan_out env payload [] l = l
fan_out env payload (dapp ∷ dapps) l =
    let l' = record l { sent = l.sent ++ ((dapp, payload) ∷ []) } in
    fan_out env payload dapps (if env.emit_ok dapp then l' else note_drop env l' emit_failed)

abbrev emit : Env → E3SmLayer1 → Option (List ℕ) → E3SmLayer1
emit env l none = note_drop env l encode_failed
emit env l (some payload) = fan_out env payload env.subscribers l

-- `on_sample` from the numbering of the slot on.
unfoldable pub publish_slot : Env → E3SmLayer1 → SlotSample → (ℕ → ℕ) → E3SmLayer1
unfolding place_row
publish_slot env l s iq =
    let (writer, buffer_index, write_index) = place_row env l s iq in
    let l' = record l {
      slot_publish_seq = (l.slot_publish_seq + 1) % 2 ^ 64;
      shm_writer = writer;
    } in
    emit env l' (env.encode env.encoding (indication_of l s buffer_index write_index))

abbrev pub no_dapps : List ℕ → Bool
no_dapps [] = true
no_dapps (d ∷ ds) = false

abbrev after_fault : Env → E3SmLayer1 → SlotSample → (ℕ → ℕ) → Option Drop → E3SmLayer1
after_fault env l s iq (some d) = note_drop env (warn l d) d
after_fault env l s iq none =
    if no_dapps env.subscribers then note_drop env l no_subscribers else publish_slot env l s iq

-- `on_sample`; `iq` is the blob's cells, where the sample has one.
unfoldable pub on_sample : Env → E3SmLayer1 → SlotSample → (ℕ → ℕ) → E3SmLayer1
unfolding check_geometry data_fault publish_slot note_drop
on_sample env l s iq =
    let l' = check_geometry l s in
    if not l.is_running
    then note_drop env l not_running
    else if filtered_out l.target_slot s.desc.slot_id
    then note_drop env l slot_filtered
    else if not l'.geometry_ok
    then note_drop env l' geometry_mismatch
    else after_fault env l' s iq (data_fault l' s)
