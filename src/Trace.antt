-- ===== src/Trace.antt =====
-- The stage stamps of src/e3sm/l1_kpm/l1_kpm_trace.h, in a build with the recorder, on one thread's
-- ring. latrec is libe3's; a record is what `latrec_tstamp_at` is called with, and the latest record
-- stands first.
pub mod Ascending
mod Tests
use e3controller.Common.{
  ℕ, ◌+◌, ◌*◌, ◌%◌, ◌^◌, Bool, true, false, List, [], ◌∷◌, leb, if◌then◌else◌,
}

pub data Stage : Type 0 where
  record_begin process_begin encode_e3sm_begin encode_e3sm_done skipped wait_enter : Stage

pub record Record : Type 0 where
  pub seq : ℕ
  pub stage : Stage
  pub aux : ℕ
  pub aux2 : ℕ
  pub t_ns : ℕ

-- `tls_floor_ns`, `g_clamped`, and the ring.
pub record Trace : Type 0 where
  pub floor_ns : ℕ
  pub clamped : ℕ
  pub ring : List Record

abbrev pub fresh_trace : Trace
fresh_trace = record { floor_ns = 0; clamped = 0; ring = [] }

-- `monotone`: the time to record, and the trace after it.
unfoldable pub monotone : Trace → ℕ → ℕ × Trace
monotone t t_ns =
    if leb t_ns t.floor_ns
    then (
      (t.floor_ns + 1) % 2 ^ 64,
      record t { floor_ns = (t.floor_ns + 1) % 2 ^ 64; clamped = (t.clamped + 1) % 2 ^ 64 },
    )
    else (t_ns, record t { floor_ns = t_ns })

unfoldable pub stamp_at : Trace → (seq : ℕ) → Stage → (aux aux2 t_ns : ℕ) → Trace
unfolding monotone
stamp_at t seq stage aux aux2 t_ns =
    let (at, t') = monotone t t_ns in
    record t' {
      ring = record { seq = seq; stage = stage; aux = aux; aux2 = aux2; t_ns = at } ∷ t'.ring;
    }

-- A slot's calls, with the times that the slot carries, or that the clock reads.
unfoldable pub stamp_record_begin :
    Trace → (seq sfn abs_slot gnb_ts_ns codelet_entry_ts_ns : ℕ) → Trace
stamp_record_begin t seq sfn abs_slot gnb_ts_ns codelet_entry_ts_ns =
    stamp_at t seq record_begin (sfn * 2 ^ 16 + abs_slot) codelet_entry_ts_ns gnb_ts_ns

unfoldable pub stamp_process_begin : Trace → (seq codelet_ts_ns dispatch_ts_ns bytes : ℕ) → Trace
stamp_process_begin t seq codelet_ts_ns dispatch_ts_ns bytes =
    stamp_at t seq process_begin dispatch_ts_ns bytes codelet_ts_ns

-- `message` is the number of PduType::INDICATION_MESSAGE.
unfoldable pub stamp_encode_begin : Trace → (message now seq payload_bytes : ℕ) → Trace
stamp_encode_begin t message now seq payload_bytes =
    stamp_at t seq encode_e3sm_begin payload_bytes message now

unfoldable pub stamp_encode_done : Trace → (message now seq encoded_bytes : ℕ) → Trace
stamp_encode_done t message now seq encoded_bytes =
    stamp_at t seq encode_e3sm_done encoded_bytes message now

-- `reason` is LATREC_SKIP_ENCODE.
unfoldable pub stamp_encode_failed : Trace → (reason now seq : ℕ) → Trace
stamp_encode_failed t reason now seq = stamp_at t seq skipped 0 reason now

unfoldable pub stamp_emit_tail : Trace → (now seq subscribers : ℕ) → Trace
stamp_emit_tail t now seq subscribers = stamp_at t seq wait_enter subscribers 0 now
