-- ===== src/Layer1/Tests.antt =====
-- The theorems of E3SMLayer1 at concrete samples.
use e3controller.Common.{
  ℕ, ◌+◌, ◌*◌, ◌%◌, ◌^◌, ◌≡◌, refl, true, false, List, [], ◌∷◌, Option, none, some, length,
  if◌then◌else◌, ◌==◌,
}
use e3controller.Config.Geometry.{RadioGeometry, row_bytes, validate_against_ran}
use e3controller.Config.Types.{EncodingFormat, json, default_config, ShmWriter, float_one}
use e3controller.Shm.Writer.{fresh_writer, writes_rows, open_shm, lay_out}
use e3controller.Pipeline.Slot.{SlotSample, Config}
use e3controller.Codelet.Uplink
use e3controller.Codelet.Uplink.{SlotCtx}
use e3controller.EndToEnd.Slot.{FromHelper, helper_row}
use e3controller.Layer1.State.{
  bump, geometry_mismatch, no_subscribers, emit_failed, ran_published_nothing, note_drop,
  E3SmLayer1, Env, Indication, sum_drops, drop_name,
}
use e3controller.Common.{inl, inr, arith}
use e3controller.Layer1.{on_sample, fan_out}
use e3controller.Layer1.Lifecycle.{fresh_layer1}
use e3controller.Layer1.Ledger.{core}
use e3controller.Layer1.Accounting.{
  Arrival, on_samples, accounted, on_samples-accounted, mismatch-latches,
}
use e3controller.Layer1.Rows.{Placed}
use e3controller.Layer1.Reports.{note_drops}
use e3controller.Layer1.Summary.{drops_summary}

abbrev tiny : RadioGeometry
tiny = record { nof_ports = 2; nof_prbs = 1; nof_symbols = 12; scs_khz = 30 }

abbrev encoder : EncodingFormat → Indication → Option (List ℕ)
encoder format i = some (i.fh_buffer_index ∷ i.fh_write_index ∷ [])

-- dApp 9's messages are refused.
abbrev surroundings : Env
surroundings = record {
  clock = λ n. 5_000_000_000 + n * 300_000_000;
  log_opens = true;
  clamped = 0;
  encoding = json;
  encode = encoder;
  subscribers = 8 ∷ 9 ∷ [];
  emit_ok = λ d. d == 8;
  convert = λ scale x. x;
}

abbrev slot_sample : ℕ → SlotSample
slot_sample bytes = record {
  desc = record {
    gnb_ts_ns = 1000;
    codelet_entry_ts_ns = 2000;
    codelet_ts_ns = 3000;
    bytes_written = bytes;
    fh_write_index = 3;
    fh_buffer_index = 1;
    flags = 0;
    sfn = 7;
    subframe_id = 4;
    slot_id = 8;
    sector_id = 0;
    nof_ports = 2;
    nof_symbols = 12;
    nof_subcarriers = 12;
  };
  has_iq = bytes == 1152;
  iq_size_bytes = if bytes == 1152 then 1152 else 0;
  dispatch_ts_ns = 4000;
  recv_us = 1;
  sample_id = 1;
}

abbrev layer : ShmWriter → E3SmLayer1
layer mode = record (fresh_layer1 default_config true) {
  is_running = true;
  geom = tiny;
  shm_writer =
      (open_shm (record { shm_open_ok = true; ftruncate_ok = true; mmap_ok = true }) fresh_writer
        "/rows" 7000 tiny float_one mode).0;
}

abbrev arrival : ℕ → Arrival
arrival bytes = record { env = surroundings; sample = slot_sample bytes; iq = λ i. i }

abbrev gnb_layer : E3SmLayer1
gnb_layer = layer ShmWriter.gnb

on_samples-accounted_example :
    accounted (core (on_samples gnb_layer (arrival 0 ∷ arrival 7 ∷ [])))
    ≡ (accounted (core gnb_layer) + 2) % 2 ^ 64
on_samples-accounted_example = on_samples-accounted (arrival 0 ∷ arrival 7 ∷ []) gnb_layer

-- The RAN reports 14 symbols where 12 are configured.
abbrev disagreeing : Arrival
disagreeing =
    let s = slot_sample 7 in
    record {
      env = surroundings;
      sample = record s { desc = record s.desc { nof_symbols = 14 } };
      iq = λ i. i;
    }

mismatch-latches_example :
    let l' = on_samples gnb_layer (disagreeing ∷ arrival 7 ∷ arrival 7 ∷ []) in
    ((on_sample surroundings gnb_layer disagreeing.sample (λ i. i)).drops
      ≡ bump geometry_mismatch gnb_layer.drops)
    × (l'.slot_publish_seq ≡ 0)
    × (l'.shm_writer ≡ gnb_layer.shm_writer)
    × (l'.sent ≡ [])
mismatch-latches_example =
    mismatch-latches gnb_layer disagreeing (arrival 7 ∷ arrival 7 ∷ []) refl refl refl
      (inr (inl (omega arith, λ e. omega (arith, e))))

gnb-writes : writes_rows gnb_layer.shm_writer ≡ false
unfolding open_shm writes_rows lay_out row_bytes
gnb-writes = refl

gnb-sent :
    (on_sample surroundings gnb_layer (slot_sample 7) (λ i. i)).sent
    ≡ (8, 1 ∷ 3 ∷ []) ∷ (9, 1 ∷ 3 ∷ []) ∷ []
unfolding on_sample validate_against_ran writes_rows open_shm lay_out row_bytes fan_out sum_drops
gnb-sent = refl

abbrev controller_layer : E3SmLayer1
controller_layer = layer ShmWriter.controller

controller-writes : writes_rows controller_layer.shm_writer ≡ true
unfolding open_shm writes_rows lay_out row_bytes
controller-writes = refl

-- The clock moves by 0.3 seconds, so that the first and the fifth drop are reported.
two_reports :
    length
      (note_drops surroundings gnb_layer (
        no_subscribers ∷ emit_failed ∷ ran_published_nothing ∷ no_subscribers ∷ emit_failed
        ∷ [])).reports
    ≡ 2
unfolding note_drops note_drop sum_drops
two_reports = refl

abbrev slots_config : Config
slots_config = record {
  auto_load = true;
  writer = ShmWriter.gnb;
  shm_name = [];
  radio = tiny;
  cbf16_scale = float_one;
  shm_epoch = 1;
}

abbrev idle_layer : E3SmLayer1
idle_layer = fresh_layer1 default_config true

-- The slot codelet on a grid of the two-port size; the helper answers buffer 1, row 3.
abbrev ran_ctx : SlotCtx
ran_ctx = record {
  grid_bytes = 366912;
  gnb_ts_ns = 1000;
  sfn = 7;
  subframe_id = 4;
  slot_id = 8;
  ctx_id = 0;
  nof_ports = 2;
  nof_symbols = 12;
  nof_subcarriers = 12;
}

abbrev ran_env : Uplink.Env
ran_env = record {
  entry_ns = 2000;
  exit_ns = 3000;
  shm_in = none;
  sel_in = none;
  sel_found = true;
  publish = λ n sel. 2 ^ 32 + 3;
  buffer_found = true;
  output_sent = true;
}

abbrev ran_idle : Uplink.Codelet
ran_idle = record {
  sel = record { version = 0; nof_slots_per_frame = 0; slot_mask = 0; sfn_mod = 0; sfn_offset = 0 };
  attached = [];
  published = [];
  output = [];
}

ran-sent : (Uplink.jbpf_main ran_env ran_ctx ran_idle).0.output ≡ (slot_sample 366912).desc ∷ []
unfolding Uplink.jbpf_main Uplink.receive Uplink.frame_passes Uplink.slot_passes Uplink.publish_slot
    Uplink.rung Uplink.outcome_of Uplink.filter_flag
ran-sent = refl

helper_row_example :
    Placed surroundings gnb_layer
      (slot_sample 366912)
      (core (on_sample surroundings gnb_layer (slot_sample 366912) (λ i. i)))
      gnb_layer.shm_writer
      1
      3
      (FromHelper ran_env ran_ctx ran_idle (slot_sample 366912).desc)
helper_row_example =
    helper_row ran_env ran_ctx ran_idle surroundings gnb_layer (slot_sample 366912) (λ i. i)
      ran-sent gnb-writes

-- Two slots without IQ data in eight arrivals, with three clamped stamps.
summary_of_eight :
    drops_summary
      (record gnb_layer { drops = λ i. if i == 3 then 2 else 0; slot_publish_seq = 6 })
      3
    ≡ record {
      published = 6;
      dropped = 2;
      clamped = some 3;
      arrivals = some 8;
      reasons = ("no_iq", 2) ∷ [];
    }
unfolding drops_summary sum_drops drop_name
summary_of_eight = refl
