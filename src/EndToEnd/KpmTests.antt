-- ===== src/EndToEnd/KpmTests.antt =====
-- A slot of two antennas from the codelet through the service model in gnb mode, with a coder that writes
-- the members one to a byte.
use Prim.Native.String.{String}
use text.Mathlib.Text.{◌==◌ as str_eq}
use e3controller.Common.{
  ℕ, zero, suc, ◌+◌, ◌*◌, ℤ, pos, negsuc, true, Option, none, some, List, [], ◌∷◌, length, get_or,
  if◌then◌else◌,
}
use e3controller.Config.Geometry.{RadioGeometry}
use e3controller.Config.Types.{ShmWriter, asn1, default_config, float_one}
use e3controller.Encoders.Heap.{Coder}
use e3controller.Encoders.Layer1.{ShmRef, KpmIndication, encode_in}
use e3controller.Layer1.State.{E3SmLayer1, Env}
use e3controller.Layer1.Lifecycle.{fresh_layer1}
use e3controller.Pipeline.Slot.{SlotDesc}
use e3controller.Pipeline.Spsc.{QueueEntry}
use e3controller.Codelet.Uplink
use e3controller.Codelet.Uplink.{SlotCtx}
use e3controller.Common.{◌^◌}
use e3controller.Shm.Writer.{OsOutcome, fresh_writer, open_shm}

abbrev region : String
region = "/rows"

abbrev Buffer : Type 0
Buffer = ℕ × (ℕ → ℕ)

abbrev written : List ℕ → Buffer
written bytes = (length bytes * 8, λ i. get_or bytes i 0)

abbrev sign : ℤ → ℕ
sign (pos t) = 0
sign (negsuc t) = 1

abbrev magnitude : ℤ → ℕ
magnitude (pos t) = t
magnitude (negsuc t) = t

abbrev signed : ℕ → ℕ → ℤ
signed zero t = pos t
signed (suc s) t = negsuc t

-- Only the region's name and an antenna count can be written.
abbrev write : Option ShmRef → ℤ → ℕ → ℕ → Option ℕ → Option (List ℕ)
write (some r) t sfn slot (some n) =
    if str_eq r.shm_name region
    then some (r.fh_buffer_index ∷ r.fh_write_index ∷ sign t ∷ magnitude t ∷ sfn ∷ slot ∷ n ∷ [])
    else none
write (some r) t sfn slot none = none
write none t sfn slot n = none

abbrev filled : Option (List ℕ) → Option Buffer
filled none = none
filled (some bytes) = some (written bytes)

abbrev read : List ℕ → Option KpmIndication
read (b ∷ r ∷ s ∷ t ∷ sfn ∷ slot ∷ n ∷ []) = some (record {
  iq_samples_ref = some (record { shm_name = region; fh_buffer_index = b; fh_write_index = r });
  timestamp = signed s t;
  sfn = sfn;
  slot = slot;
  n_rx_ant = some n;
})
read bytes = none

abbrev plain_coder : Coder KpmIndication
plain_coder = record {
  encode_to_buffer = λ k size. filled (write k.iq_samples_ref k.timestamp k.sfn k.slot k.n_rx_ant);
  decode = read;
}

abbrev tiny : RadioGeometry
tiny = record { nof_ports = 2; nof_prbs = 1; nof_symbols = 12; scs_khz = 30 }

abbrev all_well : OsOutcome
all_well = record { shm_open_ok = true; ftruncate_ok = true; mmap_ok = true }

abbrev layer : E3SmLayer1
layer = record (fresh_layer1 default_config true) {
  is_running = true;
  geom = tiny;
  shm_name = region;
  shm_writer = (open_shm all_well fresh_writer region 7000 tiny float_one ShmWriter.gnb).0;
}

abbrev surroundings : Env
surroundings = record {
  clock = λ n. 5_000_000_000;
  log_opens = true;
  clamped = 0;
  encoding = asn1;
  encode = encode_in (λ n. true) plain_coder (λ x. []);
  subscribers = 8 ∷ 9 ∷ [];
  emit_ok = λ d. true;
  convert = λ scale x. x;
}

-- The slot codelet on a grid of the two-port size; the helper answers buffer 1, row 3.
abbrev ran_ctx : SlotCtx
ran_ctx = record {
  grid_bytes = 366912;
  gnb_ts_ns = 1000;
  sfn = 7;
  subframe_id = 4;
  slot_id = 8;
  ctx_id = 0;
  nof_ports = 2;
  nof_symbols = 12;
  nof_subcarriers = 12;
}

abbrev ran_env : Uplink.Env
ran_env = record {
  entry_ns = 2000;
  exit_ns = 3000;
  shm_in = none;
  sel_in = none;
  sel_found = true;
  publish = λ n sel. 2 ^ 32 + 3;
  buffer_found = true;
  output_sent = true;
}

abbrev ran_idle : Uplink.Codelet
ran_idle = record {
  sel = record { version = 0; nof_slots_per_frame = 0; slot_mask = 0; sfn_mod = 0; sfn_offset = 0 };
  attached = [];
  published = [];
  output = [];
}

-- Each buffer holds the codelet's descriptor.
abbrev descs : ℕ → SlotDesc
descs b = record {
  gnb_ts_ns = 1000;
  codelet_entry_ts_ns = 2000;
  codelet_ts_ns = 3000;
  bytes_written = 366912;
  fh_write_index = 3;
  fh_buffer_index = 1;
  flags = 0;
  sfn = 7;
  subframe_id = 4;
  slot_id = 8;
  sector_id = 0;
  nof_ports = 2;
  nof_symbols = 12;
  nof_subcarriers = 12;
}

abbrev entry : QueueEntry
entry = record { buf = 5; dispatch_ts_ns = 4000; recv_us = 1; sample_id = 1 }
