-- ===== src/Pipeline/Lcm/Tests.antt =====
-- The manager's calls of pipelines that are started, refused, stopped and started again.
use e3controller.Pipeline.Iq.{Machine}
use e3controller.Common.{
  ℕ, ◌*◌, ◌+◌, ◌≤◌, ◌≡◌, ◌↔◌, refl, true, false, if◌then◌else◌, ◌==◌, List, [], ◌∷◌, ◌++◌, length,
  map, arith,
}
use e3controller.Codelet.Ecpri.{IqSampleData}
use e3controller.Config.Types.{ShmWriter, float_one}
use e3controller.Config.Geometry.{default_geometry}
use e3controller.Pipeline.Iq
use e3controller.Pipeline.Slot.{SlotDesc}
use e3controller.Pipeline.Slot
use e3controller.Pipeline.Lcm.{
  Lengths, LcmCall, load_call, unload_call, codes, strncpy, slot_load_req, iq_load_req, slot_lcm,
}
use e3controller.Pipeline.Lcm.Session.{Session, loaded_id}
use e3controller.Pipeline.Lcm.Sessions.{calls-Session}
use e3controller.Pipeline.Lcm.IqCalls.{iq_calls}
use e3controller.Pipeline.Lcm.SlotCalls.{slot_calls}
use e3controller.Pipeline.Lcm.Paths.{load_reqs-exact}

abbrev descs : ℕ → SlotDesc
descs b = record {
  gnb_ts_ns = 1000;
  codelet_entry_ts_ns = 2000;
  codelet_ts_ns = 3000 * b;
  bytes_written = 183456;
  fh_write_index = b;
  fh_buffer_index = 0;
  flags = 0;
  sfn = 7;
  subframe_id = 4;
  slot_id = 8;
  sector_id = 0;
  nof_ports = 1;
  nof_symbols = 14;
  nof_subcarriers = 3276;
}

abbrev gnb_config : Slot.Config
gnb_config = record {
  auto_load = true;
  writer = ShmWriter.gnb;
  shm_name = [];
  radio = default_geometry;
  cbf16_scale = float_one;
  shm_epoch = 1;
}

-- Buffer 2 is a downlink section, and buffer 3 has too short a payload.
abbrev sections : ℕ → IqSampleData
sections b = record {
  gnb_ts_ns = 1000;
  codelet_ts_ns = 2000;
  timestamp = 3;
  direction = if b == 2 then 0 else 1;
  frame_id = 0;
  comp_method = 1;
  iq_width = 9;
  subframe_id = 9;
  slot_id = 1;
  symbol_id = 13;
  section_id = 0;
  start_prbu = 0;
  num_prbu = 1;
  payload_size = if b == 3 then 27 else 28;
  iq_payload = λ i. i;
}

abbrev target : Machine
target = record { elapsed = λ e. 500; wide_shift = λ mantissa exponent. 0 }

abbrev one_prb : Iq.Config
one_prb = record { auto_load = true; expected_num_prbu = 1 }

abbrev small_fields : Lengths
small_fields = record {
  address = 32;
  codeset = 32;
  codelet = 32;
  hook = 32;
  path = 64;
  channel = 16;
}

abbrev slot_life : List Slot.Event
slot_life =
    Slot.starts false
    ∷ Slot.starts true
    ∷ Slot.stop_requests
    ∷ Slot.worker_steps
    ∷ Slot.stop_finishes
    ∷ Slot.starts true
    ∷ []

abbrev iq_life : List Iq.Event
iq_life = Iq.starts true ∷ Iq.stop_requests ∷ Iq.worker_steps ∷ Iq.stop_finishes ∷ []

abbrev kind : LcmCall → ℕ
kind (load_call address r false) = 0
kind (load_call address r true) = 1
kind (unload_call address id) = 2

slot_kinds :
    map kind (
      slot_calls descs small_fields
        (codes "/s")
        (codes "/c")
        (Slot.fresh gnb_config [])
        []
        slot_life)
    ≡ 0 ∷ 1 ∷ 2 ∷ 1 ∷ []
unfolding slot_calls slot_lcm Slot.step
slot_kinds = refl

iq_loaded :
    Iq.IqPipeline.codelets_loaded (Iq.run sections target (Iq.fresh one_prb []) iq_life) ≡ false
unfolding Iq.run Iq.step
iq_loaded = refl

calls-Session_example :
    let p = Slot.run descs (Slot.fresh gnb_config []) slot_life in
    let q = Iq.run sections target (Iq.fresh one_prb []) iq_life in
    Session
      (strncpy 32 (codes "/s"))
      (slot_calls descs small_fields
        (codes "/s")
        (codes "/c")
        (Slot.fresh gnb_config [])
        []
        slot_life)
      (loaded_id p.codelets_loaded
        (slot_load_req small_fields (codes "/s") (codes "/c")).codeletset_id)
    × Session
        (strncpy 32 (codes "/s"))
        (iq_calls sections target small_fields
          (codes "/s")
          (codes "/c")
          (Iq.fresh one_prb [])
          []
          iq_life)
        (loaded_id q.codelets_loaded
          (iq_load_req small_fields (codes "/s") (codes "/c")).codeletset_id)
calls-Session_example =
    calls-Session descs sections target small_fields (codes "/s") (codes "/c") gnb_config one_prb []
      [] slot_life iq_life

load_reqs-exact_example :
    ((slot_load_req small_fields (codes "/s") (codes "/opt/codelets")).codelet_path
        ≡ codes "/opt/codelets" ++ codes "/uplink_slot_samples/uplink_slot_collect.o"
      ↔ (length (codes "/opt/codelets") + 43 ≤ 64))
    × ((iq_load_req small_fields (codes "/s") (codes "/opt/codelets")).codelet_path
          ≡ codes "/opt/codelets" ++ codes "/ecpri_iq_samples/ecpri_iq_collect.o"
        ↔ (length (codes "/opt/codelets") + 37 ≤ 64))
load_reqs-exact_example =
    load_reqs-exact small_fields (codes "/s") (codes "/opt/codelets") (omega arith)
