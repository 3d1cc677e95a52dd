-- ===== src/System/Tests.antt =====
-- Both pipelines on one dispatcher: a batch on a stream that nobody serves, a batch to each pipeline,
-- a batch that the slot pipeline's `stop` overtakes, and one that comes after it; and a shutdown.
use e3controller.Pipeline.Iq.{Machine}
use e3controller.Common.{
  ℕ, ◌*◌, ◌≡◌, ◌≢◌, refl, true, if◌then◌else◌, ◌==◌, List, [], ◌∷◌, ◌++◌, arith,
}
use e3controller.Common.Bags.{bag}
use e3controller.Codelet.Ecpri.{IqSampleData}
use e3controller.Config.Types.{ShmWriter, float_one}
use e3controller.Config.Geometry.{default_geometry}
use e3controller.Dispatcher.{register_stream, unregister_stream, dispatch}
use e3controller.Pipeline.Spsc.{is_full, is_empty, push, pop, front, drain_loop}
use e3controller.Pipeline.Iq
use e3controller.Pipeline.Slot.{SlotDesc}
use e3controller.Pipeline.Slot
use e3controller.Pipeline.Lcm.{ecpri_iq_stream_id, slot_iq_stream_id}
use e3controller.System.{
  System, fresh_system, idle, Event, polls, takes, iq_acts, slot_acts, starts, stop_requests,
  stop_finishes, worker_steps, run, step,
}
use e3controller.System.Serving.{At, Serving}
use e3controller.Common.{false, none}
use e3controller.Pipeline.Worker.{absent}
use e3controller.System.Shutdown.{shutdown_events, shutdown-releases}
use e3controller.System.Release.{releases, held, delivered-released_or_held, serves_running}

abbrev descs : ℕ → SlotDesc
descs b = record {
  gnb_ts_ns = 1000;
  codelet_entry_ts_ns = 2000;
  codelet_ts_ns = 3000 * b;
  bytes_written = 183456;
  fh_write_index = b;
  fh_buffer_index = 0;
  flags = 0;
  sfn = 7;
  subframe_id = 4;
  slot_id = 8;
  sector_id = 0;
  nof_ports = 1;
  nof_symbols = 14;
  nof_subcarriers = 3276;
}

abbrev gnb_config : Slot.Config
gnb_config = record {
  auto_load = true;
  writer = ShmWriter.gnb;
  shm_name = [];
  radio = default_geometry;
  cbf16_scale = float_one;
  shm_epoch = 1;
}

-- Buffer 2 is a downlink section, and buffer 3 has too short a payload.
abbrev sections : ℕ → IqSampleData
sections b = record {
  gnb_ts_ns = 1000;
  codelet_ts_ns = 2000;
  timestamp = 3;
  direction = if b == 2 then 0 else 1;
  frame_id = 0;
  comp_method = 1;
  iq_width = 9;
  subframe_id = 9;
  slot_id = 1;
  symbol_id = 13;
  section_id = 0;
  start_prbu = 0;
  num_prbu = 1;
  payload_size = if b == 3 then 27 else 28;
  iq_payload = λ i. i;
}

abbrev target : Machine
target = record { elapsed = λ e. 500; wide_shift = λ mantissa exponent. 0 }

abbrev one_prb : Iq.Config
one_prb = record { auto_load = true; expected_num_prbu = 1 }

abbrev first_batches : List Event
first_batches =
    polls 300 9 [] true true
    ∷ slot_acts (starts true)
    ∷ iq_acts (starts true)
    ∷ polls slot_iq_stream_id 11 (12 ∷ []) true true
    ∷ takes 9_000_000
    ∷ slot_acts worker_steps
    ∷ slot_acts worker_steps
    ∷ slot_acts stop_requests
    ∷ takes 9_000_000
    ∷ []

-- The poll thread leaves the handler, the slot pipeline's worker ends, and `stop` releases the rest.
abbrev all_batches : List Event
all_batches =
    first_batches
    ++ (takes 9_000_000
        ∷ slot_acts worker_steps
        ∷ slot_acts worker_steps
        ∷ slot_acts stop_finishes
        ∷ polls slot_iq_stream_id 13 [] true true
        ∷ polls ecpri_iq_stream_id 1 (2 ∷ []) true true
        ∷ takes 9000
        ∷ takes 9000
        ∷ takes 9000
        ∷ iq_acts worker_steps
        ∷ iq_acts worker_steps
        ∷ iq_acts worker_steps
        ∷ [])

abbrev after : List Event → System
after es =
    run sections target descs ecpri_iq_stream_id slot_iq_stream_id
      (fresh_system one_prb (0 ∷ []) gnb_config (5 ∷ [])) es

other_streams : ◌≢◌ ecpri_iq_stream_id slot_iq_stream_id
other_streams e = omega arith

midway_held : held (after first_batches) ≡ 12 ∷ []
unfolding run step is_full is_empty push pop front drain_loop Iq.step Slot.step register_stream
    unregister_stream dispatch
midway_held = refl

midway_released : releases (after first_batches) ≡ 9 ∷ 11 ∷ []
unfolding run step is_full is_empty push pop front drain_loop Iq.step Slot.step register_stream
    unregister_stream dispatch
midway_released = refl

all_released : releases (after all_batches) ≡ 9 ∷ 13 ∷ 2 ∷ 1 ∷ 11 ∷ 12 ∷ []
unfolding run step is_full is_empty push pop front drain_loop Iq.step Slot.step register_stream
    unregister_stream dispatch
all_released = refl

delivered-released_or_held_example :
    bag (after first_batches).delivered
    ≡ bag (releases (after first_batches) ++ held (after first_batches))
delivered-released_or_held_example =
    delivered-released_or_held sections target descs ecpri_iq_stream_id slot_iq_stream_id one_prb
      (0 ∷ []) gnb_config (5 ∷ []) other_streams first_batches

serves_running_example :
    let s = after first_batches in
    Serving ecpri_iq_stream_id slot_iq_stream_id s.iq.is_running s.slot.is_running
      s.dispatcher.handlers
    × At s.poller s.iq.in_handler s.slot.in_handler s.waiting
serves_running_example =
    serves_running sections target descs ecpri_iq_stream_id slot_iq_stream_id one_prb (0 ∷ [])
      gnb_config (5 ∷ []) other_streams first_batches

-- Both pipelines run, and hold what the controller's shutdown finds in their queues.
abbrev busy : List Event
busy =
    slot_acts (starts true)
    ∷ iq_acts (starts true)
    ∷ polls slot_iq_stream_id 11 (12 ∷ []) true true
    ∷ takes 9_000_000
    ∷ slot_acts worker_steps
    ∷ takes 9_000_000
    ∷ takes 9_000_000
    ∷ polls ecpri_iq_stream_id 1 (2 ∷ []) true true
    ∷ takes 9000
    ∷ takes 9000
    ∷ takes 9000
    ∷ []

busy_idle : (after busy).poller ≡ idle
unfolding run step is_full is_empty push pop front drain_loop Iq.step Slot.step register_stream
    unregister_stream dispatch
busy_idle = refl

busy_slot : (after busy).slot.is_running ≡ true
unfolding run step is_full is_empty push pop front drain_loop Iq.step Slot.step register_stream
    unregister_stream dispatch
busy_slot = refl

busy_iq : (after busy).iq.is_running ≡ true
unfolding run step is_full is_empty push pop front drain_loop Iq.step Slot.step register_stream
    unregister_stream dispatch
busy_iq = refl

busy_held : held (after busy) ≡ 1 ∷ 11 ∷ 12 ∷ []
unfolding run step is_full is_empty push pop front drain_loop Iq.step Slot.step register_stream
    unregister_stream dispatch
busy_held = refl

shutdown-releases_example :
    let q =
      run sections target descs ecpri_iq_stream_id slot_iq_stream_id
        (after busy)
        (shutdown_events 3 4) in
    (q.slot.is_running ≡ false)
    × (q.slot.worker ≡ absent)
    × (q.iq.is_running ≡ false)
    × (q.iq.worker ≡ absent)
    × ((stream : ℕ) → q.dispatcher.handlers stream ≡ none)
    × (bag q.delivered ≡ bag (releases q))
shutdown-releases_example =
    shutdown-releases sections target descs ecpri_iq_stream_id slot_iq_stream_id one_prb (0 ∷ [])
      gnb_config (5 ∷ []) other_streams busy 3 4 busy_idle busy_slot busy_iq (omega arith)
      (omega arith)
