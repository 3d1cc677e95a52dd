-- ===== src/Pipeline/Slot/Tests.antt =====
-- The theorems of the slot pipeline on a run with a full queue, a stop and a restart.
use e3controller.Common.{
  ℕ, zero, suc, ◌*◌, ◌≡◌, arith, refl, true, false, List, [], ◌∷◌, ◌++◌, map, length, count,
}
use e3controller.Config.Types.{ShmWriter, float_one}
use e3controller.Config.Geometry.{default_geometry}
use e3controller.Pipeline.Spsc.{used, is_full, push, is_empty}
use e3controller.Pipeline.Slot.{
  dispatched, SlotDesc, SlotIqPipeline, absent, Config, fresh, Event, run, step, starts,
  stop_requests, worker_steps, handler_returns, handler_enters, handles,
}
use e3controller.Pipeline.Ledger.{entry_left, pending}
use e3controller.Pipeline.Slot.Ledger.{calls_of}
use e3controller.Pipeline.Slot.Invariant.{queued}
use e3controller.Pipeline.Slot.WorkerRun.{works}
use e3controller.Pipeline.Slot.Progress.{worker_catches_up}
use e3controller.Pipeline.Slot.Completion.{halting, stop_completes}
use e3controller.Pipeline.Halting.{stop}
use e3controller.Pipeline.Slot.Shutdown.{fan_out_in_order}
use e3controller.Pipeline.Slot.Late.{late_buffer-waits}

abbrev descs : ℕ → SlotDesc
descs b = record {
  gnb_ts_ns = 1000;
  codelet_entry_ts_ns = 2000;
  codelet_ts_ns = 3000 * b;
  bytes_written = 183456;
  fh_write_index = b;
  fh_buffer_index = 0;
  flags = 0;
  sfn = 7;
  subframe_id = 4;
  slot_id = 8;
  sector_id = 0;
  nof_ports = 1;
  nof_symbols = 14;
  nof_subcarriers = 3276;
}

abbrev gnb_config : Config
gnb_config = record {
  auto_load = true;
  writer = ShmWriter.gnb;
  shm_name = [];
  radio = default_geometry;
  cbf16_scale = float_one;
  shm_epoch = 1;
}

abbrev arrivals : ℕ → List Event
arrivals zero = []
arrivals (suc n) = handles 9_000_000 (suc n) ∷ arrivals n

-- 34 buffers for 32 places, one of them fanned out and released, then `stop` up to the join.
abbrev busy_run : List Event
busy_run =
    starts true
    ∷ handler_enters true true
    ∷ (arrivals 34
        ++ (handler_returns ∷ worker_steps ∷ worker_steps ∷ worker_steps ∷ stop_requests
            ∷ worker_steps ∷ []))

abbrev before_join : SlotIqPipeline
before_join = run descs (fresh gnb_config (5 ∷ 6 ∷ [])) busy_run

worker_ended : before_join.worker ≡ absent
unfolding run step is_full push is_empty
worker_ended = refl

two_dropped : before_join.dropped ≡ 2
unfolding run step is_full push is_empty
two_dropped = refl

two_calls : length before_join.calls ≡ 2
unfolding run step is_full push is_empty
two_calls = refl

fan_out_in_order_example :
    (before_join.accepted
      ≡ map entry_left before_join.left ++ pending before_join.worker (queued before_join))
    × (before_join.calls ≡ calls_of descs before_join.consumers before_join.left)
fan_out_in_order_example = fan_out_in_order descs gnb_config (5 ∷ 6 ∷ []) busy_run

-- One buffer of a batch is handled when the stop begins.
abbrev in_batch : List Event
in_batch = starts true ∷ handler_enters true true ∷ handles 9_000_000 1 ∷ worker_steps ∷ []

late_buffer-waits_example :
    let stopped =
      run descs (run descs (fresh gnb_config (5 ∷ 6 ∷ [])) in_batch) (stop (halting descs) 3) in
    let q = step descs stopped (handles 9_000_000 77) in
    (stopped.in_handler ≡ true)
    × (q.released ≡ stopped.released)
    × (q.received ≡ stopped.received ++ (77 ∷ []))
    × (used q.queue ≡ 1)
    × (q.is_running ≡ false)
    × (q.worker ≡ absent)
unfolding run step is_full push is_empty
late_buffer-waits_example =
    late_buffer-waits descs gnb_config (5 ∷ 6 ∷ []) in_batch 3 9_000_000 77 refl refl (omega arith)

-- The 34 buffers arrived and the worker is in the middle of its first round.
abbrev loaded_run : List Event
loaded_run =
    starts true ∷ handler_enters true true ∷ (arrivals 34 ++ (handler_returns ∷ worker_steps ∷ []))

abbrev loaded : SlotIqPipeline
loaded = run descs (fresh gnb_config (5 ∷ 6 ∷ [])) loaded_run

loaded_runs : loaded.is_running ≡ true
unfolding run step is_full push is_empty
loaded_runs = refl

loaded_used : used loaded.queue ≡ 32
unfolding run step is_full push is_empty
loaded_used = refl

worker_catches_up_example :
    let q = run descs loaded (works 98) in
    (q.is_running ≡ true)
    × (used q.queue ≡ 0)
    × (q.left ≡ loaded.left ++ map dispatched (pending loaded.worker (queued loaded)))
    × (q.calls ≡ calls_of descs q.consumers q.left)
    × ((b : ℕ) → count b q.received ≡ count b q.released)
worker_catches_up_example =
    worker_catches_up descs gnb_config (5 ∷ 6 ∷ []) loaded_run 98 loaded_runs
      (omega (arith, loaded_used))

stop_completes_example :
    let q = run descs loaded (stop (halting descs) 3) in
    (q.is_running ≡ false)
    × (q.worker ≡ absent)
    × (q.registered ≡ false)
    × (q.joining ≡ false)
    × (used q.queue ≡ 0)
    × (q.codelets_loaded ≡ false)
    × ((b : ℕ) → count b q.released ≡ count b q.received)
stop_completes_example =
    stop_completes descs gnb_config (5 ∷ 6 ∷ []) loaded_run 3 loaded_runs (omega arith)
