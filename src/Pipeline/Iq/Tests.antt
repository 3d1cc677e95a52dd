-- ===== src/Pipeline/Iq/Tests.antt =====
-- The theorems of the IQ pipeline on a run with a filtered section and one that cannot be decompressed.
use e3controller.Pipeline.Iq.{Machine}
use e3controller.Common.{
  ℕ, ◌+◌, ◌≤◌, ◌≡◌, refl, true, List, [], ◌∷◌, ◌++◌, map, length, count, if◌then◌else◌, ◌==◌, All,
}
use e3controller.Bfp.{decompress_bfp_9bit}
use e3controller.Codelet.Ecpri.{IqSampleData}
use e3controller.Pipeline.Spsc.{used, is_full, push, is_empty, pop, front}
use e3controller.Pipeline.Worker.{absent}
use e3controller.Pipeline.Ledger.{buf_of, entry_left, unreleased, pending, calls_of}
use e3controller.Pipeline.Iq.{
  IqPipeline, Config, fresh, queue_capacity, dispatch_sample, Event, run, step, starts,
  stop_requests, worker_steps, handler_enters, handles,
}
use e3controller.Pipeline.Iq.Invariant.{queued}
use e3controller.Pipeline.Iq.Buffers.{sections_settle}
use e3controller.Pipeline.Iq.Filter.{IsDelivery, calls-IsDelivery}

-- Buffer 2 is a downlink section, and buffer 3 has too short a payload.
abbrev sections : ℕ → IqSampleData
sections b = record {
  gnb_ts_ns = 1000;
  codelet_ts_ns = 2000;
  timestamp = 3;
  direction = if b == 2 then 0 else 1;
  frame_id = 0;
  comp_method = 1;
  iq_width = 9;
  subframe_id = 9;
  slot_id = 1;
  symbol_id = 13;
  section_id = 0;
  start_prbu = 0;
  num_prbu = 1;
  payload_size = if b == 3 then 27 else 28;
  iq_payload = λ i. i;
}

abbrev target : Machine
target = record { elapsed = λ e. 500; wide_shift = λ mantissa exponent. 0 }

abbrev one_prb : Config
one_prb = record { auto_load = true; expected_num_prbu = 1 }

abbrev short_run : List Event
short_run =
    starts true
    ∷ handler_enters true
    ∷ handles 9000 1
    ∷ handles 9000 2
    ∷ handles 9000 3
    ∷ worker_steps
    ∷ worker_steps
    ∷ worker_steps
    ∷ worker_steps
    ∷ worker_steps
    ∷ worker_steps
    ∷ handles 9100 4
    ∷ stop_requests
    ∷ worker_steps
    ∷ []

abbrev after_run : IqPipeline
after_run = run sections target (fresh one_prb (5 ∷ 6 ∷ [])) short_run

-- Of the first section the two consumers are told.
two_calls : length after_run.calls ≡ 2
unfolding run step is_full push is_empty pop front dispatch_sample decompress_bfp_9bit
two_calls = refl

worker_ended : after_run.worker ≡ absent
unfolding run step is_full push is_empty pop
worker_ended = refl

sections_settle_example :
    (count 2 after_run.received
      ≡ count 2 after_run.released
        + count 2 (map buf_of (unreleased after_run.worker (queued after_run))))
    × (used after_run.queue ≤ queue_capacity)
    × (after_run.accepted
        ≡ map entry_left after_run.left ++ pending after_run.worker (queued after_run))
    × (after_run.calls
        ≡ calls_of (dispatch_sample sections target after_run.consumers) after_run.left)
sections_settle_example = sections_settle sections target one_prb (5 ∷ 6 ∷ []) short_run 2

calls-IsDelivery_example : All (IsDelivery target.wide_shift one_prb) after_run.calls
calls-IsDelivery_example = calls-IsDelivery sections target one_prb (5 ∷ 6 ∷ []) short_run
