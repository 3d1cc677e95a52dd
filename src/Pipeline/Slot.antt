-- ===== src/Pipeline/Slot.antt =====
-- SlotIqPipeline of src/e3sm/slot_iq_pipeline.{h,cpp}, with three threads: the poll thread runs
-- `process_buffers` one buffer at a time, the worker runs its loop in four steps to a slot, and a
-- subscription thread runs `start` and the two halves of `stop`, before and after the join. The
-- contents of a jbpf buffer are those of codelets/include/jbpf_e3_slot_api.h.
pub mod Messages
pub mod Ledger
pub mod Invariant
pub mod Run
pub mod Shutdown
pub mod WorkerRun
pub mod Progress
pub mod Completion
pub mod Late
pub mod Counting
pub mod Control
pub mod Timing
mod Tests
pub use Messages.*
use e3controller.Common.{
  ℕ, ◌≡◌, refl, zero, suc, ◌+◌, ◌-◌, ◌/◌, ◌%◌, ◌^◌, Bool, true, false, not, ◌&&◌, ◌||◌, List, [],
  ◌∷◌, ◌++◌, map, ◌==◌, ltb, if◌then◌else◌,
}
use e3controller.Config.Types.{ShmWriter, is_controller}
use e3controller.Config.Geometry.{RadioGeometry, nof_subcarriers, slots_per_frame}
pub use e3controller.Pipeline.Worker.{
  Worker, absent, polling, fanned_out, released_buf, Leaving, dispatched, drained, is_absent,
  is_absent→eq,
}
use e3controller.Pipeline.Spsc.{
  drain_loop, QueueEntry, Spsc, empty_queue, is_empty, pop, is_full, push, front, used,
}

-- The pipeline's fields, whether the dispatcher holds its handler (`registered`), whether the poll
-- thread is inside the handler, whether `stop` waits in the join, and the calls made so far:
-- messages that were sent, buffers released, and consumer callbacks. `received`, `accepted` and
-- `left` only record what happened.
pub record SlotIqPipeline : Type 0 where
  pub config : Config
  pub consumers : List ℕ
  pub is_running : Bool
  pub codelets_loaded : Bool
  pub worker : Worker
  pub queue : Spsc
  pub dropped : ℕ
  pub total_samples_received : ℕ
  pub shm_cfg_sent : Bool
  pub registered : Bool
  pub in_handler : Bool
  pub joining : Bool
  pub sent : List Message
  pub released : List ℕ
  pub calls : List (ℕ × SlotSample)
  pub received : List ℕ
  pub accepted : List QueueEntry
  pub left : List Leaving

abbrev pub queue_capacity : ℕ
queue_capacity = 32

-- The constructor, and the consumers registered before `start`.
abbrev pub fresh : Config → List ℕ → SlotIqPipeline
fresh config consumers = record {
  config = config;
  consumers = consumers;
  is_running = false;
  codelets_loaded = false;
  worker = absent;
  queue = empty_queue;
  dropped = 0;
  total_samples_received = 0;
  shm_cfg_sent = false;
  registered = false;
  in_handler = false;
  joining = false;
  sent = [];
  released = [];
  calls = [];
  received = [];
  accepted = [];
  left = [];
}

pub data ErrorCode : Type 0 where
  success internal_error : ErrorCode

-- What follows a load that succeeded or that is not asked for.
abbrev pub launch : SlotIqPipeline → SlotIqPipeline
launch p = record p {
  codelets_loaded = p.codelets_loaded || p.config.auto_load;
  shm_cfg_sent = false;
  is_running = true;
  worker = polling;
  registered = true;
}

-- `start`; the flag is the answer of the codelet loader.
unfoldable pub start : SlotIqPipeline → Bool → SlotIqPipeline × ErrorCode
start p load_ok =
    if p.is_running
    then (p, success)
    else (if p.config.auto_load && not load_ok then (p, internal_error) else (launch p, success))

-- `stop` up to the join.
unfoldable pub stop_request : SlotIqPipeline → SlotIqPipeline
stop_request p =
    if p.is_running then record p { registered = false; is_running = false; joining = true } else p

-- `stop` after the join: the entries `es` are released, the tail is set to the head, and the
-- codelets are unloaded.
abbrev pub finish_with : SlotIqPipeline → List QueueEntry → SlotIqPipeline
finish_with p es = record p {
  released = p.released ++ map (λ e. QueueEntry.buf e) es;
  left = p.left ++ map drained es;
  queue = record p.queue { tail = p.queue.head };
  codelets_loaded = false;
  joining = false;
}

unfoldable pub stop_finish : SlotIqPipeline → SlotIqPipeline
stop_finish p = finish_with p (drain_loop queue_capacity queue_capacity p.queue)

abbrev take : ℕ → List ℕ → List ℕ
take zero xs = []
take (suc n) [] = []
take (suc n) (x ∷ xs) = x ∷ take n xs

-- The two messages of `maybe_send_shm_cfg`.
abbrev pub shm_cfg : Config → ShmCfg
shm_cfg c = record {
  version = 1;
  epoch = c.shm_epoch;
  name = take 63 c.shm_name;
  nof_symbols = c.radio.nof_symbols;
  nof_subcarriers = nof_subcarriers c.radio % 2 ^ 16;
  scale = c.cbf16_scale;
}

abbrev pub slot_sel : Config → SlotSel
slot_sel c = record {
  version = 1;
  nof_slots_per_frame = slots_per_frame c.radio % 2 ^ 16;
  slot_mask = 0;
  sfn_mod = 0;
  sfn_offset = 0;
}

-- `maybe_send_shm_cfg`; the flags say whether each of the two sends succeeds.
unfoldable pub maybe_send_shm_cfg : SlotIqPipeline → Bool → Bool → SlotIqPipeline
maybe_send_shm_cfg p cfg_ok sel_ok =
    if p.shm_cfg_sent || is_controller p.config.writer
    then p
    else (if cfg_ok
        then (if sel_ok
            then record p {
              sent = p.sent ++ (shm_in (shm_cfg p.config) ∷ sel_in (slot_sel p.config) ∷ []);
              shm_cfg_sent = true;
            }
            else record p { sent = p.sent ++ (shm_in (shm_cfg p.config) ∷ []) })
        else p)

-- `(ts / 1000) & 0x7FFFFFFF`
abbrev pub us_of : ℕ → ℕ
us_of ts_ns = ts_ns / 1000 % 2 ^ 31

unfoldable pub recv_us_of : (dispatch_ts_ns codelet_ts_ns : ℕ) → ℕ
recv_us_of dispatch_ts_ns codelet_ts_ns =
    if ltb 0 (us_of codelet_ts_ns)
    then (us_of dispatch_ts_ns + 2 ^ 32 - us_of codelet_ts_ns) % 2 ^ 32 % 2 ^ 31
    else 0

-- A step of one of the threads.
pub data Event : Type 0 where
  starts : Bool → Event
  stop_requests stop_finishes worker_steps handler_returns : Event
  handler_enters : Bool → Bool → Event
  handles : ℕ → ℕ → Event

-- `mem b` is what the buffer `b` holds from its delivery to its release; each delivery is a
-- buffer of its own.
module _ (mem : ℕ → SlotDesc) where
  abbrev pub entry_of : SlotIqPipeline → ℕ → ℕ → QueueEntry
  entry_of p dispatch_ts_ns b = record {
    buf = b;
    dispatch_ts_ns = dispatch_ts_ns;
    recv_us = recv_us_of dispatch_ts_ns (SlotDesc.codelet_ts_ns (mem b));
    sample_id = (p.total_samples_received + 1) % 2 ^ 32;
  }

  -- One round of the loop of `process_buffers`.
  unfoldable pub process_buffer : SlotIqPipeline → ℕ → ℕ → SlotIqPipeline
  process_buffer p dispatch_ts_ns b =
      if is_full queue_capacity p.queue
      then record p {
        received = p.received ++ (b ∷ []);
        dropped = (p.dropped + 1) % 2 ^ 64;
        released = p.released ++ (b ∷ []);
      }
      else record p {
        received = p.received ++ (b ∷ []);
        queue = push queue_capacity p.queue (entry_of p dispatch_ts_ns b);
        accepted = p.accepted ++ (entry_of p dispatch_ts_ns b ∷ []);
        total_samples_received = (p.total_samples_received + 1) % 2 ^ 32;
      }

  -- `dispatch_sample`: the sample that it builds, and the calls of the consumers in their order.
  abbrev pub sample_of : QueueEntry → SlotSample
  sample_of e = record {
    desc = mem e.buf;
    has_iq = false;
    iq_size_bytes = 0;
    dispatch_ts_ns = e.dispatch_ts_ns;
    recv_us = e.recv_us;
    sample_id = e.sample_id;
  }

  abbrev pub dispatch_sample : List ℕ → QueueEntry → List (ℕ × SlotSample)
  dispatch_sample [] e = []
  dispatch_sample (c ∷ cs) e = (c, sample_of e) ∷ dispatch_sample cs e

  -- A step of `worker_loop`, by where the worker stands.
  unfoldable pub worker_turn : Worker → SlotIqPipeline → SlotIqPipeline
  worker_turn absent p = p
  worker_turn polling p =
      if p.is_running
      then (if is_empty p.queue then p else record p {
        worker = fanned_out;
        calls = p.calls ++ dispatch_sample p.consumers (front queue_capacity p.queue);
        left = p.left ++ (dispatched (front queue_capacity p.queue) ∷ []);
      })
      else record p { worker = absent }
  worker_turn fanned_out p = record p {
    worker = released_buf;
    released = p.released ++ (QueueEntry.buf (front queue_capacity p.queue) ∷ []);
  }
  worker_turn released_buf p = record p { worker = polling; queue = pop p.queue }

  unfoldable pub worker_loop : SlotIqPipeline → SlotIqPipeline
  unfolding worker_turn
  worker_loop p = worker_turn p.worker p

  -- What the event does, where the thread that makes it can: the dispatcher calls the handler it
  -- holds, a buffer arrives inside the handler, and `stop` goes on when the worker has ended.
  unfoldable pub step : SlotIqPipeline → Event → SlotIqPipeline
  unfolding start stop_request stop_finish maybe_send_shm_cfg process_buffer worker_loop
  step p (starts load_ok) = if p.joining then p else (start p load_ok).0
  step p stop_requests = if p.joining then p else stop_request p
  step p stop_finishes = if p.joining && is_absent p.worker then stop_finish p else p
  step p worker_steps = worker_loop p
  step p (handler_enters cfg_ok sel_ok) =
      if p.registered && not p.in_handler
      then record (maybe_send_shm_cfg p cfg_ok sel_ok) { in_handler = true }
      else p
  step p (handles dispatch_ts_ns b) = if p.in_handler then process_buffer p dispatch_ts_ns b else p
  step p handler_returns = record p { in_handler = false }

  unfoldable pub run : SlotIqPipeline → List Event → SlotIqPipeline
  run p [] = p
  run p (e ∷ es) = run (step p e) es
