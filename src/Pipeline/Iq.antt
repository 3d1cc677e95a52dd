-- ===== src/Pipeline/Iq.antt =====
-- IqPipeline of src/e3sm/iq_pipeline.{h,cpp}, with the threads of the slot pipeline: the poll thread
-- runs `process_buffers` one buffer at a time, the worker its loop in four steps to a section, and a
-- subscription thread `start` and the two halves of `stop`. A buffer holds an iq_sample_data of
-- codelets/ecpri_iq_samples/ecpri_iq_data.h.
pub mod Invariant
pub mod Run
pub mod Buffers
pub mod Filter
pub mod Completion
mod Tests
use e3controller.Common.{
  ℕ, ◌+◌, ◌-◌, ◌/◌, ◌%◌, ◌^◌, Bool, true, false, not, ◌&&◌, ◌||◌, Option, none, some, List, [], ◌∷◌,
  ◌++◌, map, length, ltb, ◌!=◌, if◌then◌else◌,
}
use e3controller.Bfp.{decompress_bfp_9bit}
use e3controller.Codelet.Ecpri.{IqSampleData}
use e3controller.Pipeline.Spsc.{
  QueueEntry, Spsc, empty_queue, is_empty, pop, is_full, push, front, drain_loop,
}
use e3controller.Pipeline.Worker.{
  Worker, absent, polling, fanned_out, released_buf, Leaving, dispatched, drained, is_absent,
}

-- IqPipeline::Config, less the paths and the core; `auto_load` is `!codelet_base_path.empty()`.
pub record Config : Type 0 where
  pub auto_load : Bool
  pub expected_num_prbu : ℕ

-- DecompressedSample; a pointer is what it points to, or none.
pub record DecompressedSample : Type 0 where
  pub raw : Option IqSampleData
  pub decompressed_iq : Option (List ℕ)
  pub decompressed_size : ℕ
  pub recv_us : ℕ
  pub sample_id : ℕ
  pub gnb_ts_ns : ℕ
  pub codelet_ts_ns : ℕ
  pub dispatch_ts_ns : ℕ
  pub decompress_ns : ℕ

-- The fields as in the slot pipeline; `sent` holds the PRB counts that were sent to the codelet.
pub record IqPipeline : Type 0 where
  pub config : Config
  pub consumers : List ℕ
  pub is_running : Bool
  pub codelets_loaded : Bool
  pub prb_config_sent : Bool
  pub worker : Worker
  pub queue : Spsc
  pub dropped : ℕ
  pub total_samples_received : ℕ
  pub registered : Bool
  pub in_handler : Bool
  pub joining : Bool
  pub sent : List ℕ
  pub released : List ℕ
  pub calls : List (ℕ × DecompressedSample)
  pub received : List ℕ
  pub accepted : List QueueEntry
  pub left : List Leaving

abbrev pub queue_capacity : ℕ
queue_capacity = 64

-- The constructor, and the consumers registered before `start`.
abbrev pub fresh : Config → List ℕ → IqPipeline
fresh config consumers = record {
  config = config;
  consumers = consumers;
  is_running = false;
  codelets_loaded = false;
  prb_config_sent = false;
  worker = absent;
  queue = empty_queue;
  dropped = 0;
  total_samples_received = 0;
  registered = false;
  in_handler = false;
  joining = false;
  sent = [];
  released = [];
  calls = [];
  received = [];
  accepted = [];
  left = [];
}

pub data ErrorCode : Type 0 where
  success internal_error : ErrorCode

abbrev pub launch : IqPipeline → IqPipeline
launch p = record p {
  codelets_loaded = p.codelets_loaded || p.config.auto_load;
  prb_config_sent = false;
  is_running = true;
  worker = polling;
  registered = true;
}

-- `start`; the flag is the answer of `load_codelets`.
unfoldable pub start : IqPipeline → Bool → IqPipeline × ErrorCode
start p load_ok =
    if p.is_running
    then (p, success)
    else (if p.config.auto_load && not load_ok then (p, internal_error) else (launch p, success))

-- `stop` up to the join.
unfoldable pub stop_request : IqPipeline → IqPipeline
stop_request p =
    if p.is_running then record p { registered = false; is_running = false; joining = true } else p

-- `stop` after the join.
unfoldable pub stop_finish : IqPipeline → IqPipeline
stop_finish p =
    let es = drain_loop queue_capacity queue_capacity p.queue in
    record p {
      released = p.released ++ map (λ e. QueueEntry.buf e) es;
      left = p.left ++ map drained es;
      queue = record p.queue { tail = p.queue.head };
      codelets_loaded = false;
      joining = false;
    }

-- The head of `process_buffers`: the PRB filter goes to the codelet, until a send succeeds.
unfoldable pub send_prb_config : IqPipeline → Bool → IqPipeline
send_prb_config p send_ok =
    if not p.prb_config_sent && send_ok
    then record p { sent = p.sent ++ (p.config.expected_num_prbu ∷ []); prb_config_sent = true }
    else p

unfoldable pub recv_us_of : (dispatch_ts_ns timestamp : ℕ) → ℕ
recv_us_of dispatch_ts_ns timestamp =
    if ltb 0 (timestamp % 2 ^ 32)
    then (dispatch_ts_ns / 1000 % 2 ^ 31 + 2 ^ 32 - timestamp % 2 ^ 32) % 2 ^ 32 % 2 ^ 31
    else 0

-- A step of one of the threads, as in the slot pipeline.
pub data Event : Type 0 where
  starts : Bool → Event
  stop_requests stop_finishes worker_steps handler_returns : Event
  handler_enters : Bool → Event
  handles : ℕ → ℕ → Event

-- What is left to the machine: how long the decompression of an entry takes, and what it makes of a
-- shift by 32 or more.
pub record Machine : Type 0 where
  pub elapsed : QueueEntry → ℕ
  pub wide_shift : ℕ → ℕ → ℕ

-- `mem b` is what the buffer `b` holds from its delivery to its release.
module _ (mem : ℕ → IqSampleData) (machine : Machine) where
  -- Whether the direction or the PRB filter of `process_buffers` skips a buffer.
  abbrev pub filtered : IqPipeline → ℕ → Bool
  filtered p b =
      IqSampleData.direction (mem b) != 1
      || (ltb 0 p.config.expected_num_prbu
          && IqSampleData.num_prbu (mem b) != p.config.expected_num_prbu)

  abbrev pub entry_of : IqPipeline → ℕ → ℕ → QueueEntry
  entry_of p dispatch_ts_ns b = record {
    buf = b;
    dispatch_ts_ns = dispatch_ts_ns;
    recv_us = recv_us_of dispatch_ts_ns (IqSampleData.timestamp (mem b));
    sample_id = (p.total_samples_received + 1) % 2 ^ 32;
  }

  -- One round of the loop of `process_buffers`.
  unfoldable pub process_buffer : IqPipeline → ℕ → ℕ → IqPipeline
  process_buffer p dispatch_ts_ns b =
      if filtered p b
      then record p { received = p.received ++ (b ∷ []); released = p.released ++ (b ∷ []) }
      else (if is_full queue_capacity p.queue
          then record p {
            received = p.received ++ (b ∷ []);
            dropped = (p.dropped + 1) % 2 ^ 64;
            released = p.released ++ (b ∷ []);
          }
          else record p {
            received = p.received ++ (b ∷ []);
            queue = push queue_capacity p.queue (entry_of p dispatch_ts_ns b);
            accepted = p.accepted ++ (entry_of p dispatch_ts_ns b ∷ []);
            total_samples_received = (p.total_samples_received + 1) % 2 ^ 32;
          })

  abbrev pub sample_of : QueueEntry → List ℕ → DecompressedSample
  sample_of e iq = record {
    raw = some (mem e.buf);
    decompressed_iq = some iq;
    decompressed_size = length iq;
    recv_us = e.recv_us;
    sample_id = e.sample_id;
    gnb_ts_ns = IqSampleData.gnb_ts_ns (mem e.buf);
    codelet_ts_ns = IqSampleData.codelet_ts_ns (mem e.buf);
    dispatch_ts_ns = e.dispatch_ts_ns;
    decompress_ns = machine.elapsed e;
  }

  abbrev pub fan_out : List ℕ → QueueEntry → Option (List ℕ) → List (ℕ × DecompressedSample)
  fan_out cs e none = []
  fan_out [] e (some iq) = []
  fan_out (c ∷ cs) e (some iq) = (c, sample_of e iq) ∷ fan_out cs e (some iq)

  -- `dispatch_sample`: nothing where the decompression fails, else the calls of the consumers.
  unfoldable pub dispatch_sample : List ℕ → QueueEntry → List (ℕ × DecompressedSample)
  dispatch_sample cs e = fan_out cs e (
      decompress_bfp_9bit machine.wide_shift (IqSampleData.iq_payload (mem e.buf))
        (IqSampleData.payload_size (mem e.buf)) (IqSampleData.num_prbu (mem e.buf)))

  -- A step of `worker_loop`, by where the worker stands.
  unfoldable pub worker_turn : Worker → IqPipeline → IqPipeline
  worker_turn absent p = p
  worker_turn polling p =
      if p.is_running
      then (if is_empty p.queue then p else record p {
        worker = fanned_out;
        calls = p.calls ++ dispatch_sample p.consumers (front queue_capacity p.queue);
        left = p.left ++ (dispatched (front queue_capacity p.queue) ∷ []);
      })
      else record p { worker = absent }
  worker_turn fanned_out p = record p {
    worker = released_buf;
    released = p.released ++ (QueueEntry.buf (front queue_capacity p.queue) ∷ []);
  }
  worker_turn released_buf p = record p { worker = polling; queue = pop p.queue }

  unfoldable pub worker_loop : IqPipeline → IqPipeline
  unfolding worker_turn
  worker_loop p = worker_turn p.worker p

  -- What the event does, where the thread that makes it can.
  unfoldable pub step : IqPipeline → Event → IqPipeline
  unfolding start stop_request stop_finish send_prb_config process_buffer worker_loop
  step p (starts load_ok) = if p.joining then p else (start p load_ok).0
  step p stop_requests = if p.joining then p else stop_request p
  step p stop_finishes = if p.joining && is_absent p.worker then stop_finish p else p
  step p worker_steps = worker_loop p
  step p (handler_enters send_ok) =
      if p.registered && not p.in_handler
      then record (send_prb_config p send_ok) { in_handler = true }
      else p
  step p (handles dispatch_ts_ns b) = if p.in_handler then process_buffer p dispatch_ts_ns b else p
  step p handler_returns = record p { in_handler = false }

  unfoldable pub run : IqPipeline → List Event → IqPipeline
  run p [] = p
  run p (e ∷ es) = run (step p e) es
