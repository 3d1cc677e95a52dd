-- ===== src/System.antt =====
-- The two pipelines behind one dispatcher, as src/e3_controller.cpp runs them: the poll thread is in
-- at most one handler at a time, while each pipeline's worker and the subscription threads go on.
pub mod Parts
pub mod Serving
pub mod Books
pub mod Invariant
pub mod Steps
pub mod Release
pub mod Shutdown
pub mod IqParts
pub mod SlotParts
mod Tests
use e3controller.Pipeline.Iq.{Machine}
use e3controller.Common.{
  ℕ, Bool, true, false, Option, none, some, List, [], ◌∷◌, ◌++◌, ◌==◌, if◌then◌else◌, map,
}
use e3controller.Codelet.Ecpri.{IqSampleData}
use e3controller.Dispatcher.{
  StreamEntry, JbpfDispatcher, fresh_dispatcher, register_stream, unregister_stream, found_entry,
  dispatch,
}
use e3controller.Pipeline.Spsc.{QueueEntry}
use e3controller.Pipeline.Iq
use e3controller.Pipeline.Iq.{IqPipeline}
use e3controller.Pipeline.Slot
use e3controller.Pipeline.Slot.{SlotDesc, SlotIqPipeline}

-- Where the poll thread is.
pub data Poller : Type 0 where
  idle in_iq in_slot : Poller

-- The three objects; where the poll thread is, with the rest of its batch. `delivered` only records
-- what jbpf handed over.
pub record System : Type 0 where
  pub dispatcher : JbpfDispatcher
  pub iq : IqPipeline
  pub slot : SlotIqPipeline
  pub poller : Poller
  pub waiting : List ℕ
  pub delivered : List ℕ

abbrev pub fresh_system : Iq.Config → List ℕ → Slot.Config → List ℕ → System
fresh_system iq_config iq_consumers slot_config slot_consumers = record {
  dispatcher = fresh_dispatcher;
  iq = Iq.fresh iq_config iq_consumers;
  slot = Slot.fresh slot_config slot_consumers;
  poller = idle;
  waiting = [];
  delivered = [];
}

-- The handlers, which are the two pipelines' `process_buffers`.
abbrev pub iq_handler : ℕ
iq_handler = 1

abbrev pub slot_handler : ℕ
slot_handler = 2

abbrev pub called : Option ℕ → Poller
called none = idle
called (some h) = if h == iq_handler then in_iq else (if h == slot_handler then in_slot else idle)

-- What a pipeline's own threads do.
pub data Act : Type 0 where
  starts : (load_ok : Bool) → Act
  stop_requests stop_finishes worker_steps : Act

abbrev pub iq_event : Act → Iq.Event
iq_event (starts load_ok) = Iq.starts load_ok
iq_event stop_requests = Iq.stop_requests
iq_event stop_finishes = Iq.stop_finishes
iq_event worker_steps = Iq.worker_steps

abbrev pub slot_event : Act → Slot.Event
slot_event (starts load_ok) = Slot.starts load_ok
slot_event stop_requests = Slot.stop_requests
slot_event stop_finishes = Slot.stop_finishes
slot_event worker_steps = Slot.worker_steps

-- What `start` and `stop` of a pipeline do to the dispatcher: a start that gets the pipeline to run
-- registers its stream, to own the buffers, and a stop of a running one unregisters it.
unfoldable pub track :
    (was_running is_running : Bool) (stream handler : ℕ) → JbpfDispatcher → JbpfDispatcher
track false true stream handler d = register_stream d stream (some handler) true
track true false stream handler d = unregister_stream d stream
track false false stream handler d = d
track true true stream handler d = d

pub data Event : Type 0 where
  polls : (stream b : ℕ) (bufs : List ℕ) (first_ok second_ok : Bool) → Event
  takes : (now : ℕ) → Event
  iq_acts slot_acts : Act → Event

module _ (iq_mem : ℕ → IqSampleData) (machine : Machine) (slot_mem : ℕ → SlotDesc)
    (iq_stream slot_stream : ℕ) where
  -- The head of the handler that the dispatcher calls; the flags are those of its sends.
  unfoldable pub enter : Poller → System → List ℕ → (first_ok second_ok : Bool) → System
  enter idle s bufs first_ok second_ok = s
  enter in_iq s bufs first_ok second_ok = record s {
    iq = Iq.step iq_mem machine s.iq (Iq.handler_enters first_ok);
    poller = in_iq;
    waiting = bufs;
  }
  enter in_slot s bufs first_ok second_ok = record s {
    slot = Slot.step slot_mem s.slot (Slot.handler_enters first_ok second_ok);
    poller = in_slot;
    waiting = bufs;
  }

  -- A batch of a stream, from jbpf through `dispatch` to a handler.
  unfoldable pub poll :
      Poller → System → (stream b : ℕ) → List ℕ → (first_ok second_ok : Bool) → System
  unfolding enter
  poll idle s stream b bufs first_ok second_ok =
      let e = found_entry (s.dispatcher.handlers stream) in
      enter (called (StreamEntry.handler e))
        (record s {
          dispatcher = dispatch s.dispatcher (some stream) (b ∷ bufs);
          delivered = s.delivered ++ (b ∷ bufs);
        })
        (b ∷ bufs) first_ok second_ok
  poll in_iq s stream b bufs first_ok second_ok = s
  poll in_slot s stream b bufs first_ok second_ok = s

  -- The loop of the handler over its batch: the next buffer, or the return to the dispatcher.
  unfoldable pub take_next : Poller → List ℕ → System → ℕ → System
  take_next idle bufs s now = s
  take_next in_iq [] s now = record s {
    iq = Iq.step iq_mem machine s.iq Iq.handler_returns;
    poller = idle;
  }
  take_next in_iq (b ∷ bufs) s now = record s {
    iq = Iq.step iq_mem machine s.iq (Iq.handles now b);
    waiting = bufs;
  }
  take_next in_slot [] s now = record s {
    slot = Slot.step slot_mem s.slot Slot.handler_returns;
    poller = idle;
  }
  take_next in_slot (b ∷ bufs) s now = record s {
    slot = Slot.step slot_mem s.slot (Slot.handles now b);
    waiting = bufs;
  }

  unfoldable pub step : System → Event → System
  unfolding track poll take_next
  step s (polls stream b bufs first_ok second_ok) = poll s.poller s stream b bufs first_ok second_ok
  step s (takes now) = take_next s.poller s.waiting s now
  step s (iq_acts a) =
      let iq' = Iq.step iq_mem machine s.iq (iq_event a) in
      record s {
        iq = iq';
        dispatcher = track s.iq.is_running iq'.is_running iq_stream iq_handler s.dispatcher;
      }
  step s (slot_acts a) =
      let slot' = Slot.step slot_mem s.slot (slot_event a) in
      record s {
        slot = slot';
        dispatcher = track s.slot.is_running slot'.is_running slot_stream slot_handler s.dispatcher;
      }

  unfoldable pub run : System → List Event → System
  unfolding step
  run s [] = s
  run s (e ∷ es) = run (step s e) es
