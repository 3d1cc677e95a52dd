-- ===== src/Pipeline/Slot/Invariant.antt =====
-- What holds of a slot pipeline at any time, and that the worker and arrivals keep it.
use e3controller.Common.{ℕ, ◌≡◌, refl, sym, ◌∙◌, ap, if_cases, Bool, List, ◌++◌, map}
use e3controller.Pipeline.Spsc.{QueueEntry, is_empty, is_full, front}
use e3controller.Pipeline.Spsc.Fifo.{IsCapacity-32, contents}
use e3controller.Pipeline.Worker.{
  Worker, Lifecycle, Lifecycle-fresh, Lifecycle-ends, Lifecycle-goes_on,
}
use e3controller.Pipeline.Ledger.{calls_of-fan_out}
use e3controller.Pipeline.Plane.{
  IsPlane, IsPlane-fresh, IsPlane-at, IsPlane-refuse, IsPlane-push, IsPlane-end, IsPlane-fan_out,
  IsPlane-release, IsPlane-advance,
}
use e3controller.Pipeline.Slot.{
  SlotDesc, SlotIqPipeline, queue_capacity, Config, fresh, entry_of, process_buffer,
  dispatch_sample, worker_turn, Message,
}
use e3controller.Pipeline.Slot.Ledger.{call_for, calls_of, dispatch_sample-each}

abbrev pub queued : SlotIqPipeline → List QueueEntry
queued p = contents queue_capacity p.queue

module _ (mem : ℕ → SlotDesc) where
  pub record Inv (p : SlotIqPipeline) : Type 0 where
    pub plane : IsPlane queue_capacity p.worker p.queue p.received p.released p.accepted p.left
    pub called : p.calls ≡ calls_of mem p.consumers p.left
    pub lifecycle : Lifecycle p.is_running p.joining p.registered p.worker

  pub fresh-Inv : (c : Config) (cs : List ℕ) → Inv (fresh c cs)
  fresh-Inv c cs = record {
    plane = IsPlane-fresh IsCapacity-32;
    called = refl;
    lifecycle = Lifecycle-fresh;
  }

  pub arrive : (p : SlotIqPipeline) (now b : ℕ) → Inv p → Inv (process_buffer mem p now b)
  unfolding process_buffer
  arrive p now b v =
      if_cases Inv (is_full queue_capacity p.queue)
        (λ full. record {
          plane = IsPlane-refuse IsCapacity-32 b v.plane;
          called = v.called;
          lifecycle = v.lifecycle;
        })
        (λ room. record {
          plane = IsPlane-push IsCapacity-32 (entry_of mem p now b) room v.plane;
          called = v.called;
          lifecycle = v.lifecycle;
        })

  -- The messages, their flag and the handler's flag do not enter.
  pub plain :
      (p : SlotIqPipeline)
      → Inv p
      → (ms : List Message) (b h : Bool)
      → Inv (record p { sent = ms; shm_cfg_sent = b; in_handler = h })
  plain p v ms b h = record { plane = v.plane; called = v.called; lifecycle = v.lifecycle }

  -- One step of the worker, by where it stands.
  pub worker_turn-Inv :
      (w : Worker) (p : SlotIqPipeline) → p.worker ≡ w → Inv p → Inv (worker_turn mem w p)
  unfolding worker_turn
  worker_turn-Inv Worker.absent p w v = v
  worker_turn-Inv Worker.polling p w v =
      if_cases Inv p.is_running
        (λ on.
          if_cases Inv (is_empty p.queue) (λ e. v)
            (λ e. record {
              plane = IsPlane-fan_out IsCapacity-32 e (IsPlane-at IsCapacity-32 w v.plane);
              called =
                  ap (λ r. r ++ dispatch_sample mem p.consumers (front queue_capacity p.queue))
                    v.called
                  ∙ ap (λ r. calls_of mem p.consumers p.left ++ r)
                      (dispatch_sample-each mem p.consumers (front queue_capacity p.queue))
                  ∙ calls_of-fan_out (λ e. map (call_for mem e) p.consumers) p.left
                      (front queue_capacity p.queue);
              lifecycle = Lifecycle-goes_on (λ q. let z = sym w ∙ q in cc) (λ q. cc) v.lifecycle;
            }))
        (λ off. record {
          plane = IsPlane-end IsCapacity-32 (IsPlane-at IsCapacity-32 w v.plane);
          called = v.called;
          lifecycle = Lifecycle-ends off v.lifecycle;
        })
  worker_turn-Inv Worker.fanned_out p w v = record {
    plane = IsPlane-release IsCapacity-32 (IsPlane-at IsCapacity-32 w v.plane);
    called = v.called;
    lifecycle = Lifecycle-goes_on (λ q. let z = sym w ∙ q in cc) (λ q. cc) v.lifecycle;
  }
  worker_turn-Inv Worker.released_buf p w v = record {
    plane = IsPlane-advance IsCapacity-32 (IsPlane-at IsCapacity-32 w v.plane);
    called = v.called;
    lifecycle = Lifecycle-goes_on (λ q. let z = sym w ∙ q in cc) (λ q. cc) v.lifecycle;
  }
