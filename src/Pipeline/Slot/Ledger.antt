-- ===== src/Pipeline/Slot/Ledger.antt =====
-- The consumers' calls of the slot pipeline that the entries which left its queue account for.
use e3controller.Common.{ℕ, ◌≡◌, refl, ap, false, List, [], ◌∷◌, map}
use e3controller.Pipeline.Spsc.{QueueEntry}
use e3controller.Pipeline.Worker.{Leaving}
use e3controller.Pipeline.Ledger
use e3controller.Pipeline.Slot.{SlotSample, dispatch_sample, SlotDesc}

-- The call of a consumer for an entry: the descriptor of the entry's buffer, without IQ, and the
-- entry's times and number.
abbrev pub call_for : (ℕ → SlotDesc) → QueueEntry → ℕ → ℕ × SlotSample
call_for mem e consumer = (
  consumer,
  record {
    desc = mem e.buf;
    has_iq = false;
    iq_size_bytes = 0;
    dispatch_ts_ns = e.dispatch_ts_ns;
    recv_us = e.recv_us;
    sample_id = e.sample_id;
  },
)

-- One call of each consumer, in their order, for each entry that left by a fan-out.
abbrev pub calls_of : (ℕ → SlotDesc) → List ℕ → List Leaving → List (ℕ × SlotSample)
calls_of mem cs left = Ledger.calls_of (λ e. map (call_for mem e) cs) left

pub dispatch_sample-each :
    (mem : ℕ → SlotDesc) (cs : List ℕ) (e : QueueEntry)
    → dispatch_sample mem cs e ≡ map (call_for mem e) cs
dispatch_sample-each mem [] e = refl
dispatch_sample-each mem (c ∷ cs) e = ap (λ r. call_for mem e c ∷ r) (dispatch_sample-each mem cs e)
