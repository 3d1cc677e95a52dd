-- ===== src/Pipeline/Spsc.antt =====
-- The SPSC ring between the poll thread and the worker, as both pipelines write it: 64-bit head and
-- tail counters, and slots addressed by `counter & (QUEUE_CAPACITY - 1)`, which is `%` for a power
-- of two. Each pipeline has its own capacity.
pub mod Fifo
use e3controller.Common.{
  ℕ, zero, suc, ◌+◌, ◌-◌, ◌%◌, ◌^◌, ◌≤◌, ◌<◌, ◌≡◌, Bool, List, [], ◌∷◌, leb, ◌==◌, update,
  if◌then◌else◌,
}

-- QueueEntry; a buffer is its address.
pub record QueueEntry : Type 0 where
  pub buf : ℕ
  pub dispatch_ts_ns : ℕ
  pub recv_us : ℕ
  pub sample_id : ℕ

abbrev pub no_entry : QueueEntry
no_entry = record { buf = 0; dispatch_ts_ns = 0; recv_us = 0; sample_id = 0 }

pub record Spsc : Type 0 where
  pub head : ℕ
  pub tail : ℕ
  pub slots : ℕ → QueueEntry

abbrev pub empty_queue : Spsc
empty_queue = record { head = 0; tail = 0; slots = λ _. no_entry }

-- `head - tail`, in uint64_t.
abbrev pub used : Spsc → ℕ
used q = (q.head + 2 ^ 64 - q.tail) % 2 ^ 64

-- `head == tail`
unfoldable pub is_empty : Spsc → Bool
is_empty q = q.head == q.tail

-- `queue_tail_.store(tail + 1)`
unfoldable pub pop : Spsc → Spsc
pop q = record q { tail = (q.tail + 1) % 2 ^ 64 }

module _ (cap : ℕ) where
  -- `head - tail >= QUEUE_CAPACITY`
  unfoldable pub is_full : Spsc → Bool
  is_full q = leb cap (used q)

  -- The slot write, then `queue_head_.store(head + 1)`.
  unfoldable pub push : Spsc → QueueEntry → Spsc
  push q e = record q { slots = update q.slots (q.head % cap) e; head = (q.head + 1) % 2 ^ 64 }

  -- `queue_[tail & (QUEUE_CAPACITY - 1)]`
  unfoldable pub front : Spsc → QueueEntry
  front q = q.slots (q.tail % cap)

  -- `for (; tail != head; ++tail) jbpf_io_channel_release_buf(queue_[tail & ...].buf)`, with fuel.
  unfoldable pub drain_loop : ℕ → Spsc → List QueueEntry
  unfolding pop is_empty front
  drain_loop zero q = []
  drain_loop (suc n) q =
      let rest = drain_loop n (pop q) in if is_empty q then [] else front q ∷ rest
