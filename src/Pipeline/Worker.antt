-- ===== src/Pipeline/Worker.antt =====
-- The worker thread of a pipeline, as src/e3sm/slot_iq_pipeline.cpp and src/e3sm/iq_pipeline.cpp
-- write it, and how its life goes with `start` and `stop`.
use e3controller.Common.{◌≡◌, ◌≢◌, refl, sym, ◌∙◌, Bool, true, false, Bool-cases, inl, inr}
use e3controller.Pipeline.Spsc.{QueueEntry}

-- The worker: no thread, at the head of its loop, after `dispatch_sample`, after the release.
pub data Worker : Type 0 where
  absent polling fanned_out released_buf : Worker

-- How an entry leaves the queue.
pub data Leaving : Type 0 where
  dispatched drained : QueueEntry → Leaving

abbrev pub is_absent : Worker → Bool
is_absent absent = true
is_absent polling = false
is_absent fanned_out = false
is_absent released_buf = false

pub is_absent→eq : (w : Worker) → is_absent w ≡ true → w ≡ absent
is_absent→eq absent h = refl
is_absent→eq polling h = cc
is_absent→eq fanned_out h = cc
is_absent→eq released_buf h = cc

-- Without a run or a join, there is no worker; `stop` waits only when nothing runs; and a run has its
-- worker.
pub record Lifecycle (is_running joining registered : Bool) (worker : Worker) : Type 0 where
  pub at_rest : is_running ≡ false → joining ≡ false → worker ≡ absent
  pub one_stop : joining ≡ true → (is_running ≡ false) × (registered ≡ false)
  pub served : registered ≡ true → is_running ≡ true
  pub alive : is_running ≡ true → worker ≢ absent

pub Lifecycle-fresh : Lifecycle false false false absent
Lifecycle-fresh = record {
  at_rest = λ r j. refl;
  one_stop = λ j. cc;
  served = λ r. cc;
  alive = λ r. cc;
}

pub Lifecycle-launch : {joining : Bool} → joining ≡ false → Lifecycle true joining true polling
Lifecycle-launch j = record {
  at_rest = λ r j'. cc;
  one_stop = λ j'. cc;
  served = λ r. refl;
  alive = λ r w. cc;
}

pub Lifecycle-request :
    {running joining registered : Bool} {w : Worker}
    → running ≡ true
    → Lifecycle running joining registered w
    → Lifecycle false true false w
Lifecycle-request on v = record {
  at_rest = λ r j. cc;
  one_stop = λ j. (refl, refl);
  served = λ r. cc;
  alive = λ r. cc;
}

pub Lifecycle-finish :
    {running joining registered : Bool} {w : Worker}
    → w ≡ absent
    → Lifecycle running joining registered w
    → Lifecycle running false registered w
Lifecycle-finish e v = record {
  at_rest = λ r j. e;
  one_stop = λ j. cc;
  served = v.served;
  alive = v.alive;
}

pub Lifecycle-ends :
    {running joining registered : Bool} {w : Worker}
    → running ≡ false
    → Lifecycle running joining registered w
    → Lifecycle running joining registered absent
Lifecycle-ends off v = record {
  at_rest = λ r j. refl;
  one_stop = v.one_stop;
  served = v.served;
  alive = λ r. cc;
}

-- A worker that is not absent may go on to a place where it is not absent.
pub Lifecycle-goes_on :
    {running joining registered : Bool} {w w' : Worker}
    → w ≢ absent
    → w' ≢ absent
    → Lifecycle running joining registered w
    → Lifecycle running joining registered w'
Lifecycle-goes_on ne ne' v = record {
  at_rest = λ r j. absurd (ne (v.at_rest r j));
  one_stop = v.one_stop;
  served = v.served;
  alive = λ r. ne';
}

pub Lifecycle-free :
    {running joining registered : Bool} {w : Worker}
    → Lifecycle running joining registered w
    → running ≡ true
    → joining ≡ false
Lifecycle-free {running} {joining} v on = elim (Bool-cases joining) [
  | inl j ↦ (let z = sym (v.one_stop j).0 ∙ on in cc)
  | inr j ↦ j
]

pub Lifecycle-unregistered :
    {running joining registered : Bool} {w : Worker}
    → Lifecycle running joining registered w
    → running ≡ false
    → registered ≡ false
Lifecycle-unregistered {running} {joining} {registered} v off = elim (Bool-cases registered) [
  | inl r ↦ (let z = sym (v.served r) ∙ off in cc)
  | inr r ↦ r
]
