-- ===== src/Pipeline/Slot/Run.antt =====
-- Every step of the threads keeps the pipeline's invariant, and so does every run.
use e3controller.Common.{
  ℕ, ◌≡◌, refl, sym, ◌∙◌, Bool, true, false, not, ◌&&◌, ◌||◌, if_cases, &&-right, List, [], ◌∷◌,
  map,
}
use e3controller.Config.Types.{is_controller}
use e3controller.Pipeline.Spsc.{used, drain_loop}
use e3controller.Pipeline.Spsc.Fifo.{IsCapacity-32}
use e3controller.Pipeline.Worker.{
  absent, is_absent, is_absent→eq, Lifecycle-launch, Lifecycle-request, Lifecycle-finish,
}
use e3controller.Pipeline.Ledger.{calls_of-drain}
use e3controller.Pipeline.Plane.{IsPlane-at, IsPlane-start, IsPlane-drain, drained-queue}
use e3controller.Pipeline.Slot.{
  SlotDesc, SlotIqPipeline, queue_capacity, ErrorCode, start, stop_request, stop_finish,
  maybe_send_shm_cfg, worker_loop, Event, step, run, starts, stop_requests, stop_finishes,
  worker_steps, handler_returns, handler_enters, handles,
}
use e3controller.Pipeline.Slot.Ledger.{call_for}
use e3controller.Pipeline.Slot.Invariant.{Inv, arrive, plain, worker_turn-Inv}

module _ (mem : ℕ → SlotDesc) where
  launch-Inv :
      (p : SlotIqPipeline) (load_ok : Bool)
      → p.joining ≡ false
      → Inv mem p
      → Inv mem (start p load_ok).0
  unfolding start
  launch-Inv p load_ok j v =
      if_cases (λ (r : SlotIqPipeline × ErrorCode). Inv mem r.0) p.is_running (λ on. v)
        (λ off.
          if_cases (λ (r : SlotIqPipeline × ErrorCode). Inv mem r.0)
            (p.config.auto_load && not load_ok) (λ f. v)
            (λ f. record {
              plane =
                  IsPlane-start IsCapacity-32
                    (IsPlane-at IsCapacity-32 (v.lifecycle.at_rest off j) v.plane);
              called = v.called;
              lifecycle = Lifecycle-launch j;
            }))

  request-Inv : (p : SlotIqPipeline) → Inv mem p → Inv mem (stop_request p)
  unfolding stop_request
  request-Inv p v =
      if_cases (Inv mem) p.is_running
        (λ on. record {
          plane = v.plane;
          called = v.called;
          lifecycle = Lifecycle-request on v.lifecycle;
        })
        (λ off. v)

  pub finish-used : (p : SlotIqPipeline) → Inv mem p → used (stop_finish p).queue ≡ 0
  unfolding stop_finish
  finish-used p v = drained-queue IsCapacity-32 v.plane.ring

  pub finish-Inv : (p : SlotIqPipeline) → p.worker ≡ absent → Inv mem p → Inv mem (stop_finish p)
  unfolding stop_finish
  finish-Inv p w v = record {
    plane =
        IsPlane-at IsCapacity-32 (sym w)
          (IsPlane-drain IsCapacity-32 (IsPlane-at IsCapacity-32 w v.plane));
    called =
        v.called
        ∙ sym (
            calls_of-drain (λ e. map (call_for mem e) p.consumers) p.left
              (drain_loop queue_capacity queue_capacity p.queue));
    lifecycle = Lifecycle-finish w v.lifecycle;
  }

  send-Inv :
      (p : SlotIqPipeline) (cfg_ok sel_ok : Bool)
      → Inv mem p
      → Inv mem (maybe_send_shm_cfg p cfg_ok sel_ok)
  unfolding maybe_send_shm_cfg
  send-Inv p cfg_ok sel_ok v =
      if_cases (Inv mem) (p.shm_cfg_sent || is_controller p.config.writer) (λ s. v)
        (λ s.
          if_cases (Inv mem) cfg_ok
            (λ c. if_cases (Inv mem) sel_ok (λ l. plain mem p v _ _ _) (λ l. plain mem p v _ _ _))
            (λ c. v))

  pub step-Inv : (p : SlotIqPipeline) (e : Event) → Inv mem p → Inv mem (step mem p e)
  unfolding step worker_loop
  step-Inv p (starts load_ok) v =
      if_cases (Inv mem) p.joining (λ j. v) (λ j. launch-Inv p load_ok j v)
  step-Inv p stop_requests v = if_cases (Inv mem) p.joining (λ j. v) (λ j. request-Inv p v)
  step-Inv p stop_finishes v =
      if_cases (Inv mem) (p.joining && is_absent p.worker)
        (λ h. finish-Inv p (is_absent→eq p.worker (&&-right p.joining (is_absent p.worker) h)) v)
        (λ h. v)
  step-Inv p worker_steps v = worker_turn-Inv mem p.worker p refl v
  step-Inv p (handler_enters cfg_ok sel_ok) v =
      let sent = maybe_send_shm_cfg p cfg_ok sel_ok in
      if_cases (Inv mem) (p.registered && not p.in_handler)
        (λ h. plain mem sent (send-Inv p cfg_ok sel_ok v) sent.sent sent.shm_cfg_sent true) (λ h. v)
  step-Inv p (handles now b) v =
      if_cases (Inv mem) p.in_handler (λ h. arrive mem p now b v) (λ h. v)
  step-Inv p handler_returns v = plain mem p v p.sent p.shm_cfg_sent false

  -- After any sequence of steps of the three threads from the constructor on, the invariant holds:
  -- the queue is a ring, each buffer that arrived was released as often as it arrived less the
  -- times that it waits unreleased in the queue, and the entries accepted are those that left the
  -- queue, in their order, followed by those that wait.
  pub run-Inv : (es : List Event) (p : SlotIqPipeline) → Inv mem p → Inv mem (run mem p es)
  unfolding run
  run-Inv [] p v = v
  run-Inv (e ∷ es) p v = run-Inv es (step mem p e) (step-Inv p e v)
