-- ===== src/Pipeline/Iq/Run.antt =====
-- Every step of the threads keeps the pipeline's invariant, and so does every run.
use e3controller.Pipeline.Iq.{Machine}
use e3controller.Common.{
  ℕ, ◌≡◌, refl, sym, ◌∙◌, Bool, true, false, not, ◌&&◌, if_cases, &&-right, List, [], ◌∷◌, ◌++◌,
}
use e3controller.Codelet.Ecpri.{IqSampleData}
use e3controller.Pipeline.Spsc.{used, drain_loop}
use e3controller.Pipeline.Spsc.Fifo.{IsCapacity-64}
use e3controller.Pipeline.Worker.{
  absent, is_absent, is_absent→eq, Lifecycle-launch, Lifecycle-request, Lifecycle-finish,
}
use e3controller.Pipeline.Ledger.{calls_of-drain}
use e3controller.Pipeline.Plane.{IsPlane-at, IsPlane-start, IsPlane-drain, drained-queue}
use e3controller.Pipeline.Iq.{
  IqPipeline, queue_capacity, ErrorCode, start, stop_request, stop_finish, send_prb_config,
  dispatch_sample, worker_loop, Event, step, run, starts, stop_requests, stop_finishes,
  worker_steps, handler_returns, handler_enters, handles,
}
use e3controller.Pipeline.Iq.Invariant.{Inv, arrive, plain, worker_turn-Inv}

module _ (mem : ℕ → IqSampleData) (machine : Machine) where
  launch-Inv :
      (p : IqPipeline) (load_ok : Bool)
      → p.joining ≡ false
      → Inv mem machine p
      → Inv mem machine (start p load_ok).0
  unfolding start
  launch-Inv p load_ok j v =
      if_cases (λ (r : IqPipeline × ErrorCode). Inv mem machine r.0) p.is_running (λ on. v)
        (λ off.
          if_cases (λ (r : IqPipeline × ErrorCode). Inv mem machine r.0)
            (p.config.auto_load && not load_ok) (λ f. v)
            (λ f. record {
              plane =
                  IsPlane-start IsCapacity-64
                    (IsPlane-at IsCapacity-64 (v.lifecycle.at_rest off j) v.plane);
              called = v.called;
              lifecycle = Lifecycle-launch j;
            }))

  request-Inv : (p : IqPipeline) → Inv mem machine p → Inv mem machine (stop_request p)
  unfolding stop_request
  request-Inv p v =
      if_cases (Inv mem machine) p.is_running
        (λ on. record {
          plane = v.plane;
          called = v.called;
          lifecycle = Lifecycle-request on v.lifecycle;
        })
        (λ off. v)

  pub finish-used : (p : IqPipeline) → Inv mem machine p → used (stop_finish p).queue ≡ 0
  unfolding stop_finish
  finish-used p v = drained-queue IsCapacity-64 v.plane.ring

  pub finish-Inv :
      (p : IqPipeline) → p.worker ≡ absent → Inv mem machine p → Inv mem machine (stop_finish p)
  unfolding stop_finish
  finish-Inv p w v = record {
    plane =
        IsPlane-at IsCapacity-64 (sym w)
          (IsPlane-drain IsCapacity-64 (IsPlane-at IsCapacity-64 w v.plane));
    called =
        v.called
        ∙ sym (
            calls_of-drain (dispatch_sample mem machine p.consumers) p.left
              (drain_loop queue_capacity queue_capacity p.queue));
    lifecycle = Lifecycle-finish w v.lifecycle;
  }

  send-Inv :
      (p : IqPipeline) (send_ok : Bool)
      → Inv mem machine p
      → Inv mem machine (send_prb_config p send_ok)
  unfolding send_prb_config
  send-Inv p send_ok v =
      if_cases (Inv mem machine) (not p.prb_config_sent && send_ok)
        (λ s. plain mem machine p v (p.sent ++ (p.config.expected_num_prbu ∷ [])) true p.in_handler)
        (λ s. v)

  pub step-Inv :
      (p : IqPipeline) (e : Event) → Inv mem machine p → Inv mem machine (step mem machine p e)
  unfolding step worker_loop
  step-Inv p (starts load_ok) v =
      if_cases (Inv mem machine) p.joining (λ j. v) (λ j. launch-Inv p load_ok j v)
  step-Inv p stop_requests v = if_cases (Inv mem machine) p.joining (λ j. v) (λ j. request-Inv p v)
  step-Inv p stop_finishes v =
      if_cases (Inv mem machine) (p.joining && is_absent p.worker)
        (λ h. finish-Inv p (is_absent→eq p.worker (&&-right p.joining (is_absent p.worker) h)) v)
        (λ h. v)
  step-Inv p worker_steps v = worker_turn-Inv mem machine p.worker p refl v
  step-Inv p (handler_enters send_ok) v =
      let sent = send_prb_config p send_ok in
      if_cases (Inv mem machine) (p.registered && not p.in_handler)
        (λ h. plain mem machine sent (send-Inv p send_ok v) sent.sent sent.prb_config_sent true)
        (λ h. v)
  step-Inv p (handles now b) v =
      if_cases (Inv mem machine) p.in_handler (λ h. arrive mem machine p now b v) (λ h. v)
  step-Inv p handler_returns v = plain mem machine p v p.sent p.prb_config_sent false

  -- After any sequence of steps of the three threads from the constructor on, the invariant holds:
  -- the queue is a ring, each buffer that arrived was released as often as it arrived less the
  -- times that it waits unreleased in the queue, and the entries accepted are those that left the
  -- queue, in their order, followed by those that wait.
  pub run-Inv :
      (es : List Event) (p : IqPipeline)
      → Inv mem machine p
      → Inv mem machine (run mem machine p es)
  unfolding run
  run-Inv [] p v = v
  run-Inv (e ∷ es) p v = run-Inv es (step mem machine p e) (step-Inv p e v)
