-- ===== src/Pipeline/Lcm/IqCalls.antt =====
-- The calls of the life cycle manager over the life of an IQ pipeline.
use e3controller.Pipeline.Iq.{Machine}
use e3controller.Common.{ℕ, ◌≡◌, refl, Bool, true, false, not, ◌&&◌, if_cases, List, [], ◌∷◌, ◌++◌}
use e3controller.Codelet.Ecpri.{IqSampleData}
use e3controller.Pipeline.Spsc.{is_empty, is_full}
use e3controller.Pipeline.Worker.{Worker, is_absent}
use e3controller.Pipeline.Iq
use e3controller.Pipeline.Iq.{IqPipeline}
use e3controller.Pipeline.Lcm.{LcmCall, LoadReq, Lengths, strncpy, iq_load_req, iq_lcm}
use e3controller.Pipeline.Lcm.Session.{
  View, Tracked, Tracked-start, Tracked-finish, Tracked-request, Tracked-same,
}

abbrev iq_view : IqPipeline → View
iq_view p = record {
  is_running = p.is_running;
  joining = p.joining;
  codelets_loaded = p.codelets_loaded;
}

module _ (mem : ℕ → IqSampleData) (machine : Machine) (len : Lengths)
    (lcm_socket_path codelet_base_path : List ℕ) where
  abbrev pub iq_address : List ℕ
  iq_address = strncpy len.address lcm_socket_path

  abbrev pub iq_request : LoadReq
  iq_request = iq_load_req len lcm_socket_path codelet_base_path

  -- The calls of the manager over a sequence of events.
  unfoldable pub iq_calls : IqPipeline → List LcmCall → List Iq.Event → List LcmCall
  iq_calls p calls [] = calls
  iq_calls p calls (e ∷ es) =
      iq_calls (Iq.step mem machine p e) (calls ++ iq_lcm len lcm_socket_path codelet_base_path p e)
        es

  abbrev pub IqTracked : IqPipeline → List LcmCall → Type 0
  IqTracked p calls = Tracked iq_address iq_request.codeletset_id (iq_view p) calls

  iq_worker-view :
      (w : Worker) (p : IqPipeline) → iq_view (Iq.worker_turn mem machine w p) ≡ iq_view p
  unfolding Iq.worker_turn
  iq_worker-view Worker.absent p = refl
  iq_worker-view Worker.polling p =
      if_cases (λ (q : IqPipeline). iq_view q ≡ iq_view p) p.is_running
        (λ on.
          if_cases (λ (q : IqPipeline). iq_view q ≡ iq_view p) (is_empty p.queue) (λ e. refl)
            (λ e. refl))
        (λ off. refl)
  iq_worker-view Worker.fanned_out p = refl
  iq_worker-view Worker.released_buf p = refl

  iq_send-view :
      (p : IqPipeline) (send_ok : Bool) → iq_view (Iq.send_prb_config p send_ok) ≡ iq_view p
  unfolding Iq.send_prb_config
  iq_send-view p send_ok =
      if_cases (λ (q : IqPipeline). iq_view q ≡ iq_view p) (not p.prb_config_sent && send_ok)
        (λ s. refl) (λ s. refl)

  iq_process-view :
      (p : IqPipeline) (now b : ℕ) → iq_view (Iq.process_buffer mem machine p now b) ≡ iq_view p
  unfolding Iq.process_buffer
  iq_process-view p now b =
      if_cases (λ (q : IqPipeline). iq_view q ≡ iq_view p) (Iq.filtered mem machine p b) (λ f. refl)
        (λ k.
          if_cases (λ (q : IqPipeline). iq_view q ≡ iq_view p) (is_full Iq.queue_capacity p.queue)
            (λ f. refl) (λ f. refl))

  iq_step-Tracked :
      (p : IqPipeline) (e : Iq.Event) (calls : List LcmCall)
      → IqTracked p calls
      → IqTracked
          (Iq.step mem machine p e)
          (calls ++ iq_lcm len lcm_socket_path codelet_base_path p e)
  unfolding Iq.step Iq.start Iq.worker_loop Iq.stop_request Iq.stop_finish iq_lcm
  iq_step-Tracked p (Iq.starts load_ok) calls t =
      Tracked-start iq_view p iq_address iq_request t Iq.success Iq.internal_error (Iq.launch p)
        p.joining p.is_running p.config.auto_load load_ok refl refl refl refl
  iq_step-Tracked p Iq.stop_requests calls t =
      Tracked-request iq_view p iq_address iq_request t
        (record p { registered = false; is_running = false; joining = true }) p.joining p.is_running
        refl refl
  iq_step-Tracked p Iq.stop_finishes calls t =
      Tracked-finish iq_view p iq_address iq_request t (Iq.stop_finish p) p.joining
        (is_absent p.worker) p.codelets_loaded refl refl
  iq_step-Tracked p Iq.worker_steps calls t =
      Tracked-same iq_view p iq_address iq_request t (Iq.worker_turn mem machine p.worker p)
        (iq_worker-view p.worker p)
  iq_step-Tracked p (Iq.handler_enters send_ok) calls t =
      Tracked-same iq_view p iq_address iq_request t
        (Iq.step mem machine p (Iq.handler_enters send_ok))
        (if_cases (λ (q : IqPipeline). iq_view q ≡ iq_view p) (p.registered && not p.in_handler)
          (λ h. iq_send-view p send_ok) (λ h. refl))
  iq_step-Tracked p (Iq.handles now b) calls t =
      Tracked-same iq_view p iq_address iq_request t (Iq.step mem machine p (Iq.handles now b)) (
        if_cases (λ (q : IqPipeline). iq_view q ≡ iq_view p) p.in_handler
          (λ h. iq_process-view p now b) (λ h. refl))
  iq_step-Tracked p Iq.handler_returns calls t =
      Tracked-same iq_view p iq_address iq_request t (Iq.step mem machine p Iq.handler_returns) refl

  pub iq_calls-Tracked :
      (p : IqPipeline) (calls : List LcmCall) (es : List Iq.Event)
      → IqTracked p calls
      → IqTracked (Iq.run mem machine p es) (iq_calls p calls es)
  unfolding Iq.run iq_calls
  iq_calls-Tracked p calls [] t = t
  iq_calls-Tracked p calls (e ∷ es) t =
      iq_calls-Tracked (Iq.step mem machine p e)
        (calls ++ iq_lcm len lcm_socket_path codelet_base_path p e) es (iq_step-Tracked p e calls t)
