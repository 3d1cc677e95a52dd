-- ===== src/Pipeline/Lcm/SlotCalls.antt =====
-- The calls of the life cycle manager over the life of a slot pipeline.
use e3controller.Common.{
  ℕ, ◌≡◌, refl, Bool, true, false, not, ◌&&◌, ◌||◌, if_cases, List, [], ◌∷◌, ◌++◌,
}
use e3controller.Config.Types.{is_controller}
use e3controller.Pipeline.Spsc.{is_empty, is_full}
use e3controller.Pipeline.Worker.{Worker, is_absent}
use e3controller.Pipeline.Slot
use e3controller.Pipeline.Slot.{SlotDesc, SlotIqPipeline}
use e3controller.Pipeline.Lcm.{LcmCall, LoadReq, Lengths, strncpy, slot_load_req, slot_lcm}
use e3controller.Pipeline.Lcm.Session.{
  View, Tracked, Tracked-start, Tracked-finish, Tracked-request, Tracked-same,
}

abbrev slot_view : SlotIqPipeline → View
slot_view p = record {
  is_running = p.is_running;
  joining = p.joining;
  codelets_loaded = p.codelets_loaded;
}

module _ (mem : ℕ → SlotDesc) (len : Lengths) (lcm_socket_path codelet_base_path : List ℕ) where
  abbrev pub slot_address : List ℕ
  slot_address = strncpy len.address lcm_socket_path

  abbrev pub slot_request : LoadReq
  slot_request = slot_load_req len lcm_socket_path codelet_base_path

  -- The calls of the manager over a sequence of events.
  unfoldable pub slot_calls : SlotIqPipeline → List LcmCall → List Slot.Event → List LcmCall
  slot_calls p calls [] = calls
  slot_calls p calls (e ∷ es) =
      slot_calls (Slot.step mem p e) (calls ++ slot_lcm len lcm_socket_path codelet_base_path p e)
        es

  abbrev pub SlotTracked : SlotIqPipeline → List LcmCall → Type 0
  SlotTracked p calls = Tracked slot_address slot_request.codeletset_id (slot_view p) calls

  slot_worker-view :
      (w : Worker) (p : SlotIqPipeline) → slot_view (Slot.worker_turn mem w p) ≡ slot_view p
  unfolding Slot.worker_turn
  slot_worker-view Worker.absent p = refl
  slot_worker-view Worker.polling p =
      if_cases (λ (q : SlotIqPipeline). slot_view q ≡ slot_view p) p.is_running
        (λ on.
          if_cases (λ (q : SlotIqPipeline). slot_view q ≡ slot_view p) (is_empty p.queue)
            (λ e. refl) (λ e. refl))
        (λ off. refl)
  slot_worker-view Worker.fanned_out p = refl
  slot_worker-view Worker.released_buf p = refl

  slot_send-view :
      (p : SlotIqPipeline) (cfg_ok sel_ok : Bool)
      → slot_view (Slot.maybe_send_shm_cfg p cfg_ok sel_ok) ≡ slot_view p
  unfolding Slot.maybe_send_shm_cfg
  slot_send-view p cfg_ok sel_ok =
      if_cases (λ (q : SlotIqPipeline). slot_view q ≡ slot_view p)
        (p.shm_cfg_sent || is_controller p.config.writer) (λ s. refl)
        (λ s.
          if_cases (λ (q : SlotIqPipeline). slot_view q ≡ slot_view p) cfg_ok
            (λ c.
              if_cases (λ (q : SlotIqPipeline). slot_view q ≡ slot_view p) sel_ok (λ l. refl)
                (λ l. refl))
            (λ c. refl))

  slot_process-view :
      (p : SlotIqPipeline) (now b : ℕ) → slot_view (Slot.process_buffer mem p now b) ≡ slot_view p
  unfolding Slot.process_buffer
  slot_process-view p now b =
      if_cases (λ (q : SlotIqPipeline). slot_view q ≡ slot_view p)
        (is_full Slot.queue_capacity p.queue) (λ f. refl) (λ f. refl)

  slot_step-Tracked :
      (p : SlotIqPipeline) (e : Slot.Event) (calls : List LcmCall)
      → SlotTracked p calls
      → SlotTracked
          (Slot.step mem p e)
          (calls ++ slot_lcm len lcm_socket_path codelet_base_path p e)
  unfolding Slot.step Slot.start Slot.worker_loop Slot.stop_request Slot.stop_finish slot_lcm
  slot_step-Tracked p (Slot.starts load_ok) calls t =
      Tracked-start slot_view p slot_address slot_request t Slot.success Slot.internal_error
        (Slot.launch p) p.joining p.is_running p.config.auto_load load_ok refl refl refl refl
  slot_step-Tracked p Slot.stop_requests calls t =
      Tracked-request slot_view p slot_address slot_request t
        (record p { registered = false; is_running = false; joining = true }) p.joining p.is_running
        refl refl
  slot_step-Tracked p Slot.stop_finishes calls t =
      Tracked-finish slot_view p slot_address slot_request t (Slot.stop_finish p) p.joining
        (is_absent p.worker) p.codelets_loaded refl refl
  slot_step-Tracked p Slot.worker_steps calls t =
      Tracked-same slot_view p slot_address slot_request t (Slot.worker_turn mem p.worker p)
        (slot_worker-view p.worker p)
  slot_step-Tracked p (Slot.handler_enters cfg_ok sel_ok) calls t =
      Tracked-same slot_view p slot_address slot_request t
        (Slot.step mem p (Slot.handler_enters cfg_ok sel_ok))
        (if_cases (λ (q : SlotIqPipeline). slot_view q ≡ slot_view p)
          (p.registered && not p.in_handler) (λ h. slot_send-view p cfg_ok sel_ok) (λ h. refl))
  slot_step-Tracked p (Slot.handles now b) calls t =
      Tracked-same slot_view p slot_address slot_request t (Slot.step mem p (Slot.handles now b)) (
        if_cases (λ (q : SlotIqPipeline). slot_view q ≡ slot_view p) p.in_handler
          (λ h. slot_process-view p now b) (λ h. refl))
  slot_step-Tracked p Slot.handler_returns calls t =
      Tracked-same slot_view p slot_address slot_request t (Slot.step mem p Slot.handler_returns)
        refl

  pub slot_calls-Tracked :
      (p : SlotIqPipeline) (calls : List LcmCall) (es : List Slot.Event)
      → SlotTracked p calls
      → SlotTracked (Slot.run mem p es) (slot_calls p calls es)
  unfolding Slot.run slot_calls
  slot_calls-Tracked p calls [] t = t
  slot_calls-Tracked p calls (e ∷ es) t =
      slot_calls-Tracked (Slot.step mem p e)
        (calls ++ slot_lcm len lcm_socket_path codelet_base_path p e) es
        (slot_step-Tracked p e calls t)
