-- ===== src/Pipeline/Lcm/Sessions.antt =====
-- Over the life of each pipeline, what its calls of the life cycle manager leave loaded.
use e3controller.Pipeline.Iq.{Machine}
use e3controller.Common.{ℕ, refl, List, []}
use e3controller.Codelet.Ecpri.{IqSampleData}
use e3controller.Pipeline.Slot
use e3controller.Pipeline.Slot.{SlotDesc, SlotIqPipeline}
use e3controller.Pipeline.Iq
use e3controller.Pipeline.Iq.{IqPipeline}
use e3controller.Pipeline.Lcm.{Lengths, strncpy}
use e3controller.Pipeline.Lcm.Session.{Session, closed, loaded_id}
use e3controller.Pipeline.Lcm.SlotCalls.{slot_request, slot_calls, slot_calls-Tracked}
use e3controller.Pipeline.Lcm.IqCalls.{iq_request, iq_calls, iq_calls-Tracked}

-- Over any life of either pipeline, the calls of the manager are a session with its socket: every load
-- comes while nothing of the pipeline is loaded, every unload names the codelet set that the last load
-- named and that is loaded, and the flag `codelets_loaded` says whether it still is.
pub calls-Session :
    (slot_mem : ℕ → SlotDesc) (iq_mem : ℕ → IqSampleData) (machine : Machine) (len : Lengths)
    (lcm_socket_path codelet_base_path : List ℕ) (sc : Slot.Config) (ic : Iq.Config)
    (scs ics : List ℕ) (ses : List Slot.Event) (ies : List Iq.Event)
    → let p = Slot.run slot_mem (Slot.fresh sc scs) ses in
      let q = Iq.run iq_mem machine (Iq.fresh ic ics) ies in
      Session
        (strncpy len.address lcm_socket_path)
        (slot_calls slot_mem len lcm_socket_path codelet_base_path (Slot.fresh sc scs) [] ses)
        (loaded_id p.codelets_loaded
          (slot_request slot_mem len lcm_socket_path codelet_base_path).codeletset_id)
      × Session
          (strncpy len.address lcm_socket_path)
          (iq_calls iq_mem machine len lcm_socket_path codelet_base_path (Iq.fresh ic ics) [] ies)
          (loaded_id q.codelets_loaded
            (iq_request iq_mem machine len lcm_socket_path codelet_base_path).codeletset_id)
calls-Session slot_mem iq_mem machine len socket base sc ic scs ics ses ies = (
  (slot_calls-Tracked slot_mem len socket base (Slot.fresh sc scs) [] ses
      (record { session = closed; rests = λ j r. refl })).session,
  (iq_calls-Tracked iq_mem machine len socket base (Iq.fresh ic ics) [] ies
      (record { session = closed; rests = λ j r. refl })).session,
)
