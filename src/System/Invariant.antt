-- ===== src/System/Invariant.antt =====
-- What holds of the two pipelines and the dispatcher together, and that the threads of the pipelines
-- and the loop of a handler keep it.
use mathlib.Core.Path.{subst}
use e3controller.Pipeline.Iq.{Machine}
use e3controller.Common.{ℕ, ◌≡◌, ◌≢◌, refl, sym, ◌∙◌, List, [], ◌∷◌, arith}
use e3controller.Codelet.Ecpri.{IqSampleData}
use e3controller.Pipeline.Iq
use e3controller.Pipeline.Iq.Invariant
use e3controller.Pipeline.Iq.Run
use e3controller.Pipeline.Slot.{SlotDesc}
use e3controller.Pipeline.Slot
use e3controller.System.{
  Poller, idle, in_iq, in_slot, System, fresh_system, iq_handler, slot_handler, Act, iq_event,
  slot_event, iq_acts, slot_acts, take_next, step,
}
use e3controller.System.Parts.{iq_flags, slot_flags, Settled}
use e3controller.System.SlotParts.{slot_acted, slot_takes}
use e3controller.System.IqParts.{iq_acted, iq_takes}
use e3controller.System.Serving.{At, Serving, track-iq, track-slot, track-released}
use e3controller.System.Books.{Conserves, Conserves-acted, Conserves-iq, Conserves-slot}

module _ (iq_mem : ℕ → IqSampleData) (machine : Machine) (slot_mem : ℕ → SlotDesc)
    (iq_stream slot_stream : ℕ) where
  pub record Inv (s : System) : Type 0 where
    pub iq : Iq.Invariant.Inv iq_mem machine s.iq
    pub slot : Slot.Invariant.Inv slot_mem s.slot
    pub iq_settled : Settled (iq_flags s.iq)
    pub slot_settled : Settled (slot_flags s.slot)
    pub at_poller : At s.poller s.iq.in_handler s.slot.in_handler s.waiting
    pub serving :
        Serving iq_stream slot_stream s.iq.is_running s.slot.is_running s.dispatcher.handlers
    pub conserve :
        Conserves s.delivered s.dispatcher.released s.iq.received s.slot.received s.waiting

  pub fresh-Inv :
      (ic : Iq.Config) (ics : List ℕ) (sc : Slot.Config) (scs : List ℕ)
      → Inv (fresh_system ic ics sc scs)
  fresh-Inv ic ics sc scs = record {
    iq = Iq.Invariant.fresh-Inv iq_mem machine ic ics;
    slot = Slot.Invariant.fresh-Inv slot_mem sc scs;
    iq_settled = refl;
    slot_settled = refl;
    at_poller = (refl, refl, refl);
    serving = λ s. ground arith;
    conserve = record { total = λ b. refl };
  }

  pub iq_acts-Inv :
      (s : System) (a : Act)
      → Inv s
      → Inv (step iq_mem machine slot_mem iq_stream slot_stream s (iq_acts a))
  unfolding step
  iq_acts-Inv s a v =
      let act = iq_acted iq_mem machine s.iq a v.iq_settled in
      let iq' = Iq.step iq_mem machine s.iq (iq_event a) in
      record {
        iq = Iq.Run.step-Inv iq_mem machine s.iq (iq_event a) v.iq;
        slot = v.slot;
        iq_settled = act.registered;
        slot_settled = v.slot_settled;
        at_poller =
            subst (λ h. At s.poller h s.slot.in_handler s.waiting) (sym act.in_handler) v.at_poller;
        serving =
            track-iq iq_stream slot_stream s.iq.is_running iq'.is_running s.slot.is_running
              s.dispatcher v.serving;
        conserve =
            Conserves-acted v.conserve
              (track-released s.iq.is_running iq'.is_running iq_stream iq_handler s.dispatcher)
              act.received refl;
      }

  pub slot_acts-Inv :
      (s : System) (a : Act)
      → iq_stream ≢ slot_stream
      → Inv s
      → Inv (step iq_mem machine slot_mem iq_stream slot_stream s (slot_acts a))
  unfolding step
  slot_acts-Inv s a apart v =
      let act = slot_acted slot_mem s.slot a v.slot_settled in
      let slot' = Slot.step slot_mem s.slot (slot_event a) in
      record {
        iq = v.iq;
        slot = Slot.Run.step-Inv slot_mem s.slot (slot_event a) v.slot;
        iq_settled = v.iq_settled;
        slot_settled = act.registered;
        at_poller =
            subst (λ h. At s.poller s.iq.in_handler h s.waiting) (sym act.in_handler) v.at_poller;
        serving =
            track-slot iq_stream slot_stream s.slot.is_running slot'.is_running s.iq.is_running
              s.dispatcher apart v.serving;
        conserve =
            Conserves-acted v.conserve
              (track-released s.slot.is_running slot'.is_running slot_stream slot_handler
                s.dispatcher)
              refl act.received;
      }

  -- The handler's loop, where the poll thread is.
  pub take_next-Inv :
      (w : Poller) (bufs : List ℕ) (s : System) (now : ℕ)
      → s.poller ≡ w
      → s.waiting ≡ bufs
      → At w s.iq.in_handler s.slot.in_handler bufs
      → Conserves s.delivered s.dispatcher.released s.iq.received s.slot.received bufs
      → Inv s
      → Inv (take_next iq_mem machine slot_mem iq_stream slot_stream w bufs s now)
  unfolding take_next
  take_next-Inv idle bufs s now p q a c v = v
  take_next-Inv in_iq [] s now p q (in_iq', out_slot) c v = record {
    iq = Iq.Run.step-Inv iq_mem machine s.iq Iq.handler_returns v.iq;
    slot = v.slot;
    iq_settled = unfold Iq.step in v.iq_settled;
    slot_settled = v.slot_settled;
    at_poller = unfold Iq.step in (refl, out_slot, q);
    serving = unfold Iq.step in v.serving;
    conserve = unfold Iq.step in v.conserve;
  }
  take_next-Inv in_iq (b ∷ bufs) s now p q (in_iq', out_slot) c v =
      let t = iq_takes iq_mem machine s.iq now b in_iq' in
      record {
        iq = Iq.Run.step-Inv iq_mem machine s.iq (Iq.handles now b) v.iq;
        slot = v.slot;
        iq_settled = t.registered ∙ v.iq_settled ∙ sym t.is_running;
        slot_settled = v.slot_settled;
        at_poller =
            subst
              (λ u.
                At u (Iq.step iq_mem machine s.iq (Iq.handles now b)).in_handler s.slot.in_handler
                  bufs)
              (sym p) (t.in_handler ∙ in_iq', out_slot);
        serving =
            subst (λ on. Serving iq_stream slot_stream on s.slot.is_running s.dispatcher.handlers)
              (sym t.is_running) v.serving;
        conserve = Conserves-iq b c t.received;
      }
  take_next-Inv in_slot [] s now p q (out_iq, in_slot') c v = record {
    iq = v.iq;
    slot = Slot.Run.step-Inv slot_mem s.slot Slot.handler_returns v.slot;
    iq_settled = v.iq_settled;
    slot_settled = unfold Slot.step in v.slot_settled;
    at_poller = unfold Slot.step in (out_iq, refl, q);
    serving = unfold Slot.step in v.serving;
    conserve = unfold Slot.step in v.conserve;
  }
  take_next-Inv in_slot (b ∷ bufs) s now p q (out_iq, in_slot') c v =
      let t = slot_takes slot_mem s.slot now b in_slot' in
      record {
        iq = v.iq;
        slot = Slot.Run.step-Inv slot_mem s.slot (Slot.handles now b) v.slot;
        iq_settled = v.iq_settled;
        slot_settled = t.registered ∙ v.slot_settled ∙ sym t.is_running;
        at_poller =
            subst
              (λ u.
                At u s.iq.in_handler (Slot.step slot_mem s.slot (Slot.handles now b)).in_handler
                  bufs)
              (sym p) (out_iq, t.in_handler ∙ in_slot');
        serving =
            subst (λ on. Serving iq_stream slot_stream s.iq.is_running on s.dispatcher.handlers)
              (sym t.is_running) v.serving;
        conserve = Conserves-slot b c t.received;
      }
