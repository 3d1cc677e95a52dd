-- ===== src/System/Steps.antt =====
-- A batch that jbpf delivers, and any step, keep the invariant.
use mathlib.Core.Path.{subst}
use e3controller.Pipeline.Iq.{Machine}
use e3controller.Common.{
  ℕ, ◌≡◌, ◌≢◌, refl, sym, ◌∙◌, Bool, true, not, ◌||◌, Option, none, List, [], ◌∷◌, ◌++◌, ◌==◌,
  if◌then◌else◌, if_cases,
}
use e3controller.Codelet.Ecpri.{IqSampleData}
use e3controller.Dispatcher.{StreamEntry, found_entry, has_handler, call_of, dispatch}
use e3controller.Pipeline.Iq
use e3controller.Pipeline.Iq.Run
use e3controller.Pipeline.Slot.{SlotDesc}
use e3controller.Pipeline.Slot
use e3controller.System.{
  Poller, idle, in_iq, in_slot, System, iq_handler, slot_handler, called, Event, polls, takes,
  iq_acts, slot_acts, enter, poll, step, run,
}
use e3controller.System.SlotParts.{slot_enters}
use e3controller.System.IqParts.{iq_enters}
use e3controller.System.Serving.{serves, At, Serving, served}
use e3controller.System.Books.{Conserves-enters, Conserves-released}
use e3controller.System.Invariant.{Inv, take_next-Inv, iq_acts-Inv, slot_acts-Inv}

module _ (iq_mem : ℕ → IqSampleData) (machine : Machine) (slot_mem : ℕ → SlotDesc)
    (iq_stream slot_stream : ℕ) where
  module _ (s : System) (stream b : ℕ) (bufs : List ℕ) (first_ok second_ok : Bool)
      (v : Inv iq_mem machine slot_mem iq_stream slot_stream s)
      (at_idle : At idle s.iq.in_handler s.slot.in_handler s.waiting) where
    -- The batch when the dispatcher finds the entry `o`.
    abbrev found : Option StreamEntry → System
    found o =
        let h = StreamEntry.handler (found_entry o) in
        record s {
          dispatcher = record s.dispatcher {
            calls = s.dispatcher.calls ++ call_of h stream (b ∷ bufs);
            released =
                if not (has_handler h) || not (StreamEntry.defer_release (found_entry o))
                then s.dispatcher.released ++ (b ∷ bufs)
                else s.dispatcher.released;
          };
          delivered = s.delivered ++ (b ∷ bufs);
        }

    abbrev Routed : Option StreamEntry → Type 0
    Routed o = Inv iq_mem machine slot_mem iq_stream slot_stream (
        enter iq_mem machine slot_mem iq_stream slot_stream
          (called (StreamEntry.handler (found_entry o))) (found o) (b ∷ bufs) first_ok second_ok)

    nobody : s.poller ≡ idle → Routed none
    unfolding enter
    nobody p = record {
      iq = v.iq;
      slot = v.slot;
      iq_settled = v.iq_settled;
      slot_settled = v.slot_settled;
      at_poller = v.at_poller;
      serving = v.serving;
      conserve = Conserves-released v.conserve (b ∷ bufs);
    }

    to_iq : s.iq.is_running ≡ true → Routed (serves true iq_handler)
    unfolding enter
    to_iq on =
        let (out_iq, out_slot, none') = at_idle in
        let e = iq_enters iq_mem machine s.iq first_ok (v.iq_settled ∙ on) out_iq in
        record {
          iq = Iq.Run.step-Inv iq_mem machine s.iq (Iq.handler_enters first_ok) v.iq;
          slot = v.slot;
          iq_settled = e.registered ∙ v.iq_settled ∙ sym e.is_running;
          slot_settled = v.slot_settled;
          at_poller = (e.in_handler, out_slot);
          serving =
              subst (λ on. Serving iq_stream slot_stream on s.slot.is_running s.dispatcher.handlers)
                (sym e.is_running) v.serving;
          conserve = Conserves-enters v.conserve (b ∷ bufs) none' e.received refl;
        }

    to_slot : s.slot.is_running ≡ true → Routed (serves true slot_handler)
    unfolding enter
    to_slot on =
        let (out_iq, out_slot, none') = at_idle in
        let e = slot_enters slot_mem s.slot first_ok second_ok (v.slot_settled ∙ on) out_slot in
        record {
          iq = v.iq;
          slot = Slot.Run.step-Inv slot_mem s.slot (Slot.handler_enters first_ok second_ok) v.slot;
          iq_settled = v.iq_settled;
          slot_settled = e.registered ∙ v.slot_settled ∙ sym e.is_running;
          at_poller = (out_iq, e.in_handler);
          serving =
              subst (λ on. Serving iq_stream slot_stream s.iq.is_running on s.dispatcher.handlers)
                (sym e.is_running) v.serving;
          conserve = Conserves-enters v.conserve (b ∷ bufs) none' refl e.received;
        }

    idle-Inv :
        s.poller ≡ idle
        → Inv iq_mem machine slot_mem iq_stream slot_stream (
            poll iq_mem machine slot_mem iq_stream slot_stream idle s stream b bufs first_ok
              second_ok)
    unfolding poll dispatch
    idle-Inv p = subst Routed (sym (v.serving stream)) (
        if_cases Routed (iq_stream == stream)
          (λ i. served Routed s.iq.is_running iq_handler to_iq (nobody p))
          (λ i.
            if_cases Routed (slot_stream == stream)
              (λ l. served Routed s.slot.is_running slot_handler to_slot (nobody p))
              (λ l. nobody p)))

  poll-Inv :
      (w : Poller) (s : System) (stream b : ℕ) (bufs : List ℕ) (first_ok second_ok : Bool)
      → s.poller ≡ w
      → At w s.iq.in_handler s.slot.in_handler s.waiting
      → Inv iq_mem machine slot_mem iq_stream slot_stream s
      → Inv iq_mem machine slot_mem iq_stream slot_stream
          (poll iq_mem machine slot_mem iq_stream slot_stream w s stream b bufs first_ok second_ok)
  poll-Inv idle s stream b bufs first_ok second_ok p a v =
      idle-Inv s stream b bufs first_ok second_ok v a p
  poll-Inv in_iq s stream b bufs first_ok second_ok p a v = unfold poll in v
  poll-Inv in_slot s stream b bufs first_ok second_ok p a v = unfold poll in v

  step-Inv :
      (s : System) (e : Event)
      → iq_stream ≢ slot_stream
      → Inv iq_mem machine slot_mem iq_stream slot_stream s
      → Inv iq_mem machine slot_mem iq_stream slot_stream
          (step iq_mem machine slot_mem iq_stream slot_stream s e)
  step-Inv s (polls stream b bufs first_ok second_ok) apart v =
      unfold step in poll-Inv s.poller s stream b bufs first_ok second_ok refl v.at_poller v
  step-Inv s (takes now) apart v =
      unfold step in
      take_next-Inv iq_mem machine slot_mem iq_stream slot_stream s.poller s.waiting s now refl refl
        v.at_poller v.conserve v
  step-Inv s (iq_acts a) apart v = iq_acts-Inv iq_mem machine slot_mem iq_stream slot_stream s a v
  step-Inv s (slot_acts a) apart v =
      slot_acts-Inv iq_mem machine slot_mem iq_stream slot_stream s a apart v

  pub run-Inv :
      (es : List Event) (s : System)
      → iq_stream ≢ slot_stream
      → Inv iq_mem machine slot_mem iq_stream slot_stream s
      → Inv iq_mem machine slot_mem iq_stream slot_stream
          (run iq_mem machine slot_mem iq_stream slot_stream s es)
  unfolding run
  run-Inv [] s apart v = v
  run-Inv (e ∷ es) s apart v =
      run-Inv es (step iq_mem machine slot_mem iq_stream slot_stream s e) apart
        (step-Inv s e apart v)
