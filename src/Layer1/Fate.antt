-- ===== src/Layer1/Fate.antt =====
-- What becomes of a slot: every sample is refused for one reason or numbered, and where it is
-- numbered it is encoded once and handed to libe3 for each subscriber.
use e3controller.Common.{
  ℕ, ◌+◌, ◌%◌, ◌^◌, ◌<◌, ◌≡◌, refl, ap, ◌∙◌, Bool, true, false, not, Option, none, some, if_cases,
  arith, not-false,
}
use e3controller.Pipeline.Slot.{SlotSample}
use e3controller.Layer1.State.{
  Drop, not_running, slot_filtered, geometry_mismatch, no_subscribers, drop_index, E3SmLayer1, Env,
  bump, note_drop,
}
use e3controller.Layer1.{
  check_geometry, data_fault, place_row, indication_of, publish_slot, after_fault, filtered_out,
  no_dapps, on_sample, warn,
}
use e3controller.Layer1.Ledger.{Core, core, note_drop-core, emitted, emit-core}

-- What a sample does to the object `l`, which it leaves with the core `c`: it is refused for one of
-- the first seven reasons, or it is numbered, its row is placed, and it is encoded and sent.
pub data Fate (env : Env) (l : E3SmLayer1) (s : SlotSample) (iq : ℕ → ℕ) (c : Core) : Type 0 where
  refused :
      (d : Drop) (checked confirmed : Bool)
      → drop_index d < 7
      → (l.geometry_checked ≡ true → (checked ≡ true) × (confirmed ≡ l.geometry_ok))
      → c ≡ record (core l) {
        geometry_checked = checked;
        geometry_ok = confirmed;
        drops = bump d l.drops;
      }
      → Fate env l s iq c
  numbered :
      l.is_running ≡ true
      → (check_geometry l s).geometry_ok ≡ true
      → data_fault (check_geometry l s) s ≡ none
      → no_dapps env.subscribers ≡ false
      → (let (w, b, r) = place_row env (check_geometry l s) s iq in
          c
          ≡ emitted env
              (env.encode env.encoding (indication_of (check_geometry l s) s b r))
              (record (core (check_geometry l s)) {
                slot_publish_seq = (l.slot_publish_seq + 1) % 2 ^ 64;
                shm_writer = w;
              }))
      → Fate env l s iq c

refuse :
    (env : Env) (l m : E3SmLayer1) (s : SlotSample) (iq : ℕ → ℕ) (d : Drop)
    → drop_index d < 7
    → (checked confirmed : Bool)
    → (l.geometry_checked ≡ true → (checked ≡ true) × (confirmed ≡ l.geometry_ok))
    → core m ≡ record (core l) { geometry_checked = checked; geometry_ok = confirmed }
    → Fate env l s iq (core (note_drop env m d))
refuse env l m s iq d h checked confirmed k e =
    refused d checked confirmed h k
      (note_drop-core env m d ∙ ap (λ (c : Core). record c { drops = bump d c.drops }) e)

fault-lt : (l : E3SmLayer1) (s : SlotSample) (d : Drop) → data_fault l s ≡ some d → drop_index d < 7
unfolding data_fault
fault-lt l s d e = ground arith

pub checked-kept :
    (l : E3SmLayer1) (s : SlotSample)
    → l.geometry_checked ≡ true
    → ((check_geometry l s).geometry_checked ≡ true)
      × ((check_geometry l s).geometry_ok ≡ l.geometry_ok)
unfolding check_geometry
checked-kept l s k = (refl, rw (k) refl)

after_fault-Fate :
    (env : Env) (l : E3SmLayer1) (s : SlotSample) (iq : ℕ → ℕ)
    → l.is_running ≡ true
    → (check_geometry l s).geometry_ok ≡ true
    → (f : Option Drop) → data_fault (check_geometry l s) s ≡ f
    → Fate env l s iq (core (after_fault env (check_geometry l s) s iq f))
unfolding check_geometry publish_slot
after_fault-Fate env l s iq run good (some d) e =
    let m = check_geometry l s in
    refuse env l (warn m d) s iq d (fault-lt m s d e) m.geometry_checked m.geometry_ok
      (checked-kept l s) refl
after_fault-Fate env l s iq run good none e =
    let m = check_geometry l s in
    let (w, b, r) = place_row env m s iq in
    if_cases (λ l'. Fate env l s iq (core l')) (no_dapps env.subscribers)
      (λ h.
        refuse env l m s iq no_subscribers (omega arith) m.geometry_checked m.geometry_ok
          (checked-kept l s) refl)
      (λ some_dapp. numbered run good e some_dapp (
        emit-core env
          (record m { slot_publish_seq = (l.slot_publish_seq + 1) % 2 ^ 64; shm_writer = w })
          (env.encode env.encoding (indication_of m s b r))))

-- Every sample has one of these fates.
pub on_sample-Fate :
    (env : Env) (l : E3SmLayer1) (s : SlotSample) (iq : ℕ → ℕ)
    → Fate env l s iq (core (on_sample env l s iq))
unfolding on_sample check_geometry publish_slot
on_sample-Fate env l s iq =
    let P : E3SmLayer1 → Type 0 = λ l'. Fate env l s iq (core l') in
    let m = check_geometry l s in
    if_cases P (not l.is_running)
      (λ h.
        refuse env l l s iq not_running (omega arith) l.geometry_checked l.geometry_ok
          (λ k. (k, refl)) refl)
      (λ run.
        if_cases P (filtered_out l.target_slot s.desc.slot_id)
          (λ h.
            refuse env l l s iq slot_filtered (omega arith) l.geometry_checked l.geometry_ok
              (λ k. (k, refl)) refl)
          (λ kept.
            if_cases P (not m.geometry_ok)
              (λ h.
                refuse env l m s iq geometry_mismatch (omega arith) m.geometry_checked m.geometry_ok
                  (checked-kept l s) refl)
              (λ good.
                after_fault-Fate env l s iq (not-false l.is_running run)
                  (not-false m.geometry_ok good) (data_fault m s) refl)))
