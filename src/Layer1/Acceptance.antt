-- ===== src/Layer1/Acceptance.antt =====
-- The samples that E3SMLayer1 does not refuse, and that it numbers each of them.
use mathlib.Core.Path.{subst}
use e3controller.Common.{ℕ, ◌+◌, ◌%◌, ◌^◌, ◌≡◌, sym, ap, ◌∙◌, true, false, not, if_cases, none}
use e3controller.Pipeline.Slot.{SlotSample}
use e3controller.Layer1.State.{E3SmLayer1, Env}
use e3controller.Layer1.{
  check_geometry, data_fault, place_row, indication_of, on_sample, filtered_out, no_dapps,
  after_fault, publish_slot,
}
use e3controller.Layer1.Ledger.{core, Core, emit-core}
use e3controller.Layer1.Rows.{emitted-sent}

-- Whether a sample passes the checks of `on_sample`: the object runs, the slot filter lets it pass, the
-- geometry is confirmed, its data is as the writer's mode wants it, and somebody has subscribed.
pub record Accepts (env : Env) (l : E3SmLayer1) (s : SlotSample) : Type 0 where
  pub run : l.is_running ≡ true
  pub kept : filtered_out l.target_slot s.desc.slot_id ≡ false
  pub good : (check_geometry l s).geometry_ok ≡ true
  pub sound : data_fault (check_geometry l s) s ≡ none
  pub dapps : no_dapps env.subscribers ≡ false

pub accepted-seq :
    (env : Env) (l : E3SmLayer1) (s : SlotSample) (iq : ℕ → ℕ)
    → Accepts env l s
    → (core (on_sample env l s iq)).slot_publish_seq ≡ (l.slot_publish_seq + 1) % 2 ^ 64
unfolding on_sample publish_slot check_geometry
accepted-seq env l s iq a =
    let P : E3SmLayer1 → Type 0 =
      λ l'. (core l').slot_publish_seq ≡ (l.slot_publish_seq + 1) % 2 ^ 64 in
    let m = check_geometry l s in
    let (w, b, r) = place_row env m s iq in
    let numbered : E3SmLayer1 = record m {
      slot_publish_seq = (l.slot_publish_seq + 1) % 2 ^ 64;
      shm_writer = w;
    } in
    let answer = env.encode env.encoding (indication_of m s b r) in
    if_cases P (not l.is_running) (λ h. let z = ap not a.run in cc)
      (λ h.
        if_cases P (filtered_out l.target_slot s.desc.slot_id) (λ h'. let z = sym a.kept ∙ h' in cc)
          (λ h'.
            if_cases P (not m.geometry_ok) (λ g. let z = ap not a.good in cc)
              (λ g.
                subst (λ f. P (after_fault env m s iq f)) (sym a.sound)
                  (if_cases P (no_dapps env.subscribers) (λ d. let z = sym a.dapps ∙ d in cc)
                    (λ d.
                      ap (λ (c : Core). c.slot_publish_seq) (emit-core env numbered answer)
                      ∙ (emitted-sent env answer (core numbered)).1)))))
