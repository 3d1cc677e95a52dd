-- ===== src/Codelet/Uplink/Selection.antt =====
-- Which slots the codelet hands to the helper.
use e3controller.Common.{
  ℕ, ◌/◌, ◌%◌, ◌^◌, ◌≤◌, ◌<◌, ◌≡◌, ◌≢◌, ◌↔◌, inl, inr, refl, ap, ◌∙◌, Bool, true, ◌&&◌, Bool-cases,
  &&-left, &&-right, ltb→lt, List, ◌++◌, ltb, ◌==◌, if◌then◌else◌, arith,
}
use native.Mathlib.Nat.{mod-le}
use e3controller.Pipeline.Slot.{SlotSel, Config, slot_sel}
use e3controller.Codelet.Uplink.{
  SlotCtx, Env, Codelet, receive, frame_passes, slot_passes, filter_flag, rung, calls_of,
  publish_slot, jbpf_main,
}

-- The contract of the selector: every `sfn_mod`-th frame from `sfn_offset` on, where `sfn_mod` is above
-- 1, and of these the slots whose bit is set in the mask, where the mask is not 0.
abbrev pub Selects : SlotSel → (sfn slot : ℕ) → Type 0
Selects sel sfn slot =
    (1 < sel.sfn_mod → sfn % sel.sfn_mod ≡ sel.sfn_offset)
    × (sel.slot_mask ≢ 0 → (slot < 64) × (sel.slot_mask / 2 ^ slot % 2 ≡ 1))

-- The remainder is taken as a uint16_t, which changes nothing for a frame number of 16 bits.
remainder_small : (sfn m : ℕ) → sfn < 2 ^ 16 → sfn % m % 2 ^ 16 ≡ sfn % m
remainder_small sfn m h = let le : sfn % m ≤ sfn = mod-le sfn m in omega arith

frame_passes_sound :
    (sel : SlotSel) (sfn : ℕ)
    → sfn < 2 ^ 16
    → frame_passes sel sfn ≡ true
    → 1 < sel.sfn_mod
    → sfn % sel.sfn_mod ≡ sel.sfn_offset
unfolding frame_passes
frame_passes_sound sel sfn h e lt = ground (arith, remainder_small sfn sel.sfn_mod h)

frame_passes_complete :
    (sel : SlotSel) (sfn : ℕ)
    → sfn < 2 ^ 16
    → (1 < sel.sfn_mod → sfn % sel.sfn_mod ≡ sel.sfn_offset)
    → frame_passes sel sfn ≡ true
unfolding frame_passes
frame_passes_complete sel sfn h f = elim (Bool-cases (ltb 1 sel.sfn_mod)) [
  | inl on ↦ let e = f (ltb→lt _ _ on) in ground (arith, remainder_small sfn sel.sfn_mod h)
  | inr off ↦ rw off refl
]

slot_passes_sound :
    (sel : SlotSel) (slot : ℕ)
    → slot_passes sel slot ≡ true
    → sel.slot_mask ≢ 0
    → (slot < 64) × (sel.slot_mask / 2 ^ slot % 2 ≡ 1)
unfolding slot_passes
slot_passes_sound sel slot e ne = ground arith

slot_passes_complete :
    (sel : SlotSel) (slot : ℕ)
    → (sel.slot_mask ≢ 0 → (slot < 64) × (sel.slot_mask / 2 ^ slot % 2 ≡ 1))
    → slot_passes sel slot ≡ true
unfolding slot_passes
slot_passes_complete sel slot f = elim (Bool-cases (sel.slot_mask == 0)) [
  | inl all ↦ rw all refl
  | inr some' ↦ let (lt, bit) = f (ground arith) in ground arith
]

passes : SlotSel → ℕ → ℕ → Bool
passes sel sfn slot = frame_passes sel sfn && slot_passes sel slot

-- A frame number of 16 bits passes both filters of the codelet exactly where the selector selects it.
passes_iff :
    (sel : SlotSel) (sfn slot : ℕ)
    → sfn < 2 ^ 16
    → (passes sel sfn slot ≡ true) ↔ Selects sel sfn slot
unfolding passes
passes_iff sel sfn slot h = (
  λ e. (
    frame_passes_sound sel sfn h (&&-left _ _ e),
    slot_passes_sound sel slot (&&-right (frame_passes sel sfn) _ e),
  ),
  λ s. rw (frame_passes_complete sel sfn h s.0, slot_passes_complete sel slot s.1) refl,
)

-- The helper is called at most once, with the ladder's size, and exactly for a slot that is selected.
abbrev pub Hands : SlotCtx → SlotSel → (before after : List ℕ) → Type 0
Hands ctx sel before after =
    (Selects sel ctx.sfn ctx.slot_id → after ≡ before ++ calls_of (rung ctx.grid_bytes))
    × (¬ Selects sel ctx.sfn ctx.slot_id → after ≡ before)

publish_slot-published :
    (env : Env) (ctx : SlotCtx) (c : Codelet)
    → (publish_slot env ctx c).0.published ≡ c.published ++ calls_of (rung ctx.grid_bytes)
unfolding publish_slot
publish_slot-published env ctx c = ground arith

receive-published : (env : Env) (c : Codelet) → (receive env c).published ≡ c.published
unfolding receive
receive-published env c = ground arith

main-published :
    (env : Env) (ctx : SlotCtx) (c : Codelet)
    → env.sel_found ≡ true
    → let c' = receive env c in
      (jbpf_main env ctx c).0.published ≡ (
        if passes c'.sel ctx.sfn ctx.slot_id
        then (publish_slot env ctx c').0.published
        else c'.published)
unfolding jbpf_main passes
main-published env ctx c found = ground arith

-- Where the selector's map is found, the codelet hands the grid to the helper exactly when the
-- selector, which may have come with this call, selects the slot: then once, with the size that the
-- ladder gives, or not at all where the grid is below the smallest size.
pub main-Hands :
    (env : Env) (ctx : SlotCtx) (c : Codelet)
    → env.sel_found ≡ true
    → ctx.sfn < 2 ^ 16
    → Hands ctx (receive env c).sel c.published (jbpf_main env ctx c).0.published
main-Hands env ctx c found h =
    let c' = receive env c in
    let both = passes_iff c'.sel ctx.sfn ctx.slot_id h in
    let first = main-published env ctx c found in
    (
      λ s.
          first
          ∙ rw (both.1 s) (
              publish_slot-published env ctx c'
              ∙ ap (λ l. l ++ calls_of (rung ctx.grid_bytes)) (receive-published env c)),
      λ ns. elim (Bool-cases (passes c'.sel ctx.sfn ctx.slot_id)) [
        | inl e ↦ absurd (ns (both.0 e))
        | inr e ↦ first ∙ rw e (receive-published env c)
      ],
    )

-- The selector that the pipeline sends after each start selects every slot, and flags none.
pub slot_sel-Selects :
    (c : Config) (sfn slot : ℕ) → Selects (slot_sel c) sfn slot × (filter_flag (slot_sel c) ≡ 0)
unfolding filter_flag
slot_sel-Selects c sfn slot = ((λ h. absurd (omega arith), λ h. absurd (h refl)), refl)
