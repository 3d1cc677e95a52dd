-- ===== src/Codelet/Uplink/Published.antt =====
-- What the slot codelet publishes and reports.
use mathlib.Core.Path.{subst}
use e3controller.Common.{
  ℕ, ◌+◌, ◌/◌, ◌%◌, ◌^◌, ◌≤◌, ◌<◌, ◌≡◌, ◌⊎◌, inl, inr, refl, not, ◌&&◌, Option, none, some,
  Bool-cases, List, [], ◌∷◌, ◌++◌, leb, leb→le, if_cases, arith,
}
use e3controller.Pipeline.Slot.Messages.{SlotDesc, SlotSel}
use e3controller.Codelet.Uplink.{
  SlotCtx, Env, Codelet, ReturnCode, receive, frame_passes, slot_passes, filter_flag, rung,
  slot_bytes_8p, slot_bytes_4p, slot_bytes_2p, Outcome, outcome_of, desc_of, publish_slot,
  jbpf_main,
}

-- The largest of the three sizes that a grid of `avail` bytes holds.
abbrev pub Largest : ℕ → ℕ → Type 0
Largest n avail =
    ((n ≡ slot_bytes_8p) ⊎ (n ≡ slot_bytes_4p) ⊎ (n ≡ slot_bytes_2p))
    × (n ≤ avail)
    × (n < slot_bytes_8p → avail < slot_bytes_8p)
    × (n < slot_bytes_4p → avail < slot_bytes_4p)

rung-Largest : (avail n : ℕ) → rung avail ≡ some n → Largest n avail
unfolding rung
rung-Largest avail n h = ground arith

rung-none : (avail : ℕ) → rung avail ≡ none → avail < slot_bytes_2p
unfolding rung
rung-none avail h = ground arith

-- What a descriptor says of the slot: the row that the helper reported, for the largest size that the
-- grid holds; or TRUNCATED and no bytes, where the grid is too small or the helper refused.
abbrev pub Reported : Env → SlotCtx → SlotSel → SlotDesc → Type 0
Reported env ctx sel d =
    ((d.flags % 2 ≡ 0)
      × Largest d.bytes_written ctx.grid_bytes
      × (env.publish d.bytes_written sel < 2 ^ 63)
      × (d.fh_write_index ≡ env.publish d.bytes_written sel % 2 ^ 32)
      × (d.fh_buffer_index ≡ env.publish d.bytes_written sel / 2 ^ 32 % 2 ^ 8))
    ⊎ ((d.flags % 2 ≡ 1)
        × (d.bytes_written ≡ 0)
        × ((ctx.grid_bytes < slot_bytes_2p)
            ⊎ ((n : ℕ) × Largest n ctx.grid_bytes × (2 ^ 63 ≤ env.publish n sel))))

filter_flag-even : (sel : SlotSel) → (filter_flag sel % 2 ≡ 0) × ((filter_flag sel + 1) % 2 ≡ 1)
unfolding filter_flag
filter_flag-even sel = ground arith

outcome-Reported :
    (env : Env) (ctx : SlotCtx) (sel : SlotSel) (o : Option ℕ)
    → rung ctx.grid_bytes ≡ o
    → Reported env ctx sel (desc_of env ctx (outcome_of env sel o))
unfolding outcome_of
outcome-Reported env ctx sel none e =
    inr ((filter_flag-even sel).1, refl, inl (rung-none ctx.grid_bytes e))
outcome-Reported env ctx sel (some n) e = elim (Bool-cases (leb (2 ^ 63) (env.publish n sel))) [
  | inl refused ↦ rw refused (
      inr (
        (filter_flag-even sel).1,
        refl,
        inr (n, rung-Largest ctx.grid_bytes n e, leb→le _ _ refused),
      ))
  | inr done ↦
      rw done
        (inl ((filter_flag-even sel).0, rung-Largest ctx.grid_bytes n e, ground arith, refl, refl))
]

receive-output : (env : Env) (c : Codelet) → (receive env c).output ≡ c.output
unfolding receive
receive-output env c = ground arith

-- At most one descriptor is sent after `before`, and it reports the slot.
abbrev pub Sends : Env → SlotCtx → SlotSel → List SlotDesc → List SlotDesc → Type 0
Sends env ctx sel before after =
    (after ≡ before)
    ⊎ ((o : Outcome) × (after ≡ before ++ (desc_of env ctx o ∷ []))
        × Reported env ctx sel (desc_of env ctx o))

publish_slot-Sends :
    (env : Env) (ctx : SlotCtx) (c : Codelet)
    → Sends env ctx c.sel c.output (publish_slot env ctx c).0.output
unfolding publish_slot
publish_slot-Sends env ctx c =
    let P = λ (r : Codelet × ReturnCode). Sends env ctx c.sel c.output r.0.output in
    if_cases P (not env.buffer_found) (λ h. inl refl)
      (λ h.
        if_cases P (not env.output_sent) (λ h. inl refl)
          (λ h. inr (
            outcome_of env c.sel (rung ctx.grid_bytes),
            refl,
            outcome-Reported env ctx c.sel _ refl,
          )))

-- A call sends at most one descriptor, with the grid's shape, position and hand-off time and the
-- call's own stamps. Where it sends one, either TRUNCATED is clear, the bytes are the largest of the
-- three sizes that the grid holds, and the indices are those that the helper answered to that size;
-- or TRUNCATED is set, no bytes are reported, and the grid is below the smallest size or the helper
-- refused.
pub main-Sends :
    (env : Env) (ctx : SlotCtx) (c : Codelet)
    → Sends env ctx (receive env c).sel c.output (jbpf_main env ctx c).0.output
unfolding jbpf_main
main-Sends env ctx c =
    let c' = receive env c in
    let P = λ (r : Codelet × ReturnCode). Sends env ctx c'.sel c.output r.0.output in
    if_cases P (not env.sel_found) (λ h. inl (receive-output env c))
      (λ h.
        if_cases P (not (frame_passes c'.sel ctx.sfn && slot_passes c'.sel ctx.slot_id))
          (λ k. inl (receive-output env c))
          (λ k.
            subst (λ l. Sends env ctx c'.sel l (publish_slot env ctx c').0.output)
              (receive-output env c) (publish_slot-Sends env ctx c')))
