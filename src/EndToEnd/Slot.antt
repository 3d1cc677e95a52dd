-- ===== src/EndToEnd/Slot.antt =====
-- From the resource grid through codelets/uplink_slot_samples/uplink_slot_collect.c and
-- src/e3sm/l1_kpm/e3sm_layer_1.cpp to the dApps, in gnb mode.
use mathlib.Core.Path.{subst}
use e3controller.Common.{
  ℕ, ◌%◌, ◌/◌, ◌^◌, ◌<◌, ◌≡◌, inl, inr, refl, sym, ap, ◌∙◌, false, List, [], ◌∷◌, ◌++◌, length,
  length-append, ◌≢◌, arith,
}
use e3controller.Pipeline.Slot.{SlotDesc, SlotSample}
use e3controller.Codelet.Uplink
use e3controller.Codelet.Uplink.{SlotCtx, Outcome, desc_of}
use e3controller.Codelet.Uplink.Published.{Largest, Reported, Sends, main-Sends}
use e3controller.Shm.Writer.{writes_rows}
use e3controller.Layer1.State.{E3SmLayer1, Env}
use e3controller.Layer1.{on_sample, is_truncated}
use e3controller.Layer1.Ledger.{core}
use e3controller.Layer1.Rows.{Placed, Placed-at, gnb_mode}

-- What an indication in gnb mode points at: the row that the helper reported when it took the largest
-- of the three sizes that the grid holds.
abbrev pub FromHelper : Uplink.Env → SlotCtx → Uplink.Codelet → SlotDesc → Type 0
FromHelper uenv ctx u d =
    let sel = (Uplink.receive uenv u).sel in
    Largest d.bytes_written ctx.grid_bytes
    × (uenv.publish d.bytes_written sel < 2 ^ 63)
    × (d.fh_write_index ≡ uenv.publish d.bytes_written sel % 2 ^ 32)
    × (d.fh_buffer_index ≡ uenv.publish d.bytes_written sel / 2 ^ 32 % 2 ^ 8)

Reported-FromHelper :
    (uenv : Uplink.Env) (ctx : SlotCtx) (u : Uplink.Codelet) (d : SlotDesc)
    → Reported uenv ctx (Uplink.receive uenv u).sel d
    → (is_truncated d.flags ≡ false) × (0 < d.bytes_written)
    → FromHelper uenv ctx u d
Reported-FromHelper uenv ctx u d (inl (clear, largest, taken, row, buffer)) sound =
    (largest, taken, row, buffer)
Reported-FromHelper uenv ctx u d (inr (set, none', why)) (clear, some') = absurd (ground arith)

same_last {ℓ} : {A : Type ℓ} (xs : List A) {a b : A} → xs ++ (a ∷ []) ≡ xs ++ (b ∷ []) → a ≡ b
same_last [] h = cc
same_last (x ∷ xs) h = same_last xs (cc)

no_last {ℓ} : {A : Type ℓ} (xs : List A) (a : A) → xs ++ (a ∷ []) ≢ xs
no_last xs a h = (omega (arith, ap length h, length-append xs (a ∷ [])))

-- The descriptor that a call sent reports its slot.
sent-Reported :
    (uenv : Uplink.Env) (ctx : SlotCtx) (u : Uplink.Codelet) (d : SlotDesc)
    → (Uplink.jbpf_main uenv ctx u).0.output ≡ u.output ++ (d ∷ [])
    → Reported uenv ctx (Uplink.receive uenv u).sel d
sent-Reported uenv ctx u d h = go (main-Sends uenv ctx u)
  where
    go :
        Sends uenv ctx (Uplink.receive uenv u).sel u.output (Uplink.jbpf_main uenv ctx u).0.output
        → Reported uenv ctx (Uplink.receive uenv u).sel d
    go (inl e) = absurd (no_last u.output d (sym h ∙ e))
    go (inr (o, e, r)) =
        subst (Reported uenv ctx (Uplink.receive uenv u).sel) (same_last u.output (sym e ∙ h)) r

-- The descriptor that a call sent is of its slot.
pub sent-desc :
    (uenv : Uplink.Env) (ctx : SlotCtx) (u : Uplink.Codelet) (d : SlotDesc)
    → (Uplink.jbpf_main uenv ctx u).0.output ≡ u.output ++ (d ∷ [])
    → (o : Outcome) × (desc_of uenv ctx o ≡ d)
sent-desc uenv ctx u d h = go (main-Sends uenv ctx u)
  where
    go :
        Sends uenv ctx (Uplink.receive uenv u).sel u.output (Uplink.jbpf_main uenv ctx u).0.output
        → (o : Outcome) × (desc_of uenv ctx o ≡ d)
    go (inl e) = absurd (no_last u.output d (sym h ∙ e))
    go (inr (o, e, r)) = (o, same_last u.output (sym e ∙ h))

-- Of a slot whose descriptor the codelet has sent, the L1 service model in gnb mode either shows the
-- dApps nothing, or sends each subscriber the indices of the row that the helper answered to the
-- largest of the three sizes that the grid holds: a slot that the helper refused, or whose grid is too
-- small, reaches no dApp.
pub helper_row :
    (uenv : Uplink.Env) (ctx : SlotCtx) (u : Uplink.Codelet) (env : Env) (l : E3SmLayer1)
    (s : SlotSample) (iq : ℕ → ℕ)
    → (Uplink.jbpf_main uenv ctx u).0.output ≡ u.output ++ (s.desc ∷ [])
    → writes_rows l.shm_writer ≡ false
    → Placed env l s
        (core (on_sample env l s iq))
        l.shm_writer
        s.desc.fh_buffer_index
        s.desc.fh_write_index
        (FromHelper uenv ctx u s.desc)
helper_row uenv ctx u env l s iq sent g =
    Placed-at env l s (core (on_sample env l s iq))
      (l.shm_writer, s.desc.fh_buffer_index, s.desc.fh_write_index) _ refl
      (Reported-FromHelper uenv ctx u s.desc (sent-Reported uenv ctx u s.desc sent))
      (gnb_mode env l s iq g)
