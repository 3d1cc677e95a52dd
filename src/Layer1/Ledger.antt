-- ===== src/Layer1/Ledger.antt =====
-- The object less its reports, and what a refusal, a fan-out and `emit` do to it.
use mathlib.Core.Path.{ap₂}
use mathlib.Core.List.{append_assoc, append-nil}
use e3controller.Common.{
  ℕ, zero, suc, ◌+◌, ◌≡◌, refl, sym, ap, ◌∙◌, Bool, List, [], ◌∷◌, ◌++◌, map, Option, none, some,
  ◌==◌, if◌then◌else◌, if_cases,
}
use e3controller.Shm.Writer.{ShmIqWriter}
use e3controller.Config.Geometry.{RadioGeometry}
use e3controller.Common.{ℤ}
use e3controller.Layer1.State.{
  Drop, encode_failed, emit_failed, E3SmLayer1, Env, log_drops_at, maybe_log_drops, bump, note_drop,
  too_soon, total_drops,
}
use e3controller.Layer1.{fan_out, emit}

-- `n` times the same reason.
abbrev pub bumps : ℕ → Drop → (ℕ → ℕ) → ℕ → ℕ
bumps zero d drops = drops
bumps (suc n) d drops = bumps n d (bump d drops)

-- The dApps for which libe3 refuses the message.
abbrev pub failures : Env → List ℕ → ℕ
failures env [] = 0
failures env (d ∷ ds) = if env.emit_ok d then failures env ds else suc (failures env ds)

abbrev pub deliveries : List ℕ → List ℕ → List (ℕ × List ℕ)
deliveries payload ds = map (λ d. (d, payload)) ds

-- The object less its report, its warnings and its clock.
pub record Core : Type 0 where
  pub drops : ℕ → ℕ
  pub slot_publish_seq : ℕ
  pub sent : List (ℕ × List ℕ)
  pub shm_writer : ShmIqWriter
  pub is_running : Bool
  pub geom : RadioGeometry
  pub geometry_checked : Bool
  pub geometry_ok : Bool
  pub target_slot : ℤ

abbrev pub core : E3SmLayer1 → Core
core l = record {
  drops = l.drops;
  slot_publish_seq = l.slot_publish_seq;
  sent = l.sent;
  shm_writer = l.shm_writer;
  is_running = l.is_running;
  geom = l.geom;
  geometry_checked = l.geometry_checked;
  geometry_ok = l.geometry_ok;
  target_slot = l.target_slot;
}

log_drops_at-core : (env : Env) (l : E3SmLayer1) (now : ℕ) → core (log_drops_at env l now) ≡ core l
unfolding log_drops_at
log_drops_at-core env l now =
    if_cases (λ l'. core l' ≡ core l) (too_soon l now) (λ h. refl)
      (λ h.
        if_cases (λ l'. core l' ≡ core l) (total_drops l == l.drops_last_total) (λ t. refl)
          (λ t. refl))

-- A refusal counts its reason, and leaves the rest.
pub note_drop-core :
    (env : Env) (l : E3SmLayer1) (d : Drop)
    → core (note_drop env l d) ≡ record (core l) { drops = bump d l.drops }
unfolding note_drop maybe_log_drops
note_drop-core env l d =
    log_drops_at-core env (record l { drops = bump d l.drops; clock_reads = l.clock_reads + 1 })
      (env.clock l.clock_reads)

-- The effect of a fan-out to `dapps`, `n` of which libe3 refuses.
abbrev spread : List ℕ → List ℕ → ℕ → Core → Core
spread payload dapps n c = record c {
  sent = c.sent ++ deliveries payload dapps;
  drops = bumps n emit_failed c.drops;
}

-- The loop over the subscribers: one message each, in their order, and a count for each that libe3
-- refuses.
pub fan_out-core :
    (env : Env) (payload dapps : List ℕ) (l : E3SmLayer1)
    → core (fan_out env payload dapps l) ≡ spread payload dapps (failures env dapps) (core l)
unfolding fan_out
fan_out-core env payload [] l = ap (λ m. record (core l) { sent = m }) (sym (append-nil l.sent))
fan_out-core env payload (d ∷ ds) l =
    let l' : E3SmLayer1 = record l { sent = l.sent ++ ((d, payload) ∷ []) } in
    let assoc = append_assoc l.sent ((d, payload) ∷ []) (deliveries payload ds) in
    if_cases
      (λ m.
        core (fan_out env payload ds m) ≡ spread payload (d ∷ ds) (failures env (d ∷ ds)) (core l))
      (env.emit_ok d)
      (λ h.
        let fail : failures env ds ≡ failures env (d ∷ ds) = rw (h) refl in
        fan_out-core env payload ds l'
        ∙ ap₂ (λ m n. record (core l) { sent = m; drops = bumps n emit_failed l.drops }) assoc fail)
      (λ h.
        let fail : suc (failures env ds) ≡ failures env (d ∷ ds) = rw (h) refl in
        fan_out-core env payload ds (note_drop env l' emit_failed)
        ∙ ap (spread payload ds (failures env ds)) (note_drop-core env l' emit_failed)
        ∙ ap₂ (λ m n. record (core l) { sent = m; drops = bumps n emit_failed l.drops }) assoc fail)

-- The effect of `emit`, by the encoder's answer.
abbrev pub emitted : Env → Option (List ℕ) → Core → Core
emitted env none c = record c { drops = bump encode_failed c.drops }
emitted env (some payload) c = spread payload env.subscribers (failures env env.subscribers) c

pub emit-core :
    (env : Env) (l : E3SmLayer1) (p : Option (List ℕ))
    → core (emit env l p) ≡ emitted env p (core l)
emit-core env l none = note_drop-core env l encode_failed
emit-core env l (some payload) = fan_out-core env payload env.subscribers l
