-- ===== src/System/Parts.antt =====
-- The arrivals of a pipeline and the flags that the dispatcher depends on, and how they may change.
use e3controller.Common.{ℕ, ◌≡◌, refl, Bool, true, false, not, ◌&&◌, List, [], ◌∷◌, ◌++◌}
use e3controller.Pipeline.Iq.{IqPipeline}
use e3controller.Pipeline.Slot.{SlotIqPipeline}

pub record Flags : Type 0 where
  pub received : List ℕ
  pub is_running : Bool
  pub registered : Bool
  pub in_handler : Bool

abbrev pub iq_flags : IqPipeline → Flags
iq_flags p = record {
  received = p.received;
  is_running = p.is_running;
  registered = p.registered;
  in_handler = p.in_handler;
}

abbrev pub slot_flags : SlotIqPipeline → Flags
slot_flags p = record {
  received = p.received;
  is_running = p.is_running;
  registered = p.registered;
  in_handler = p.in_handler;
}

-- Nothing arrives, the handler stays where it is, and the stream is registered while it runs.
pub record Acted (f g : Flags) : Type 0 where
  pub received : g.received ≡ f.received
  pub in_handler : g.in_handler ≡ f.in_handler
  pub registered : g.registered ≡ g.is_running

abbrev pub Settled : Flags → Type 0
Settled f = f.registered ≡ f.is_running

pub same : {f : Flags} → Settled f → Acted f f
same r = record { received = refl; in_handler = refl; registered = r }

-- The buffer `b` arrives, and nothing else changes.
pub record Took (f g : Flags) (b : ℕ) : Type 0 where
  pub received : g.received ≡ f.received ++ (b ∷ [])
  pub is_running : g.is_running ≡ f.is_running
  pub in_handler : g.in_handler ≡ f.in_handler
  pub registered : g.registered ≡ f.registered

pub took : {f : Flags} (b : ℕ) → Took f (record f { received = f.received ++ (b ∷ []) }) b
took b = record { received = refl; is_running = refl; in_handler = refl; registered = refl }

-- The handler begins, and nothing else changes.
pub record Entered (f g : Flags) : Type 0 where
  pub received : g.received ≡ f.received
  pub is_running : g.is_running ≡ f.is_running
  pub in_handler : g.in_handler ≡ true
  pub registered : g.registered ≡ f.registered

pub entered : {f : Flags} → Entered f (record f { in_handler = true })
entered = record { received = refl; is_running = refl; in_handler = refl; registered = refl }

pub enters : {r h : Bool} → r ≡ true → h ≡ false → (r && not h) ≡ true
enters p q = rw (p, q) refl
