-- ===== src/System/Serving.antt =====
-- Which streams the dispatcher serves, and where the poll thread is.
use e3controller.Common.{
  ℕ, ◌≡◌, ◌≢◌, refl, Bool, true, false, Option, none, some, List, [], ◌==◌, if◌then◌else◌, arith,
}
use e3controller.Dispatcher.{StreamEntry, JbpfDispatcher, register_stream, unregister_stream}
use e3controller.System.{Poller, idle, in_iq, in_slot, iq_handler, slot_handler, track}

-- The entry of a pipeline that runs.
abbrev pub serves : Bool → ℕ → Option StreamEntry
serves true handler = some (record { handler = some handler; defer_release = true })
serves false handler = none

abbrev pub At : Poller → (iq_handles slot_handles : Bool) → List ℕ → Type 0
At idle a b waiting = (a ≡ false) × (b ≡ false) × (waiting ≡ [])
At in_iq a b waiting = (a ≡ true) × (b ≡ false)
At in_slot a b waiting = (a ≡ false) × (b ≡ true)

pub served :
    (P : Option StreamEntry → Type 0) (on : Bool) (handler : ℕ)
    → (on ≡ true → P (serves true handler))
    → P none
    → P (serves on handler)
served P true handler f g = f refl
served P false handler f g = g

-- The map holds the streams of the pipelines that run, and no other.
abbrev pub Serving :
    (iq_stream slot_stream : ℕ) (iq_on slot_on : Bool) → (ℕ → Option StreamEntry) → Type 0
Serving iq_stream slot_stream iq_on slot_on handlers =
    (s : ℕ)
    → handlers s ≡ (
        if iq_stream == s
        then serves iq_on iq_handler
        else (if slot_stream == s then serves slot_on slot_handler else none))

pub track-iq :
    (iq_stream slot_stream : ℕ) (was is slot_on : Bool) (d : JbpfDispatcher)
    → Serving iq_stream slot_stream was slot_on d.handlers
    → Serving iq_stream slot_stream is slot_on (track was is iq_stream iq_handler d).handlers
unfolding track register_stream unregister_stream
track-iq i l true true on d h s = h s
track-iq i l false false on d h s = h s
track-iq i l true false on d h s = ground (arith, h s)
track-iq i l false true on d h s = ground (arith, h s)

pub track-slot :
    (iq_stream slot_stream : ℕ) (was is iq_on : Bool) (d : JbpfDispatcher)
    → iq_stream ≢ slot_stream
    → Serving iq_stream slot_stream iq_on was d.handlers
    → Serving iq_stream slot_stream iq_on is (track was is slot_stream slot_handler d).handlers
unfolding track register_stream unregister_stream
track-slot i l true true on d apart h s = h s
track-slot i l false false on d apart h s = h s
track-slot i l true false on d apart h s = ground (arith, h s)
track-slot i l false true on d apart h s = ground (arith, h s)

pub track-released :
    (was is : Bool) (stream handler : ℕ) (d : JbpfDispatcher)
    → (track was is stream handler d).released ≡ d.released
unfolding track register_stream unregister_stream
track-released true true stream handler d = refl
track-released true false stream handler d = refl
track-released false true stream handler d = refl
track-released false false stream handler d = refl
