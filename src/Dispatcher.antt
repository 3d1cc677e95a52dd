-- ===== src/Dispatcher.antt =====
-- JbpfDispatcher of include/jbpf_dispatcher.h. A stream id is the number of its 16 bytes, which the
-- map's keys compare by, and a handler is its name.
pub mod Routing
mod Tests
use e3controller.Common.{
  ℕ, ◌≡◌, ℤ, pos, Bool, true, false, not, ◌||◌, Option, none, some, List, [], ◌∷◌, ◌++◌,
  if◌then◌else◌, update,
}

-- A call of a handler with its stream and its buffers.
pub record Call : Type 0 where
  pub handler : ℕ
  pub stream : ℕ
  pub bufs : List ℕ

-- StreamEntry; `handler` is none for an empty std::function.
pub record StreamEntry : Type 0 where
  pub handler : Option ℕ
  pub defer_release : Bool

-- The map, and the calls made: to handlers, and to `jbpf_io_channel_release_buf`.
pub record JbpfDispatcher : Type 0 where
  pub handlers : ℕ → Option StreamEntry
  pub calls : List Call
  pub released : List ℕ

abbrev pub fresh_dispatcher : JbpfDispatcher
fresh_dispatcher = record { handlers = λ s. none; calls = []; released = [] }

unfoldable pub register_stream : JbpfDispatcher → ℕ → Option ℕ → Bool → JbpfDispatcher
register_stream d stream handler defer_release = record d {
  handlers =
      update d.handlers stream (some (record { handler = handler; defer_release = defer_release }));
}

unfoldable pub unregister_stream : JbpfDispatcher → ℕ → JbpfDispatcher
unregister_stream d stream = record d { handlers = update d.handlers stream none }

-- The copy taken under the lock.
abbrev pub found_entry : Option StreamEntry → StreamEntry
found_entry (some e) = e
found_entry none = record { handler = none; defer_release = false }

abbrev pub has_handler : Option ℕ → Bool
has_handler (some h) = true
has_handler none = false

abbrev pub call_of : Option ℕ → ℕ → List ℕ → List Call
call_of (some h) stream bufs = record { handler = h; stream = stream; bufs = bufs } ∷ []
call_of none stream bufs = []

-- `dispatch` past its first line.
unfoldable pub route : JbpfDispatcher → ℕ → List ℕ → JbpfDispatcher
route d stream bufs =
    let e = found_entry (d.handlers stream) in
    record d {
      calls = d.calls ++ call_of (StreamEntry.handler e) stream bufs;
      released =
          if not (has_handler (StreamEntry.handler e)) || not (StreamEntry.defer_release e)
          then d.released ++ bufs
          else d.released;
    }

-- `dispatch`; without a stream id or a buffer it returns at once.
unfoldable pub dispatch : JbpfDispatcher → Option ℕ → List ℕ → JbpfDispatcher
unfolding route
dispatch d none bufs = d
dispatch d (some stream) [] = d
dispatch d (some stream) (b ∷ bufs) = route d stream (b ∷ bufs)
