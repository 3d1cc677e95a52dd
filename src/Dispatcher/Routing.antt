-- ===== src/Dispatcher/Routing.antt =====
-- Who receives a batch and who releases its buffers, over any sequence of registrations.
use mathlib.Core.List.{append-nil}
use e3controller.Common.{
  ℕ, ◌≡◌, refl, ap, ◌∙◌, Bool, true, false, not, Option, none, some, List, [], ◌∷◌, ◌++◌,
  if◌then◌else◌, ◌==◌,
}
use e3controller.Dispatcher.{
  StreamEntry, JbpfDispatcher, register_stream, unregister_stream, dispatch,
}

-- What happens to the dispatcher.
pub data Event : Type 0 where
  registers : (stream : ℕ) (handler : Option ℕ) (defer_release : Bool) → Event
  unregisters : (stream : ℕ) → Event
  dispatches : (stream : Option ℕ) (bufs : List ℕ) → Event

unfoldable pub step : JbpfDispatcher → Event → JbpfDispatcher
step d (registers stream handler defer_release) = register_stream d stream handler defer_release
step d (unregisters stream) = unregister_stream d stream
step d (dispatches stream bufs) = dispatch d stream bufs

unfoldable pub run : JbpfDispatcher → List Event → JbpfDispatcher
unfolding step
run d [] = d
run d (e ∷ es) = run (step d e) es

-- The last word about a stream in a history: the entry that a batch on it meets.
abbrev pub entry_after : Option StreamEntry → ℕ → List Event → Option StreamEntry
entry_after e stream [] = e
entry_after e stream (registers s handler defer_release ∷ es) =
    entry_after
      (if s == stream
        then some (record { handler = handler; defer_release = defer_release })
        else e)
      stream es
entry_after e stream (unregisters s ∷ es) = entry_after (if s == stream then none else e) stream es
entry_after e stream (dispatches s bufs ∷ es) = entry_after e stream es

dispatch-handlers :
    (d : JbpfDispatcher) (s : Option ℕ) (bufs : List ℕ) → (dispatch d s bufs).handlers ≡ d.handlers
unfolding dispatch
dispatch-handlers d none bufs = refl
dispatch-handlers d (some s) [] = refl
dispatch-handlers d (some s) (b ∷ bufs) = refl

run-handlers :
    (es : List Event) (d : JbpfDispatcher) (stream : ℕ)
    → (run d es).handlers stream ≡ entry_after (d.handlers stream) stream es
unfolding run register_stream unregister_stream
run-handlers [] d stream = refl
run-handlers (registers s handler defer_release ∷ es) d stream =
    run-handlers es (register_stream d s handler defer_release) stream
run-handlers (unregisters s ∷ es) d stream = run-handlers es (unregister_stream d s) stream
run-handlers (dispatches s bufs ∷ es) d stream =
    run-handlers es (dispatch d s bufs) stream
    ∙ ap (λ f. entry_after (f stream) stream es) (dispatch-handlers d s bufs)

release_swap :
    (k : Bool) (kept all : List ℕ) → (if not k then all else kept) ≡ (if k then kept else all)
release_swap true kept all = refl
release_swap false kept all = refl

-- After any history, take what was registered last for a stream, if it was not unregistered since. A
-- batch on the stream is handed to the registered handler, once, with its buffers, and these are
-- released here, each once, unless the registration left the release to the handler, and then none is.
-- Without a registration, or with an empty handler, nobody is called and all are released here. The map
-- stays.
pub dispatch-routes :
    (es : List Event) (d : JbpfDispatcher) (stream b : ℕ) (bufs : List ℕ)
    → let before = run d es in
      let after = dispatch before (some stream) (b ∷ bufs) in
      let last = entry_after (d.handlers stream) stream es in
      (last ≡ none
        → (after.calls ≡ before.calls) × (after.released ≡ before.released ++ (b ∷ bufs)))
      × ((defer_release : Bool)
          → last ≡ some (record { handler = none; defer_release = defer_release })
          → (after.calls ≡ before.calls) × (after.released ≡ before.released ++ (b ∷ bufs)))
      × ((handler : ℕ) (defer_release : Bool)
          → last ≡ some (record { handler = some handler; defer_release = defer_release })
          → (after.calls
              ≡ before.calls
                ++ (record { handler = handler; stream = stream; bufs = b ∷ bufs } ∷ []))
            × (after.released
                ≡ (if defer_release then before.released else before.released ++ (b ∷ bufs))))
      × (after.handlers ≡ before.handlers)
unfolding dispatch
dispatch-routes es d stream b bufs =
    let before = run d es in
    let met = run-handlers es d stream in
    (
      λ e. rw (met ∙ e) (append-nil before.calls, refl),
      λ k e. rw (met ∙ e) (append-nil before.calls, refl),
      λ h k e. rw (met ∙ e) (refl, release_swap k before.released (before.released ++ (b ∷ bufs))),
      refl,
    )
