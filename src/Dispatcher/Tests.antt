-- ===== src/Dispatcher/Tests.antt =====
-- The dispatcher on a stream that is registered, taken over, and unregistered.
use e3controller.Common.{
  ◌≡◌, ℕ, refl, Bool, true, false, Option, none, some, if◌then◌else◌, List, [], ◌∷◌, ◌++◌,
}
use e3controller.Dispatcher.{
  StreamEntry, fresh_dispatcher, register_stream, unregister_stream, dispatch,
}
use e3controller.Dispatcher.Routing.{
  Event, registers, unregisters, dispatches, run, dispatch-routes,
}

abbrev history : List Event
history = registers 7 (some 1) false ∷ registers 7 (some 2) true ∷ registers 8 (some 3) false ∷ []

-- What the history leaves for stream 7.
abbrev some_two : Option StreamEntry
some_two = some (record { handler = some 2; defer_release = true })

dispatch-routes_example :
    let before = run fresh_dispatcher history in
    let after = dispatch before (some 7) (40 ∷ 41 ∷ []) in
    (some_two ≡ none
      → (after.calls ≡ before.calls) × (after.released ≡ before.released ++ (40 ∷ 41 ∷ [])))
    × ((defer_release : Bool)
        → some_two ≡ some (record { handler = none; defer_release = defer_release })
        → (after.calls ≡ before.calls) × (after.released ≡ before.released ++ (40 ∷ 41 ∷ [])))
    × ((handler : ℕ) (defer_release : Bool)
        → some_two ≡ some (record { handler = some handler; defer_release = defer_release })
        → (after.calls
            ≡ before.calls ++ (record { handler = handler; stream = 7; bufs = 40 ∷ 41 ∷ [] } ∷ []))
          × (after.released
              ≡ (if defer_release then before.released else before.released ++ (40 ∷ 41 ∷ []))))
    × (after.handlers ≡ before.handlers)
dispatch-routes_example = dispatch-routes history fresh_dispatcher 7 40 (41 ∷ [])

taken_over :
    let before = run fresh_dispatcher history in
    (dispatch before (some 7) (40 ∷ 41 ∷ [])).released ≡ []
unfolding run register_stream dispatch
taken_over = refl

dropped_stream :
    (run fresh_dispatcher
      (registers 7 (some 2) true ∷ unregisters 7 ∷ dispatches (some 7) (5 ∷ []) ∷ [])).released
    ≡ 5 ∷ []
unfolding run register_stream unregister_stream dispatch
dropped_stream = refl
