-- ===== src/Tests/Events.antt =====
-- Runs of the event target.
use qjs_lws.Base.{
  ℕ, Bool, ◌≡◌, refl, ◌++◌, ◌==◌, map, none, some, [], ◌∷◌, true, false, if◌then◌else◌, text_eq,
}
use qjs_lws.Text.{text}
use qjs_lws.Dict.{lookup, insert, remove}
use qjs_lws.Events.{
  plain, wrapped, EventTarget, listeners_of, or_empty, push, set_wrappers, add_wrapped,
  add_event_listener, remove_event_listener, call_queue, dispatch_event, remove_from,
  remove_wrapper, take_last, is_none, store, remove_all, same_entry,
}
use qjs_lws.Events.Dispatch.{listener_of, listed, Delivers, dispatch_event-Delivers}
use qjs_lws.Events.Listeners.{remove-add}

abbrev nobody : EventTarget
nobody = record { listeners = []; wrappers = λ f. []; fresh = 0; properties = λ type. none }

abbrev target : EventTarget
target = record {
  listeners = (text "a", plain 1 ∷ wrapped 0 true 2 ∷ []) ∷ [];
  wrappers = λ f. if f == 2 then (text "a", 0) ∷ [] else [];
  fresh = 1;
  properties = λ type. some 7;
}

-- The first listener removes itself, and the second throws.
abbrev handle_example : ℕ → EventTarget → EventTarget × Bool
handle_example f t = (remove_event_listener (text "a") 1 t, f == 2)

dispatch_event-Delivers_example :
    Delivers
      (map listener_of (listeners_of (text "a") target)
        ++ listed (
            (call_queue handle_example
                (text "a")
                (listeners_of (text "a") target)
                target).target.properties
              (text "a")))
      (dispatch_event handle_example (text "a") target)
dispatch_event-Delivers_example = dispatch_event-Delivers handle_example (text "a") target

remove-add_example :
    listeners_of
      (text "a")
      (remove_event_listener (text "a") 3 (add_event_listener (text "a") 3 true none target))
    ≡ listeners_of (text "a") target
unfolding same_entry listeners_of or_empty lookup text_eq
remove-add_example =
    remove-add (text "a") (text "a") 3 true none target refl (refl, (refl, tt)) (refl, (refl, tt))

-- A listener with a wrapper for another type is not removed.
not_removed :
    listeners_of (text "b") (
      remove_event_listener (text "b") 5 (
        add_event_listener
          (text "b")
          5
          false
          none
          (add_event_listener (text "a") 5 true none nobody)))
    ≡ plain 5 ∷ []
unfolding listeners_of or_empty push set_wrappers add_wrapped add_event_listener
    remove_event_listener remove_from remove_wrapper take_last is_none store remove_all same_entry
    lookup insert remove text_eq
not_removed = refl

-- With a wrapper for a signal added last, it is this that the call of a `once` listener removes.
still_there :
    listeners_of (text "a") (
      remove_event_listener (text "a") 5 (
        add_event_listener
          (text "a")
          5
          false
          (some false)
          (add_event_listener (text "a") 5 true none nobody)))
    ≡ wrapped 0 true 5 ∷ []
unfolding listeners_of or_empty push set_wrappers add_wrapped add_event_listener
    remove_event_listener remove_from remove_wrapper take_last is_none store remove_all same_entry
    lookup insert remove text_eq
still_there = refl
