-- ===== src/Events/Lists.antt =====
-- The lists of the listeners after one change.
use qjs_lws.Base.{
  ℕ, ◌≡◌, refl, ap, sym, ◌∙◌, Bool, true, false, Option, none, some, List, [], ◌∷◌, ◌++◌, Text,
  text_eq, text_eq_iff, if◌then◌else◌, Bool-cases, Option-cases, inl, inr,
}
use qjs_lws.Dict.{lookup}
use qjs_lws.Dict.Laws.{lookup-insert, lookup-remove}
use qjs_lws.Events.{
  Entry, plain, EventTarget, remove_all, or_empty, listeners_of, push, set_wrappers, take_last,
  remove_wrapper, is_none, store, remove_from, remove_event_listener,
}

or_empty_if :
    (b : Bool) (o p : Option (List Entry))
    → or_empty (if b then o else p) ≡ (if b then or_empty o else or_empty p)
or_empty_if true o p = refl
or_empty_if false o p = refl

store_lem :
    (type other : Text) (entries : List Entry) (t : EventTarget)
    → listeners_of other (store type entries t)
      ≡ (if text_eq type other then entries else listeners_of other t)
unfolding store listeners_of or_empty
store_lem type other [] t =
    ap or_empty (lookup-remove type other t.listeners)
    ∙ or_empty_if (text_eq type other) none (lookup other t.listeners)
store_lem type other (e ∷ entries) t =
    ap or_empty (lookup-insert type other (e ∷ entries) t.listeners)
    ∙ or_empty_if (text_eq type other) (some (e ∷ entries)) (lookup other t.listeners)

pub push_lem :
    (type other : Text) (e : Entry) (t : EventTarget)
    → listeners_of other (push type e t)
      ≡ (if text_eq type other then listeners_of type t ++ e ∷ [] else listeners_of other t)
unfolding push listeners_of or_empty
push_lem type other e t =
    ap or_empty (lookup-insert type other (listeners_of type t ++ e ∷ []) t.listeners)
    ∙ or_empty_if (text_eq type other) (some (listeners_of type t ++ e ∷ []))
        (lookup other t.listeners)

-- A type without listeners stays without.
if_same :
    (type other : Text) (t : EventTarget)
    → lookup type t.listeners ≡ none
    → listeners_of other t ≡ (if text_eq type other then [] else listeners_of other t)
unfolding listeners_of or_empty
if_same type other t h = elim (Bool-cases (text_eq type other)) [
  | inl e ↦
      let same : other ≡ type = sym ((text_eq_iff type other).0 e) in
      ap (λ k. or_empty (lookup k t.listeners)) same ∙ ap or_empty h ∙ rw e refl
  | inr e ↦ rw e refl
]

lookup_found :
    (type : Text) (t : EventTarget) (entries : List Entry)
    → lookup type t.listeners ≡ some entries
    → listeners_of type t ≡ entries
unfolding listeners_of or_empty
lookup_found type t entries h = ap or_empty h

lookup_missing :
    (type : Text) (t : EventTarget) → lookup type t.listeners ≡ none → listeners_of type t ≡ []
unfolding listeners_of or_empty
lookup_missing type t h = ap or_empty h

-- What is left of a type's list, where the listener has wrappers or not.
unfoldable pub left_of : Text → ℕ → List Entry → EventTarget → List Entry
left_of type f entries t =
    if is_none (t.wrappers f)
    then remove_all (plain f) entries
    else (remove_wrapper type f entries t).1

-- The bookkeeping of the wrappers changes no list.
remove_wrapper-listeners_of :
    (type other : Text) (f : ℕ) (entries : List Entry) (t : EventTarget)
    → listeners_of other (remove_wrapper type f entries t).0 ≡ listeners_of other t
unfolding remove_wrapper listeners_of set_wrappers
remove_wrapper-listeners_of type other f entries t =
    elim (Option-cases (take_last type (t.wrappers f))) [
      | inl h ↦ rw (remove_wrapper, h) refl
      | inr (r, h) ↦ rw (remove_wrapper, h) refl
    ]

remove_from_lem :
    (type other : Text) (f : ℕ) (entries : List Entry) (t : EventTarget)
    → listeners_of other (remove_from type f entries t)
      ≡ (if text_eq type other then left_of type f entries t else listeners_of other t)
unfolding remove_from left_of
remove_from_lem type other f entries t = elim (Bool-cases (is_none (t.wrappers f))) [
  | inl e ↦ rw e (store_lem type other (remove_all (plain f) entries) t)
  | inr e ↦
      let r = remove_wrapper type f entries t in
      rw e (
        store_lem type other r.1 r.0
        ∙ ap (λ l. if text_eq type other then r.1 else l)
            (remove_wrapper-listeners_of type other f entries t))
]

left_of_nothing : (type : Text) (f : ℕ) (t : EventTarget) → left_of type f [] t ≡ []
unfolding left_of remove_wrapper remove_all
left_of_nothing type f t = elim (Bool-cases (is_none (t.wrappers f))) [
  | inl e ↦ rw e refl
  | inr e ↦ elim (Option-cases (take_last type (t.wrappers f))) [
    | inl h ↦ rw (e, remove_wrapper, h) refl
    | inr (r, h) ↦ rw (e, remove_wrapper, h) refl
  ]
]

-- On what the look-up found.
found :
    (type other : Text) (f : ℕ) (t : EventTarget) (o : Option (List Entry))
    → lookup type t.listeners ≡ o
    → listeners_of other (elim o [ none ↦ t | some entries ↦ remove_from type f entries t ]) ≡ (
        if text_eq type other then left_of type f (listeners_of type t) t else listeners_of other t)
found type other f t none h =
    if_same type other t h
    ∙ ap (λ l. if text_eq type other then l else listeners_of other t)
        (sym (ap (λ es. left_of type f es t) (lookup_missing type t h) ∙ left_of_nothing type f t))
found type other f t (some entries) h =
    remove_from_lem type other f entries t
    ∙ ap (λ es. if text_eq type other then left_of type f es t else listeners_of other t)
        (sym (lookup_found type t entries h))

pub remove_event_listener_lem :
    (type other : Text) (f : ℕ) (t : EventTarget)
    → listeners_of other (remove_event_listener type f t) ≡ (
        if text_eq type other then left_of type f (listeners_of type t) t else listeners_of other t)
unfolding remove_event_listener
remove_event_listener_lem type other f t = found type other f t (lookup type t.listeners) refl
