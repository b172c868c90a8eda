-- ===== src/Events.antt =====
-- The class `EventTarget`.
pub mod Dispatch
pub mod Lists
pub mod Listeners
use qjs_lws.Base.{
  ℕ, suc, Bool, true, false, not, ◌&&◌, ◌||◌, Option, none, some, List, [], ◌∷◌, ◌++◌, Text,
  text_eq, ◌==◌, if◌then◌else◌,
}
use qjs_lws.Dict.{Dict, lookup, insert, remove}

-- An element of `#listeners[type]`: a listener, which is a number, or a wrapper of one.
pub data Entry : Type 0 where
  plain : ℕ → Entry
  wrapped : (id : ℕ) → (once : Bool) → (listener : ℕ) → Entry

-- A listener that `#listenerMap` does not have has no wrappers; an empty list is never kept there. The
-- properties `on…` that are functions are listeners, too.
pub record EventTarget : Type 0 where
  pub listeners : Dict (List Entry)
  pub wrappers : ℕ → List (Text × ℕ)
  pub fresh : ℕ
  pub properties : Text → Option ℕ

-- `===`.
unfoldable pub same_entry : Entry → Entry → Bool
same_entry (plain f) (plain g) = f == g
same_entry (wrapped i o f) (wrapped j p g) = i == j
same_entry e e' = false

unfoldable pub remove_all : Entry → List Entry → List Entry
remove_all e [] = []
remove_all e (x ∷ entries) =
    let rest = remove_all e entries in if same_entry x e then rest else x ∷ rest

unfoldable pub or_empty : Option (List Entry) → List Entry
or_empty none = []
or_empty (some entries) = entries

-- `#listeners[type] ?? []`.
unfoldable pub listeners_of : Text → EventTarget → List Entry
listeners_of type t = or_empty (lookup type t.listeners)

unfoldable pub push : Text → Entry → EventTarget → EventTarget
push type e t = record t { listeners = insert type (listeners_of type t ++ e ∷ []) t.listeners }

unfoldable pub set_wrappers : ℕ → List (Text × ℕ) → EventTarget → EventTarget
set_wrappers f ws t = record t { wrappers = λ g. if g == f then ws else t.wrappers g }

unfoldable pub add_wrapped : Text → ℕ → Bool → EventTarget → EventTarget
add_wrapped type f once t =
    let tracked = set_wrappers f (t.wrappers f ++ (type, t.fresh) ∷ []) t in
    push type (wrapped t.fresh once f) (record tracked { fresh = suc t.fresh })

-- The signal is whether it is aborted, if there is one; its later abort is a call of
-- `remove_event_listener`.
unfoldable pub add_event_listener :
    Text → ℕ → (once : Bool) → (signal : Option Bool) → EventTarget → EventTarget
add_event_listener type f once (some aborted) t = if aborted then t else add_wrapped type f once t
add_event_listener type f once none t =
    if once then add_wrapped type f once t else push type (plain f) t

-- The last wrapper of a type, and the list without it.
unfoldable pub take_last : Text → List (Text × ℕ) → Option (ℕ × List (Text × ℕ))
take_last type [] = none
take_last type ((ty, id) ∷ ws) = elim (take_last type ws) [
  | some r ↦ some (r.0, (ty, id) ∷ r.1)
  | none ↦ if text_eq ty type then some (id, ws) else none
]

-- Of a wrapper only the identity counts.
unfoldable pub remove_wrapper : Text → ℕ → List Entry → EventTarget → EventTarget × List Entry
remove_wrapper type f entries t = elim (take_last type (t.wrappers f)) [
  | some r ↦ (set_wrappers f r.1 t, remove_all (wrapped r.0 false f) entries)
  | none ↦ (t, entries)
]

unfoldable pub is_none : List (Text × ℕ) → Bool
is_none [] = true
is_none (w ∷ ws) = false

-- The list with its rest, which is deleted where it is empty.
unfoldable pub store : Text → List Entry → EventTarget → EventTarget
store type [] t = record t { listeners = remove type t.listeners }
store type (e ∷ entries) t = record t { listeners = insert type (e ∷ entries) t.listeners }

unfoldable pub remove_from : Text → ℕ → List Entry → EventTarget → EventTarget
remove_from type f entries t =
    let (t', rest) = remove_wrapper type f entries t in
    if is_none (t.wrappers f)
    then store type (remove_all (plain f) entries) t
    else store type rest t'

unfoldable pub remove_event_listener : Text → ℕ → EventTarget → EventTarget
remove_event_listener type f t = elim (lookup type t.listeners) [
  | none ↦ t
  | some entries ↦ remove_from type f entries t
]

-- What the calls of listeners leave: the target, the listeners called, and whether the last one threw.
pub record Called : Type 0 where
  pub target : EventTarget
  pub called : List ℕ
  pub threw : Bool

-- An exception ends the loop and the dispatch.
unfoldable pub join_calls : (threw : Bool) → Called → Called → Called
join_calls true r s = r
join_calls false r s = record { target = s.target; called = r.called ++ s.called; threw = s.threw }

abbrev pub then_call : Called → (EventTarget → Called) → Called
then_call r next = join_calls r.threw r (next r.target)

abbrev pub no_call : EventTarget → Called
no_call t = record { target = t; called = []; threw = false }

-- What a listener does to the target, and whether it throws, is the argument `handle`.
module _ (handle : ℕ → EventTarget → EventTarget × Bool) where
  abbrev pub call_listener : ℕ → EventTarget → Called
  call_listener f t = record { target = (handle f t).0; called = f ∷ []; threw = (handle f t).1 }

  unfoldable pub call_entry : Text → Entry → EventTarget → Called
  call_entry type (plain f) t = call_listener f t
  call_entry type (wrapped id once f) t =
      call_listener f (if once then remove_event_listener type f t else t)

  unfoldable pub call_queue : Text → List Entry → EventTarget → Called
  call_queue type [] t = no_call t
  call_queue type (e ∷ queue) t = then_call (call_entry type e t) (call_queue type queue)

  unfoldable pub call_function : Option ℕ → EventTarget → Called
  call_function none t = no_call t
  call_function (some f) t = call_listener f t

  -- The property `on…`, as it is after the queue, if it is a function.
  unfoldable pub call_property : Text → EventTarget → Called
  call_property type t = call_function (t.properties type) t

  unfoldable pub dispatch_event : Text → EventTarget → Called
  dispatch_event type t = then_call (call_queue type (listeners_of type t) t) (call_property type)
