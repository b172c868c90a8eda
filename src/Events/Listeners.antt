-- ===== src/Events/Listeners.antt =====
-- Removing a listener that was added.
use qjs_lws.Base.{
  ℕ, suc, ◌≡◌, refl, ap, ◌∙◌, Bool, true, false, Option, none, some, List, [], ◌∷◌, ◌++◌, Text,
  text_eq, text_eq_iff, text_eq_refl, ==_refl, Bool-cases, inl, inr, All,
}
use qjs_lws.Events.{
  Entry, plain, wrapped, EventTarget, same_entry, remove_all, listeners_of, push, set_wrappers,
  add_wrapped, add_event_listener, take_last, remove_wrapper, is_none, remove_event_listener,
}
use qjs_lws.Events.Lists.{push_lem, left_of, remove_event_listener_lem}

abbrev pub Absent : Entry → List Entry → Type 0
Absent e entries = All (λ x. same_entry x e ≡ false) entries

remove_all-append :
    (e x : Entry) (entries : List Entry)
    → Absent e entries
    → same_entry x e ≡ true
    → remove_all e (entries ++ x ∷ []) ≡ entries
unfolding remove_all
remove_all-append e x [] h k = rw k refl
remove_all-append e x (y ∷ entries) (n, h) k = rw (n, remove_all-append e x entries h k) refl

remove_all-Absent :
    (e : Entry) (entries : List Entry) → Absent e entries → remove_all e entries ≡ entries
unfolding remove_all
remove_all-Absent e [] h = refl
remove_all-Absent e (y ∷ entries) (n, h) = rw (n, remove_all-Absent e entries h) refl

-- What is left for the type of a list with one more entry, if it is that entry.
undone :
    (type other : Text) (f : ℕ) (t t' : EventTarget)
    → left_of type f (listeners_of type t') t' ≡ listeners_of type t
    → (text_eq type other ≡ false → listeners_of other t' ≡ listeners_of other t)
    → listeners_of other (remove_event_listener type f t') ≡ listeners_of other t
undone type other f t t' back same = elim (Bool-cases (text_eq type other)) [
  | inl e ↦
      remove_event_listener_lem type other f t'
      ∙ rw e (back ∙ ap (λ k. listeners_of k t) ((text_eq_iff type other).0 e))
  | inr e ↦ remove_event_listener_lem type other f t' ∙ rw e (same e)
]

push_here :
    (type : Text) (e : Entry) (t : EventTarget)
    → listeners_of type (push type e t) ≡ listeners_of type t ++ e ∷ []
push_here type e t = push_lem type type e t ∙ rw (text_eq_refl type) refl

push_elsewhere :
    (type other : Text) (e : Entry) (t : EventTarget)
    → text_eq type other ≡ false
    → listeners_of other (push type e t) ≡ listeners_of other t
push_elsewhere type other e t h = push_lem type other e t ∙ rw h refl

left_of-plain :
    (type : Text) (f : ℕ) (entries : List Entry) (t : EventTarget)
    → t.wrappers f ≡ []
    → left_of type f entries t ≡ remove_all (plain f) entries
unfolding left_of is_none
left_of-plain type f entries t h = rw h refl

take_last_one : (type : Text) (id : ℕ) → take_last type ((type, id) ∷ []) ≡ some (id, [])
unfolding take_last
take_last_one type id = rw (text_eq_refl type) refl

left_of-wrapped :
    (type : Text) (f id : ℕ) (entries : List Entry) (t : EventTarget)
    → t.wrappers f ≡ (type, id) ∷ []
    → left_of type f entries t ≡ remove_all (wrapped id false f) entries
unfolding left_of is_none remove_wrapper
left_of-wrapped type f id entries t h = rw (h, remove_wrapper, take_last_one type id) refl

module _ (type other : Text) (f : ℕ) (t : EventTarget) (none_of : t.wrappers f ≡ []) where
  push-wrappers : (e : Entry) (t : EventTarget) → (push type e t).wrappers f ≡ t.wrappers f
  unfolding push
  push-wrappers e t = refl

  plain_undone :
      Absent (plain f) (listeners_of type t)
      → listeners_of other (remove_event_listener type f (push type (plain f) t))
        ≡ listeners_of other t
  unfolding same_entry
  plain_undone p =
      let t' = push type (plain f) t in
      undone type other f t t'
        (left_of-plain type f (listeners_of type t') t' (push-wrappers (plain f) t ∙ none_of)
          ∙ ap (remove_all (plain f)) (push_here type (plain f) t)
          ∙ remove_all-append (plain f) (plain f) (listeners_of type t) p (==_refl f))
        (push_elsewhere type other (plain f) t)

  not_added :
      Absent (plain f) (listeners_of type t)
      → listeners_of other (remove_event_listener type f t) ≡ listeners_of other t
  not_added p =
      undone type other f t t
        (left_of-plain type f (listeners_of type t) t none_of
          ∙ remove_all-Absent (plain f) (listeners_of type t) p)
        (λ e. refl)

  -- The target with the wrapper noted.
  noted : EventTarget
  noted = record (set_wrappers f (t.wrappers f ++ (type, t.fresh) ∷ []) t) { fresh = suc t.fresh }

  noted-wrappers : noted.wrappers f ≡ (type, t.fresh) ∷ []
  unfolding noted set_wrappers
  noted-wrappers = rw (==_refl f, none_of) refl

  noted-listeners_of : (ty : Text) → listeners_of ty noted ≡ listeners_of ty t
  unfolding noted set_wrappers listeners_of
  noted-listeners_of ty = refl

  wrapped_undone :
      (once : Bool)
      → Absent (wrapped t.fresh false f) (listeners_of type t)
      → listeners_of other (remove_event_listener type f (add_wrapped type f once t))
        ≡ listeners_of other t
  unfolding add_wrapped noted same_entry
  wrapped_undone once w =
      let e = wrapped t.fresh once f in
      let t' = push type e noted in
      undone type other f t t'
        (left_of-wrapped type f t.fresh (listeners_of type t') t'
            (push-wrappers e noted ∙ noted-wrappers)
          ∙ ap (remove_all (wrapped t.fresh false f))
              (push_here type e noted ∙ ap (λ l. l ++ e ∷ []) (noted-listeners_of type))
          ∙ remove_all-append (wrapped t.fresh false f) e (listeners_of type t) w (==_refl t.fresh))
        (λ h. push_elsewhere type other e noted h ∙ noted-listeners_of other)

-- Removing a listener undoes its adding, with `once` or a signal or without: if the listener had no
-- wrapper, was not among those of the type, and no wrapper there has the number of the next, every
-- type has the listeners that it had before.
pub remove-add :
    (type other : Text) (f : ℕ) (once : Bool) (signal : Option Bool) (t : EventTarget)
    → t.wrappers f ≡ []
    → Absent (plain f) (listeners_of type t)
    → Absent (wrapped t.fresh false f) (listeners_of type t)
    → listeners_of other (remove_event_listener type f (add_event_listener type f once signal t))
      ≡ listeners_of other t
unfolding add_event_listener
remove-add type other f once (some true) t none_of p w = not_added type other f t none_of p
remove-add type other f once (some false) t none_of p w =
    wrapped_undone type other f t none_of once w
remove-add type other f true none t none_of p w = wrapped_undone type other f t none_of true w
remove-add type other f false none t none_of p w = plain_undone type other f t none_of p
