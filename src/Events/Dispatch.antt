-- ===== src/Events/Dispatch.antt =====
-- Who is called.
use qjs_lws.Base.{
  ℕ, ◌≡◌, ◌⊎◌, inl, inr, refl, ap, ◌∙◌, Bool, true, false, Bool-cases, Option, none, some, List, [],
  ◌∷◌, ◌++◌, append-nil, append_assoc, map, Text, sym,
}
use qjs_lws.Events.{
  Entry, plain, wrapped, EventTarget, Called, join_calls, listeners_of, call_entry, call_queue,
  call_function, call_property, dispatch_event,
}

abbrev pub listener_of : Entry → ℕ
listener_of (plain f) = f
listener_of (wrapped id once f) = f

abbrev pub listed : Option ℕ → List ℕ
listed none = []
listed (some f) = f ∷ []

-- All that are expected are called, in their order, or those up to one that threw.
abbrev pub Delivers : List ℕ → Called → Type 0
Delivers expected r =
    (rest : List ℕ) × (r.called ++ rest ≡ expected)
    × (((rest ≡ []) × (r.threw ≡ false)) ⊎ (r.threw ≡ true))

join_calls-Delivers :
    (t : Bool) (r s : Called) (first second : List ℕ)
    → r.threw ≡ t
    → Delivers first r
    → Delivers second s
    → Delivers (first ++ second) (join_calls t r s)
unfolding join_calls
join_calls-Delivers true r s first second k (rest, e, how) after =
    (rest ++ second, sym (append_assoc r.called rest second) ∙ ap (λ fs. fs ++ second) e, inr k)
join_calls-Delivers false r s first second k (rest, e, inr threw) after = cc
join_calls-Delivers false r s first second k (rest, e, inl (none_left, ended)) (later, e', how) =
    let whole : r.called ≡ first =
      sym (append-nil r.called) ∙ ap (λ fs. r.called ++ fs) (sym none_left) ∙ e in
    (
      later,
      append_assoc r.called s.called later
          ∙ ap (λ fs. r.called ++ fs) e'
          ∙ ap (λ fs. fs ++ second) whole,
      how,
    )

module _ (handle : ℕ → EventTarget → EventTarget × Bool) where
  one-Delivers : (f : ℕ) (r : Called) → r.called ≡ f ∷ [] → Delivers (f ∷ []) r
  one-Delivers f r e = elim (Bool-cases r.threw) [
    | inl t ↦ ([], append-nil r.called ∙ e, inr t)
    | inr t ↦ ([], append-nil r.called ∙ e, inl (refl, t))
  ]

  call_entry-called :
      (type : Text) (e : Entry) (t : EventTarget)
      → (call_entry handle type e t).called ≡ listener_of e ∷ []
  unfolding call_entry
  call_entry-called type (plain f) t = refl
  call_entry-called type (wrapped id once f) t = refl

  call_queue-Delivers :
      (type : Text) (queue : List Entry) (t : EventTarget)
      → Delivers (map listener_of queue) (call_queue handle type queue t)
  unfolding call_queue
  call_queue-Delivers type [] t = ([], refl, inl (refl, refl))
  call_queue-Delivers type (e ∷ queue) t =
      let r = call_entry handle type e t in
      join_calls-Delivers r.threw r (call_queue handle type queue r.target) (listener_of e ∷ [])
        (map listener_of queue) refl (one-Delivers (listener_of e) r (call_entry-called type e t))
        (call_queue-Delivers type queue r.target)

  call_function-Delivers :
      (property : Option ℕ) (t : EventTarget)
      → Delivers (listed property) (call_function handle property t)
  unfolding call_function
  call_function-Delivers none t = ([], refl, inl (refl, refl))
  call_function-Delivers (some f) t = one-Delivers f (call_function handle (some f) t) refl

  -- An event is delivered to the listeners that its type had when the dispatch began, once for each
  -- entry and in the order in which they were added, and then to the property's function, as it is
  -- after these calls, if there is one; whatever the listeners add or remove meanwhile. If not all of
  -- these are called, the last one called threw.
  pub dispatch_event-Delivers :
      (type : Text) (t : EventTarget)
      → Delivers
          (map listener_of (listeners_of type t)
            ++ listed ((call_queue handle type (listeners_of type t) t).target.properties type))
          (dispatch_event handle type t)
  unfolding dispatch_event call_property
  dispatch_event-Delivers type t =
      let r = call_queue handle type (listeners_of type t) t in
      join_calls-Delivers r.threw r (call_property handle type r.target)
        (map listener_of (listeners_of type t)) (listed (r.target.properties type)) refl
        (call_queue-Delivers type (listeners_of type t) t)
        (call_function-Delivers (r.target.properties type) r.target)
