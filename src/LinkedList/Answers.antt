-- ===== src/LinkedList/Answers.antt =====
-- The answers of the class are those of a plain list.
use qjs_lws.Base.{
  ℕ, zero, suc, ◌<◌, ◌≡◌, refl, sym, ap, true, false, Option, some, List, [], ◌∷◌, ◌++◌, map, arith,
  ==_refl, length, Outcome, returned, thrown, stuck,
}
use qjs_lws.LinkedList.Nodes.{Links, LinkError, node, is_node}
use qjs_lws.LinkedList.Segment.{Segment, Apart}
use qjs_lws.LinkedList.Ring.{Ring, ==_apart}
use qjs_lws.LinkedList.Reverse.{reverse_onto}
use qjs_lws.LinkedList.Class.{
  LinkedList, new_list, prepend_from, prepend_range, pop_front, pop_back, values, safe_from,
  list_for_each_safe,
}
use qjs_lws.LinkedList.Spec.{
  Call, call_push_front, call_push_back, call_prepend, call_append, call_pop_front, call_pop_back,
  call_front, call_back, call_empty, call_reverse, call_values, Answer, done, quiet, asked, popped,
  step, spec_pop_front, spec_pop_back, spec_step, answers,
}
use qjs_lws.LinkedList.Carries.{Never, never, Carries-map}
use qjs_lws.LinkedList.Holds.{
  Holds, push_front-Holds, push_back-Holds, append_range-Holds, prepend_from-Holds,
}
use qjs_lws.LinkedList.Refines.{
  new_list-Holds, reverse-Holds, Popped, pop_front-Popped, pop_back-Popped, front-Holds, back-Holds,
  empty-Holds,
}

safe_from_stop :
    (fuel head : ℕ) (el el1 : Option ℕ) (s : Links)
    → is_node el head ≡ true
    → safe_from (suc fuel) head el el1 s ≡ returned []
unfolding safe_from
safe_from_stop fuel head el el1 s h = rw (safe_from, h) refl

safe_from_step :
    (fuel head x n : ℕ) (xs : List ℕ) (s : Links)
    → is_node (some x) head ≡ false
    → safe_from fuel head (some n) (s.next n) s ≡ returned xs
    → safe_from (suc fuel) head (some x) (some n) s ≡ returned (x ∷ xs)
unfolding safe_from node
safe_from_step fuel head x n xs s h rest = rw (safe_from, h, rest) refl

safe_from-Segment :
    (xs : List ℕ) (fuel : ℕ) (s : Links) (x head : ℕ)
    → Segment s x xs head
    → Apart head (x ∷ xs)
    → suc (length xs) < fuel
    → safe_from fuel head (some x) (s.next x) s ≡ returned (x ∷ xs)
unfolding is_node
safe_from-Segment xs zero s x head h d less = absurd (omega arith)
safe_from-Segment [] (suc zero) s x head h d less = absurd (omega arith)
safe_from-Segment [] (suc (suc fuel)) s x head (n, p) (e, d) less = rw n (
    safe_from_step (suc fuel) head x head [] s (==_apart x head (λ q. e (sym q)))
      (safe_from_stop fuel head (some head) (s.next head) s (==_refl head)))
safe_from-Segment (y ∷ xs) (suc fuel) s x head (n, p, h) (e, d) less = rw n (
    safe_from_step fuel head x y (y ∷ xs) s (==_apart x head (λ q. e (sym q)))
      (safe_from-Segment xs fuel s y head h d (omega arith)))

list_for_each_safe-Ring :
    (xs : List ℕ) (fuel : ℕ) (s : Links) (head : ℕ)
    → Ring s head xs
    → length xs < fuel
    → list_for_each_safe fuel head s ≡ returned xs
unfolding list_for_each_safe node is_node
list_for_each_safe-Ring xs zero s head r less = absurd (omega arith)
list_for_each_safe-Ring [] (suc fuel) s head r less =
    rw r.linked.0 (safe_from_stop fuel head (some head) (s.next head) s (==_refl head))
list_for_each_safe-Ring (x ∷ xs) (suc fuel) s head r less =
    rw r.linked.0 (safe_from-Segment xs (suc fuel) s x head r.linked.2 r.distinct.0 less)

module _ {ℓ} {A : Type ℓ} where
  values-Holds :
      (l : LinkedList A) (list : List A) → Holds l list → values l ≡ returned (map some list)
  unfolding values Holds
  values-Holds l list (xs, h) =
      rw (list_for_each_safe-Ring xs l.fresh l.links 0 h.ring (omega (arith, h.room)))
        (ap returned (Carries-map l.data_of xs list h.after_carried))

  -- The same answer, and values that are held; or the same exception.
  abbrev Matches :
      Outcome LinkError (LinkedList A × Answer A) → Outcome LinkError (List A × Answer A) → Type ℓ
  Matches o (thrown e) = o ≡ thrown e
  Matches o stuck = Never A
  Matches o (returned (list, a)) = (l' : LinkedList A) × (o ≡ returned (l', a)) × Holds l' list

  quiet-Matches :
      (o : Outcome LinkError (LinkedList A)) (list : List A)
      → (l' : LinkedList A) × (o ≡ returned l') × Holds l' list
      → Matches (quiet o) (returned (list, done))
  unfolding quiet
  quiet-Matches o list (l', eq, h) = (l', rw eq refl, h)

  popped-Matches :
      (o : Outcome LinkError (LinkedList A × Option A)) (o' : Outcome LinkError (List A × Option A))
      → Popped o o'
      → Matches (popped o) (popped o')
  unfolding popped
  popped-Matches o (thrown e) h = rw h refl
  popped-Matches o stuck h = h
  popped-Matches o (returned (list, v)) (l', eq, h) = (l', rw eq refl, h)

  prepended :
      (rng : List A) (l : LinkedList A) (list : List A)
      → Holds l list
      → (l' : LinkedList A) × (prepend_from 0 rng l ≡ returned l') × Holds l' (rng ++ list)
  unfolding Holds
  prepended rng l list (xs, h) = prepend_from-Holds rng l [] xs [] list h

  step-Matches :
      (c : Call A) (l : LinkedList A) (list : List A)
      → Holds l list
      → Matches (step c l) (spec_step c list)
  unfolding step spec_step asked prepend_range
  step-Matches (call_push_front a) l list h =
      quiet-Matches _ (a ∷ list) (push_front-Holds l a list h)
  step-Matches (call_push_back a) l list h =
      quiet-Matches _ (list ++ a ∷ []) (push_back-Holds l a list h)
  step-Matches (call_prepend rng) l list h = quiet-Matches _ (rng ++ list) (prepended rng l list h)
  step-Matches (call_append rng) l list h =
      quiet-Matches _ (list ++ rng) (append_range-Holds rng l list h)
  step-Matches call_pop_front l list h =
      popped-Matches (pop_front l) (spec_pop_front list) (pop_front-Popped l list h)
  step-Matches call_pop_back l list h =
      popped-Matches (pop_back l) (spec_pop_back list) (pop_back-Popped l list h)
  step-Matches call_front l list h = (l, rw (front-Holds l list h) refl, h)
  step-Matches call_back l list h = (l, rw (back-Holds l list h) refl, h)
  step-Matches call_empty l list h = (l, rw (empty-Holds l list h) refl, h)
  step-Matches call_reverse l list h =
      quiet-Matches _ (reverse_onto list []) (reverse-Holds l list h)
  step-Matches call_values l list h = (l, rw (values-Holds l list h) refl, h)

  go_on :
      (calls : List (Call A)) (l : LinkedList A) (list : List A)
      (o : Outcome LinkError (LinkedList A × Answer A)) (o' : Outcome LinkError (List A × Answer A))
      → Matches o o'
      → ((l' : LinkedList A) (list' : List A)
          → Holds l' list'
          → answers step calls l' ≡ answers spec_step calls list')
      → Holds l list
      → elim o [
        | returned r ↦ returned r.1 ∷ answers step calls r.0
        | thrown e ↦ thrown e ∷ answers step calls l
        | stuck ↦ stuck ∷ []
      ]
        ≡ elim o' [
          | returned r ↦ returned r.1 ∷ answers spec_step calls r.0
          | thrown e ↦ thrown e ∷ answers spec_step calls list
          | stuck ↦ stuck ∷ []
        ]
  go_on calls l list o (thrown e) m k h = rw m (ap (λ r. thrown e ∷ r) (k l list h))
  go_on calls l list o stuck m k h = absurd (never A m)
  go_on calls l list o (returned (list', a)) (l', eq, h') k h =
      rw eq (ap (λ r. returned a ∷ r) (k l' list' h'))

  answers-Holds :
      (calls : List (Call A)) (l : LinkedList A) (list : List A)
      → Holds l list
      → answers step calls l ≡ answers spec_step calls list
  unfolding answers
  answers-Holds [] l list h = refl
  answers-Holds (c ∷ calls) l list h =
      go_on calls l list (step c l) (spec_step c list) (step-Matches c l list h)
        (λ l' list' h'. answers-Holds calls l' list' h') h

  -- A list of the class answers every sequence of calls as a plain list does, with the exceptions that
  -- `popFront` and `popBack` throw on an empty list and no others.
  pub answers-step :
      (calls : List (Call A)) → answers step calls new_list ≡ answers spec_step calls []
  answers-step calls = answers-Holds calls new_list [] (new_list-Holds A)
