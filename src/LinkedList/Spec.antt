-- ===== src/LinkedList/Spec.antt =====
-- What the class promises: calls, their answers, and the same calls on a plain list.
use qjs_lws.Base.{
  Bool, Option, none, some, List, [], ◌∷◌, ◌++◌, map, Outcome, returned, thrown, stuck, ◌>>=◌,
}
use qjs_lws.LinkedList.Nodes.{LinkError}
use qjs_lws.LinkedList.Ring.{is_nil}
use qjs_lws.LinkedList.Reverse.{reverse_onto}
use qjs_lws.LinkedList.Class.{
  LinkedList, push_front, push_back, prepend_range, append_range, empty, front, back, pop_front,
  pop_back, reverse, values,
}

pub data Call {ℓ} (A : Type ℓ) : Type ℓ where
  call_push_front call_push_back : A → Call A
  call_prepend call_append : List A → Call A
  call_pop_front call_pop_back call_front call_back call_empty call_reverse call_values : Call A

pub data Answer {ℓ} (A : Type ℓ) : Type ℓ where
  done : Answer A
  item : Option A → Answer A
  items : List (Option A) → Answer A
  flag : Bool → Answer A

module _ {ℓ} {A : Type ℓ} where
  -- A call without a result, and one that leaves the list as it is.
  unfoldable pub quiet {κ} : {S : Type κ} → Outcome LinkError S → Outcome LinkError (S × Answer A)
  quiet o = do l ← o; returned (l, done)

  unfoldable pub asked {κ μ} :
      {S : Type κ} {B : Type μ}
      → S
      → (B → Answer A)
      → Outcome LinkError B
      → Outcome LinkError (S × Answer A)
  asked l f o = do b ← o; returned (l, f b)

  unfoldable pub popped {κ} :
      {S : Type κ} → Outcome LinkError (S × Option A) → Outcome LinkError (S × Answer A)
  popped o = do r ← o; returned (r.0, item r.1)

  unfoldable pub step : Call A → LinkedList A → Outcome LinkError (LinkedList A × Answer A)
  step (call_push_front a) l = quiet (push_front a l)
  step (call_push_back a) l = quiet (push_back a l)
  step (call_prepend rng) l = quiet (prepend_range rng l)
  step (call_append rng) l = quiet (append_range rng l)
  step call_pop_front l = popped (pop_front l)
  step call_pop_back l = popped (pop_back l)
  step call_front l = asked l item (front l)
  step call_back l = asked l item (back l)
  step call_empty l = returned (l, flag (empty l))
  step call_reverse l = quiet (reverse l)
  step call_values l = asked l items (values l)

  -- The last element of `a ∷ list`, and those before it.
  abbrev pub final : A → List A → A
  final a [] = a
  final a (b ∷ list) = final b list

  abbrev pub before_final : A → List A → List A
  before_final a [] = []
  before_final a (b ∷ list) = a ∷ before_final b list

  abbrev pub first_item : List A → Option A
  first_item [] = none
  first_item (a ∷ list) = some a

  abbrev pub last_item : List A → Option A
  last_item [] = none
  last_item (a ∷ list) = some (final a list)

  unfoldable pub spec_pop_front : List A → Outcome LinkError (List A × Option A)
  spec_pop_front [] = thrown LinkError.assertion
  spec_pop_front (a ∷ list) = returned (list, some a)

  unfoldable pub spec_pop_back : List A → Outcome LinkError (List A × Option A)
  spec_pop_back [] = thrown LinkError.assertion
  spec_pop_back (a ∷ list) = returned (before_final a list, some (final a list))

  unfoldable pub spec_step : Call A → List A → Outcome LinkError (List A × Answer A)
  spec_step (call_push_front a) list = returned (a ∷ list, done)
  spec_step (call_push_back a) list = returned (list ++ a ∷ [], done)
  spec_step (call_prepend rng) list = returned (rng ++ list, done)
  spec_step (call_append rng) list = returned (list ++ rng, done)
  spec_step call_pop_front list = popped (spec_pop_front list)
  spec_step call_pop_back list = popped (spec_pop_back list)
  spec_step call_front list = returned (list, item (first_item list))
  spec_step call_back list = returned (list, item (last_item list))
  spec_step call_empty list = returned (list, flag (is_nil list))
  spec_step call_reverse list = returned (reverse_onto list [], done)
  spec_step call_values list = returned (list, items (map some list))

  -- The answers to a sequence of calls; an exception leaves the list as it is.
  unfoldable pub answers {κ} :
      {S : Type κ}
      → (Call A → S → Outcome LinkError (S × Answer A))
      → List (Call A)
      → S
      → List (Outcome LinkError (Answer A))
  answers act [] l = []
  answers act (c ∷ calls) l = elim (act c l) [
    | returned r ↦ returned r.1 ∷ answers act calls r.0
    | thrown e ↦ thrown e ∷ answers act calls l
    | stuck ↦ stuck ∷ []
  ]
