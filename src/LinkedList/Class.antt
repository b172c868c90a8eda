-- ===== src/LinkedList/Class.antt =====
-- The class `LinkedList`.
use qjs_lws.Base.{
  ℕ, zero, suc, Bool, true, false, Option, none, some, List, [], ◌∷◌, map, ◌==◌, if◌then◌else◌,
  Outcome, returned, thrown, stuck, ◌>>=◌,
}
use qjs_lws.LinkedList.Nodes.{
  Links, LinkError, node, init_list_head, list_add, list_add_tail, list_del, list_empty,
  list_reverse, is_node,
}

-- The head is node 0; the nodes from `fresh` on are not used yet. The head has no data.
pub record LinkedList {ℓ} (A : Type ℓ) : Type ℓ where
  pub links : Links
  pub data_of : ℕ → Option A
  pub fresh : ℕ

module _ {ℓ} {A : Type ℓ} where
  unfoldable pub new_list : LinkedList A
  new_list = record {
    links = init_list_head 0 (record { prev = λ x. none; next = λ x. none });
    data_of = λ x. none;
    fresh = 1;
  }

  -- `{ data }`, added by `add`.
  unfoldable pub add_node :
      (ℕ → Links → Outcome LinkError Links) → A → LinkedList A → Outcome LinkError (LinkedList A)
  add_node add a l = do
    s ← add l.fresh l.links
    returned (record {
      links = s;
      data_of = λ x. if x == l.fresh then some a else l.data_of x;
      fresh = suc l.fresh;
    })

  unfoldable pub push_front : A → LinkedList A → Outcome LinkError (LinkedList A)
  push_front a l = add_node (λ el s. list_add el 0 s) a l

  unfoldable pub push_back : A → LinkedList A → Outcome LinkError (LinkedList A)
  push_back a l = add_node (λ el s. list_add_tail el 0 s) a l

  -- The loop of `prependRange`, whose variable `head` moves on to the node just added.
  unfoldable pub prepend_from : ℕ → List A → LinkedList A → Outcome LinkError (LinkedList A)
  prepend_from at [] l = returned l
  prepend_from at (a ∷ rng) l = do
    l' ← add_node (λ el s. list_add el at s) a l
    prepend_from l.fresh rng l'

  unfoldable pub prepend_range : List A → LinkedList A → Outcome LinkError (LinkedList A)
  prepend_range rng l = prepend_from 0 rng l

  unfoldable pub append_range : List A → LinkedList A → Outcome LinkError (LinkedList A)
  append_range [] l = returned l
  append_range (a ∷ rng) l = do l' ← push_back a l; append_range rng l'

  unfoldable pub empty : LinkedList A → Bool
  empty l = list_empty 0 l.links

  unfoldable pub front : LinkedList A → Outcome LinkError (Option A)
  front l = do n ← node (l.links.next 0); returned (l.data_of n)

  unfoldable pub back : LinkedList A → Outcome LinkError (Option A)
  back l = do p ← node (l.links.prev 0); returned (l.data_of p)

  -- `list_del(el)` and the data of the element.
  unfoldable pub take_out : Option ℕ → LinkedList A → Outcome LinkError (LinkedList A × Option A)
  take_out o l = do
    el ← node o
    s ← list_del el l.links
    returned (record l { links = s }, l.data_of el)

  unfoldable pub pop_front : LinkedList A → Outcome LinkError (LinkedList A × Option A)
  pop_front l =
      if list_empty 0 l.links then thrown LinkError.assertion else take_out (l.links.next 0) l

  unfoldable pub pop_back : LinkedList A → Outcome LinkError (LinkedList A × Option A)
  pop_back l =
      if list_empty 0 l.links then thrown LinkError.assertion else take_out (l.links.prev 0) l

  unfoldable pub reverse : LinkedList A → Outcome LinkError (LinkedList A)
  reverse l = do s ← list_reverse l.fresh 0 l.links; returned (record l { links = s })

-- `list_for_each_safe` from `el` on, where `el1` is the element behind it.
unfoldable pub safe_from :
    (fuel head : ℕ) → (el el1 : Option ℕ) → Links → Outcome LinkError (List ℕ)
safe_from zero head el el1 s = stuck
safe_from (suc fuel) head el el1 s = elim (is_node el head) [
  | true ↦ returned []
  | false ↦ do
    x ← node el
    n ← node el1
    rest ← safe_from fuel head el1 (s.next n) s
    returned (x ∷ rest)
]

unfoldable pub list_for_each_safe : (fuel head : ℕ) → Links → Outcome LinkError (List ℕ)
list_for_each_safe fuel head s = do
  el ← node (s.next head)
  safe_from fuel head (some el) (s.next el) s

-- `[...list]`.
unfoldable pub values {ℓ} : {A : Type ℓ} → LinkedList A → Outcome LinkError (List (Option A))
values l = do xs ← list_for_each_safe l.fresh 0 l.links; returned (map l.data_of xs)
