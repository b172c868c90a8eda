-- ===== src/LinkedList/Ring.antt =====
-- A head and its elements, linked in a ring, and what the functions make of it.
use qjs_lws.Base.{
  ℕ, zero, suc, ◌<◌, ◌≡◌, ◌≢◌, refl, sym, ap, ◌∙◌, Bool, true, false, Option, some, List, [], ◌∷◌,
  ◌++◌, append-nil, arith, ◌==◌, ==_refl, length, Outcome, returned, returned_inj,
}
use mathlib.Core.Path.{subst}
use qjs_lws.LinkedList.Nodes.{
  Links, LinkError, node, add_between, del_between, list_add, list_add_tail, list_del, is_node,
  list_empty, list_move, list_move_tail, elements_from, list_for_each,
}
use qjs_lws.LinkedList.Segment.{
  Segment, Apart, Distinct, last_of, first_of, add_between-Segment, add_between-next,
  del_between-Segment, neighbours, Apart-without, Apart-with, Apart-middle, Distinct-without,
  Distinct-with,
}

pub record Ring (s : Links) (head : ℕ) (xs : List ℕ) : Type 0 where
  pub linked : Segment s head xs head
  pub distinct : Distinct (head ∷ xs)

-- A call that returns links in which the head has these elements.
abbrev pub Gives : ℕ → List ℕ → Outcome LinkError Links → Type 0
Gives head xs o = (t : Links) × (o ≡ returned t) × Ring t head xs

pub next_of_head :
    (xs : List ℕ) (s : Links) (head b : ℕ)
    → Segment s head xs b
    → s.next head ≡ some (first_of xs b)
next_of_head [] s head b (n, p) = n
next_of_head (x ∷ xs) s head b (n, p, h) = n

pub prev_of_end :
    (xs : List ℕ) (s : Links) (a b : ℕ) → Segment s a xs b → s.prev b ≡ some (last_of a xs)
prev_of_end [] s a b (n, p) = p
prev_of_end (x ∷ xs) s a b (n, p, h) = prev_of_end xs s x b h

add_between-Ring :
    (us vs : List ℕ) (s : Links) (head el : ℕ)
    → Ring s head (us ++ vs)
    → Apart el (head ∷ us ++ vs)
    → Ring (add_between el (last_of head us) (first_of vs head) s) head (us ++ el ∷ vs)
add_between-Ring us vs s head el r (e, a) = record {
  linked = add_between-Segment el head us vs s head r.linked r.distinct r.distinct.0 (e, a) e;
  distinct = (
    Apart-with el head us vs r.distinct.0 (λ q. e (sym q)),
    Distinct-with el us vs r.distinct.1 a,
  );
}

next_of_last :
    (us vs : List ℕ) (s : Links) (a b : ℕ)
    → Segment s a (us ++ vs) b
    → s.next (last_of a us) ≡ some (first_of vs b)
next_of_last [] vs s a b h = next_of_head vs s a b h
next_of_last (u ∷ us) vs s a b (n, p, h) = next_of_last us vs s u b h

-- An element added behind the node that `us` ends with.
pub list_add_at-Ring :
    (us vs : List ℕ) (s : Links) (head el : ℕ)
    → Ring s head (us ++ vs)
    → Apart el (head ∷ us ++ vs)
    → Gives head (us ++ el ∷ vs) (list_add el (last_of head us) s)
unfolding list_add node
list_add_at-Ring us vs s head el r a = (
  add_between el (last_of head us) (first_of vs head) s,
  rw (next_of_last us vs s head head r.linked) refl,
  add_between-Ring us vs s head el r a,
)

pub list_add-Ring :
    (xs : List ℕ) (s : Links) (head el : ℕ)
    → Ring s head xs
    → Apart el (head ∷ xs)
    → Gives head (el ∷ xs) (list_add el head s)
list_add-Ring xs s head el r a = list_add_at-Ring [] xs s head el r a

-- Adding at the front changes `next` of the head and the element alone.
pub list_add-next :
    (s t : Links) (head el n x : ℕ)
    → s.next head ≡ some n
    → list_add el head s ≡ returned t
    → x ≢ el
    → x ≢ head
    → t.next x ≡ s.next x
unfolding list_add node
list_add-next s t head el n x h eq e f =
    let step : list_add el head s ≡ returned (add_between el head n s) = rw h refl in
    ap (λ r. r.next x) (returned_inj (sym eq ∙ step)) ∙ add_between-next el head n s x e f

pub list_add_tail-Ring :
    (xs : List ℕ) (s : Links) (head el : ℕ)
    → Ring s head xs
    → Apart el (head ∷ xs)
    → Gives head (xs ++ el ∷ []) (list_add_tail el head s)
unfolding list_add_tail node
list_add_tail-Ring xs s head el r a =
    let whole = sym (append-nil xs) in
    (
      add_between el (last_of head xs) head s,
      rw (prev_of_end xs s head head r.linked) refl,
      add_between-Ring xs [] s head el (subst (Ring s head) whole r)
          (subst (λ l. Apart el (head ∷ l)) whole a),
    )

pub list_del-Ring :
    (us vs : List ℕ) (s : Links) (head el : ℕ)
    → Ring s head (us ++ el ∷ vs)
    → Gives head (us ++ vs) (list_del el s)
unfolding list_del node
list_del-Ring us vs s head el r =
    let (p, n) = neighbours el head us vs s head r.linked in
    (
      del_between el (last_of head us) (first_of vs head) s,
      rw (n, p) refl,
      record {
        linked = del_between-Segment el head us vs s head r.linked r.distinct r.distinct.0;
        distinct =
            (Apart-without el head us vs r.distinct.0, Distinct-without el us vs r.distinct.1);
      },
    )

abbrev pub is_nil {ℓ} : {A : Type ℓ} → List A → Bool
is_nil [] = true
is_nil (x ∷ xs) = false

pub ==_apart : (x y : ℕ) → x ≢ y → (x == y) ≡ false
==_apart x y n = ground arith

pub list_empty-Ring :
    (xs : List ℕ) (s : Links) (head : ℕ) → Ring s head xs → list_empty head s ≡ is_nil xs
unfolding list_empty is_node
list_empty-Ring [] s head r = rw r.linked.0 (==_refl head)
list_empty-Ring (x ∷ xs) s head r = rw r.linked.0 (==_apart x head (λ q. r.distinct.0.0 (sym q)))

elements_from_stop :
    (fuel head : ℕ) (el : Option ℕ) (s : Links)
    → is_node el head ≡ true
    → elements_from (suc fuel) head el s ≡ returned []
unfolding elements_from
elements_from_stop fuel head el s h = rw (elements_from, h) refl

elements_from_step :
    (fuel head x : ℕ) (xs : List ℕ) (s : Links)
    → is_node (some x) head ≡ false
    → elements_from fuel head (s.next x) s ≡ returned xs
    → elements_from (suc fuel) head (some x) s ≡ returned (x ∷ xs)
unfolding elements_from node
elements_from_step fuel head x xs s h rest = rw (elements_from, h, rest) refl

elements_from-Segment :
    (xs : List ℕ) (fuel : ℕ) (s : Links) (a head : ℕ)
    → Segment s a xs head
    → Apart head xs
    → length xs < fuel
    → elements_from fuel head (s.next a) s ≡ returned xs
unfolding is_node
elements_from-Segment xs zero s a head h d less = absurd (omega arith)
elements_from-Segment [] (suc fuel) s a head (n, p) d less =
    rw n (elements_from_stop fuel head (some head) s (==_refl head))
elements_from-Segment (x ∷ xs) (suc fuel) s a head (n, p, h) (e, d) less =
    let other = ==_apart x head (λ q. e (sym q)) in
    let rest = elements_from-Segment xs fuel s x head h d (omega arith) in
    rw n (elements_from_step fuel head x xs s other rest)

pub list_for_each-Ring :
    (xs : List ℕ) (fuel : ℕ) (s : Links) (head : ℕ)
    → Ring s head xs
    → length xs < fuel
    → list_for_each fuel head s ≡ returned xs
unfolding list_for_each
list_for_each-Ring xs fuel s head r less =
    elements_from-Segment xs fuel s head head r.linked r.distinct.0 less

middle-Apart : (el : ℕ) (us vs : List ℕ) → Distinct (us ++ el ∷ vs) → Apart el (us ++ vs)
middle-Apart el [] vs (a, d) = a
middle-Apart el (u ∷ us) vs (a, d) =
    ((λ q. Apart-middle el u us vs a (sym q)), middle-Apart el us vs d)

-- `list_move` takes an element of the ring out and puts it at the front, `list_move_tail` at the end;
-- all others keep their order.
list_move-Ring :
    (us vs : List ℕ) (s : Links) (head el : ℕ)
    → Ring s head (us ++ el ∷ vs)
    → Gives head (el ∷ us ++ vs) (list_move el head s)
      × Gives head ((us ++ vs) ++ el ∷ []) (list_move_tail el head s)
unfolding list_move list_move_tail
list_move-Ring us vs s head el r =
    let (t, eq, d) = list_del-Ring us vs s head el r in
    let apart : Apart el (head ∷ us ++ vs) = (
      (λ q. Apart-middle el head us vs r.distinct.0 (sym q)),
      middle-Apart el us vs r.distinct.1,
    ) in
    let (front, front_eq, front_ring) = list_add-Ring (us ++ vs) t head el d apart in
    let (back, back_eq, back_ring) = list_add_tail-Ring (us ++ vs) t head el d apart in
    ((front, rw (eq, front_eq) refl, front_ring), (back, rw (eq, back_eq) refl, back_ring))
