-- ===== src/LinkedList/Splice.antt =====
-- Joining two rings.
use qjs_lws.Base.{ℕ, ◌≡◌, ◌≢◌, refl, sym, ◌∙◌, List, [], ◌∷◌, ◌++◌, append-nil, All, arith}
use mathlib.Core.Path.{subst}
use qjs_lws.LinkedList.Nodes.{
  Links, node, set_prev, set_next, splice_nodes, list_splice, merge_nodes, list_merge,
}
use qjs_lws.LinkedList.Segment.{
  Segment, Apart, Distinct, last_of, first_of, Segment-frame, last_of-Apart, first_of-Apart,
}
use qjs_lws.LinkedList.Ring.{Ring, Gives, list_empty-Ring, next_of_head, prev_of_end}

-- All nodes of one list lie apart from those of another.
abbrev pub AllApart : List ℕ → List ℕ → Type 0
AllApart xs ys = All (λ x. Apart x ys) xs

module _ (first last dest at : ℕ) (s : Links) where
  splice-next :
      (x : ℕ) → x ≢ last → x ≢ dest → (splice_nodes first last dest at s).next x ≡ s.next x
  unfolding splice_nodes set_prev set_next
  splice-next x e f = ground arith

  splice-prev : (x : ℕ) → x ≢ first → x ≢ at → (splice_nodes first last dest at s).prev x ≡ s.prev x
  unfolding splice_nodes set_prev set_next
  splice-prev x e f = ground arith

  splice-links :
      last ≢ dest
      → first ≢ at
      → Segment (splice_nodes first last dest at s) dest [] first
        × Segment (splice_nodes first last dest at s) last [] at
  unfolding splice_nodes set_prev set_next
  splice-links e f = ((ground arith, ground arith), (ground arith, ground arith))

fields_kept :
    (s t : Links) (last dest first at : ℕ) (xs : List ℕ)
    → ((x : ℕ) → x ≢ last → x ≢ dest → t.next x ≡ s.next x)
    → ((x : ℕ) → x ≢ first → x ≢ at → t.prev x ≡ s.prev x)
    → Apart last xs
    → Apart dest xs
    → Apart first xs
    → Apart at xs
    → All (λ x. (t.next x ≡ s.next x) × (t.prev x ≡ s.prev x)) xs
fields_kept s t last dest first at [] f g a b c d = tt
fields_kept s t last dest first at (x ∷ xs) f g (a, as') (b, bs) (c, cs) (d, ds) = (
  (f x (λ q. a (sym q)) (λ q. b (sym q)), g x (λ q. c (sym q)) (λ q. d (sym q))),
  fields_kept s t last dest first at xs f g as' bs cs ds,
)

-- The elements of the source from `x` on, then those of the destination.
joined :
    (xs ys : List ℕ) (first x src dest : ℕ) (s : Links)
    → Segment s x xs src
    → Segment s dest ys dest
    → Distinct (x ∷ xs)
    → Distinct (dest ∷ ys)
    → AllApart (x ∷ xs) (dest ∷ ys)
    → Apart first xs
    → Apart first (dest ∷ ys)
    → Segment (splice_nodes first (last_of x xs) dest (first_of ys dest) s) x (xs ++ ys) dest
joined [] [] first x src dest s h k d e ((a, _), _) f g = (splice-links first x dest dest s a g.0).1
joined [] (y ∷ ys) first x src dest s h (n, p, k) d (e, (ey, es)) ((a, (b, bs)), _) f
      (g, (gy, gs)) =
    let (m, q) = (splice-links first x dest y s a gy).1 in
    let t = splice_nodes first x dest y s in
    let next = splice-next first x dest y s in
    let prev = splice-prev first x dest y s in
    (
      m,
      q,
      Segment-frame s t y ys dest (next y (λ r. b (sym r)) (λ r. e.0 (sym r)))
          (prev dest (λ r. g (sym r)) e.0)
          (fields_kept s t x dest first y ys next prev bs e.1 gs ey) k,
    )
joined (r ∷ xs) ys first x src dest s (n, p, h) k (d, ds) e ((a, b), as') (f, fs) g =
    let last = last_of r xs in
    let at = first_of ys dest in
    let next =
      splice-next first last dest at s x
        (last_of-Apart x r xs [] d.0 (subst (Apart x) (sym (append-nil xs)) d.1)) a in
    let prev =
      splice-prev first last dest at s r (λ q. f (sym q))
        (first_of-Apart r dest [] ys as'.0.0 as'.0.1) in
    (next ∙ n, prev ∙ p, joined xs ys first r src dest s h k ds e as' fs g)

AllApart-tail : (xs : List ℕ) (y : ℕ) (ys : List ℕ) → AllApart xs (y ∷ ys) → AllApart xs ys
AllApart-tail [] y ys h = tt
AllApart-tail (x ∷ xs) y ys ((e, a), h) = (a, AllApart-tail xs y ys h)

AllApart-head : (xs : List ℕ) (y : ℕ) (ys : List ℕ) → AllApart xs (y ∷ ys) → Apart y xs
AllApart-head [] y ys h = tt
AllApart-head (x ∷ xs) y ys ((e, a), h) = (λ q. e (sym q), AllApart-head xs y ys h)

Apart-append : (x : ℕ) (xs ys : List ℕ) → Apart x xs → Apart x ys → Apart x (xs ++ ys)
Apart-append x [] ys h k = k
Apart-append x (z ∷ xs) ys (e, h) k = (e, Apart-append x xs ys h k)

Distinct-append :
    (xs ys : List ℕ) → Distinct xs → Distinct ys → AllApart xs ys → Distinct (xs ++ ys)
Distinct-append [] ys d e h = e
Distinct-append (x ∷ xs) ys (a, d) e (b, h) =
    (Apart-append x xs ys a b, Distinct-append xs ys d e h)

splice_nodes-Ring :
    (x : ℕ) (xs ys : List ℕ) (src dest : ℕ) (s : Links)
    → Ring s src (x ∷ xs)
    → Ring s dest ys
    → AllApart (x ∷ xs) (dest ∷ ys)
    → Ring (splice_nodes x (last_of x xs) dest (first_of ys dest) s) dest ((x ∷ xs) ++ ys)
splice_nodes-Ring x xs ys src dest s r q a =
    let far : last_of x xs ≢ dest = λ e.
      last_of-Apart dest x xs [] (λ z. a.0.0 (sym z))
        (subst (Apart dest) (sym (append-nil xs)) (AllApart-head (x ∷ xs) dest ys a).1) (sym e) in
    let (n, p) =
      (splice-links x (last_of x xs) dest (first_of ys dest) s far
        (first_of-Apart x dest [] ys a.0.0 a.0.1)).0 in
    record {
      linked = (
        n,
        p,
        joined xs ys x x src dest s r.linked.2 q.linked r.distinct.1 q.distinct a r.distinct.1.0
            a.0,
      );
      distinct = (
        Apart-append dest (x ∷ xs) ys (AllApart-head (x ∷ xs) dest ys a) q.distinct.0,
        Distinct-append (x ∷ xs) ys r.distinct.1 q.distinct.1 (AllApart-tail (x ∷ xs) dest ys a),
      );
    }

-- `list_splice` and `list_merge` both put the elements of a source, in their order, before those of the
-- destination, if no node stands in both; an empty source changes nothing.
pub list_splice-Ring :
    (xs ys : List ℕ) (src dest : ℕ) (s : Links)
    → Ring s src xs
    → Ring s dest ys
    → AllApart xs (dest ∷ ys)
    → Gives dest (xs ++ ys) (list_splice src dest s) × Gives dest (xs ++ ys) (list_merge dest src s)
unfolding list_splice list_merge node splice_nodes merge_nodes set_prev set_next
list_splice-Ring [] ys src dest s r q a =
    let nothing = list_empty-Ring [] s src r in ((s, rw nothing refl, q), (s, rw nothing refl, q))
list_splice-Ring (x ∷ xs) ys src dest s r q a =
    let t = splice_nodes x (last_of x xs) dest (first_of ys dest) s in
    let some_there = list_empty-Ring (x ∷ xs) s src r in
    let n = r.linked.0 in
    let p = prev_of_end (x ∷ xs) s src src r.linked in
    let at = next_of_head ys s dest dest q.linked in
    let ring = splice_nodes-Ring x xs ys src dest s r q a in
    ((t, rw (some_there, n, p, at) refl, ring), (t, rw (some_there, n, p, at) refl, ring))
