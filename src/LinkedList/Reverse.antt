-- ===== src/LinkedList/Reverse.antt =====
-- Reversing a ring in place.
use qjs_lws.Base.{
  ℕ, zero, suc, ◌<◌, ◌≤◌, ◌≡◌, ◌≢◌, refl, sym, ap, ◌∙◌, true, false, some, List, [], ◌∷◌,
  append-nil, All, arith, ◌==◌, length,
}
use mathlib.Core.Path.{subst}
use qjs_lws.LinkedList.Nodes.{
  Links, node, set_prev, set_next, init_list_head, del_between, list_del, reverse_loop,
  reverse_nodes, list_reverse,
}
use qjs_lws.LinkedList.Segment.{Segment, Apart, Distinct, last_of, first_of, last_of-Apart}
use qjs_lws.LinkedList.Ring.{
  Ring, list_add-next, Gives, next_of_head, prev_of_end, list_add-Ring, list_empty-Ring, ==_apart,
}

-- The list in reverse, before `done`.
abbrev pub reverse_onto {ℓ} : {A : Type ℓ} → List A → List A → List A
reverse_onto [] done = done
reverse_onto (x ∷ xs) done = reverse_onto xs (x ∷ done)

-- The nodes that the loop has before it, of which it reads `next` alone.
abbrev Chain : Links → ℕ → List ℕ → ℕ → Type 0
Chain s p [] last = (p ≡ last) × (q : ℕ) × (s.next p ≡ some q)
Chain s p (r ∷ rest) last = (p ≢ last) × (s.next p ≡ some r) × Chain s r rest last

Chain-frame :
    (s t : Links) (p : ℕ) (rest : List ℕ) (last : ℕ)
    → All (λ x. t.next x ≡ s.next x) (p ∷ rest)
    → Chain s p rest last
    → Chain t p rest last
Chain-frame s t p [] last (e, h) (l, q, n) = (l, q, e ∙ n)
Chain-frame s t p (r ∷ rest) last (e, h) (l, n, c) = (l, e ∙ n, Chain-frame s t r rest last h c)

-- What lies apart from two nodes.
untouched_next :
    (s t : Links) (a b : ℕ) (xs : List ℕ)
    → ((x : ℕ) → x ≢ a → x ≢ b → t.next x ≡ s.next x)
    → Apart a xs
    → Apart b xs
    → All (λ x. t.next x ≡ s.next x) xs
untouched_next s t a b [] f g h = tt
untouched_next s t a b (x ∷ xs) f (e, es) (k, ks) =
    (f x (λ q. e (sym q)) (λ q. k (sym q)), untouched_next s t a b xs f es ks)

-- All nodes of one list lie apart from those of another.
abbrev AllApart : List ℕ → List ℕ → Type 0
AllApart xs ys = All (λ x. Apart x ys) xs

AllApart-with :
    (xs : List ℕ) (head : ℕ) (ys : List ℕ) (p : ℕ)
    → Apart p xs
    → AllApart xs (head ∷ ys)
    → AllApart xs (head ∷ p ∷ ys)
AllApart-with [] head ys p a h = tt
AllApart-with (x ∷ xs) head ys p (e, a) ((f, b), h) =
    ((f, (λ q. e (sym q), b)), AllApart-with xs head ys p a h)

AllApart-head : (xs : List ℕ) (head : ℕ) (ys : List ℕ) → AllApart xs (head ∷ ys) → Apart head xs
AllApart-head [] head ys h = tt
AllApart-head (x ∷ xs) head ys ((e, a), h) = (λ q. e (sym q), AllApart-head xs head ys h)

module _ (head last : ℕ) where
  reverse_loop-Ring :
      (rest : List ℕ) (fuel p : ℕ) (s : Links) (done : List ℕ)
      → length rest < fuel
      → Ring s head done
      → Chain s p rest last
      → Distinct (p ∷ rest)
      → AllApart (p ∷ rest) (head ∷ done)
      → Gives head (reverse_onto (p ∷ rest) done) (reverse_loop fuel head last p s)
  unfolding reverse_loop
  reverse_loop-Ring rest zero p s done less r c d a = absurd (omega arith)
  reverse_loop-Ring [] (suc fuel) p s done less r (l, q, n) d (a, more) =
      let (t, eq, ring) = list_add-Ring done s head p r a in
      let same : (p == last) ≡ true = ground arith in (t, rw (reverse_loop, n, eq, same) refl, ring)
  reverse_loop-Ring (x ∷ rest) (suc fuel) p s done less r (l, n, c) (dp, d) (a, others) =
      let (t, eq, ring) = list_add-Ring done s head p r a in
      let other : (p == last) ≡ false = ==_apart p last l in
      let chain : Chain t x rest last =
        Chain-frame s t x rest last
          (untouched_next s t p head (x ∷ rest)
            (λ y e f.
              list_add-next s t head p (first_of done head) y
                (next_of_head done s head head r.linked) eq e f)
            dp (AllApart-head (x ∷ rest) head done others))
          c in
      let on =
        reverse_loop-Ring rest fuel x t (p ∷ done) (omega arith) ring chain d
          (AllApart-with (x ∷ rest) head done p dp others) in
      (on.0, rw (reverse_loop, n, eq, other) on.1, on.2)

-- Until the last node the fields `next` lead on, where only those of the head and the last are new.
segment-Chain :
    (s t : Links) (head last q x : ℕ) (xs : List ℕ)
    → ((y : ℕ) → y ≢ head → y ≢ last → t.next y ≡ s.next y)
    → t.next last ≡ some q
    → last ≡ last_of x xs
    → Distinct (x ∷ xs)
    → Apart head (x ∷ xs)
    → Segment s x xs head
    → Chain t x xs last
segment-Chain s t head last q x [] f n e d a h = (sym e, q, ap t.next (sym e) ∙ n)
segment-Chain s t head last q x (r ∷ xs) f n e (dx, d) (ax, a) (nx, p, h) =
    let apart : x ≢ last =
      λ k. last_of-Apart x r xs [] dx.0 (subst (Apart x) (sym (append-nil xs)) dx.1) (k ∙ e) in
    (apart, f x (λ k. ax (sym k)) apart ∙ nx, segment-Chain s t head last q r xs f n e d a h)

-- The ring without its head, and the head by itself.
cut : (head last first : ℕ) → Links → Links
cut head last first s = init_list_head head (del_between head last first s)

cut-next :
    (head last first : ℕ) (s : Links) (y : ℕ)
    → y ≢ head
    → y ≢ last
    → (cut head last first s).next y ≡ s.next y
unfolding cut init_list_head del_between set_prev set_next
cut-next head last first s y e f = ground arith

cut-last :
    (head last first : ℕ) (s : Links) → last ≢ head → (cut head last first s).next last ≡ some first
unfolding cut init_list_head del_between set_prev set_next
cut-last head last first s e = ground arith

cut-Ring : (head last first : ℕ) (s : Links) → Ring (cut head last first s) head []
unfolding cut init_list_head set_prev set_next
cut-Ring head last first s = record { linked = (ground arith, ground arith); distinct = (tt, tt) }

AllApart-one : (xs : List ℕ) (head : ℕ) → Apart head xs → AllApart xs (head ∷ [])
AllApart-one [] head h = tt
AllApart-one (x ∷ xs) head (e, h) = ((λ q. e (sym q), tt), AllApart-one xs head h)

reverse_nodes-Ring :
    (x : ℕ) (xs : List ℕ) (fuel : ℕ) (s : Links) (head : ℕ)
    → Ring s head (x ∷ xs)
    → length xs < fuel
    → Gives head (reverse_onto (x ∷ xs) []) (reverse_nodes fuel head s)
unfolding reverse_nodes node cut list_del
reverse_nodes-Ring x xs fuel s head r less =
    let last = last_of x xs in
    let n = r.linked.0 in
    let p = prev_of_end (x ∷ xs) s head head r.linked in
    let t = cut head last x s in
    let apart : head ≢ last =
      last_of-Apart head x xs [] r.distinct.0.0
        (subst (Apart head) (sym (append-nil xs)) r.distinct.0.1) in
    let chain =
      segment-Chain s t head last x x xs (cut-next head last x s)
        (cut-last head last x s (λ q. apart (sym q))) refl r.distinct.1 r.distinct.0 r.linked.2 in
    let (u, eq, ring) =
      reverse_loop-Ring head last xs fuel x t [] less (cut-Ring head last x s) chain r.distinct.1
        (AllApart-one (x ∷ xs) head r.distinct.0) in
    (u, rw (n, p) eq, ring)

-- If at least as many rounds are allowed as the ring has elements, `list_reverse` ends, and leaves a ring
-- of the same nodes in reverse.
pub list_reverse-Ring :
    (xs : List ℕ) (fuel : ℕ) (s : Links) (head : ℕ)
    → Ring s head xs
    → length xs ≤ fuel
    → Gives head (reverse_onto xs []) (list_reverse fuel head s)
unfolding list_reverse
list_reverse-Ring [] fuel s head r less = (s, rw (list_empty-Ring [] s head r) refl, r)
list_reverse-Ring (x ∷ xs) fuel s head r less =
    let (t, eq, ring) = reverse_nodes-Ring x xs fuel s head r (omega arith) in
    (t, rw (list_empty-Ring (x ∷ xs) s head r) eq, ring)
