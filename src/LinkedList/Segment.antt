-- ===== src/LinkedList/Segment.antt =====
-- Runs of linked nodes, and rings.
use qjs_lws.Base.{ℕ, ◌≡◌, ◌≢◌, sym, ◌∙◌, some, List, [], ◌∷◌, ◌++◌, All, arith}
use qjs_lws.LinkedList.Nodes.{Links, set_prev, set_next, add_between, del_between}

-- From `a` over the nodes `xs` to `b`, linked both ways.
abbrev pub Segment : Links → ℕ → List ℕ → ℕ → Type 0
Segment s a [] b = (s.next a ≡ some b) × (s.prev b ≡ some a)
Segment s a (x ∷ xs) b = (s.next a ≡ some x) × (s.prev x ≡ some a) × Segment s x xs b

abbrev pub Apart : ℕ → List ℕ → Type 0
Apart x xs = All (λ y. x ≢ y) xs

abbrev pub Distinct : List ℕ → Type 0
Distinct [] = Unit {0}
Distinct (x ∷ xs) = Apart x xs × Distinct xs

abbrev pub last_of : ℕ → List ℕ → ℕ
last_of a [] = a
last_of a (x ∷ xs) = last_of x xs

abbrev pub first_of : List ℕ → ℕ → ℕ
first_of [] b = b
first_of (x ∷ xs) b = x

pub last_of-Apart : (x a : ℕ) (xs ys : List ℕ) → x ≢ a → Apart x (xs ++ ys) → x ≢ last_of a xs
last_of-Apart x a [] ys n h = n
last_of-Apart x a (y ∷ xs) ys n (e, h) = last_of-Apart x y xs ys e h

pub first_of-Apart : (x b : ℕ) (xs ys : List ℕ) → x ≢ b → Apart x (xs ++ ys) → x ≢ first_of ys b
first_of-Apart x b [] [] n h = n
first_of-Apart x b [] (y ∷ ys) n (e, h) = e
first_of-Apart x b (z ∷ xs) ys n (e, h) = first_of-Apart x b xs ys n h

-- A segment reads `next` of its nodes but the end, and `prev` of them but the start.
pub Segment-frame :
    (s t : Links) (a : ℕ) (xs : List ℕ) (b : ℕ)
    → t.next a ≡ s.next a
    → t.prev b ≡ s.prev b
    → All (λ x. (t.next x ≡ s.next x) × (t.prev x ≡ s.prev x)) xs
    → Segment s a xs b
    → Segment t a xs b
Segment-frame s t a [] b e f h (n, p) = (e ∙ n, f ∙ p)
Segment-frame s t a (x ∷ xs) b e f ((en, ep), h) (n, p, g) =
    (e ∙ n, ep ∙ p, Segment-frame s t x xs b en f h g)

module _ (el : ℕ) where
  -- Adding an element touches three nodes.
  pub add_between-next :
      (p n : ℕ) (s : Links) (x : ℕ) → x ≢ el → x ≢ p → (add_between el p n s).next x ≡ s.next x
  unfolding add_between set_prev set_next
  add_between-next p n s x e f = ground arith

  add_between-prev :
      (p n : ℕ) (s : Links) (x : ℕ) → x ≢ el → x ≢ n → (add_between el p n s).prev x ≡ s.prev x
  unfolding add_between set_prev set_next
  add_between-prev p n s x e f = ground arith

  add_between-links :
      (p n : ℕ) (s : Links) → el ≢ p → el ≢ n → Segment (add_between el p n s) p (el ∷ []) n
  unfolding add_between set_prev set_next
  add_between-links p n s e f = (ground arith, ground arith, (ground arith, ground arith))

-- What lies apart from the touched nodes keeps its fields.
untouched :
    (s t : Links) (el p n : ℕ) (xs : List ℕ)
    → ((x : ℕ) → x ≢ el → x ≢ p → t.next x ≡ s.next x)
    → ((x : ℕ) → x ≢ el → x ≢ n → t.prev x ≡ s.prev x)
    → Apart el xs
    → Apart p xs
    → Apart n xs
    → All (λ x. (t.next x ≡ s.next x) × (t.prev x ≡ s.prev x)) xs
untouched s t el p n [] f g e h k = tt
untouched s t el p n (x ∷ xs) f g (e, es) (h, hs) (k, ks) = (
  (f x (λ q. e (sym q)) (λ q. h (sym q)), g x (λ q. e (sym q)) (λ q. k (sym q))),
  untouched s t el p n xs f g es hs ks,
)

-- A segment whose nodes lie apart from the touched ones, but that `next` was read of its start.
behind :
    (s t : Links) (el p v : ℕ) (vs : List ℕ) (b : ℕ)
    → ((x : ℕ) → x ≢ el → x ≢ p → t.next x ≡ s.next x)
    → ((x : ℕ) → x ≢ el → x ≢ v → t.prev x ≡ s.prev x)
    → Apart el (v ∷ vs)
    → Apart p (v ∷ vs)
    → Apart v vs
    → Apart b (v ∷ vs)
    → el ≢ b
    → Segment s v vs b
    → Segment t v vs b
behind s t el p v vs b f g (ev, es) (pv, ps) av (bv, bs) eb h =
    Segment-frame s t v vs b (f v (λ q. ev (sym q)) (λ q. pv (sym q))) (g b (λ q. eb (sym q)) bv)
      (untouched s t el p v vs f g es ps av) h

module _ (el b : ℕ) where
  -- An element added between two neighbours stands between them.
  pub add_between-Segment :
      (us vs : List ℕ) (s : Links) (a : ℕ)
      → Segment s a (us ++ vs) b
      → Distinct (a ∷ us ++ vs)
      → Apart b (us ++ vs)
      → Apart el (a ∷ us ++ vs)
      → el ≢ b
      → Segment (add_between el (last_of a us) (first_of vs b) s) a (us ++ el ∷ vs) b
  add_between-Segment [] [] s a (n, p) d ab (ea, _) eb = add_between-links el a b s ea eb
  add_between-Segment [] (v ∷ vs) s a (n, p, h) (da, dv) ab (ea, es) eb =
      let (l1, l2, (l3, l4)) = add_between-links el a v s ea es.0 in
      (
        l1,
        l2,
        (
          l3,
          l4,
          behind s (add_between el a v s) el a v vs b (add_between-next el a v s)
              (add_between-prev el a v s) es da dv.0 ab eb h,
        ),
      )
  add_between-Segment (u ∷ us) vs s a (n, p, h) (da, du) (bu, bs) (ea, es) eb =
      let l = last_of u us in
      let f = first_of vs b in
      let same =
        add_between-next el l f s a (λ q. ea (sym q)) (last_of-Apart a u us vs da.0 da.1) in
      let back =
        add_between-prev el l f s u (λ q. es.0 (sym q))
          (first_of-Apart u b us vs (λ q. bu (sym q)) du.0) in
      (same ∙ n, back ∙ p, add_between-Segment us vs s u h du bs es eb)

module _ (el : ℕ) where
  pub Apart-middle : (x : ℕ) (us vs : List ℕ) → Apart x (us ++ el ∷ vs) → x ≢ el
  Apart-middle x [] vs (e, h) = e
  Apart-middle x (u ∷ us) vs (e, h) = Apart-middle x us vs h

  pub Apart-without : (x : ℕ) (us vs : List ℕ) → Apart x (us ++ el ∷ vs) → Apart x (us ++ vs)
  Apart-without x [] vs (e, h) = h
  Apart-without x (u ∷ us) vs (e, h) = (e, Apart-without x us vs h)

  pub Distinct-without : (us vs : List ℕ) → Distinct (us ++ el ∷ vs) → Distinct (us ++ vs)
  Distinct-without [] vs (e, h) = h
  Distinct-without (u ∷ us) vs (e, h) = (Apart-without u us vs e, Distinct-without us vs h)

  pub Apart-with : (x : ℕ) (us vs : List ℕ) → Apart x (us ++ vs) → x ≢ el → Apart x (us ++ el ∷ vs)
  Apart-with x [] vs h e = (e, h)
  Apart-with x (u ∷ us) vs (f, h) e = (f, Apart-with x us vs h e)

  pub Distinct-with :
      (us vs : List ℕ) → Distinct (us ++ vs) → Apart el (us ++ vs) → Distinct (us ++ el ∷ vs)
  Distinct-with [] vs d a = (a, d)
  Distinct-with (u ∷ us) vs (e, d) (a, h) =
      (Apart-with u us vs e (λ q. a (sym q)), Distinct-with us vs d h)

  pub del_between-next :
      (p n : ℕ) (s : Links) (x : ℕ) → x ≢ el → x ≢ p → (del_between el p n s).next x ≡ s.next x
  unfolding del_between set_prev set_next
  del_between-next p n s x e f = ground arith

  del_between-prev :
      (p n : ℕ) (s : Links) (x : ℕ) → x ≢ el → x ≢ n → (del_between el p n s).prev x ≡ s.prev x
  unfolding del_between set_prev set_next
  del_between-prev p n s x e f = ground arith

  del_between-links :
      (p n : ℕ) (s : Links) → el ≢ p → el ≢ n → Segment (del_between el p n s) p [] n
  unfolding del_between set_prev set_next
  del_between-links p n s e f = (ground arith, ground arith)

  module _ (b : ℕ) where
    -- An element that is deleted leaves its neighbours linked.
    pub del_between-Segment :
        (us vs : List ℕ) (s : Links) (a : ℕ)
        → Segment s a (us ++ el ∷ vs) b
        → Distinct (a ∷ us ++ el ∷ vs)
        → Apart b (us ++ el ∷ vs)
        → Segment (del_between el (last_of a us) (first_of vs b) s) a (us ++ vs) b
    del_between-Segment [] [] s a (n, p, (n', p')) (da, d) ab =
        del_between-links a b s (λ q. da.0 (sym q)) (λ q. ab.0 (sym q))
    del_between-Segment [] (v ∷ vs) s a (n, p, (n', p', h)) (da, (de, dv)) (be, bs) =
        let (l1, l2) = del_between-links a v s (λ q. da.0 (sym q)) de.0 in
        (
          l1,
          l2,
          behind s (del_between el a v s) el a v vs b (del_between-next a v s)
              (del_between-prev a v s) de da.1 dv.0 bs (λ q. be (sym q)) h,
        )
    del_between-Segment (u ∷ us) vs s a (n, p, h) (da, du) (bu, bs) =
        let l = last_of u us in
        let f = first_of vs b in
        let same =
          del_between-next l f s a (Apart-middle a us vs da.1)
            (last_of-Apart a u us (el ∷ vs) da.0 da.1) in
        let back =
          del_between-prev l f s u (Apart-middle u us vs du.0)
            (first_of-Apart u b us vs (λ q. bu (sym q)) (Apart-without u us vs du.0)) in
        (same ∙ n, back ∙ p, del_between-Segment us vs s u h du bs)

    -- The neighbours of an element.
    pub neighbours :
        (us vs : List ℕ) (s : Links) (a : ℕ)
        → Segment s a (us ++ el ∷ vs) b
        → (s.prev el ≡ some (last_of a us)) × (s.next el ≡ some (first_of vs b))
    neighbours [] [] s a (n, p, (n', p')) = (p, n')
    neighbours [] (v ∷ vs) s a (n, p, (n', p', h)) = (p, n')
    neighbours (u ∷ us) vs s a (n, p, h) = neighbours us vs s u h
