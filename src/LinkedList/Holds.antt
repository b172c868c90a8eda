-- ===== src/LinkedList/Holds.antt =====
-- A list of the class that holds the values of a plain list, and the calls that add to it.
use qjs_lws.Base.{
  ℕ, suc, ◌+◌, ◌<◌, ◌≡◌, refl, sym, ap, ◌∙◌, false, Option, none, some, List, [], ◌∷◌, ◌++◌,
  append-nil, append_assoc, All, arith, ◌==◌, ==_refl, if◌then◌else◌, length, length-append,
  Outcome, returned,
}
use mathlib.Core.Path.{subst}
use qjs_lws.LinkedList.Nodes.{Links, LinkError, list_add, list_add_tail}
use qjs_lws.LinkedList.Segment.{Apart, last_of}
use qjs_lws.LinkedList.Ring.{Ring, Gives, list_add_at-Ring, list_add_tail-Ring}
use qjs_lws.LinkedList.Class.{
  LinkedList, add_node, push_front, push_back, prepend_from, append_range,
}
use qjs_lws.LinkedList.Carries.{Carries, Carries-append, Carries-fresh}

pub Used-append :
    (n : ℕ) (xs ys : List ℕ)
    → All (λ x. x < n) xs
    → All (λ x. x < n) ys
    → All (λ x. x < n) (xs ++ ys)
Used-append n [] ys h k = k
Used-append n (x ∷ xs) ys (e, h) k = (e, Used-append n xs ys h k)

Used-later : (n : ℕ) (xs : List ℕ) → All (λ x. x < n) xs → All (λ x. x < suc n) xs
Used-later n [] h = tt
Used-later n (x ∷ xs) (e, h) = (omega arith, Used-later n xs h)

pub Used-Apart : (n : ℕ) (xs : List ℕ) → All (λ x. x < n) xs → Apart n xs
Used-Apart n [] h = tt
Used-Apart n (x ∷ xs) (e, h) = ((λ q. ground arith), Used-Apart n xs h)

last_of-end : (a b : ℕ) (xs : List ℕ) → last_of a (xs ++ b ∷ []) ≡ b
last_of-end a b [] = refl
last_of-end a b (x ∷ xs) = last_of-end x b xs

module _ {ℓ} {A : Type ℓ} where
  -- The ring of the head, in two parts, with their values.
  pub record Split (l : LinkedList A) (us vs : List ℕ) (before after : List A) : Type ℓ where
    pub headless : l.data_of 0 ≡ none
    pub ring : Ring l.links 0 (us ++ vs)
    pub before_carried : Carries l.data_of us before
    pub after_carried : Carries l.data_of vs after
    pub before_used : All (λ x. x < l.fresh) us
    pub after_used : All (λ x. x < l.fresh) vs
    pub room : length us + length vs < l.fresh

  -- The list has these values.
  unfoldable pub Holds : LinkedList A → List A → Type ℓ
  Holds l list = (xs : List ℕ) × Split l [] xs [] list

  pub whole-Apart :
      (l : LinkedList A) (us vs : List ℕ) (before after : List A)
      → Split l us vs before after
      → Apart l.fresh (0 ∷ us ++ vs)
  whole-Apart l us vs before after h = (
    (λ q. ground (arith, h.room)),
    Used-Apart l.fresh (us ++ vs) (Used-append l.fresh us vs h.before_used h.after_used),
  )

  pub joined :
      (l : LinkedList A) (us vs : List ℕ) (before after : List A)
      → Split l us vs before after
      → Holds l (before ++ after)
  unfolding Holds
  joined l us vs before after h = (
    us ++ vs,
    record {
      headless = h.headless;
      ring = h.ring;
      before_carried = tt;
      before_used = tt;
      after_carried = Carries-append l.data_of us vs before after h.before_carried h.after_carried;
      after_used = Used-append l.fresh us vs h.before_used h.after_used;
      room = omega (arith, h.room, length-append us vs);
    },
  )

  add_node-Split :
      (l : LinkedList A) (us vs : List ℕ) (before after : List A)
      (add : ℕ → Links → Outcome LinkError Links) (a : A)
      → Split l us vs before after
      → Gives 0 (us ++ l.fresh ∷ vs) (add l.fresh l.links)
      → (l' : LinkedList A) × (add_node add a l ≡ returned l')
        × Split l' (us ++ l.fresh ∷ []) vs (before ++ a ∷ []) after
  unfolding add_node
  add_node-Split l us vs before after add a h (t, eq, r) =
      let none_at_head : (0 == l.fresh) ≡ false = ground (arith, h.room) in
      let d : ℕ → Option A = λ x. if x == l.fresh then some a else l.data_of x in
      (
        record { links = t; data_of = d; fresh = suc l.fresh },
        rw eq refl,
        record {
          headless = rw none_at_head h.headless;
          ring = subst (Ring t 0) (sym (append_assoc us (l.fresh ∷ []) vs)) r;
          before_carried =
              Carries-append d us (l.fresh ∷ []) before (a ∷ [])
                (Carries-fresh l.data_of l.fresh a us before h.before_used h.before_carried)
                (rw (==_refl l.fresh) refl, tt);
          after_carried = Carries-fresh l.data_of l.fresh a vs after h.after_used h.after_carried;
          before_used =
              Used-append (suc l.fresh) us (l.fresh ∷ []) (Used-later l.fresh us h.before_used)
                (omega arith, tt);
          after_used = Used-later l.fresh vs h.after_used;
          room = omega (arith, h.room, length-append us (l.fresh ∷ []));
        },
      )

  pub push_front-Holds :
      (l : LinkedList A) (a : A) (list : List A)
      → Holds l list
      → (l' : LinkedList A) × (push_front a l ≡ returned l') × Holds l' (a ∷ list)
  unfolding Holds push_front
  push_front-Holds l a list (xs, h) =
      let gives = list_add_at-Ring [] xs l.links 0 l.fresh h.ring (whole-Apart l [] xs [] list h) in
      let (l', eq, k) = add_node-Split l [] xs [] list (λ el s. list_add el 0 s) a h gives in
      (l', eq, joined l' (l.fresh ∷ []) xs (a ∷ []) list k)

  -- All nodes before the gap.
  pub at_end :
      (l : LinkedList A) (xs : List ℕ) (list : List A)
      → Split l [] xs [] list
      → Split l xs [] list []
  at_end l xs list h = record {
    headless = h.headless;
    ring = subst (Ring l.links 0) (sym (append-nil xs)) h.ring;
    before_carried = h.after_carried;
    after_carried = tt;
    before_used = h.after_used;
    after_used = tt;
    room = omega (arith, h.room);
  }

  pub push_back-Holds :
      (l : LinkedList A) (a : A) (list : List A)
      → Holds l list
      → (l' : LinkedList A) × (push_back a l ≡ returned l') × Holds l' (list ++ a ∷ [])
  unfolding Holds push_back
  push_back-Holds l a list (xs, h) =
      let gives = list_add_tail-Ring xs l.links 0 l.fresh h.ring (whole-Apart l [] xs [] list h) in
      let (l', eq, k) =
        add_node-Split l xs [] list [] (λ el s. list_add_tail el 0 s) a (at_end l xs list h)
          gives in
      (
        l',
        eq,
        subst (Holds l') (append-nil (list ++ a ∷ []))
            (joined l' (xs ++ l.fresh ∷ []) [] (list ++ a ∷ []) [] k),
      )

  pub append_range-Holds :
      (rng : List A) (l : LinkedList A) (list : List A)
      → Holds l list
      → (l' : LinkedList A) × (append_range rng l ≡ returned l') × Holds l' (list ++ rng)
  unfolding append_range
  append_range-Holds [] l list h = (l, refl, subst (Holds l) (sym (append-nil list)) h)
  append_range-Holds (a ∷ rng) l list h =
      let (t, eq, k) = push_back-Holds l a list h in
      let (u, eq', k') = append_range-Holds rng t (list ++ a ∷ []) k in
      (u, rw eq eq', subst (Holds u) (append_assoc list (a ∷ []) rng) k')

  pub prepend_from-Holds :
      (rng : List A) (l : LinkedList A) (us vs : List ℕ) (before after : List A)
      → Split l us vs before after
      → (l' : LinkedList A) × (prepend_from (last_of 0 us) rng l ≡ returned l')
        × Holds l' (before ++ (rng ++ after))
  unfolding prepend_from
  prepend_from-Holds [] l us vs before after h = (l, refl, joined l us vs before after h)
  prepend_from-Holds (a ∷ rng) l us vs before after h =
      let gives =
        list_add_at-Ring us vs l.links 0 l.fresh h.ring (whole-Apart l us vs before after h) in
      let (t, eq, k) =
        add_node-Split l us vs before after (λ el s. list_add el (last_of 0 us) s) a h gives in
      let (u, eq', k') =
        prepend_from-Holds rng t (us ++ l.fresh ∷ []) vs (before ++ a ∷ []) after k in
      let moved : prepend_from l.fresh rng t ≡ returned u =
        ap (λ n. prepend_from n rng t) (sym (last_of-end 0 l.fresh us)) ∙ eq' in
      (u, rw eq moved, subst (Holds u) (append_assoc before (a ∷ []) (rng ++ after)) k')
