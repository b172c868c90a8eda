-- ===== src/LinkedList/Refines.antt =====
-- The class keeps what it promises.
use qjs_lws.Base.{
  ℕ, ◌+◌, ◌<◌, ◌≡◌, refl, sym, ap, ◌∙◌, Option, some, List, [], ◌∷◌, ◌++◌, append-nil, All, arith,
  length, length-append, Outcome, returned, thrown, stuck,
}
use mathlib.Core.Path.{subst}
use qjs_lws.LinkedList.Nodes.{LinkError, node, init_list_head, set_prev, set_next}
use qjs_lws.LinkedList.Segment.{last_of}
use qjs_lws.LinkedList.Ring.{list_del-Ring, is_nil, list_empty-Ring, prev_of_end}
use qjs_lws.LinkedList.Reverse.{reverse_onto, list_reverse-Ring}
use qjs_lws.LinkedList.Class.{
  LinkedList, new_list, empty, front, back, take_out, pop_front, pop_back, reverse,
}
use qjs_lws.LinkedList.Spec.{
  final, before_final, first_item, last_item, spec_pop_front, spec_pop_back,
}
use qjs_lws.LinkedList.Carries.{Never, never, Carries, Carries-reverse, Carries-final, final-append}
use qjs_lws.LinkedList.Holds.{Split, Holds}

Used-reverse :
    (n : ℕ) (xs ys : List ℕ)
    → All (λ x. x < n) xs
    → All (λ x. x < n) ys
    → All (λ x. x < n) (reverse_onto xs ys)
Used-reverse n [] ys h k = k
Used-reverse n (x ∷ xs) ys (e, h) k = Used-reverse n xs (x ∷ ys) h (e, k)

length-reverse_onto : (xs ys : List ℕ) → length (reverse_onto xs ys) ≡ length xs + length ys
length-reverse_onto [] ys = omega arith
length-reverse_onto (x ∷ xs) ys = length-reverse_onto xs (x ∷ ys) ∙ omega arith

Used-without :
    (n el : ℕ) (us vs : List ℕ) → All (λ x. x < n) (us ++ el ∷ vs) → All (λ x. x < n) (us ++ vs)
Used-without n el [] vs (e, h) = h
Used-without n el (u ∷ us) vs (e, h) = (e, Used-without n el us vs h)

final-last_of : (a x : ℕ) (xs : List ℕ) → last_of a (x ∷ xs) ≡ final x xs
final-last_of a x [] = refl
final-last_of a x (y ∷ xs) = final-last_of x y xs

pub new_list-Holds {ℓ} : (A : Type ℓ) → Holds (new_list {A = A}) []
unfolding Holds new_list init_list_head set_prev set_next
new_list-Holds A = (
  [],
  record {
    headless = refl;
    ring = record { linked = (refl, refl); distinct = (tt, tt) };
    before_carried = tt;
    after_carried = tt;
    before_used = tt;
    after_used = tt;
    room = omega arith;
  },
)

module _ {ℓ} {A : Type ℓ} where
  pub reverse-Holds :
      (l : LinkedList A) (list : List A)
      → Holds l list
      → (l' : LinkedList A) × (reverse l ≡ returned l') × Holds l' (reverse_onto list [])
  unfolding Holds reverse
  reverse-Holds l list (xs, h) =
      let (t, eq, r) = list_reverse-Ring xs l.fresh l.links 0 h.ring (omega (arith, h.room)) in
      (
        record l { links = t },
        rw eq refl,
        (
          reverse_onto xs [],
          record {
            headless = h.headless;
            ring = r;
            before_carried = tt;
            before_used = tt;
            after_carried = Carries-reverse l.data_of xs [] list [] h.after_carried tt;
            after_used = Used-reverse l.fresh xs [] h.after_used tt;
            room = omega (arith, h.room, length-reverse_onto xs []);
          },
        ),
      )

  -- An element that leaves the ring, with the value that it carries.
  take_out-Holds :
      (l : LinkedList A) (us vs : List ℕ) (el : ℕ) (v : A) (rest whole : List A)
      → Split l [] (us ++ el ∷ vs) [] whole
      → l.data_of el ≡ some v
      → Carries l.data_of (us ++ vs) rest
      → (l' : LinkedList A) × (take_out (some el) l ≡ returned (l', some v)) × Holds l' rest
  unfolding Holds take_out node
  take_out-Holds l us vs el v rest whole h e c =
      let (t, eq, r) = list_del-Ring us vs l.links 0 el h.ring in
      (
        record l { links = t },
        rw (eq, e) refl,
        (
          us ++ vs,
          record {
            headless = h.headless;
            ring = r;
            before_carried = tt;
            before_used = tt;
            after_carried = c;
            after_used = Used-without l.fresh el us vs h.after_used;
            room = omega (arith, h.room, length-append us (el ∷ vs), length-append us vs);
          },
        ),
      )

  abbrev pub Popped :
      Outcome LinkError (LinkedList A × Option A) → Outcome LinkError (List A × Option A) → Type ℓ
  Popped o (thrown e) = o ≡ thrown e
  Popped o stuck = Never A
  Popped o (returned (rest, v)) = (l' : LinkedList A) × (o ≡ returned (l', v)) × Holds l' rest

  pub pop_front-Popped :
      (l : LinkedList A) (list : List A) → Holds l list → Popped (pop_front l) (spec_pop_front list)
  unfolding pop_front spec_pop_front Holds
  pop_front-Popped l [] ([], h) = rw (list_empty-Ring [] l.links 0 h.ring) refl
  pop_front-Popped l [] (x ∷ xs, h) = absurd (never A h.after_carried)
  pop_front-Popped l (v ∷ list) ([], h) = absurd (never A h.after_carried)
  pop_front-Popped l (v ∷ list) (x ∷ xs, h) =
      let (e, c) = h.after_carried in
      let (l', eq, k) = take_out-Holds l [] xs x v list (v ∷ list) h e c in
      (l', rw (list_empty-Ring (x ∷ xs) l.links 0 h.ring, h.ring.linked.0) eq, k)

  pub pop_back-Popped :
      (l : LinkedList A) (list : List A) → Holds l list → Popped (pop_back l) (spec_pop_back list)
  unfolding pop_back spec_pop_back Holds
  pop_back-Popped l [] ([], h) = rw (list_empty-Ring [] l.links 0 h.ring) refl
  pop_back-Popped l [] (x ∷ xs, h) = absurd (never A h.after_carried)
  pop_back-Popped l (v ∷ list) ([], h) = absurd (never A h.after_carried)
  pop_back-Popped l (v ∷ list) (x ∷ xs, h) =
      let us = before_final x xs in
      let (e, c) = Carries-final l.data_of x xs v list h.after_carried in
      let split = subst (λ ys. Split l [] ys [] (v ∷ list)) (sym (final-append x xs)) h in
      let whole =
        subst (λ ys. Carries l.data_of ys (before_final v list)) (sym (append-nil us)) c in
      let (l', eq, k) =
        take_out-Holds l us [] (final x xs) (final v list) (before_final v list) (v ∷ list) split e
          whole in
      let last = prev_of_end (x ∷ xs) l.links 0 0 h.ring.linked ∙ ap some (final-last_of 0 x xs) in
      (l', rw (list_empty-Ring (x ∷ xs) l.links 0 h.ring, last) eq, k)

  pub front-Holds :
      (l : LinkedList A) (list : List A) → Holds l list → front l ≡ returned (first_item list)
  unfolding front node Holds
  front-Holds l [] ([], h) = rw (h.ring.linked.0, h.headless) refl
  front-Holds l [] (x ∷ xs, h) = absurd (never A h.after_carried)
  front-Holds l (v ∷ list) ([], h) = absurd (never A h.after_carried)
  front-Holds l (v ∷ list) (x ∷ xs, h) = rw (h.ring.linked.0, h.after_carried.0) refl

  pub back-Holds :
      (l : LinkedList A) (list : List A) → Holds l list → back l ≡ returned (last_item list)
  unfolding back node Holds
  back-Holds l [] ([], h) = rw (h.ring.linked.1, h.headless) refl
  back-Holds l [] (x ∷ xs, h) = absurd (never A h.after_carried)
  back-Holds l (v ∷ list) ([], h) = absurd (never A h.after_carried)
  back-Holds l (v ∷ list) (x ∷ xs, h) =
      let last = prev_of_end (x ∷ xs) l.links 0 0 h.ring.linked ∙ ap some (final-last_of 0 x xs) in
      rw (last, (Carries-final l.data_of x xs v list h.after_carried).0) refl

  pub empty-Holds : (l : LinkedList A) (list : List A) → Holds l list → empty l ≡ is_nil list
  unfolding empty Holds
  empty-Holds l [] ([], h) = list_empty-Ring [] l.links 0 h.ring
  empty-Holds l [] (x ∷ xs, h) = absurd (never A h.after_carried)
  empty-Holds l (v ∷ list) ([], h) = absurd (never A h.after_carried)
  empty-Holds l (v ∷ list) (x ∷ xs, h) = list_empty-Ring (x ∷ xs) l.links 0 h.ring
