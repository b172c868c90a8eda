-- ===== src/Url/SearchParams/Laws.antt =====
-- What the list answers after a change, and the order that `sort` gives it.
use qjs_lws.Base.{
  ℕ, ◌≡◌, refl, ap, ◌∙◌, sym, Bool, true, false, ◌&&◌, List, [], ◌∷◌, Text, text_eq, text_eq_iff,
  arith, Bool-cases, inl, inr, if◌then◌else◌,
}
use mathlib.Core.Path.{subst}
use qjs_lws.Url.Form.{Pairs}
use qjs_lws.Url.Form.Bytes.{both}
use qjs_lws.Url.SearchParams.{get_all, units_lt, name_lt, insert_sorted, sort, utf16}

units_lt_irrefl : (s : List ℕ) → units_lt s s ≡ false
unfolding units_lt
units_lt_irrefl [] = refl
units_lt_irrefl (c ∷ s) = ground (arith, units_lt_irrefl s)

units_lt_asym : (s t : List ℕ) → units_lt s t ≡ true → units_lt t s ≡ false
unfolding units_lt
units_lt_asym [] [] h = ground arith
units_lt_asym (c ∷ s) [] h = ground arith
units_lt_asym [] (d ∷ t) h = refl
units_lt_asym (c ∷ s) (d ∷ t) h = ground (arith, units_lt_asym s t)

name_lt_irrefl : (a : Text) → name_lt a a ≡ false
unfolding name_lt
name_lt_irrefl a = units_lt_irrefl (utf16 a)

name_lt_asym : (a b : Text) → name_lt a b ≡ true → name_lt b a ≡ false
unfolding name_lt
name_lt_asym a b h = units_lt_asym (utf16 a) (utf16 b) h

no_true : false ≡ true → ⊥
no_true e = ground arith

-- Two names in order are two names.
name_lt-ne : (a b name : Text) → name_lt a b ≡ true → (text_eq a name && text_eq b name) ≡ false
name_lt-ne a b name h = elim (Bool-cases (text_eq a name && text_eq b name)) [
  | inl e ↦
      let (x, y) = both (text_eq a name) (text_eq b name) e in
      let same : a ≡ b = (text_eq_iff a name).0 x ∙ sym ((text_eq_iff b name).0 y) in
      let less : name_lt b b ≡ true = ap (λ c. name_lt c b) (sym same) ∙ h in
      absurd (no_true (sym (name_lt_irrefl b) ∙ less))
  | inr e ↦ e
]

-- No name is larger than the next.
abbrev pub IsSorted : Pairs → Type 0
IsSorted [] = Unit {0}
IsSorted (p ∷ []) = Unit {0}
IsSorted (p ∷ q ∷ list) = (name_lt q.0 p.0 ≡ false) × IsSorted (q ∷ list)

insert_later :
    (n v m w : Text) (list : Pairs)
    → name_lt m n ≡ true
    → insert_sorted (n, v) ((m, w) ∷ list) ≡ (m, w) ∷ insert_sorted (n, v) list
unfolding insert_sorted
insert_later n v m w list t = rw t refl

insert_here :
    (n v m w : Text) (list : Pairs)
    → name_lt m n ≡ false
    → insert_sorted (n, v) ((m, w) ∷ list) ≡ (n, v) ∷ (m, w) ∷ list
unfolding insert_sorted
insert_here n v m w list t = rw t refl

tail-IsSorted : (p : Text × Text) (list : Pairs) → IsSorted (p ∷ list) → IsSorted list
tail-IsSorted p [] h = tt
tail-IsSorted p (q ∷ list) (e, h) = h

-- What comes behind a smaller entry.
behind-IsSorted :
    (n v m w : Text) (list : Pairs)
    → name_lt m n ≡ true
    → IsSorted ((m, w) ∷ list)
    → IsSorted (insert_sorted (n, v) list)
    → IsSorted ((m, w) ∷ insert_sorted (n, v) list)
unfolding insert_sorted
behind-IsSorted n v m w [] t h k = (name_lt_asym m n t, tt)
behind-IsSorted n v m w ((k, x) ∷ list) t (e, h) g = elim (Bool-cases (name_lt k n)) [
  | inl u ↦
      subst (λ l. IsSorted ((m, w) ∷ l)) (sym (insert_later n v k x list u))
        (e, subst IsSorted (insert_later n v k x list u) g)
  | inr u ↦
      subst (λ l. IsSorted ((m, w) ∷ l)) (sym (insert_here n v k x list u))
        (name_lt_asym m n t, subst IsSorted (insert_here n v k x list u) g)
]

insert_sorted-IsSorted :
    (n v : Text) (list : Pairs) → IsSorted list → IsSorted (insert_sorted (n, v) list)
unfolding insert_sorted
insert_sorted-IsSorted n v [] h = tt
insert_sorted-IsSorted n v ((m, w) ∷ list) h = elim (Bool-cases (name_lt m n)) [
  | inl t ↦ rw (insert_later n v m w list t) (
      behind-IsSorted n v m w list t h
        (insert_sorted-IsSorted n v list (tail-IsSorted (m, w) list h)))
  | inr t ↦ rw (insert_here n v m w list t) (t, h)
]

values_swap :
    (a b : Bool) (v w : Text) (list : List Text)
    → (a && b) ≡ false
    → ◌≡◌ {A = List Text}
        (if a then v ∷ (if b then w ∷ list else list) else (if b then w ∷ list else list))
        (if b then w ∷ (if a then v ∷ list else list) else (if a then v ∷ list else list))
values_swap true true v w list h = ground arith
values_swap true false v w list h = refl
values_swap false b v w list h = refl

get_all-insert_sorted :
    (n v : Text) (list : Pairs) (name : Text)
    → get_all (insert_sorted (n, v) list) name ≡ get_all ((n, v) ∷ list) name
unfolding insert_sorted get_all
get_all-insert_sorted n v [] name = refl
get_all-insert_sorted n v ((m, w) ∷ list) name = elim (Bool-cases (name_lt m n)) [
  | inl t ↦
      rw (insert_later n v m w list t, get_all-insert_sorted n v list name)
        (values_swap (text_eq m name) (text_eq n name) w v (get_all list name)
          (name_lt-ne m n name t))
  | inr t ↦ rw (insert_here n v m w list t) refl
]

get_all-sort : (list : Pairs) (name : Text) → get_all (sort list) name ≡ get_all list name
unfolding sort get_all
get_all-sort [] name = refl
get_all-sort ((n, v) ∷ list) name =
    get_all-insert_sorted n v (sort list) name
    ∙ ap (λ l. if text_eq n name then v ∷ l else l) (get_all-sort list name)

sort-IsSorted : (list : Pairs) → IsSorted (sort list)
unfolding sort
sort-IsSorted [] = tt
sort-IsSorted ((n, v) ∷ list) = insert_sorted-IsSorted n v (sort list) (sort-IsSorted list)

-- `sort` orders the list by the names' UTF-16 code units, and keeps all values of each name, in the
-- order that they had.
pub sort_lem :
    (list : Pairs) (name : Text)
    → IsSorted (sort list) × (get_all (sort list) name ≡ get_all list name)
sort_lem list name = (sort-IsSorted list, get_all-sort list name)
