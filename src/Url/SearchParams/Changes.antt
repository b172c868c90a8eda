-- ===== src/Url/SearchParams/Changes.antt =====
-- What the list answers after a change.
use qjs_lws.Base.{
  ◌≡◌, refl, ap, Bool, true, false, Option, List, [], ◌∷◌, ◌++◌, Text, text_eq, text_eq_iff, arith,
  Bool-cases, inl, inr, if◌then◌else◌,
}
use qjs_lws.Url.Form.{Pairs}
use qjs_lws.Url.SearchParams.{append, same_value, delete, get_all, set_loop, set}

-- The values that `delete` leaves of a name's.
unfoldable pub other_values : Option Text → List Text → List Text
other_values value [] = []
other_values value (v ∷ vs) =
    let rest = other_values value vs in if same_value v value then rest else v ∷ rest

text_eq_swap : (a b c : Text) → text_eq a b ≡ true → text_eq a c ≡ text_eq b c
text_eq_swap a b c h = ap (λ x. text_eq x c) ((text_eq_iff a b).0 h)

get_all-append :
    (list : Pairs) (name value other : Text)
    → get_all (append list name value) other
      ≡ get_all list other ++ (if text_eq name other then value ∷ [] else [])
unfolding append get_all
get_all-append [] name value other = refl
get_all-append ((n, v) ∷ list) name value other = elim (Bool-cases (text_eq n other)) [
  | inl t ↦ rw (t, get_all-append list name value other) refl
  | inr t ↦ rw (t, get_all-append list name value other) refl
]

-- Behind the place of the new value all others of the name are dropped.
get_all-set_loop :
    (list : Pairs) (found : Bool) (name value other : Text)
    → get_all (set_loop list found name value) other
      ≡ (if text_eq name other then (if found then [] else value ∷ []) else get_all list other)
unfolding set_loop get_all
get_all-set_loop [] true name value other = ground arith
get_all-set_loop [] false name value other = refl
get_all-set_loop ((n, v) ∷ list) true name value other = ground (
  arith,
  get_all-set_loop list true name value other,
  text_eq_iff n name,
  text_eq_iff name other,
  text_eq_iff n other,
)
get_all-set_loop ((n, v) ∷ list) false name value other = ground (
  arith,
  get_all-set_loop list true name value other,
  get_all-set_loop list false name value other,
  text_eq_iff n name,
  text_eq_iff name other,
  text_eq_iff n other,
)

get_all-set :
    (list : Pairs) (name value other : Text)
    → get_all (set list name value) other
      ≡ (if text_eq name other then value ∷ [] else get_all list other)
unfolding set
get_all-set list name value other = get_all-set_loop list false name value other

get_all-delete :
    (list : Pairs) (name : Text) (value : Option Text) (other : Text)
    → get_all (delete list name value) other
      ≡ (if text_eq name other then other_values value (get_all list other) else get_all list other)
unfolding delete get_all other_values
get_all-delete [] name value other = ground arith
get_all-delete ((n, v) ∷ list) name value other = ground (
  arith,
  get_all-delete list name value other,
  text_eq_iff n name,
  text_eq_iff name other,
  text_eq_iff n other,
)

-- After `set` its value is the only one of its name; after `delete` no value of the name is left, or,
-- where it names a value, none but the others; after `append` the value stands behind those of its
-- name. The values of all other names stay, in their order.
pub get_all_after :
    (list : Pairs) (name value other : Text) (chosen : Option Text)
    → (get_all (set list name value) other
        ≡ (if text_eq name other then value ∷ [] else get_all list other))
      × (get_all (delete list name chosen) other ≡ (
          if text_eq name other
          then other_values chosen (get_all list other)
          else get_all list other))
      × (get_all (append list name value) other
          ≡ get_all list other ++ (if text_eq name other then value ∷ [] else []))
get_all_after list name value other chosen = (
  get_all-set list name value other,
  get_all-delete list name chosen other,
  get_all-append list name value other,
)
