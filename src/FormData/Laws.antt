-- ===== src/FormData/Laws.antt =====
-- What `getAll`, `get` and `has` answer after each change.
use qjs_lws.Base.{
  ◌≡◌, refl, ap, ◌∙◌, Bool, true, false, Option, none, some, List, [], ◌∷◌, ◌++◌, append-nil, Text,
  text_eq, text_eq_iff, arith, if◌then◌else◌,
}
use qjs_lws.FormData.{FieldValue, Entries, named_value, append, delete, get, get_all, has, set}

get_all-tail :
    (entries more : Entries) (asked : Text)
    → get_all (entries ++ more) asked ≡ get_all entries asked ++ get_all more asked
unfolding get_all
get_all-tail [] more asked = refl
get_all-tail ((key, value) ∷ entries) more asked = ground (arith, get_all-tail entries more asked)

get_all-one :
    (name asked : Text) (value : FieldValue)
    → get_all ((name, value) ∷ []) asked ≡ (if text_eq name asked then value ∷ [] else [])
unfolding get_all
get_all-one name asked value = refl

get_all-remove :
    (entries : Entries) (name asked : Text)
    → get_all (delete entries name) asked
      ≡ (if text_eq name asked then [] else get_all entries asked)
unfolding delete get_all
get_all-remove [] name asked = ground arith
get_all-remove ((key, value) ∷ entries) name asked = ground (
  arith,
  get_all-remove entries name asked,
  text_eq_iff key name,
  text_eq_iff name asked,
  text_eq_iff key asked,
)

-- `append` adds its value behind those of the same name, and touches no other name.
get_all-append :
    (entries : Entries) (name asked : Text) (value : FieldValue) (filename : Option Text)
    → get_all (append entries name value filename) asked
      ≡ get_all entries asked
        ++ (if text_eq name asked then named_value value filename ∷ [] else [])
unfolding append
get_all-append entries name asked value filename =
    get_all-tail entries ((name, named_value value filename) ∷ []) asked
    ∙ ap (λ t. get_all entries asked ++ t) (get_all-one name asked (named_value value filename))

-- After `set` its value is the only one of its name; after `delete` there is none; the values of all
-- other names stay, in order.
pub get_all-set-delete :
    (entries : Entries) (name asked : Text) (value : FieldValue) (filename : Option Text)
    → (get_all (set entries name value filename) asked
        ≡ (if text_eq name asked then named_value value filename ∷ [] else get_all entries asked))
      × (get_all (delete entries name) asked
          ≡ (if text_eq name asked then [] else get_all entries asked))
unfolding set
get_all-set-delete entries name asked value filename =
    let new = named_value value filename in
    (
      get_all-tail (delete entries name) ((name, new) ∷ []) asked
          ∙ ground (
            arith,
            get_all-one name asked new,
            get_all-remove entries name asked,
            append-nil (get_all entries asked),
          ),
      get_all-remove entries name asked,
    )

-- The first of the values, if there is one.
abbrev pub first : List FieldValue → Option FieldValue
first [] = none
first (v ∷ vs) = some v

abbrev pub nonempty : List FieldValue → Bool
nonempty [] = false
nonempty (v ∷ vs) = true

-- `get` returns the first value that `getAll` returns, or null, and `has` tells whether there is one.
get-get_all :
    (entries : Entries) (name : Text)
    → (get entries name ≡ first (get_all entries name))
      × (has entries name ≡ nonempty (get_all entries name))
unfolding get get_all has
get-get_all [] name = (refl, refl)
get-get_all ((key, value) ∷ entries) name = ground (arith, get-get_all entries name)
