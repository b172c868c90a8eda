-- ===== src/Dict.antt =====
-- A JavaScript `Map` or null-prototype object with string keys, in insertion order: setting a key
-- that is there keeps its place, a new key goes to the end.
pub mod Laws
use qjs_lws.Base.{
  ℕ, Bool, true, false, Option, none, some, List, [], ◌∷◌, Text, text_eq, if◌then◌else◌,
}

abbrev pub Dict {ℓ} : Type ℓ → Type ℓ
Dict V = List (Text × V)

module _ {ℓ} {V : Type ℓ} where
  unfoldable pub lookup : Text → Dict V → Option V
  lookup k [] = none
  lookup k ((j, v) ∷ m) = if text_eq j k then some v else lookup k m

  unfoldable pub insert : Text → V → Dict V → Dict V
  insert k v [] = (k, v) ∷ []
  insert k v ((j, w) ∷ m) = if text_eq j k then (j, v) ∷ m else (j, w) ∷ insert k v m

  unfoldable pub remove : Text → Dict V → Dict V
  remove k [] = []
  remove k ((j, w) ∷ m) = let rest = remove k m in if text_eq j k then rest else (j, w) ∷ rest

  unfoldable pub has : Text → Dict V → Bool
  has k [] = false
  has k ((j, w) ∷ m) = if text_eq j k then true else has k m

  -- Every value has the property, which may depend on its key.
  abbrev pub AllOf {κ} : (Text → V → Type κ) → Dict V → Type κ
  AllOf P [] = Unit {κ}
  AllOf P ((k, v) ∷ m) = P k v × AllOf P m
