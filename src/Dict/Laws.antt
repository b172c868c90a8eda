-- ===== src/Dict/Laws.antt =====
-- The laws of a dictionary.
use qjs_lws.Base.{
  ◌≡◌, refl, true, false, none, some, [], ◌∷◌, Text, text_eq, text_eq_iff, if◌then◌else◌, arith,
  Bool-cases, inl, inr,
}
use mathlib.Core.Path.{subst₂}
use qjs_lws.Dict.{Dict, lookup, insert, remove, has, AllOf}

module _ {ℓ} {V : Type ℓ} where
  pub lookup-insert :
      (k j : Text) (v : V) (m : Dict V)
      → lookup j (insert k v m) ≡ (if text_eq k j then some v else lookup j m)
  unfolding lookup insert
  lookup-insert k j v [] = refl
  lookup-insert k j v ((i, w) ∷ m) =
      ground (arith, text_eq_iff k j, text_eq_iff i k, text_eq_iff i j, lookup-insert k j v m)

  pub lookup-remove :
      (k j : Text) (m : Dict V) → lookup j (remove k m) ≡ (if text_eq k j then none else lookup j m)
  unfolding lookup remove
  lookup-remove k j [] = ground arith
  lookup-remove k j ((i, w) ∷ m) =
      ground (arith, text_eq_iff k j, text_eq_iff i k, text_eq_iff i j, lookup-remove k j m)

  pub has-lookup :
      (k : Text) (m : Dict V) → has k m ≡ elim (lookup k m) [ none ↦ false | some _ ↦ true ]
  unfolding has lookup
  has-lookup k [] = refl
  has-lookup k ((j, v) ∷ m) = elim (Bool-cases (text_eq j k)) [
    | inl e ↦ rw e
    | inr e ↦ rw e (has-lookup k m)
  ]

module _ {ℓ κ} {V : Type ℓ} (P : Text → V → Type κ) where
  -- The key of the entry that is replaced is the key that is set.
  pub insert-AllOf : (k : Text) (v : V) (m : Dict V) → P k v → AllOf P m → AllOf P (insert k v m)
  unfolding insert
  insert-AllOf k v [] p h = (p, tt)
  insert-AllOf k v ((j, w) ∷ m) p (q, h) = elim (Bool-cases (text_eq j k)) [
    | inl e ↦ rw e (rw ((text_eq_iff j k).0 e) p, h)
    | inr e ↦ rw e (q, insert-AllOf k v m p h)
  ]

  pub remove-AllOf : (k : Text) (m : Dict V) → AllOf P m → AllOf P (remove k m)
  unfolding remove
  remove-AllOf k [] h = tt
  remove-AllOf k ((j, w) ∷ m) (q, h) = elim (Bool-cases (text_eq j k)) [
    | inl e ↦ rw e (remove-AllOf k m h)
    | inr e ↦ rw e (q, remove-AllOf k m h)
  ]

  pub lookup-AllOf : (k : Text) (m : Dict V) {v : V} → AllOf P m → lookup k m ≡ some v → P k v
  unfolding lookup
  lookup-AllOf k [] h e = cc
  lookup-AllOf k ((j, w) ∷ m) {v} (q, h) e = elim (Bool-cases (text_eq j k)) [
    | inl same ↦ let value : w ≡ v = ground arith in subst₂ P ((text_eq_iff j k).0 same) value q
    | inr other ↦ lookup-AllOf k m h (rw other at e)
  ]
