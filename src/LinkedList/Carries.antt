-- ===== src/LinkedList/Carries.antt =====
-- Nodes that carry the values of a list.
use qjs_lws.Base.{
  ℕ, ◌<◌, ◌≡◌, refl, ap, false, Option, none, some, List, [], ◌∷◌, ◌++◌, map, All, arith, ◌==◌,
  if◌then◌else◌,
}
use qjs_lws.LinkedList.Reverse.{reverse_onto}
use qjs_lws.LinkedList.Spec.{final, before_final}

-- What no values are, at the level of their type.
abbrev pub Never {ℓ} : Type ℓ → Type ℓ
Never A = ◌≡◌ {A = Option (Option A)} none (some none)

pub never {ℓ} : (A : Type ℓ) → Never A → ⊥
never A e = cc

module _ {ℓ} {A : Type ℓ} where
  abbrev pub Carries : (ℕ → Option A) → List ℕ → List A → Type ℓ
  Carries d [] [] = Unit {ℓ}
  Carries d (x ∷ xs) (v ∷ vs) = (d x ≡ some v) × Carries d xs vs
  Carries d [] (v ∷ vs) = Never A
  Carries d (x ∷ xs) [] = Never A

  pub Carries-append :
      (d : ℕ → Option A) (xs ys : List ℕ) (vs ws : List A)
      → Carries d xs vs
      → Carries d ys ws
      → Carries d (xs ++ ys) (vs ++ ws)
  Carries-append d [] ys [] ws h k = k
  Carries-append d [] ys (v ∷ vs) ws h k = absurd (never A h)
  Carries-append d (x ∷ xs) ys [] ws h k = absurd (never A h)
  Carries-append d (x ∷ xs) ys (v ∷ vs) ws (e, h) k = (e, Carries-append d xs ys vs ws h k)

  -- New data of a node that is not among them.
  pub Carries-fresh :
      (d : ℕ → Option A) (n : ℕ) (a : A) (xs : List ℕ) (vs : List A)
      → All (λ x. x < n) xs
      → Carries d xs vs
      → Carries (λ x. if x == n then some a else d x) xs vs
  Carries-fresh d n a [] [] u h = tt
  Carries-fresh d n a [] (v ∷ vs) u h = absurd (never A h)
  Carries-fresh d n a (x ∷ xs) [] u h = absurd (never A h)
  Carries-fresh d n a (x ∷ xs) (v ∷ vs) (less, u) (e, h) =
      let other : (x == n) ≡ false = ground arith in (rw other e, Carries-fresh d n a xs vs u h)

  pub Carries-reverse :
      (d : ℕ → Option A) (xs ys : List ℕ) (vs ws : List A)
      → Carries d xs vs
      → Carries d ys ws
      → Carries d (reverse_onto xs ys) (reverse_onto vs ws)
  Carries-reverse d [] ys [] ws h k = k
  Carries-reverse d [] ys (v ∷ vs) ws h k = absurd (never A h)
  Carries-reverse d (x ∷ xs) ys [] ws h k = absurd (never A h)
  Carries-reverse d (x ∷ xs) ys (v ∷ vs) ws (e, h) k =
      Carries-reverse d xs (x ∷ ys) vs (v ∷ ws) h (e, k)

  pub Carries-map :
      (d : ℕ → Option A) (xs : List ℕ) (vs : List A)
      → Carries d xs vs
      → ◌≡◌ {A = List (Option A)} (map d xs) (map some vs)
  Carries-map d [] [] h = refl
  Carries-map d [] (v ∷ vs) h = absurd (never A h)
  Carries-map d (x ∷ xs) [] h = absurd (never A h)
  Carries-map d (x ∷ xs) (v ∷ vs) (e, h) = rw (e, Carries-map d xs vs h) refl

  pub Carries-final :
      (d : ℕ → Option A) (x : ℕ) (xs : List ℕ) (v : A) (vs : List A)
      → Carries d (x ∷ xs) (v ∷ vs)
      → (d (final x xs) ≡ some (final v vs)) × Carries d (before_final x xs) (before_final v vs)
  Carries-final d x [] v [] (e, h) = (e, tt)
  Carries-final d x [] v (w ∷ vs) (e, h) = absurd (never A h)
  Carries-final d x (y ∷ xs) v [] (e, h) = absurd (never A h)
  Carries-final d x (y ∷ xs) v (w ∷ vs) (e, h) =
      let (f, k) = Carries-final d y xs w vs h in (f, (e, k))

  pub final-append : (a : A) (list : List A) → before_final a list ++ final a list ∷ [] ≡ a ∷ list
  final-append a [] = refl
  final-append a (b ∷ list) = ap (λ l. a ∷ l) (final-append b list)
