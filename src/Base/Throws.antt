-- ===== src/Base/Throws.antt =====
-- The outcome of code that may throw.

use mathlib.Core.Path.{◌≡◌, refl}

-- `thrown` carries the kind of error; `stuck` is no outcome of the code: a model ran out of fuel.
pub data Outcome {ℓ κ} (E : Type κ) (A : Type ℓ) : Type (ℓ ⊔ κ) where
  returned : A → Outcome E A
  thrown : E → Outcome E A
  stuck : Outcome E A

infixl 5 ◌>>=◌ ◌>>◌
abbrev pub ◌>>=◌ {ℓ κ μ} :
    {E : Type μ} {A : Type ℓ} {B : Type κ} → Outcome E A → (A → Outcome E B) → Outcome E B
returned a >>= f = f a
thrown e >>= f = thrown e
stuck >>= f = stuck

abbrev pub ◌>>◌ {κ μ} : {E : Type μ} {B : Type κ} → Outcome E (Unit {0}) → Outcome E B → Outcome E B
m >> k = m >>= λ _. k

module _ {ℓ κ} {E : Type κ} {A : Type ℓ} where
  pub returned_inj : {a b : A} → ◌≡◌ {A = Outcome E A} (returned a) (returned b) → a ≡ b
  returned_inj e = cc

-- Inversion of a successful bind.
pub >>=-eq-returned {ℓ κ μ} :
    {E : Type μ} {A : Type ℓ} {B : Type κ} (m : Outcome E A) (f : A → Outcome E B) {b : B}
    → (m >>= f) ≡ returned b
    → (a : A) × (m ≡ returned a) × (f a ≡ returned b)
>>=-eq-returned (returned a) f h = (a, refl, h)
>>=-eq-returned (thrown e) f h = cc
>>=-eq-returned stuck f h = cc

-- A call whose result is only passed on fails as the call does.
module _ {ℓ κ μ} {E : Type μ} {A : Type ℓ} {B : Type κ} where
  pub map-eq-thrown :
      (m : Outcome E A) (f : A → B) {e : E}
      → ◌≡◌ {A = Outcome E B} (m >>= λ a. returned (f a)) (thrown e)
      → m ≡ thrown e
  map-eq-thrown (returned a) f h = cc
  map-eq-thrown (thrown e) f h = cc
  map-eq-thrown stuck f h = cc

  pub map-eq-stuck :
      (m : Outcome E A) (f : A → B)
      → ◌≡◌ {A = Outcome E B} (m >>= λ a. returned (f a)) stuck
      → m ≡ stuck
  map-eq-stuck (returned a) f h = cc
  map-eq-stuck (thrown e) f h = cc
  map-eq-stuck stuck f h = refl
