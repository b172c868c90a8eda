-- ===== src/Base/Lists.antt =====
-- Lists measured and indexed by native numbers, under the library's names.
use Prim.Native.Nat.{ℕ, zero, suc, ◌+◌, ◌-◌, ◌≤◌, ◌<◌}
use mathlib.Core.Path.{◌≡◌, refl, ap}
use mathlib.Core.List.{List, [], ◌∷◌, ◌++◌, map}
use mathlib.Core.Option.{Option, none, some}
use native.Mathlib.Omega.{arith}

module _ {ℓ} {A : Type ℓ} where
  abbrev pub length : List A → ℕ
  length [] = 0
  length (x ∷ xs) = suc (length xs)

  abbrev pub get_elem? : List A → ℕ → Option A
  get_elem? [] i = none
  get_elem? (x ∷ xs) zero = some x
  get_elem? (x ∷ xs) (suc i) = get_elem? xs i

  abbrev pub get_or : List A → ℕ → A → A
  get_or [] i d = d
  get_or (x ∷ xs) zero d = x
  get_or (x ∷ xs) (suc i) d = get_or xs i d

  abbrev pub take : ℕ → List A → List A
  take zero xs = []
  take (suc n) [] = []
  take (suc n) (x ∷ xs) = x ∷ take n xs

  abbrev pub drop : ℕ → List A → List A
  drop zero xs = xs
  drop (suc n) [] = []
  drop (suc n) (x ∷ xs) = drop n xs

  -- `buf.subarray(start, end)` and `slice(start, end)` for `start ≤ end`.
  abbrev pub slice : List A → ℕ → ℕ → List A
  slice xs start end = take (end - start) (drop start xs)

  pub length-append : (xs ys : List A) → length (xs ++ ys) ≡ length xs + length ys
  length-append [] ys = omega arith
  length-append (x ∷ xs) ys = omega (arith, length-append xs ys)

  pub drop-length : (xs ys : List A) → drop (length xs) (xs ++ ys) ≡ ys
  drop-length [] ys = refl
  drop-length (x ∷ xs) ys = drop-length xs ys

  pub take-length : (xs ys : List A) → take (length xs) (xs ++ ys) ≡ xs
  take-length [] ys = refl
  take-length (x ∷ xs) ys = ap (λ t. x ∷ t) (take-length xs ys)

  pub take-append-drop : (n : ℕ) (xs : List A) → take n xs ++ drop n xs ≡ xs
  take-append-drop zero xs = refl
  take-append-drop (suc n) [] = refl
  take-append-drop (suc n) (x ∷ xs) = ap (λ t. x ∷ t) (take-append-drop n xs)

  pub get_or-length : (xs ys : List A) (y d : A) → get_or (xs ++ y ∷ ys) (length xs) d ≡ y
  get_or-length [] ys y d = refl
  get_or-length (x ∷ xs) ys y d = get_or-length xs ys y d

  pub get_elem?-length : (xs ys : List A) (y : A) → get_elem? (xs ++ y ∷ ys) (length xs) ≡ some y
  get_elem?-length [] ys y = refl
  get_elem?-length (x ∷ xs) ys y = get_elem?-length xs ys y

  pub get_or-append :
      (xs ys : List A) (i : ℕ) (d : A) → get_or (xs ++ ys) (length xs + i) d ≡ get_or ys i d
  get_or-append [] ys i d = ap (λ n. get_or ys n d) (omega arith)
  get_or-append (x ∷ xs) ys i d =
      let shift : length (x ∷ xs) + i ≡ suc (length xs + i) = omega arith in
      rw shift (get_or-append xs ys i d)

  pub get_or_behind : (xs ys : List A) (y z d : A) → get_or (xs ++ y ∷ z ∷ ys) (length xs + 1) d ≡ z
  get_or_behind [] ys y z d = refl
  get_or_behind (x ∷ xs) ys y z d =
      let shift : length (x ∷ xs) + 1 ≡ suc (length xs + 1) = omega arith in
      rw shift (get_or_behind xs ys y z d)

  pub drop_behind : (xs ys : List A) (y : A) → drop (length xs + 1) (xs ++ y ∷ ys) ≡ ys
  drop_behind [] ys y = refl
  drop_behind (x ∷ xs) ys y =
      let shift : length (x ∷ xs) + 1 ≡ suc (length xs + 1) = omega arith in
      rw shift (drop_behind xs ys y)

module _ {ℓ} {A : Type ℓ} where
  -- What lies inside the front part does not depend on what follows.
  pub get_or-append_left :
      (xs ys : List A) (i : ℕ) (d : A) → i < length xs → get_or (xs ++ ys) i d ≡ get_or xs i d
  get_or-append_left [] ys i d h = absurd (omega arith)
  get_or-append_left (x ∷ xs) ys zero d h = refl
  get_or-append_left (x ∷ xs) ys (suc i) d h = get_or-append_left xs ys i d (omega arith)

  pub drop-append : (n : ℕ) (xs ys : List A) → n ≤ length xs → drop n (xs ++ ys) ≡ drop n xs ++ ys
  drop-append zero xs ys h = refl
  drop-append (suc n) [] ys h = absurd (omega arith)
  drop-append (suc n) (x ∷ xs) ys h = drop-append n xs ys (omega arith)

  pub take-append : (n : ℕ) (xs ys : List A) → n ≤ length xs → take n (xs ++ ys) ≡ take n xs
  take-append zero xs ys h = refl
  take-append (suc n) [] ys h = absurd (omega arith)
  take-append (suc n) (x ∷ xs) ys h = ap (λ t. x ∷ t) (take-append n xs ys (omega arith))

  pub length-drop : (n : ℕ) (xs : List A) → length (drop n xs) ≡ length xs - n
  length-drop zero xs = omega arith
  length-drop (suc n) [] = omega arith
  length-drop (suc n) (x ∷ xs) = omega (arith, length-drop n xs)

  pub slice-append :
      (xs ys : List A) (start end : ℕ)
      → start ≤ length xs
      → end ≤ length xs
      → slice (xs ++ ys) start end ≡ slice xs start end
  slice-append xs ys start end hs he =
      rw (drop-append start xs ys hs)
        (take-append (end - start) (drop start xs) ys (omega (arith, length-drop start xs)))

module _ {ℓ} {A : Type ℓ} where
  -- The part `ys` of an array, by its two positions.
  pub slice_middle :
      (xs ys zs : List A) → slice (xs ++ (ys ++ zs)) (length xs) (length xs + length ys) ≡ ys
  slice_middle xs ys zs =
      let size : length xs + length ys - length xs ≡ length ys = omega arith in
      rw (size, drop-length xs (ys ++ zs)) (take-length ys zs)

  pub slice_behind :
      (xs ys zs : List A) (y : A)
      → slice (xs ++ y ∷ (ys ++ zs)) (length xs + 1) (length xs + 1 + length ys) ≡ ys
  slice_behind xs ys zs y =
      let size : length xs + 1 + length ys - (length xs + 1) ≡ length ys = omega arith in
      rw (size, drop_behind xs (ys ++ zs) y) (take-length ys zs)

module _ {ℓ} {A : Type ℓ} where
  pub length-map {κ} : {B : Type κ} (xs : List A) (f : A → B) → length (map f xs) ≡ length xs
  length-map [] f = refl
  length-map (x ∷ xs) f = ap suc (length-map xs f)

  abbrev pub All {κ} : (A → Type κ) → List A → Type κ
  All P [] = Unit {κ}
  All P (x ∷ xs) = P x × All P xs
