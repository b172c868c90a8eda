-- ===== src/Text/Radix.antt =====
-- The characters of a printed number.
use qjs_lws.Base.{
  ℕ, zero, suc, ◌/◌, ◌%◌, ◌<◌, ◌≡◌, refl, false, [], ◌∷◌, Text, ◌==◌, arith, length, ◌≤◌,
}
use qjs_lws.Text.{contains, digit, radix_loop, number_text}
use qjs_lws.Text.Split.{Free}

-- No digit is written as this character.
abbrev pub NoDigit : ℕ → Type 0
NoDigit c = (d : ℕ) → d < 16 → (digit d == c) ≡ false

pub dot-NoDigit : NoDigit b'.'
dot-NoDigit d h = ground arith

pub colon-NoDigit : NoDigit b':'
colon-NoDigit d h = ground arith

radix_loop-Free :
    (fuel c radix n : ℕ) (rest : Text)
    → 0 < radix
    → radix < 17
    → NoDigit c
    → Free c rest
    → Free c (radix_loop fuel radix n rest)
unfolding radix_loop contains
radix_loop-Free zero c radix n rest p h low free = free
radix_loop-Free (suc fuel) c radix n rest p h low free =
    ground
      (arith, low (n % radix), radix_loop-Free fuel c radix (n / radix) (digit (n % radix) ∷ rest))

pub number_text-Free :
    (c radix n : ℕ) → 0 < radix → radix < 17 → NoDigit c → Free c (number_text radix n)
unfolding number_text contains
number_text-Free c radix n p h low = radix_loop-Free (suc n) c radix n [] p h low refl

radix_loop_grows :
    (fuel radix n : ℕ) (rest : Text) → length rest ≤ length (radix_loop fuel radix n rest)
unfolding radix_loop
radix_loop_grows zero radix n rest = omega arith
radix_loop_grows (suc fuel) radix n rest =
    ground (arith, radix_loop_grows fuel radix (n / radix) (digit (n % radix) ∷ rest))

pub number_text_nonempty : (radix n : ℕ) → 0 < length (number_text radix n)
unfolding number_text radix_loop
number_text_nonempty radix n =
    ground (arith, radix_loop_grows n radix (n / radix) (digit (n % radix) ∷ []))
