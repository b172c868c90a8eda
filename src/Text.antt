-- ===== src/Text.antt =====
-- The methods of JavaScript strings and numbers that the sources call, on UTF-16 code units.
pub mod Split
pub mod Radix
pub mod Numbers
use qjs_lws.Base.{
  ℕ, zero, suc, ◌+◌, ◌-◌, ◌/◌, ◌%◌, Bool, true, false, ◌&&◌, ◌||◌, Option, none, some, List, [],
  ◌∷◌, ◌++◌, Text, ltb, leb, ◌==◌, if◌then◌else◌,
}
use mathlib.Core.Option
use Prim.Native.Char.{code}
use Prim.Native.String.{String}

-- A literal of the source.
abbrev pub text : String → Text
text String.[] = []
text (String.◌∷◌ c s) = code c ∷ text s

abbrev pub add_to_first : ℕ → List Text → List Text
add_to_first c [] = (c ∷ []) ∷ []
add_to_first c (s ∷ ss) = (c ∷ s) ∷ ss

-- `s.split(c)` for a separator of one character.
unfoldable pub split : ℕ → Text → List Text
split c [] = [] ∷ []
split c (x ∷ s) = let rest = split c s in if x == c then [] ∷ rest else add_to_first x rest

-- `ss.join(c)`.
unfoldable pub join : ℕ → List Text → Text
join c [] = []
join c (s ∷ []) = s
join c (s ∷ t ∷ ss) = s ++ c ∷ join c (t ∷ ss)

-- `s.indexOf(c)`; `none` is -1.
unfoldable pub index_of : ℕ → Text → Option ℕ
index_of c [] = none
index_of c (x ∷ s) = let rest = index_of c s in if x == c then some 0 else Option.map suc rest

unfoldable pub contains : ℕ → Text → Bool
contains c [] = false
contains c (x ∷ s) = x == c || contains c s

-- The digit that `toString(radix)` writes: 0-9, then a-z.
abbrev pub digit : ℕ → ℕ
digit d = if ltb d 10 then b'0' + d else b'a' + (d - 10)

unfoldable pub radix_loop : ℕ → ℕ → ℕ → Text → Text
radix_loop zero radix n rest = rest
radix_loop (suc fuel) radix n rest =
    let more = radix_loop fuel radix (n / radix) (digit (n % radix) ∷ rest) in
    if n / radix == 0 then digit (n % radix) ∷ rest else more

-- `n.toString(radix)`; a number has at most as many digits as its value plus one.
unfoldable pub number_text : ℕ → ℕ → Text
unfolding radix_loop
number_text radix n = radix_loop (suc n) radix n []

-- `toLowerCase()` on one ASCII character.
abbrev pub lower : ℕ → ℕ
lower c = if leb b'A' c && leb c b'Z' then c + 32 else c
