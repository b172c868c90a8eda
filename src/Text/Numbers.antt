-- ===== src/Text/Numbers.antt =====
-- `Number` and `parseInt`. They read more than what is printed (blanks, signs, exponents), so they are
-- an interface: what they return as it is used, and that they read back printed numbers.
use qjs_lws.Base.{ℕ, ◌<◌, ◌≡◌, refl, Option, none, some, List, [], ◌∷◌, map, Text, All, arith}
use qjs_lws.Text.{number_text}
use qjs_lws.Text.Split.{Free}
use qjs_lws.Text.Radix.{number_text-Free, dot-NoDigit}

pub record JsNumbers : Type 0 where
  -- `Number(s)` as the byte that a `Uint8Array` stores, if it lies between 0 and 255.
  pub number_byte : Text → Option ℕ
  -- `parseInt(s, 16)` modulo 2^32, with 0 for `NaN`, as the shifts read it.
  pub parse_hex : Text → ℕ
  pub number_byte-decimal : (n : ℕ) → n < 256 → number_byte (number_text 10 n) ≡ some n
  pub parse_hex-number : (n : ℕ) → n < 65536 → parse_hex (number_text 16 n) ≡ n

-- All parts as bytes, or `none` if `parts.some(n => !(n >= 0 && n <= 255))`.
unfoldable pub bytes_of : (Text → Option ℕ) → List Text → Option (List ℕ)
bytes_of read [] = some []
bytes_of read (part ∷ parts) = elim (read part) [
  | none ↦ none
  | some n ↦ elim (bytes_of read parts) [ none ↦ none | some ns ↦ some (n ∷ ns) ]
]

pub bytes_of-decimal :
    (js : JsNumbers) (buf : List ℕ)
    → All (λ b. b < 256) buf
    → bytes_of js.number_byte (map (number_text 10) buf) ≡ some buf
unfolding bytes_of
bytes_of-decimal js [] h = refl
bytes_of-decimal js (b ∷ buf) (hb, hbuf) =
    rw (js.number_byte-decimal b hb, bytes_of-decimal js buf hbuf)

pub All-decimal-Free :
    (buf : List ℕ) → All (λ b. b < 256) buf → All (Free b'.') (map (number_text 10) buf)
All-decimal-Free [] h = tt
All-decimal-Free (b ∷ buf) (hb, h) =
    (number_text-Free b'.' 10 b (omega arith) (omega arith) dot-NoDigit, All-decimal-Free buf h)
