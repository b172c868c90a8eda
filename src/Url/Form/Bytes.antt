-- ===== src/Url/Form/Bytes.antt =====
-- A percent-encoded byte, and what decoding makes of it.
use qjs_lws.Base.{
  ℕ, ◌+◌, ◌*◌, ◌/◌, ◌%◌, ◌<◌, ◌≡◌, refl, ap, ◌∙◌, Bool, true, false, not, ◌&&◌, List, [], ◌∷◌, ◌++◌,
  map, Text, text_eq, text_eq_iff, ltb, ◌==◌, ==_iff, arith, Bool-cases, inl, inr, All,
  if◌then◌else◌,
}
use qjs_lws.Base.Bits.{agree_below, agree_below→eq}
use qjs_lws.Text.{digit, number_text, radix_loop}
use qjs_lws.Url.Percent.{
  upper, pad_two, percent_encode_byte, is_hex_digit, hex_value, percent_decode_bytes,
}
use qjs_lws.Url.Form.{plus_to_space, space_to_plus}

-- A test that holds of all numbers below a bound, by evaluation at each.
abbrev pub holds : (ℕ → Bool) → ℕ → ℕ
holds t b = if t b then 1 else 0

pub holds_below :
    (t : ℕ → Bool) (n b : ℕ) → agree_below (holds t) (λ b. 1) n ≡ true → b < n → t b ≡ true
holds_below t n b e less = ground (arith, agree_below→eq (holds t) (λ b. 1) n b e less)

abbrev pub hex_char : ℕ → ℕ
hex_char d = upper (digit d)

-- A character that the form encoding writes, and that separates neither names nor pairs.
unfoldable pub is_plain : ℕ → Bool
is_plain c = ltb c 0x80 && not (c == b'&') && not (c == b'=')

-- What is written for a byte: two digits, which read back as it, and are `20` for a space alone.
unfoldable reads_back : ℕ → Bool
reads_back b =
    let h = hex_char (b / 16) in
    let l = hex_char (b % 16) in
    text_eq (percent_encode_byte b) (b'%' ∷ h ∷ l ∷ [])
    && (is_hex_digit h && (is_hex_digit l && hex_value h * 16 + hex_value l == b))

unfoldable is_digit_char : ℕ → Bool
is_digit_char h = is_plain h && (not (h == b'%') && not (h == b'+'))

unfoldable digits_fine : ℕ → Bool
digits_fine b = is_digit_char (hex_char (b / 16)) && is_digit_char (hex_char (b % 16))

pub both : (a b : Bool) → (a && b) ≡ true → (a ≡ true) × (b ≡ true)
both true b e = (refl, e)
both false b e = ground arith

bytes_read_back : (b : ℕ) → b < 256 → reads_back b ≡ true
unfolding agree_below reads_back percent_encode_byte number_text radix_loop pad_two is_hex_digit
    hex_value text_eq
bytes_read_back b less = holds_below reads_back 256 b refl less

bytes_digits : (b : ℕ) → b < 256 → digits_fine b ≡ true
unfolding agree_below digits_fine is_digit_char is_plain
bytes_digits b less = holds_below digits_fine 256 b refl less

pub space_to_plus_kept :
    (c : ℕ) (s : Text) → (c == b'%') ≡ false → space_to_plus (c ∷ s) ≡ c ∷ space_to_plus s
unfolding space_to_plus
space_to_plus_kept c [] e = refl
space_to_plus_kept c (d ∷ []) e = refl
space_to_plus_kept c (d ∷ g ∷ s) e = ground arith

pub percent_decode_bytes_kept :
    (c : ℕ) (s : Text)
    → (c == b'%') ≡ false
    → percent_decode_bytes (c ∷ s) ≡ c ∷ percent_decode_bytes s
unfolding percent_decode_bytes
percent_decode_bytes_kept c [] e = refl
percent_decode_bytes_kept c (d ∷ []) e = refl
percent_decode_bytes_kept c (d ∷ g ∷ s) e = ground arith

unplus_kept :
    (c : ℕ) (s : Text) → (c == b'+') ≡ false → map plus_to_space (c ∷ s) ≡ c ∷ map plus_to_space s
unplus_kept c s e = ground arith

-- What the decoder makes of a text that the encoder wrote, byte by byte.
unfoldable pub decoded : Text → List ℕ
decoded s = percent_decode_bytes (map plus_to_space (space_to_plus s))

pub decoded-kept :
    (c : ℕ) (s : Text) → (c == b'%') ≡ false → (c == b'+') ≡ false → decoded (c ∷ s) ≡ c ∷ decoded s
unfolding decoded
decoded-kept c s e f =
    rw
      (
        space_to_plus_kept c s e,
        unplus_kept c (space_to_plus s) f,
        percent_decode_bytes_kept c (map plus_to_space (space_to_plus s)) e,
      )
      refl

pub not-false : (a b c : Bool) → (a && (not b && not c)) ≡ true → (b ≡ false) × (c ≡ false)
not-false true false false e = (refl, refl)
not-false true true c e = ground arith
not-false true false true e = ground arith
not-false false b c e = ground arith

space_to_plus_digits :
    (h l : ℕ) (s : Text)
    → (h == b'2' && l == b'0') ≡ false
    → (h == b'%') ≡ false
    → (l == b'%') ≡ false
    → space_to_plus (b'%' ∷ h ∷ l ∷ s) ≡ b'%' ∷ h ∷ l ∷ space_to_plus s
unfolding space_to_plus
space_to_plus_digits h l s e p q =
    rw (e, space_to_plus_kept h (l ∷ s) p, space_to_plus_kept l s q) refl

unplus_digits :
    (h l : ℕ) (s : Text)
    → (h == b'+') ≡ false
    → (l == b'+') ≡ false
    → map plus_to_space (b'%' ∷ h ∷ l ∷ s) ≡ b'%' ∷ h ∷ l ∷ map plus_to_space s
unplus_digits h l s p q = rw (p, q) refl

percent_decode_digits :
    (h l : ℕ) (s : List ℕ)
    → is_hex_digit h ≡ true
    → is_hex_digit l ≡ true
    → percent_decode_bytes (b'%' ∷ h ∷ l ∷ s)
      ≡ (hex_value h * 16 + hex_value l) ∷ percent_decode_bytes s
unfolding percent_decode_bytes
percent_decode_digits h l s i j = rw (i, j) refl

-- A plus sign is a space again.
decoded_space :
    (h l : ℕ) (s : Text)
    → (h == b'2' && l == b'0') ≡ true
    → decoded (b'%' ∷ h ∷ l ∷ s) ≡ (hex_value h * 16 + hex_value l) ∷ decoded s
unfolding decoded space_to_plus hex_value
decoded_space h l s e =
    let h2 : h ≡ 50 = ground (arith, both (h == 50) (l == 48) e) in
    let l0 : l ≡ 48 = ground (arith, both (h == 50) (l == 48) e) in
    rw (h2, l0) (percent_decode_bytes_kept 32 (map plus_to_space (space_to_plus s)) refl)

-- Two digits that are not those of a space.
decoded_digits :
    (h l : ℕ) (s : Text)
    → (h == b'2' && l == b'0') ≡ false
    → is_digit_char h ≡ true
    → is_digit_char l ≡ true
    → is_hex_digit h ≡ true
    → is_hex_digit l ≡ true
    → decoded (b'%' ∷ h ∷ l ∷ s) ≡ (hex_value h * 16 + hex_value l) ∷ decoded s
unfolding decoded is_digit_char
decoded_digits h l s e p q i j =
    let (hp, hs) = not-false (is_plain h) (h == b'%') (h == b'+') p in
    let (lp, ls) = not-false (is_plain l) (l == b'%') (l == b'+') q in
    rw (space_to_plus_digits h l s e hp lp, unplus_digits h l (space_to_plus s) hs ls)
      (percent_decode_digits h l (map plus_to_space (space_to_plus s)) i j)

decoded_pair :
    (h l : ℕ) (s : Text)
    → is_digit_char h ≡ true
    → is_digit_char l ≡ true
    → is_hex_digit h ≡ true
    → is_hex_digit l ≡ true
    → decoded (b'%' ∷ h ∷ l ∷ s) ≡ (hex_value h * 16 + hex_value l) ∷ decoded s
decoded_pair h l s p q i j = elim (Bool-cases (h == b'2' && l == b'0')) [
  | inl e ↦ decoded_space h l s e
  | inr e ↦ decoded_digits h l s e p q i j
]

-- The two digits of a byte, with all that is known of them.
record Digits (b : ℕ) : Type 0 where
  high : ℕ
  low : ℕ
  written : percent_encode_byte b ≡ b'%' ∷ high ∷ low ∷ []
  high_digit : is_hex_digit high ≡ true
  low_digit : is_hex_digit low ≡ true
  value : hex_value high * 16 + hex_value low ≡ b
  high_char : is_digit_char high ≡ true
  low_char : is_digit_char low ≡ true

two_chars : (b : ℕ) → b < 256 → Digits b
unfolding reads_back digits_fine
two_chars b less =
    let h = hex_char (b / 16) in
    let l = hex_char (b % 16) in
    let (w, r) =
      both (text_eq (percent_encode_byte b) (b'%' ∷ h ∷ l ∷ []))
        (is_hex_digit h && (is_hex_digit l && hex_value h * 16 + hex_value l == b))
        (bytes_read_back b less) in
    let (i, r') = both (is_hex_digit h) (is_hex_digit l && hex_value h * 16 + hex_value l == b) r in
    let (j, v) = both (is_hex_digit l) (hex_value h * 16 + hex_value l == b) r' in
    let (p, q) = both (is_digit_char h) (is_digit_char l) (bytes_digits b less) in
    record {
      high = h;
      low = l;
      written = (text_eq_iff (percent_encode_byte b) (b'%' ∷ h ∷ l ∷ [])).0 w;
      high_digit = i;
      low_digit = j;
      value = (==_iff (hex_value h * 16 + hex_value l) b).0 v;
      high_char = p;
      low_char = q;
    }

pub decoded-percent_encode_byte :
    (b : ℕ) (s : Text) → b < 256 → decoded (percent_encode_byte b ++ s) ≡ b ∷ decoded s
decoded-percent_encode_byte b s less =
    let d = two_chars b less in
    rw d.written (
      decoded_pair d.high d.low s d.high_char d.low_char d.high_digit d.low_digit
      ∙ ap (λ x. x ∷ decoded s) d.value)

-- All that is written for a byte is plain.
pub percent_encode_byte-Plain :
    (b : ℕ) → b < 256 → All (λ c. is_plain c ≡ true) (percent_encode_byte b)
unfolding is_plain is_digit_char
percent_encode_byte-Plain b less =
    let d = two_chars b less in rw d.written (refl, (ground arith, (ground arith, tt)))
