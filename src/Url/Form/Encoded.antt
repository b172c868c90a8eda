-- ===== src/Url/Form/Encoded.antt =====
-- What the form encoding writes, and what decoding makes of it.
use qjs_lws.Base.{
  ℕ, ◌<◌, ◌≡◌, refl, sym, Bool, true, false, not, ◌&&◌, ◌||◌, List, [], ◌∷◌, ◌++◌, append_assoc,
  Text, ltb, ◌==◌, arith, Bool-cases, inl, inr, All,
}
use qjs_lws.Base.Bits.{agree_below}
use qjs_lws.Url.Native.{Native, IsScalar, Utf8}
use qjs_lws.Url.Percent.{
  percent_encode_byte, percent_encode_bytes, encode_char, utf8_percent_encode, percent_decode_bytes,
  is_c0_control_or_non_ascii, in_set, form_extra,
}
use qjs_lws.Url.Form.{space_to_plus}
use qjs_lws.Url.Form.Bytes.{
  both, not-false, holds_below, is_plain, decoded, decoded-kept, decoded-percent_encode_byte,
  percent_encode_byte-Plain,
}

abbrev pub Plain : Text → Type 0
Plain s = All (λ c. is_plain c ≡ true) s

Plain-append : (s t : Text) → Plain s → Plain t → Plain (s ++ t)
Plain-append [] t h k = k
Plain-append (c ∷ s) t (e, h) k = (e, Plain-append s t h k)

percent_encode_bytes-Plain : (bs : List ℕ) → All (λ b. b < 256) bs → Plain (percent_encode_bytes bs)
unfolding percent_encode_bytes
percent_encode_bytes-Plain [] h = tt
percent_encode_bytes-Plain (b ∷ bs) (less, h) =
    Plain-append (percent_encode_byte b) (percent_encode_bytes bs)
      (percent_encode_byte-Plain b less) (percent_encode_bytes-Plain bs h)

decoded-percent_encode_bytes :
    (bs : List ℕ) (t : Text)
    → All (λ b. b < 256) bs
    → decoded (percent_encode_bytes bs ++ t) ≡ bs ++ decoded t
unfolding percent_encode_bytes
decoded-percent_encode_bytes [] t h = refl
decoded-percent_encode_bytes (b ∷ bs) t (less, h) =
    rw
      (
        append_assoc (percent_encode_byte b) (percent_encode_bytes bs) t,
        decoded-percent_encode_byte b (percent_encode_bytes bs ++ t) less,
        decoded-percent_encode_bytes bs t h,
      )
      refl

-- The characters that are written as they are.
unfoldable is_kept : ℕ → Bool
is_kept c = ltb c 0x80 && not (is_c0_control_or_non_ascii c) && not (in_set form_extra c)

unfoldable kept_fine : ℕ → Bool
kept_fine c = not (is_kept c) || (is_plain c && (not (c == b'%') && not (c == b'+')))

ascii_kept_fine : (c : ℕ) → c < 128 → kept_fine c ≡ true
unfolding agree_below kept_fine is_kept is_plain in_set is_c0_control_or_non_ascii
ascii_kept_fine c less = holds_below kept_fine 128 c refl less

record Kept (c : ℕ) : Type 0 where
  ascii : c < 128
  plain : is_plain c ≡ true
  no_percent : (c == b'%') ≡ false
  no_plus : (c == b'+') ≡ false

or_of : (k x : Bool) → k ≡ true → (not k || x) ≡ true → x ≡ true
or_of true x h e = e
or_of false x h e = ground arith

kept_lem : (c : ℕ) → is_kept c ≡ true → Kept c
unfolding is_kept kept_fine
kept_lem c e =
    let less : c < 128 = ground arith in
    let (p, q) = both (is_plain c) (not (c == b'%') && not (c == b'+')) (
      or_of (is_kept c) (is_plain c && (not (c == b'%') && not (c == b'+'))) e
        (ascii_kept_fine c less)) in
    let (n, m) = not-false true (c == b'%') (c == b'+') q in
    record { ascii = less; plain = p; no_percent = n; no_plus = m }

module _ (native : Native) (utf8 : Utf8 native) where
  encode_char-Plain : (c : ℕ) → Plain (encode_char native form_extra c)
  unfolding encode_char is_kept
  encode_char-Plain c = elim (Bool-cases (is_kept c)) [
    | inl e ↦ rw e ((kept_lem c e).plain, tt)
    | inr e ↦
        rw e (percent_encode_bytes-Plain (native.encode (c ∷ [])) (utf8.encode-IsByte (c ∷ [])))
  ]

  decoded-encode_char :
      (c : ℕ) (t : Text)
      → decoded (encode_char native form_extra c ++ t) ≡ native.encode (c ∷ []) ++ decoded t
  unfolding encode_char is_kept
  decoded-encode_char c t = elim (Bool-cases (is_kept c)) [
    | inl e ↦
        let k = kept_lem c e in
        rw (e, utf8.encode-ascii (c ∷ []) (k.ascii, tt)) (decoded-kept c t k.no_percent k.no_plus)
    | inr e ↦
        rw e (decoded-percent_encode_bytes (native.encode (c ∷ [])) t (utf8.encode-IsByte (c ∷ [])))
  ]

  pub utf8_percent_encode-Plain : (s : Text) → Plain (utf8_percent_encode native s form_extra)
  unfolding utf8_percent_encode
  utf8_percent_encode-Plain [] = tt
  utf8_percent_encode-Plain (c ∷ s) =
      Plain-append (encode_char native form_extra c) (utf8_percent_encode native s form_extra)
        (encode_char-Plain c) (utf8_percent_encode-Plain s)

  pub decoded-utf8_percent_encode :
      (s : Text)
      → All IsScalar s
      → decoded (utf8_percent_encode native s form_extra) ≡ native.encode s
  unfolding utf8_percent_encode decoded percent_decode_bytes space_to_plus
  decoded-utf8_percent_encode [] h = sym (utf8.encode-ascii [] tt)
  decoded-utf8_percent_encode (c ∷ s) (k, h) =
      rw
        (
          decoded-encode_char c (utf8_percent_encode native s form_extra),
          decoded-utf8_percent_encode s h,
        )
        (sym (utf8.encode_each c s k h))

plus-Plain : is_plain b'+' ≡ true
unfolding is_plain
plus-Plain = refl

pub space_to_plus-Plain : (s : Text) → Plain s → Plain (space_to_plus s)
unfolding space_to_plus
space_to_plus-Plain [] h = h
space_to_plus-Plain (a ∷ []) h = h
space_to_plus-Plain (a ∷ b ∷ []) h = h
space_to_plus-Plain (a ∷ b ∷ c ∷ s) (pa, (pb, (pc, h))) =
    elim (Bool-cases (a == b'%' && b == b'2' && c == b'0')) [
      | inl e ↦ rw e (plus-Plain, space_to_plus-Plain s h)
      | inr e ↦ rw e (pa, space_to_plus-Plain (b ∷ c ∷ s) (pb, (pc, h)))
    ]
