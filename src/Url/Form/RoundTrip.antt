-- ===== src/Url/Form/RoundTrip.antt =====
-- Reading back what was serialized.
use qjs_lws.Base.{
  ℕ, suc, ◌+◌, ◌<◌, ◌≡◌, refl, ap, ◌∙◌, false, List, [], ◌∷◌, ◌++◌, map, Text, ◌==◌, arith, All,
  drop, length, take-length, drop_behind, some,
}
use qjs_lws.Text.{split, join, index_of, contains}
use qjs_lws.Text.Split.{Free, split-join}
use qjs_lws.Url.Result.{ok, ◌>>=◌, or_raise, UrlError}
use qjs_lws.Url.Native.{Native, IsScalar, Utf8}
use qjs_lws.Url.Percent.{
  utf8_percent_encode, percent_decode_bytes, percent_decode_string, form_extra,
}
use qjs_lws.Url.Form.{
  Pairs, plus_to_space, form_encode, decode_part, cut_pair, decode_pair, encode_pair,
  parse_sequences, parse_form_urlencoded, serialize_form_urlencoded,
}
use qjs_lws.Url.Form.Bytes.{is_plain, decoded}
use qjs_lws.Url.Form.Encoded.{
  Plain, utf8_percent_encode-Plain, decoded-utf8_percent_encode, space_to_plus-Plain,
}

abbrev pub ScalarPair : Text × Text → Type 0
ScalarPair p = All IsScalar p.0 × All IsScalar p.1

plus_to_space-ascii : (s : Text) → Plain s → All (λ c. c < 128) (map plus_to_space s)
unfolding is_plain
plus_to_space-ascii [] h = tt
plus_to_space-ascii (c ∷ s) (p, h) = (ground arith, plus_to_space-ascii s h)

Plain-Free : (s : Text) → Plain s → Free b'=' s × Free b'&' s
unfolding contains is_plain
Plain-Free [] h = (refl, refl)
Plain-Free (c ∷ s) (p, h) = let (e, a) = Plain-Free s h in (ground arith, ground arith)

index_of-Free : (s t : Text) → Free b'=' s → index_of b'=' (s ++ b'=' ∷ t) ≡ some (length s)
unfolding index_of contains
index_of-Free [] t h = refl
index_of-Free (c ∷ s) t h =
    let first : (c == b'=') ≡ false = ground arith in
    let later : Free b'=' s = ground arith in rw (first, index_of-Free s t later) refl

cut_pair-append : (s t : Text) → cut_pair (s ++ b'=' ∷ t) (some (length s)) ≡ (s, t)
unfolding cut_pair
cut_pair-append s t =
    let shift : suc (length s) ≡ length s + 1 = omega arith in
    let cut : drop (suc (length s)) (s ++ b'=' ∷ t) ≡ t =
      ap (λ n. drop n (s ++ b'=' ∷ t)) shift ∙ drop_behind s t b'=' in
    rw (take-length s (b'=' ∷ t), cut) refl

contains-append : (c : ℕ) (s t : Text) → Free c s → Free c t → Free c (s ++ t)
unfolding contains
contains-append c [] t h k = k
contains-append c (x ∷ s) t h k = ground (arith, contains-append c s t)

parse_sequences_nonempty :
    (native : Native) (c : ℕ) (s t : Text) (seqs : List Text)
    → parse_sequences native ((s ++ c ∷ t) ∷ seqs) ≡ (
        decode_pair native (cut_pair (s ++ c ∷ t) (index_of b'=' (s ++ c ∷ t))) >>= λ pair.
        parse_sequences native seqs >>= λ output. ok (pair ∷ output))
unfolding parse_sequences
parse_sequences_nonempty native c [] t seqs = refl
parse_sequences_nonempty native c (x ∷ s) t seqs = refl

-- The test for the empty text changes nothing.
parse_form_urlencoded-split :
    (native : Native) (input : Text)
    → parse_form_urlencoded native input ≡ parse_sequences native (split b'&' input)
unfolding parse_form_urlencoded parse_sequences split
parse_form_urlencoded-split native [] = refl
parse_form_urlencoded-split native (c ∷ input) = refl

module _ (native : Native) (utf8 : Utf8 native) where
  form_encode-Plain : (s : Text) → Plain (form_encode native s)
  unfolding form_encode
  form_encode-Plain s =
      space_to_plus-Plain (utf8_percent_encode native s form_extra)
        (utf8_percent_encode-Plain native utf8 s)

  decoded-form_encode :
      (s : Text)
      → All IsScalar s
      → percent_decode_bytes (map plus_to_space (form_encode native s)) ≡ native.encode s
  unfolding form_encode decoded
  decoded-form_encode s h = decoded-utf8_percent_encode native utf8 s h

  decode_part-form_encode :
      (s : Text) → All IsScalar s → decode_part native (form_encode native s) ≡ ok s
  unfolding decode_part percent_decode_string
  decode_part-form_encode s h =
      let text = form_encode native s in
      let bytes =
        utf8.encode-ascii (map plus_to_space text)
          (plus_to_space-ascii text (form_encode-Plain s)) in
      ap (or_raise UrlError.type_error) (
        ap native.decode (ap percent_decode_bytes bytes ∙ decoded-form_encode s h)
        ∙ utf8.decode-encode s h)

  encode_pair-Free : (p : Text × Text) → Free b'&' (encode_pair native p)
  unfolding encode_pair contains
  encode_pair-Free (name, value) =
      contains-append b'&' (form_encode native name) (b'=' ∷ form_encode native value)
        (Plain-Free (form_encode native name) (form_encode-Plain name)).1
        (Plain-Free (form_encode native value) (form_encode-Plain value)).1

  encode_pairs-Free : (list : Pairs) → All (Free b'&') (map (encode_pair native) list)
  encode_pairs-Free [] = tt
  encode_pairs-Free (p ∷ list) = (encode_pair-Free p, encode_pairs-Free list)

  parse_one :
      (name value : Text) (seqs : List Text)
      → All IsScalar name
      → All IsScalar value
      → parse_sequences native (encode_pair native (name, value) ∷ seqs)
        ≡ (parse_sequences native seqs >>= λ output. ok ((name, value) ∷ output))
  unfolding encode_pair decode_pair
  parse_one name value seqs h k =
      let n = form_encode native name in
      let v = form_encode native value in
      let free = (Plain-Free n (form_encode-Plain name)).0 in
      parse_sequences_nonempty native b'=' n v seqs
      ∙ rw
          (
            index_of-Free n v free,
            cut_pair-append n v,
            decode_part-form_encode name h,
            decode_part-form_encode value k,
          )
          refl

  parse_every :
      (list : Pairs)
      → All ScalarPair list
      → parse_sequences native (map (encode_pair native) list) ≡ ok list
  unfolding parse_sequences
  parse_every [] h = refl
  parse_every ((name, value) ∷ list) ((h, k), rest) =
      parse_one name value (map (encode_pair native) list) h k
      ∙ ap (λ r. r >>= λ output. ok ((name, value) ∷ output)) (parse_every list rest)

  -- Under the laws of UTF-8, a list of names and values without surrogates is serialized to a text that
  -- is parsed back to the list, whatever separators, plus or percent signs the names and values hold.
  pub parse_form_urlencoded-serialize :
      (list : Pairs)
      → All ScalarPair list
      → parse_form_urlencoded native (serialize_form_urlencoded native list) ≡ ok list
  unfolding serialize_form_urlencoded parse_sequences split join
  parse_form_urlencoded-serialize [] h = parse_form_urlencoded-split native []
  parse_form_urlencoded-serialize (p ∷ list) h =
      let parts =
        split-join b'&' (encode_pair native p) (map (encode_pair native) list)
          (encode_pairs-Free (p ∷ list)) in
      parse_form_urlencoded-split native (join b'&' (map (encode_pair native) (p ∷ list)))
      ∙ rw parts (parse_every (p ∷ list) h)
