-- ===== src/Tests/Utf8.antt =====
-- UTF-8, as a native module for the runs of url.js.
use qjs_lws.Base.{
  ℕ, Option, some, text_eq, text_eq_refl, take, ◌+◌, ◌-◌, ◌*◌, ◌/◌, ◌%◌, ◌≤◌, ◌<◌, ◌≡◌, refl, ap,
  ◌∙◌, true, ◌&&◌, ◌||◌, none, List, [], ◌∷◌, ◌++◌, append-nil, map, Text, All, ltb, arith,
  Bool-cases, inl, inr, if◌then◌else◌,
}
use qjs_lws.Text.{lower}
use qjs_lws.Url.Native.{Native, IsScalar, Utf8}

unfoldable pub encode_one : ℕ → List ℕ
encode_one c =
    if ltb c 0x80
    then c ∷ []
    else if ltb c 0x800
    then (0xc0 + c / 64) ∷ (0x80 + c % 64) ∷ []
    else if ltb c 0x10000
    then (0xe0 + c / 4096) ∷ (0x80 + c / 64 % 64) ∷ (0x80 + c % 64) ∷ []
    else (0xf0 + c / 262144 % 8)
      ∷ (0x80 + c / 4096 % 64)
      ∷ (0x80 + c / 64 % 64)
      ∷ (0x80 + c % 64)
      ∷ []

unfoldable pub encode : Text → List ℕ
encode [] = []
encode (c ∷ s) = encode_one c ++ encode s

-- Anything but a scalar value is the replacement character.
unfoldable pub scalar_or : ℕ → ℕ
scalar_or c = if ltb c 0xd800 || (ltb 0xdfff c && ltb c 0x110000) then c else 0xfffd

unfoldable pub decode_lossy : List ℕ → Text
decode_lossy [] = []
decode_lossy (a ∷ []) = scalar_or a ∷ []
decode_lossy (a ∷ b ∷ []) =
    let one = scalar_or a ∷ decode_lossy (b ∷ []) in
    if ltb a 0x80 then one else scalar_or ((a - 0xc0) * 64 + (b - 0x80)) ∷ []
decode_lossy (a ∷ b ∷ c ∷ []) =
    let one = scalar_or a ∷ decode_lossy (b ∷ c ∷ []) in
    let two = scalar_or ((a - 0xc0) * 64 + (b - 0x80)) ∷ decode_lossy (c ∷ []) in
    if ltb a 0x80
    then one
    else if ltb a 0xe0
    then two
    else scalar_or ((a - 0xe0) * 4096 + (b - 0x80) * 64 + (c - 0x80)) ∷ []
decode_lossy (a ∷ b ∷ c ∷ d ∷ s) =
    let one = scalar_or a ∷ decode_lossy (b ∷ c ∷ d ∷ s) in
    let two = scalar_or ((a - 0xc0) * 64 + (b - 0x80)) ∷ decode_lossy (c ∷ d ∷ s) in
    let three =
      scalar_or ((a - 0xe0) * 4096 + (b - 0x80) * 64 + (c - 0x80)) ∷ decode_lossy (d ∷ s) in
    let four =
      scalar_or ((a - 0xf0) * 262144 + (b - 0x80) * 4096 + (c - 0x80) * 64 + (d - 0x80))
      ∷ decode_lossy s in
    if ltb a 0x80 then one else if ltb a 0xe0 then two else if ltb a 0xf0 then three else four

scalar_or_same : (c : ℕ) → IsScalar c → scalar_or c ≡ c
unfolding scalar_or
scalar_or_same c h = ground arith

decode_one : (a : ℕ) (s : List ℕ) → a < 0x80 → decode_lossy (a ∷ s) ≡ scalar_or a ∷ decode_lossy s
unfolding decode_lossy
decode_one a [] h = refl
decode_one a (b ∷ []) h = ground arith
decode_one a (b ∷ c ∷ []) h = ground arith
decode_one a (b ∷ c ∷ d ∷ s) h = ground arith

decode_two :
    (a b : ℕ) (s : List ℕ)
    → 0x80 ≤ a
    → a < 0xe0
    → decode_lossy (a ∷ b ∷ s) ≡ scalar_or ((a - 0xc0) * 64 + (b - 0x80)) ∷ decode_lossy s
unfolding decode_lossy
decode_two a b [] h k = ground arith
decode_two a b (c ∷ []) h k = ground arith
decode_two a b (c ∷ d ∷ s) h k = ground arith

decode_three :
    (a b c : ℕ) (s : List ℕ)
    → 0xe0 ≤ a
    → a < 0xf0
    → decode_lossy (a ∷ b ∷ c ∷ s)
      ≡ scalar_or ((a - 0xe0) * 4096 + (b - 0x80) * 64 + (c - 0x80)) ∷ decode_lossy s
unfolding decode_lossy
decode_three a b c [] h k = ground arith
decode_three a b c (d ∷ s) h k = ground arith

decode_four :
    (a b c d : ℕ) (s : List ℕ)
    → 0xf0 ≤ a
    → decode_lossy (a ∷ b ∷ c ∷ d ∷ s)
      ≡ scalar_or ((a - 0xf0) * 262144 + (b - 0x80) * 4096 + (c - 0x80) * 64 + (d - 0x80))
        ∷ decode_lossy s
unfolding decode_lossy
decode_four a b c d s h = ground arith

decode-encode_two :
    (c : ℕ) (s : List ℕ)
    → IsScalar c
    → 0x80 ≤ c
    → c < 0x800
    → decode_lossy ((0xc0 + c / 64) ∷ (0x80 + c % 64) ∷ s) ≡ c ∷ decode_lossy s
decode-encode_two c s h lo hi =
    let whole : (0xc0 + c / 64 - 0xc0) * 64 + (0x80 + c % 64 - 0x80) ≡ c = omega arith in
    decode_two (0xc0 + c / 64) (0x80 + c % 64) s (omega arith) (omega arith)
    ∙ ap (λ x. x ∷ decode_lossy s) (ap scalar_or whole ∙ scalar_or_same c h)

decode-encode_three :
    (c : ℕ) (s : List ℕ)
    → IsScalar c
    → 0x800 ≤ c
    → c < 0x10000
    → decode_lossy ((0xe0 + c / 4096) ∷ (0x80 + c / 64 % 64) ∷ (0x80 + c % 64) ∷ s)
      ≡ c ∷ decode_lossy s
decode-encode_three c s h lo hi =
    let whole : (0xe0 + c / 4096 - 0xe0) * 4096
          + (0x80 + c / 64 % 64 - 0x80) * 64
          + (0x80 + c % 64 - 0x80)
        ≡ c =
      omega arith in
    decode_three (0xe0 + c / 4096) (0x80 + c / 64 % 64) (0x80 + c % 64) s (omega arith)
      (omega arith)
    ∙ ap (λ x. x ∷ decode_lossy s) (ap scalar_or whole ∙ scalar_or_same c h)

decode-encode_four :
    (c : ℕ) (s : List ℕ)
    → IsScalar c
    → 0x10000 ≤ c
    → decode_lossy (
        (0xf0 + c / 262144 % 8)
        ∷ (0x80 + c / 4096 % 64)
        ∷ (0x80 + c / 64 % 64)
        ∷ (0x80 + c % 64)
        ∷ s)
      ≡ c ∷ decode_lossy s
decode-encode_four c s h lo =
    let below : c < 0x110000 = ground (arith, h) in
    let whole : (0xf0 + c / 262144 % 8 - 0xf0) * 262144
          + (0x80 + c / 4096 % 64 - 0x80) * 4096
          + (0x80 + c / 64 % 64 - 0x80) * 64
          + (0x80 + c % 64 - 0x80)
        ≡ c =
      omega arith in
    decode_four (0xf0 + c / 262144 % 8) (0x80 + c / 4096 % 64) (0x80 + c / 64 % 64) (0x80 + c % 64)
      s (omega arith)
    ∙ ap (λ x. x ∷ decode_lossy s) (ap scalar_or whole ∙ scalar_or_same c h)

decode-encode_one :
    (c : ℕ) (s : List ℕ) → IsScalar c → decode_lossy (encode_one c ++ s) ≡ c ∷ decode_lossy s
unfolding encode_one
decode-encode_one c s h = elim (Bool-cases (ltb c 0x80)) [
  | inl a ↦ rw a (decode_one c s (ground arith) ∙ ap (λ x. x ∷ decode_lossy s) (scalar_or_same c h))
  | inr a ↦ elim (Bool-cases (ltb c 0x800)) [
    | inl b ↦ rw (a, b) (decode-encode_two c s h (ground arith) (ground arith))
    | inr b ↦ elim (Bool-cases (ltb c 0x10000)) [
      | inl d ↦ rw (a, b, d) (decode-encode_three c s h (ground arith) (ground arith))
      | inr d ↦ rw (a, b, d) (decode-encode_four c s h (ground arith))
    ]
  ]
]

decode_encode : (s : Text) → All IsScalar s → decode_lossy (encode s) ≡ s
unfolding encode decode_lossy
decode_encode [] h = refl
decode_encode (c ∷ s) (k, h) =
    decode-encode_one c (encode s) k ∙ ap (λ t. c ∷ t) (decode_encode s h)

All-append :
    (s t : List ℕ) → All (λ b. b < 256) s → All (λ b. b < 256) t → All (λ b. b < 256) (s ++ t)
All-append [] t h k = k
All-append (b ∷ s) t (e, h) k = (e, All-append s t h k)

encode_one-IsByte : (c : ℕ) → All (λ b. b < 256) (encode_one c)
unfolding encode_one
encode_one-IsByte c = elim (Bool-cases (ltb c 0x80)) [
  | inl a ↦ rw a (ground arith, tt)
  | inr a ↦ elim (Bool-cases (ltb c 0x800)) [
    | inl b ↦ rw (a, b) (ground arith, (ground arith, tt))
    | inr b ↦ elim (Bool-cases (ltb c 0x10000)) [
      | inl d ↦ rw (a, b, d) (ground arith, (ground arith, (ground arith, tt)))
      | inr d ↦ rw (a, b, d) (ground arith, (ground arith, (ground arith, (ground arith, tt))))
    ]
  ]
]

encode_bytes : (s : Text) → All (λ b. b < 256) (encode s)
unfolding encode
encode_bytes [] = tt
encode_bytes (c ∷ s) = All-append (encode_one c) (encode s) (encode_one-IsByte c) (encode_bytes s)

encode_ascii : (s : Text) → All (λ c. c < 128) s → encode s ≡ s
unfolding encode encode_one
encode_ascii [] h = refl
encode_ascii (c ∷ s) (less, h) =
    let small : ltb c 0x80 ≡ true = ground arith in rw (small, encode_ascii s h) refl

encode_split : (c : ℕ) (s : Text) → encode (c ∷ s) ≡ encode (c ∷ []) ++ encode s
unfolding encode
encode_split c s = rw (append-nil (encode_one c)) refl

-- Bytes that are not what their text is encoded to are malformed.
unfoldable pub checked : List ℕ → Text → Option Text
checked bytes s = if text_eq (encode s) bytes then some s else none

unfoldable pub decode : List ℕ → Option Text
decode bytes = checked bytes (decode_lossy bytes)

decode_checked : (s : Text) → All IsScalar s → decode (encode s) ≡ some s
unfolding decode checked
decode_checked s h = rw (decode_encode s h, text_eq_refl (encode s)) refl

-- No numeric address is known to it, and its letters are ASCII. A bracket is an error.
abbrev pub utf8_native : Native
utf8_native = record {
  encode = encode;
  decode = decode;
  parse_address = λ s. if text_eq (take 1 s) (b'[' ∷ []) then none else some none;
  print_address = λ bytes. [];
  to_lower = map lower;
}

pub utf8_native-Utf8 : Utf8 utf8_native
utf8_native-Utf8 = record {
  decode-encode = decode_checked;
  encode-IsByte = encode_bytes;
  encode-ascii = encode_ascii;
  encode_each = λ c s h k. encode_split c s;
}
