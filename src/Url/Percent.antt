-- ===== src/Url/Percent.antt =====
-- Percent-encoding.
use qjs_lws.Base.{
  ℕ, ◌+◌, ◌-◌, ◌*◌, Bool, false, not, ◌&&◌, ◌||◌, List, [], ◌∷◌, ◌++◌, map, Text, leb, ltb, ◌==◌,
  if◌then◌else◌,
}
use qjs_lws.Text.{number_text}
use qjs_lws.Url.Native.{Native}
use qjs_lws.Url.Result.{UrlError, Result, or_raise}

unfoldable pub is_c0_control_or_non_ascii : ℕ → Bool
is_c0_control_or_non_ascii cp = leb cp 0x1f || ltb 0x7e cp

-- The sets of characters, as tests.
unfoldable pub in_set : List ℕ → ℕ → Bool
in_set [] cp = false
in_set (c ∷ set) cp = cp == c || in_set set cp

abbrev pub fragment_extra : List ℕ
fragment_extra = 0x20 ∷ 0x22 ∷ 0x3c ∷ 0x3e ∷ 0x60 ∷ []

abbrev pub query_extra : List ℕ
query_extra = 0x20 ∷ 0x22 ∷ 0x23 ∷ 0x3c ∷ 0x3e ∷ []

abbrev pub special_query_extra : List ℕ
special_query_extra = query_extra ++ 0x27 ∷ []

abbrev pub path_extra : List ℕ
path_extra = query_extra ++ 0x3f ∷ 0x5e ∷ 0x60 ∷ 0x7b ∷ 0x7d ∷ []

abbrev pub userinfo_extra : List ℕ
userinfo_extra =
    path_extra ++ 0x2f ∷ 0x3a ∷ 0x3b ∷ 0x3d ∷ 0x40 ∷ 0x5b ∷ 0x5c ∷ 0x5d ∷ 0x5e ∷ 0x7c ∷ []

abbrev pub component_extra : List ℕ
component_extra = userinfo_extra ++ 0x24 ∷ 0x25 ∷ 0x26 ∷ 0x2b ∷ 0x2c ∷ []

abbrev pub form_extra : List ℕ
form_extra = component_extra ++ 0x21 ∷ 0x27 ∷ 0x28 ∷ 0x29 ∷ 0x7e ∷ []

abbrev pub c0_extra : List ℕ
c0_extra = []

-- `toUpperCase()` on one ASCII character.
abbrev pub upper : ℕ → ℕ
upper c = if leb b'a' c && leb c b'z' then c - 32 else c

-- `padStart(2, '0')`.
unfoldable pub pad_two : Text → Text
pad_two [] = b'0' ∷ b'0' ∷ []
pad_two (c ∷ []) = b'0' ∷ c ∷ []
pad_two (c ∷ d ∷ s) = c ∷ d ∷ s

unfoldable pub percent_encode_byte : ℕ → Text
percent_encode_byte byte = b'%' ∷ pad_two (map upper (number_text 16 byte))

unfoldable pub percent_encode_bytes : List ℕ → Text
percent_encode_bytes [] = []
percent_encode_bytes (b ∷ bs) = percent_encode_byte b ++ percent_encode_bytes bs

-- One round of the loop: the character as it is, or its bytes.
unfoldable pub encode_char : Native → List ℕ → ℕ → Text
encode_char native extra cp =
    if ltb cp 0x80 && not (is_c0_control_or_non_ascii cp) && not (in_set extra cp)
    then cp ∷ []
    else percent_encode_bytes (native.encode (cp ∷ []))

unfoldable pub utf8_percent_encode : Native → Text → List ℕ → Text
utf8_percent_encode native [] extra = []
utf8_percent_encode native (cp ∷ input) extra =
    encode_char native extra cp ++ utf8_percent_encode native input extra

unfoldable pub is_hex_digit : ℕ → Bool
is_hex_digit byte =
    (leb 0x30 byte && leb byte 0x39)
    || (leb 0x41 byte && leb byte 0x46)
    || (leb 0x61 byte && leb byte 0x66)

-- The value of a hexadecimal digit, as `parseInt` reads it.
unfoldable pub hex_value : ℕ → ℕ
hex_value c = if leb c 0x39 then c - 0x30 else if leb c 0x46 then c - 0x37 else c - 0x57

-- Fewer than two bytes behind a `%` are kept with it.
unfoldable pub percent_decode_bytes : List ℕ → List ℕ
percent_decode_bytes [] = []
percent_decode_bytes (byte ∷ []) = byte ∷ []
percent_decode_bytes (byte ∷ h1 ∷ []) = byte ∷ h1 ∷ []
percent_decode_bytes (byte ∷ h1 ∷ h2 ∷ bytes) =
    let taken = (hex_value h1 * 16 + hex_value h2) ∷ percent_decode_bytes bytes in
    let kept = byte ∷ percent_decode_bytes (h1 ∷ h2 ∷ bytes) in
    if byte == 0x25 && is_hex_digit h1 && is_hex_digit h2 then taken else kept

unfoldable pub percent_decode_string : Native → Text → Result Text
percent_decode_string native input =
    or_raise UrlError.type_error (native.decode (percent_decode_bytes (native.encode input)))
