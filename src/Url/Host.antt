-- ===== src/Url/Host.antt =====
-- Hosts. IPv4 and IPv6 literals are read and written by the native module.
use qjs_lws.Base.{
  ℕ, ◌+◌, ◌-◌, ◌*◌, ◌/◌, ◌%◌, zero, suc, Bool, true, false, not, ◌&&◌, ◌||◌, Option, none, some,
  List, [], ◌∷◌, ◌++◌, Text, text_eq, leb, ◌==◌, bit_and, bit_or, length, get_or, take,
  if◌then◌else◌,
}
use qjs_lws.Text.{split}
use qjs_lws.Url.Native.{Native}
use qjs_lws.Url.Result.{UrlError, Result, ok, ◌>>=◌, or_raise}
use qjs_lws.Url.Percent.{
  in_set, is_hex_digit, hex_value, utf8_percent_encode, percent_decode_string, c0_extra,
}

-- A number, eight pieces, or a text.
pub data Host : Type 0 where
  ipv4 : ℕ → Host
  ipv6 : List ℕ → Host
  domain : Text → Host

unfoldable pub all_chars : (ℕ → Bool) → Text → Bool
all_chars p [] = true
all_chars p (c ∷ s) = p c && all_chars p s

abbrev pub is_digit : ℕ → Bool
is_digit c = leb b'0' c && leb c b'9'

abbrev pub is_octal : ℕ → Bool
is_octal c = leb b'0' c && leb c b'7'

-- `parseInt(s, radix)` on digits of the radix.
unfoldable pub digits_value : ℕ → ℕ → Text → ℕ
digits_value radix acc [] = acc
digits_value radix acc (c ∷ s) = digits_value radix (acc * radix + hex_value c) s

-- The digits behind the prefix: 0 where none are left, `none` for `NaN`.
unfoldable pub radix_number : (radix : ℕ) → (ℕ → Bool) → Text → Option ℕ
radix_number radix allowed [] = some 0
radix_number radix allowed (c ∷ s) =
    if all_chars allowed (c ∷ s) then some (digits_value radix 0 (c ∷ s)) else none

unfoldable pub parse_ipv4_number : Text → Option ℕ
parse_ipv4_number [] = none
parse_ipv4_number (c ∷ []) = radix_number 10 is_digit (c ∷ [])
parse_ipv4_number (c ∷ d ∷ s) =
    if c == b'0' && (d == b'x' || d == b'X')
    then radix_number 16 is_hex_digit s
    else if c == b'0'
    then radix_number 8 is_octal (d ∷ s)
    else radix_number 10 is_digit (c ∷ d ∷ s)

unfoldable pub ipv4_of : Option (List ℕ) → Option Host
ipv4_of none = none
ipv4_of (some b) =
    if length b == 4
    then some
        (ipv4 (((get_or b 0 0 * 256 + get_or b 1 0) * 256 + get_or b 2 0) * 256 + get_or b 3 0))
    else none

unfoldable pub parse_ipv4 : Native → Text → Result (Option Host)
parse_ipv4 native input = do
  addr ← or_raise UrlError.syntax_error (native.parse_address input)
  ok (ipv4_of addr)

-- The loop from the last byte to the first.
unfoldable pub address_bytes : ℕ → ℕ → List ℕ → List ℕ
address_bytes zero n bytes = bytes
address_bytes (suc rounds) n bytes = address_bytes rounds (n / 256) ((n % 256) ∷ bytes)

unfoldable pub serialize_ipv4 : Native → ℕ → Text
serialize_ipv4 native address = native.print_address (address_bytes 4 address [])

unfoldable pub pieces_from : ℕ → List ℕ → ℕ → List ℕ
pieces_from zero b i = []
pieces_from (suc rounds) b i =
    bit_or (get_or b i 0 * 256) (get_or b (i + 1) 0) ∷ pieces_from rounds b (i + 2)

unfoldable pub ipv6_of : Option (List ℕ) → Option Host
ipv6_of none = none
ipv6_of (some b) = if length b == 16 then some (ipv6 (pieces_from 8 b 0)) else none

unfoldable pub parse_ipv6 : Native → Text → Result (Option Host)
parse_ipv6 native input = do
  addr ← or_raise UrlError.syntax_error (native.parse_address input)
  ok (ipv6_of addr)

-- Eight pieces, of which a missing one counts as 0.
unfoldable pub piece_bytes : ℕ → List ℕ → ℕ → List ℕ
piece_bytes zero address i = []
piece_bytes (suc rounds) address i =
    (get_or address i 0 / 256 % 256)
    ∷ bit_and (get_or address i 0) 0xff
    ∷ piece_bytes rounds address (i + 1)

unfoldable pub serialize_ipv6 : Native → List ℕ → Text
serialize_ipv6 native address = native.print_address (piece_bytes 8 address 0)

abbrev pub forbidden_host : List ℕ
forbidden_host =
    0x00 ∷ 0x09 ∷ 0x0a ∷ 0x0d ∷ 0x20 ∷ 0x23 ∷ 0x2f ∷ 0x3a ∷ 0x3c ∷ 0x3e ∷ 0x3f ∷ 0x40 ∷ 0x5b ∷ 0x5c
    ∷ 0x5d ∷ 0x5e ∷ 0x7c ∷ []

abbrev pub forbidden_domain : List ℕ
forbidden_domain = forbidden_host ++ b'%' ∷ []

unfoldable pub contains_forbidden_host_code_point : Text → Bool
contains_forbidden_host_code_point [] = false
contains_forbidden_host_code_point (ch ∷ s) =
    in_set forbidden_host ch || contains_forbidden_host_code_point s

unfoldable pub parse_opaque_host : Native → Text → Option Host
parse_opaque_host native input =
    if contains_forbidden_host_code_point input
    then none
    else some (domain (utf8_percent_encode native input c0_extra))

-- The last part, not counting an empty one behind a final dot.
unfoldable pub last_part : List Text → Text
last_part [] = []
last_part (s ∷ []) = s
last_part (s ∷ [] ∷ []) = s
last_part (s ∷ t ∷ ss) = last_part (t ∷ ss)

unfoldable pub is_number : Option ℕ → Bool
is_number none = false
is_number (some n) = true

unfoldable pub ends_in_a_number : Text → Bool
ends_in_a_number input =
    let last = last_part (split b'.' input) in
    if not (text_eq last []) && all_chars is_digit last
    then true
    else is_number (parse_ipv4_number last)

unfoldable pub contains_forbidden_domain : Text → Bool
contains_forbidden_domain [] = false
contains_forbidden_domain (ch ∷ s) =
    (in_set forbidden_domain ch || leb ch 0x1f || ch == 0x7f) || contains_forbidden_domain s

unfoldable pub parse_domain : Native → Text → Result (Option Host)
parse_domain native ascii_domain =
    if contains_forbidden_domain ascii_domain
    then ok none
    else if ends_in_a_number ascii_domain
    then parse_ipv4 native ascii_domain
    else ok (some (domain ascii_domain))

-- `input[input.length - 1]`, and `input.slice(1, -1)` behind the first character.
unfoldable pub ends_with : ℕ → Text → Bool
ends_with c [] = false
ends_with c (d ∷ []) = d == c
ends_with c (d ∷ e ∷ s) = ends_with c (e ∷ s)

unfoldable pub decode_domain : Native → Text → Result (Option Host)
decode_domain native input = do
  decoded ← percent_decode_string native input
  parse_domain native (native.to_lower decoded)

unfoldable pub parse_host : Native → Text → Bool → Result (Option Host)
parse_host native [] is_special = if is_special then ok none else ok (parse_opaque_host native [])
parse_host native (c ∷ input) is_special =
    if c == b'['
    then (if ends_with b']' (c ∷ input)
        then parse_ipv6 native (take (length input - 1) input)
        else ok none)
    else if not is_special
    then ok (parse_opaque_host native (c ∷ input))
    else decode_domain native (c ∷ input)

unfoldable pub serialize_host : Native → Host → Text
serialize_host native (ipv4 address) = serialize_ipv4 native address
serialize_host native (ipv6 pieces) = b'[' ∷ (serialize_ipv6 native pieces ++ b']' ∷ [])
serialize_host native (domain text) = text
