-- ===== src/Dns/Address.antt =====
-- The address functions of examples/dns-server/dns-message.js.
pub mod RoundTrip
use qjs_lws.Base.{
  ℕ, zero, suc, ◌+◌, ◌-◌, ◌*◌, ◌/◌, ◌%◌, ◌<◌, ◌≡◌, Bool, true, false, ◌&&◌, not, Option, none, some,
  List, [], ◌∷◌, ◌++◌, map, Text, bit_and, bit_or, ◌==◌, length, get_or, Outcome, returned, thrown,
  if◌then◌else◌,
}
use qjs_lws.Text.Numbers.{JsNumbers, bytes_of}
use qjs_lws.Text.{split, join, add_to_first, number_text}
use qjs_lws.Dns.Bytes.{DnsError, bad_ipv4, bad_ipv6}

pub ipv4_check : Bool → Option (List ℕ) → Outcome DnsError (List ℕ)
ipv4_check false bytes = thrown bad_ipv4
ipv4_check true none = thrown bad_ipv4
ipv4_check true (some bytes) = returned bytes

unfoldable pub ipv4_to_bytes : JsNumbers → Text → Outcome DnsError (List ℕ)
unfolding ipv4_check
ipv4_to_bytes js str =
    let parts = split b'.' str in ipv4_check (length parts == 4) (bytes_of js.number_byte parts)

unfoldable pub ipv4_to_string : List ℕ → Text
ipv4_to_string buf = join b'.' (map (number_text 10) buf)

-- `str.split('::')`.
unfoldable pub split_double : Text → List Text
split_double [] = [] ∷ []
split_double (c ∷ []) = (c ∷ []) ∷ []
split_double (c ∷ d ∷ s) =
    let cut = [] ∷ split_double s in
    let on = add_to_first c (split_double (d ∷ s)) in if c == b':' && d == b':' then cut else on

-- `str.includes('::')`.
unfoldable pub has_double : Text → Bool
has_double [] = false
has_double (c ∷ []) = false
has_double (c ∷ d ∷ s) = let on = has_double (d ∷ s) in if c == b':' && d == b':' then true else on

-- `part ? part.split(':') : []`, with `undefined` for a missing part.
pub colon_parts : Text → List Text
colon_parts [] = []
colon_parts (c ∷ s) = split b':' (c ∷ s)

pub first_part : List Text → Text
first_part [] = []
first_part (s ∷ ss) = s

pub second_part : List Text → Text
second_part [] = []
second_part (s ∷ ss) = first_part ss

pub zeros : ℕ → List Text
zeros zero = []
zeros (suc n) = (b'0' ∷ []) ∷ zeros n

unfoldable pub ipv6_groups : Text → List Text
unfolding colon_parts first_part second_part zeros split_double has_double
ipv6_groups str =
    let parts = split_double str in
    let head = colon_parts (first_part parts) in
    let tail = colon_parts (second_part parts) in
    if has_double str then head ++ (zeros (8 - length head - length tail) ++ tail) else head

-- `parseInt(groups[i] || '0', 16)`.
unfoldable pub group_value : JsNumbers → Text → ℕ
group_value js [] = js.parse_hex (b'0' ∷ [])
group_value js (c ∷ s) = js.parse_hex (c ∷ s)

unfoldable pub group_bytes : JsNumbers → List Text → List ℕ
group_bytes js [] = []
group_bytes js (g ∷ gs) =
    let v = group_value js g in (v / 256 % 256) ∷ bit_and v 0xff ∷ group_bytes js gs

unfoldable pub ipv6_to_bytes : JsNumbers → Text → Outcome DnsError (List ℕ)
ipv6_to_bytes js str =
    let groups = ipv6_groups str in
    if length groups == 8 then returned (group_bytes js groups) else thrown bad_ipv6

-- The loop `for(let i = 0; i < 16; i += 2)`; a missing byte counts as 0.
unfoldable pub hex_groups : ℕ → List ℕ → ℕ → List Text
hex_groups zero buf i = []
hex_groups (suc rounds) buf i =
    number_text 16 (bit_or (get_or buf i 0 * 256) (get_or buf (i + 1) 0))
    ∷ hex_groups rounds buf (i + 2)

unfoldable pub ipv6_to_string : List ℕ → Text
ipv6_to_string buf = join b':' (hex_groups 8 buf 0)
