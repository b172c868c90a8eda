-- ===== src/Dns/Bytes.antt =====
-- examples/dns-server/bytes.js, and the parts of `DataView` that dns-message.js uses.
use qjs_lws.Base.{
  ℕ, ◌+◌, ◌*◌, ◌/◌, ◌%◌, List, [], ◌∷◌, ◌++◌, map, Text, bit_and, leb, length, get_or, Outcome,
  returned, thrown, if◌then◌else◌,
}

-- The errors that the codec throws, by their message; `range_error` is that of `DataView`.
pub data DnsError : Type 0 where
  label_too_long name_past_end truncated_pointer too_many_pointers label_past_end : DnsError
  bad_ipv4 bad_ipv6 short_message range_error type_error : DnsError

-- The arrays one after the other; `total` is the size of the result.
unfoldable pub concat_bytes : List (List ℕ) → List ℕ
concat_bytes [] = []
concat_bytes (a ∷ arrays) = a ++ concat_bytes arrays

unfoldable pub label_bytes : Text → List ℕ
label_bytes str = map (λ c. bit_and c 0xff) str

-- `String.fromCharCode` of each byte.
unfoldable pub bytes_to_label : List ℕ → Text
bytes_to_label buf = map (λ b. b) buf

-- `dv.getUint16(p)`, which throws when it would read past the end.
unfoldable pub get_u16 : List ℕ → ℕ → Outcome DnsError ℕ
get_u16 buf p =
    if leb (p + 2) (length buf)
    then returned (get_or buf p 0 * 256 + get_or buf (p + 1) 0)
    else thrown range_error

unfoldable pub get_u32 : List ℕ → ℕ → Outcome DnsError ℕ
get_u32 buf p =
    if leb (p + 4) (length buf)
    then returned (
        ((get_or buf p 0 * 256 + get_or buf (p + 1) 0) * 256 + get_or buf (p + 2) 0) * 256
        + get_or buf (p + 3) 0)
    else thrown range_error

-- What `setUint16` and `setUint32` write: the number modulo 2^16 and 2^32.
unfoldable pub u16_bytes : ℕ → List ℕ
u16_bytes n = (n / 256 % 256) ∷ (n % 256) ∷ []

unfoldable pub u32_bytes : ℕ → List ℕ
u32_bytes n = (n / 16777216 % 256) ∷ (n / 65536 % 256) ∷ (n / 256 % 256) ∷ (n % 256) ∷ []
