-- ===== src/Socks.antt =====
-- examples/proxy/lib/socks-protocol.js: SOCKS4, 4a and 5 messages. A decoder returns `none` for
-- `null`, which asks for more bytes, and throws on a wrong version or address type.
pub mod Boundary
pub mod Incremental
pub mod Socks4
pub mod Socks5
use qjs_lws.Base.{
  ℕ, zero, suc, ◌+◌, ◌*◌, ◌/◌, ◌%◌, Bool, true, false, not, ◌&&◌, Option, none, some, List, [], ◌∷◌,
  ◌++◌, map, Text, bit_and, bit_or, ltb, leb, ◌==◌, length, get_or, slice, drop, Outcome, returned,
  thrown, ◌>>=◌, if◌then◌else◌,
}
use mathlib.Core.Option
use qjs_lws.Text.{split, join, number_text, index_of}
use qjs_lws.Text.Numbers.{JsNumbers, bytes_of}

pub data SocksError : Type 0 where
  bad_version bad_address_type : SocksError

abbrev pub Decoded : Type 0 → Type 0
Decoded A = Outcome SocksError (Option A)

-- `(bytes[i] << 8) | bytes[i + 1]`.
abbrev pub port_at : List ℕ → ℕ → ℕ
port_at bytes i = bit_or (get_or bytes i 0 * 256) (get_or bytes (i + 1) 0)

pub to_bytes_ascii : Text → List ℕ
to_bytes_ascii str = map (λ c. bit_and c 0xff) str

pub to_string_ascii : List ℕ → Text
to_string_ascii bytes = map (λ b. b) bytes

-- `null` where the address is not four numbers from 0 to 255.
pub ipv4_to_bytes : JsNumbers → Text → Option (List ℕ)
ipv4_to_bytes js host =
    let parts = split b'.' host in if length parts == 4 then bytes_of js.number_byte parts else none

pub all_digits : Text → Bool
all_digits [] = true
all_digits (c ∷ s) = leb b'0' c && leb c b'9' && all_digits s

-- A part that `\d{1,3}` matches whole.
pub is_short_number : Text → Bool
is_short_number s = leb 1 (length s) && leb (length s) 3 && all_digits s

pub all_short : List Text → Bool
all_short [] = true
all_short (s ∷ ss) = is_short_number s && all_short ss

pub is_some : Option (List ℕ) → Bool
is_some none = false
is_some (some bytes) = true

-- The pattern `^\d{1,3}\.\d{1,3}\.\d{1,3}\.\d{1,3}$`, part by part.
unfoldable pub is_ipv4 : JsNumbers → Text → Bool
is_ipv4 js host =
    let parts = split b'.' host in
    (length parts == 4 && all_short parts) && is_some (ipv4_to_bytes js host)

-- `${ip[0]}.${ip[1]}.${ip[2]}.${ip[3]}` for the four bytes at `i`.
pub quad_at : List ℕ → ℕ → Text
quad_at bytes i = join b'.' (
    map (number_text 10) (
      get_or bytes i 0
      ∷ get_or bytes (i + 1) 0
      ∷ get_or bytes (i + 2) 0
      ∷ get_or bytes (i + 3) 0
      ∷ []))

-- `bytes.indexOf(0, start)`.
pub nul_after : List ℕ → ℕ → Option ℕ
nul_after bytes start = Option.map (λ i. start + i) (index_of 0 (drop start bytes))

pub record Request : Type 0 where
  pub cmd : ℕ
  pub port : ℕ
  pub host : Text
  pub consumed : ℕ

pub socks4_domain : List ℕ → ℕ → Option ℕ → Option Request
socks4_domain bytes start none = none
socks4_domain bytes start (some end) = some (record {
  cmd = get_or bytes 1 0;
  port = port_at bytes 2;
  host = to_string_ascii (slice bytes start end);
  consumed = end + 1;
})

pub socks4_user : List ℕ → Option ℕ → Option Request
socks4_user bytes none = none
socks4_user bytes (some user_end) =
    if get_or bytes 4 0 == 0
      && get_or bytes 5 0 == 0
      && get_or bytes 6 0 == 0
      && not (get_or bytes 7 0 == 0)
    then socks4_domain bytes (user_end + 1) (nul_after bytes (user_end + 1))
    else some (record {
      cmd = get_or bytes 1 0;
      port = port_at bytes 2;
      host = quad_at bytes 4;
      consumed = user_end + 1;
    })

pub decode_socks4_request : List ℕ → Decoded Request
decode_socks4_request bytes =
    if ltb (length bytes) 9
    then returned none
    else if not (get_or bytes 0 0 == 4)
    then thrown bad_version
    else returned (socks4_user bytes (nul_after bytes 8))

pub socks4_bytes : (cmd port : ℕ) → List ℕ → List ℕ → List ℕ
socks4_bytes cmd port ip tail =
    4 ∷ (cmd % 256) ∷ bit_and (port / 256) 0xff ∷ bit_and port 0xff ∷ (ip ++ 0 ∷ tail)

-- `v4` of the source: the four bytes of the host, or `none` for `null`.
pub v4_of : JsNumbers → Text → Option (List ℕ)
v4_of js host = if is_ipv4 js host then ipv4_to_bytes js host else none

-- The SOCKS4a marker is 0.0.0.1, and the name follows the empty user id.
pub socks4_target : (cmd port : ℕ) → Text → Option (List ℕ) → List ℕ
socks4_target cmd port host (some v4) = socks4_bytes cmd port v4 []
socks4_target cmd port host none =
    socks4_bytes cmd port (0 ∷ 0 ∷ 0 ∷ 1 ∷ []) (to_bytes_ascii host ++ 0 ∷ [])

pub encode_socks4_request : JsNumbers → (cmd : ℕ) (host : Text) (port : ℕ) → List ℕ
encode_socks4_request js cmd host port = socks4_target cmd port host (v4_of js host)

-- `ipv4ToBytes(host) ?? new Uint8Array(4)`.
pub bytes_or_zero : Option (List ℕ) → List ℕ
bytes_or_zero none = 0 ∷ 0 ∷ 0 ∷ 0 ∷ []
bytes_or_zero (some bytes) = bytes

pub encode_socks4_reply : JsNumbers → (granted : Bool) (port : ℕ) (host : Text) → List ℕ
encode_socks4_reply js granted port host =
    0
    ∷ (if granted then 0x5a else 0x5b)
    ∷ bit_and (port / 256) 0xff
    ∷ bit_and port 0xff
    ∷ bytes_or_zero (ipv4_to_bytes js host)

pub record Socks4Reply : Type 0 where
  pub granted : Bool
  pub port : ℕ
  pub host : Text
  pub consumed : ℕ

pub decode_socks4_reply : List ℕ → Option Socks4Reply
decode_socks4_reply bytes =
    if ltb (length bytes) 8
    then none
    else some (record {
      granted = get_or bytes 1 0 == 0x5a;
      port = port_at bytes 2;
      host = quad_at bytes 4;
      consumed = 8;
    })

pub record Greeting : Type 0 where
  pub methods : List ℕ
  pub consumed : ℕ

pub decode_socks5_greeting : List ℕ → Decoded Greeting
decode_socks5_greeting bytes =
    let nmethods = get_or bytes 1 0 in
    if ltb (length bytes) 2
    then returned none
    else if not (get_or bytes 0 0 == 5)
    then thrown bad_version
    else if ltb (length bytes) (2 + nmethods)
    then returned none
    else returned
        (some (record { methods = slice bytes 2 (2 + nmethods); consumed = 2 + nmethods }))

unfoldable pub encode_socks5_greeting : List ℕ → List ℕ
encode_socks5_greeting methods = 5 ∷ (length methods % 256) ∷ map (λ m. m % 256) methods

pub encode_socks5_method_selection : ℕ → List ℕ
encode_socks5_method_selection method = 5 ∷ (method % 256) ∷ []

-- The method and the bytes consumed.
pub decode_socks5_method_selection : List ℕ → Option (ℕ × ℕ)
decode_socks5_method_selection bytes =
    if ltb (length bytes) 2 then none else some (get_or bytes 1 0, 2)

-- Groups of an IPv6 address at `i`.
pub hex_parts : ℕ → List ℕ → ℕ → List Text
hex_parts zero bytes i = []
hex_parts (suc rounds) bytes i = number_text 16 (port_at bytes i) ∷ hex_parts rounds bytes (i + 2)

-- The host and the offset behind it.
pub decode_socks5_address : List ℕ → ℕ → Decoded (Text × ℕ)
decode_socks5_address bytes offset =
    let atyp = get_or bytes offset 0 in
    let len = get_or bytes (offset + 1) 0 in
    if atyp == 1
    then (if ltb (length bytes) (offset + 1 + 4 + 2)
        then returned none
        else returned (some (quad_at bytes (offset + 1), offset + 5)))
    else if atyp == 3
    then (if ltb (length bytes) (offset + 2)
        then returned none
        else if ltb (length bytes) (offset + 2 + len + 2)
        then returned none
        else returned (
            some (to_string_ascii (slice bytes (offset + 2) (offset + 2 + len)), offset + 2 + len)))
    else if atyp == 4
    then (if ltb (length bytes) (offset + 1 + 16 + 2)
        then returned none
        else returned (some (join b':' (hex_parts 8 bytes (offset + 1)), offset + 17)))
    else thrown bad_address_type

pub with_port : List ℕ → Option (Text × ℕ) → Option Request
with_port bytes none = none
with_port bytes (some (host, next)) =
    some (record {
      cmd = get_or bytes 1 0;
      host = host;
      port = port_at bytes next;
      consumed = next + 2;
    })

pub decode_socks5_request : List ℕ → Decoded Request
decode_socks5_request bytes =
    if ltb (length bytes) 4
    then returned none
    else if not (get_or bytes 0 0 == 5)
    then thrown bad_version
    else (do addr ← decode_socks5_address bytes 3; returned (with_port bytes addr))

pub encode_socks5_request : (cmd : ℕ) (host : Text) (port : ℕ) → List ℕ
encode_socks5_request cmd host port =
    let domain = to_bytes_ascii host in
    5
    ∷ (cmd % 256)
    ∷ 0
    ∷ 3
    ∷ (length domain % 256)
    ∷ (domain ++ bit_and (port / 256) 0xff ∷ bit_and port 0xff ∷ [])

pub encode_socks5_reply : JsNumbers → (rep : ℕ) (host : Text) (port : ℕ) → List ℕ
encode_socks5_reply js rep host port =
    5
    ∷ (rep % 256)
    ∷ 0
    ∷ 1
    ∷ (bytes_or_zero (ipv4_to_bytes js host) ++ bit_and (port / 256) 0xff ∷ bit_and port 0xff ∷ [])

-- The reply code stands in `cmd`; the version is not looked at.
pub decode_socks5_reply : List ℕ → Decoded Request
decode_socks5_reply bytes =
    if ltb (length bytes) 4
    then returned none
    else (do addr ← decode_socks5_address bytes 3; returned (with_port bytes addr))
