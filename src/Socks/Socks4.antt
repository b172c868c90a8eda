-- ===== src/Socks/Socks4.antt =====
-- SOCKS4 and 4a: what one side encodes, the other decodes.
use qjs_lws.Base.{
  ℕ, ◌+◌, ◌/◌, ◌%◌, ◌<◌, ◌≡◌, ◌⊎◌, refl, Bool, true, false, some, List, [], ◌∷◌, ◌++◌, map, Text,
  All, length, length-append, take-length, bit_and, append_assoc, returned, arith, if◌then◌else◌,
}
use qjs_lws.Base.Bits.{agree_below, agree_below→eq}
use qjs_lws.Text.{split, join, number_text, index_of, contains}
use qjs_lws.Text.Split.{Free, split-join}
use qjs_lws.Text.Numbers.{JsNumbers, bytes_of-decimal, All-decimal-Free}
use qjs_lws.Socks.{
  nul_after, port_at, quad_at, is_ipv4, is_some, ipv4_to_bytes, all_short, is_short_number,
  all_digits, socks4_domain, socks4_user, socks4_bytes, v4_of, socks4_target, decode_socks4_request,
  encode_socks4_request, decode_socks4_reply, encode_socks4_reply, bytes_or_zero,
}
use qjs_lws.Socks.Socks5.{IsByte, to_bytes_ascii-same, to_string_ascii-same, port_at-append}

-- The dotted text of four bytes.
abbrev pub quad : (a b c d : ℕ) → Text
quad a b c d = join b'.' (map (number_text 10) (a ∷ b ∷ c ∷ d ∷ []))

split-quad :
    (a b c d : ℕ)
    → All IsByte (a ∷ b ∷ c ∷ d ∷ [])
    → split b'.' (quad a b c d) ≡ map (number_text 10) (a ∷ b ∷ c ∷ d ∷ [])
split-quad a b c d h =
    split-join b'.' (number_text 10 a) (map (number_text 10) (b ∷ c ∷ d ∷ []))
      (All-decimal-Free (a ∷ b ∷ c ∷ d ∷ []) h)

pub ipv4_to_bytes-quad :
    (js : JsNumbers) (a b c d : ℕ)
    → All IsByte (a ∷ b ∷ c ∷ d ∷ [])
    → ipv4_to_bytes js (quad a b c d) ≡ some (a ∷ b ∷ c ∷ d ∷ [])
unfolding ipv4_to_bytes
ipv4_to_bytes-quad js a b c d h =
    rw (split-quad a b c d h) (bytes_of-decimal js (a ∷ b ∷ c ∷ d ∷ []) h)

-- One to three digits, as 1 or 0.
short_flag : ℕ → ℕ
short_flag n = if is_short_number (number_text 10 n) then 1 else 0

short_flags : (n : ℕ) → n < 256 → short_flag n ≡ 1
unfolding agree_below short_flag is_short_number all_digits number_text
short_flags n h = agree_below→eq short_flag (λ n. 1) 256 n refl h

short-decimal : (n : ℕ) → n < 256 → is_short_number (number_text 10 n) ≡ true
unfolding short_flag
short-decimal n h = ground (arith, short_flags n h)

pub is_ipv4-quad :
    (js : JsNumbers) (a b c d : ℕ)
    → All IsByte (a ∷ b ∷ c ∷ d ∷ [])
    → is_ipv4 js (quad a b c d) ≡ true
unfolding is_ipv4 all_short is_some
is_ipv4-quad js a b c d h =
    let (ha, (hb, (hc, (hd, _)))) = h in
    rw (
      ipv4_to_bytes-quad js a b c d h,
      split-quad a b c d h,
      short-decimal a ha,
      short-decimal b hb,
      short-decimal c hc,
      short-decimal d hd,
    )

index_of-Free : (c : ℕ) (s rest : List ℕ) → Free c s → index_of c (s ++ c ∷ rest) ≡ some (length s)
unfolding index_of contains
index_of-Free c [] rest h = ground arith
index_of-Free c (x ∷ s) rest h = ground (arith, index_of-Free c s rest)

encode-name :
    (js : JsNumbers) (cmd port : ℕ) (host : Text)
    → is_ipv4 js host ≡ false
    → cmd < 256
    → All IsByte host
    → encode_socks4_request js cmd host port
      ≡ 4
        ∷ cmd
        ∷ bit_and (port / 256) 0xff
        ∷ bit_and port 0xff
        ∷ 0
        ∷ 0
        ∷ 0
        ∷ 1
        ∷ 0
        ∷ (host ++ 0 ∷ [])
unfolding encode_socks4_request v4_of socks4_target socks4_bytes
encode-name js cmd port host named hc hh =
    let small : cmd % 256 ≡ cmd = omega arith in rw (named, to_bytes_ascii-same host hh, small)

encode-quad :
    (js : JsNumbers) (cmd port a b c d : ℕ)
    → cmd < 256
    → All IsByte (a ∷ b ∷ c ∷ d ∷ [])
    → encode_socks4_request js cmd (quad a b c d) port
      ≡ 4 ∷ cmd ∷ bit_and (port / 256) 0xff ∷ bit_and port 0xff ∷ a ∷ b ∷ c ∷ d ∷ 0 ∷ []
unfolding encode_socks4_request v4_of
encode-quad js cmd port a b c d hc h =
    let small : cmd % 256 ≡ cmd = omega arith in
    rw (is_ipv4-quad js a b c d h, ipv4_to_bytes-quad js a b c d h)
      (unfold socks4_target socks4_bytes in rw small)

port_of :
    (cmd port : ℕ) (rest : List ℕ)
    → port < 65536
    → port_at (4 ∷ cmd ∷ bit_and (port / 256) 0xff ∷ bit_and port 0xff ∷ rest) 2 ≡ port
port_of cmd port rest h = port_at-append (4 ∷ cmd ∷ []) rest port 2 h refl

-- A host that is no IPv4 address and holds no NUL travels as a name behind the SOCKS4a marker, and is
-- decoded to the same command, host and port, with the request's length as the bytes consumed.
pub decode_socks4_request-encode_name :
    (js : JsNumbers) (cmd port : ℕ) (host : Text) (rest : List ℕ)
    → is_ipv4 js host ≡ false
    → cmd < 256
    → port < 65536
    → All IsByte host
    → Free 0 host
    → decode_socks4_request (encode_socks4_request js cmd host port ++ rest)
      ≡ returned (
          some (record {
            cmd = cmd;
            port = port;
            host = host;
            consumed = length (encode_socks4_request js cmd host port);
          }))
unfolding decode_socks4_request socks4_user socks4_domain nul_after index_of
decode_socks4_request-encode_name js cmd port host rest named hc hp hh hf =
    let tail = 0 ∷ 0 ∷ 0 ∷ 1 ∷ 0 ∷ (host ++ 0 ∷ rest) in
    rw (encode-name js cmd port host named hc hh, append_assoc host (0 ∷ []) rest)
      (ground (
        arith,
        port_of cmd port tail,
        index_of-Free 0 host rest hf,
        take-length host (0 ∷ rest),
        to_string_ascii-same host,
        length-append host (0 ∷ []),
      ))

-- An IPv4 address travels as its four bytes and is decoded to its dotted text, unless it is one of
-- 0.0.0.1 to 0.0.0.255, which the decoder takes for the marker.
pub decode_socks4_request-encode_quad :
    (js : JsNumbers) (cmd port a b c d : ℕ) (rest : List ℕ)
    → cmd < 256
    → port < 65536
    → All IsByte (a ∷ b ∷ c ∷ d ∷ [])
    → (0 < a + b + c) ⊎ (d ≡ 0)
    → decode_socks4_request (encode_socks4_request js cmd (quad a b c d) port ++ rest)
      ≡ returned (some (record { cmd = cmd; port = port; host = quad a b c d; consumed = 9 }))
unfolding decode_socks4_request socks4_user nul_after index_of quad_at
decode_socks4_request-encode_quad js cmd port a b c d rest hc hp h real =
    let tail = a ∷ b ∷ c ∷ d ∷ 0 ∷ rest in
    rw (encode-quad js cmd port a b c d hc h) (ground (arith, port_of cmd port tail))

-- A reply is decoded to its verdict, port and dotted address, whatever follows it.
pub decode_socks4_reply-encode :
    (js : JsNumbers) (granted : Bool) (port a b c d : ℕ) (rest : List ℕ)
    → port < 65536
    → All IsByte (a ∷ b ∷ c ∷ d ∷ [])
    → decode_socks4_reply (encode_socks4_reply js granted port (quad a b c d) ++ rest)
      ≡ some (record { granted = granted; port = port; host = quad a b c d; consumed = 8 })
unfolding decode_socks4_reply encode_socks4_reply bytes_or_zero quad_at
decode_socks4_reply-encode js granted port a b c d rest hp h =
    let tail = a ∷ b ∷ c ∷ d ∷ rest in
    let verdict : ℕ = if granted then 0x5a else 0x5b in
    rw (ipv4_to_bytes-quad js a b c d h)
      (ground (arith, port_at-append (0 ∷ verdict ∷ []) tail port 2 hp refl))
