-- ===== src/Socks/Socks5.antt =====
-- SOCKS5: what one side encodes, the other decodes.
use qjs_lws.Base.{
  ℕ, ◌+◌, ◌/◌, ◌%◌, ◌<◌, ◌≡◌, refl, ap, some, List, [], ◌∷◌, ◌++◌, map, Text, All, length,
  length-append, get_or-append, take-length, bit_and, append_assoc, returned, arith,
}
use qjs_lws.Base.Bits.{or_bytes, and_byte}
use qjs_lws.Socks.{
  to_bytes_ascii, to_string_ascii, port_at, decode_socks5_greeting, encode_socks5_greeting,
  decode_socks5_address, with_port, decode_socks5_request, encode_socks5_request,
}

abbrev pub IsByte : ℕ → Type 0
IsByte b = b < 256

pub to_bytes_ascii-same : (s : Text) → All IsByte s → to_bytes_ascii s ≡ s
unfolding to_bytes_ascii
to_bytes_ascii-same [] h = refl
to_bytes_ascii-same (c ∷ s) (hc, h) = ground (arith, and_byte c, to_bytes_ascii-same s h)

pub to_string_ascii-same : (s : List ℕ) → to_string_ascii s ≡ s
unfolding to_string_ascii
to_string_ascii-same [] = refl
to_string_ascii-same (b ∷ s) = ap (λ t. b ∷ t) (to_string_ascii-same s)

-- The port behind a front part.
pub port_at-append :
    (front rest : List ℕ) (port i : ℕ)
    → port < 65536
    → i ≡ length front
    → port_at (front ++ bit_and (port / 256) 0xff ∷ bit_and port 0xff ∷ rest) i ≡ port
port_at-append front rest port i h e =
    let tail = bit_and (port / 256) 0xff ∷ bit_and port 0xff ∷ rest in
    ground (
      arith,
      get_or-append front tail 0 0,
      get_or-append front tail 1 0,
      and_byte (port / 256),
      and_byte port,
      or_bytes (bit_and (port / 256) 0xff) (bit_and port 0xff),
    )

-- A request for a host of at most 255 byte-sized characters is decoded to the same command, host and
-- port, with its own length as the number of bytes consumed, whatever follows it.
pub decode_socks5_request-encode :
    (cmd port : ℕ) (host : Text) (rest : List ℕ)
    → cmd < 256
    → port < 65536
    → All IsByte host
    → length host < 256
    → decode_socks5_request (encode_socks5_request cmd host port ++ rest)
      ≡ returned (
          some (record {
            cmd = cmd;
            port = port;
            host = host;
            consumed = length (encode_socks5_request cmd host port);
          }))
unfolding decode_socks5_request encode_socks5_request decode_socks5_address with_port
decode_socks5_request-encode cmd port host rest hc hp hh hl =
    let front = 5 ∷ cmd ∷ 0 ∷ 3 ∷ length host ∷ host in
    let ends = bit_and (port / 256) 0xff ∷ bit_and port 0xff ∷ [] in
    let small : cmd % 256 ≡ cmd = omega arith in
    let fits : length host % 256 ≡ length host = omega arith in
    rw (to_bytes_ascii-same host hh, small, fits, append_assoc host ends rest)
      (ground (
        arith,
        port_at-append front rest port (3 + 2 + length host),
        take-length host (ends ++ rest),
        to_string_ascii-same host,
        length-append host (ends ++ rest),
        length-append host ends,
      ))

map-mod-same : (ms : List ℕ) → All IsByte ms → map (λ m. m % 256) ms ≡ ms
map-mod-same [] h = refl
map-mod-same (m ∷ ms) (hm, h) = ground (arith, map-mod-same ms h)

-- A greeting that offers up to 255 methods is decoded to the same methods, whatever follows it.
pub decode_socks5_greeting-encode :
    (methods rest : List ℕ)
    → All IsByte methods
    → length methods < 256
    → decode_socks5_greeting (encode_socks5_greeting methods ++ rest)
      ≡ returned (some (record { methods = methods; consumed = 2 + length methods }))
unfolding decode_socks5_greeting encode_socks5_greeting
decode_socks5_greeting-encode methods rest h hl =
    let fits : length methods % 256 ≡ length methods = omega arith in
    rw (map-mod-same methods h, fits)
      (ground (arith, take-length methods rest, length-append methods rest))
