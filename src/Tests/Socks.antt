-- ===== src/Tests/Socks.antt =====
-- Runs of the SOCKS messages.
use qjs_lws.Base.{
  ◌≤◌, ◌≡◌, refl, false, inl, some, All, [], ◌∷◌, ◌++◌, Text, length, returned, arith,
}
use qjs_lws.Text.{text, contains, split}
use qjs_lws.Tests.Numbers.{js_numbers}
use qjs_lws.Socks.{
  Request, is_ipv4, decode_socks4_request, encode_socks4_request, decode_socks5_request,
  encode_socks5_request,
}
use qjs_lws.Socks.Socks5.{IsByte, decode_socks5_request-encode}
use qjs_lws.Socks.Socks4.{
  quad, decode_socks4_request-encode_name, decode_socks4_request-encode_quad,
}
use qjs_lws.Socks.Boundary.{decode_socks4_request-append}

abbrev host : Text
host = text "io"

host-IsByte : All IsByte host
host-IsByte = (omega arith, (omega arith, tt))

quad-IsByte : All IsByte (192 ∷ 0 ∷ 2 ∷ 1 ∷ [])
quad-IsByte = (omega arith, (omega arith, (omega arith, (omega arith, tt))))

abbrev socks5_request : Request
socks5_request = record { cmd = 1; port = 443; host = host; consumed = 9 }

decode_socks5_request-encode_example :
    decode_socks5_request (encode_socks5_request 1 host 443 ++ 7 ∷ [])
    ≡ returned (
        some (record {
          cmd = 1;
          port = 443;
          host = host;
          consumed = length (encode_socks5_request 1 host 443);
        }))
decode_socks5_request-encode_example =
    decode_socks5_request-encode 1 443 host (7 ∷ []) (omega arith) (omega arith) host-IsByte
      (omega arith)

named : is_ipv4 js_numbers host ≡ false
unfolding is_ipv4 split
named = refl

decode_socks4_request-encode_name_example :
    decode_socks4_request (encode_socks4_request js_numbers 1 host 443 ++ 7 ∷ [])
    ≡ returned (
        some (record {
          cmd = 1;
          port = 443;
          host = host;
          consumed = length (encode_socks4_request js_numbers 1 host 443);
        }))
unfolding contains
decode_socks4_request-encode_name_example =
    decode_socks4_request-encode_name js_numbers 1 443 host (7 ∷ []) named (omega arith)
      (omega arith) host-IsByte refl

decode_socks4_request-encode_quad_example :
    decode_socks4_request (encode_socks4_request js_numbers 1 (quad 192 0 2 1) 443 ++ 7 ∷ [])
    ≡ returned (some (record { cmd = 1; port = 443; host = quad 192 0 2 1; consumed = 9 }))
decode_socks4_request-encode_quad_example =
    decode_socks4_request-encode_quad js_numbers 1 443 192 0 2 1 (7 ∷ []) (omega arith)
      (omega arith) quad-IsByte (inl (omega arith))

decode_socks4_request-append_example :
    (decode_socks4_request
        ((encode_socks4_request js_numbers 1 (quad 192 0 2 1) 443 ++ []) ++ 7 ∷ [])
      ≡ returned (some (record { cmd = 1; port = 443; host = quad 192 0 2 1; consumed = 9 })))
    × (9 ≤ length (encode_socks4_request js_numbers 1 (quad 192 0 2 1) 443 ++ []))
decode_socks4_request-append_example =
    decode_socks4_request-append (encode_socks4_request js_numbers 1 (quad 192 0 2 1) 443 ++ [])
      (7 ∷ [])
      (decode_socks4_request-encode_quad js_numbers 1 443 192 0 2 1 [] (omega arith) (omega arith)
        quad-IsByte (inl (omega arith)))
