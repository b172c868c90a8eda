-- ===== src/Tests/Chunks.antt =====
-- A greeting in pieces.
use qjs_lws.Base.{◌≡◌, some, List, [], ◌∷◌, ◌++◌, returned, arith, ℕ}
use qjs_lws.Socks.{Greeting, decode_socks5_greeting, encode_socks5_greeting}
use qjs_lws.Socks.Socks5.{decode_socks5_greeting-encode}
use qjs_lws.Socks.Incremental.{greeting-IsIncremental}
use qjs_lws.ByteUtils.{accumulate_until}
use qjs_lws.ByteUtils.Chunks.{Reads, joined, accumulate_until-joined}

abbrev chunks : List (List ℕ)
chunks = (2 ∷ 0 ∷ []) ∷ (2 ∷ 7 ∷ []) ∷ (8 ∷ []) ∷ []

abbrev greeting : Greeting
greeting = record { methods = 0 ∷ 2 ∷ []; consumed = 4 }

whole_stream : decode_socks5_greeting ((5 ∷ []) ++ joined chunks) ≡ returned (some greeting)
unfolding encode_socks5_greeting
whole_stream =
    decode_socks5_greeting-encode (0 ∷ 2 ∷ []) (7 ∷ 8 ∷ []) (omega arith, (omega arith, tt))
      (omega arith)

accumulate_until-joined_example :
    Reads
      (λ g. g.consumed)
      ((5 ∷ []) ++ joined chunks)
      greeting
      (accumulate_until (λ g. g.consumed) decode_socks5_greeting (5 ∷ []) chunks)
accumulate_until-joined_example =
    accumulate_until-joined greeting-IsIncremental (5 ∷ []) chunks whole_stream
