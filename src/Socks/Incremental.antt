-- ===== src/Socks/Incremental.antt =====
-- The SOCKS decoders can be run again on every chunk.
use qjs_lws.Base.{
  ℕ, ◌≡◌, ◌≢◌, ◌<◌, List, ◌++◌, length, length-append, get_or-append_left, thrown, stuck,
  map-eq-thrown, map-eq-stuck, arith,
}
use qjs_lws.ByteUtils.Incremental.{IsIncremental}
use qjs_lws.Socks.{
  SocksError, with_port, decode_socks4_request, decode_socks5_request, decode_socks5_address,
  decode_socks5_greeting,
}
use qjs_lws.Socks.Boundary.{
  decode_socks4_request-append, decode_socks5_request-append, decode_socks5_greeting-append,
}

module _ (xs ys : List ℕ) where
  address-thrown :
      (offset : ℕ) (e : SocksError)
      → offset < length xs
      → decode_socks5_address xs offset ≡ thrown e
      → decode_socks5_address (xs ++ ys) offset ≡ thrown e
  unfolding decode_socks5_address
  address-thrown offset e inside h = ground (arith, get_or-append_left xs ys offset 0)

  socks4-thrown :
      (e : SocksError)
      → decode_socks4_request xs ≡ thrown e
      → decode_socks4_request (xs ++ ys) ≡ thrown e
  unfolding decode_socks4_request
  socks4-thrown e h = ground (arith, length-append xs ys, get_or-append_left xs ys 0 0)

  greeting-thrown :
      (e : SocksError)
      → decode_socks5_greeting xs ≡ thrown e
      → decode_socks5_greeting (xs ++ ys) ≡ thrown e
  unfolding decode_socks5_greeting
  greeting-thrown e h = ground (arith, length-append xs ys, get_or-append_left xs ys 0 0)

  socks5-thrown :
      (e : SocksError)
      → decode_socks5_request xs ≡ thrown e
      → decode_socks5_request (xs ++ ys) ≡ thrown e
  unfolding decode_socks5_request
  socks5-thrown e h = ground (
    arith,
    length-append xs ys,
    get_or-append_left xs ys 0 0,
    address-thrown 3 e,
    map-eq-thrown (decode_socks5_address xs 3) (with_port xs) {e = e},
  )

address-ne-stuck : (xs : List ℕ) (offset : ℕ) → decode_socks5_address xs offset ≢ stuck
unfolding decode_socks5_address
address-ne-stuck xs offset h = ground arith

socks4-ne-stuck : (xs : List ℕ) → decode_socks4_request xs ≢ stuck
unfolding decode_socks4_request
socks4-ne-stuck xs h = ground arith

greeting-ne-stuck : (xs : List ℕ) → decode_socks5_greeting xs ≢ stuck
unfolding decode_socks5_greeting
greeting-ne-stuck xs h = ground arith

socks5-ne-stuck : (xs : List ℕ) → decode_socks5_request xs ≢ stuck
unfolding decode_socks5_request
socks5-ne-stuck xs h =
    ground (arith, address-ne-stuck xs 3, map-eq-stuck (decode_socks5_address xs 3) (with_port xs))

-- More bytes change no result of the SOCKS5 request decoder but "not yet": a decoded request stays as
-- it is and lies inside the bytes that were there, an error stays the same error.
pub socks5-IsIncremental : IsIncremental (λ r. r.consumed) decode_socks5_request
socks5-IsIncremental = record {
  decoded-append = λ xs ys d e. decode_socks5_request-append xs ys {r = d} e;
  thrown-append = λ xs ys e h. socks5-thrown xs ys e h;
  total = socks5-ne-stuck;
}

pub socks4-IsIncremental : IsIncremental (λ r. r.consumed) decode_socks4_request
socks4-IsIncremental = record {
  decoded-append = λ xs ys d e. decode_socks4_request-append xs ys {r = d} e;
  thrown-append = λ xs ys e h. socks4-thrown xs ys e h;
  total = socks4-ne-stuck;
}

pub greeting-IsIncremental : IsIncremental (λ g. g.consumed) decode_socks5_greeting
greeting-IsIncremental = record {
  decoded-append = λ xs ys d e. decode_socks5_greeting-append xs ys {g = d} e;
  thrown-append = λ xs ys e h. greeting-thrown xs ys e h;
  total = greeting-ne-stuck;
}
