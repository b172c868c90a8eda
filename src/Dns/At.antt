-- ===== src/Dns/At.antt =====
-- Reading at a position of a message, by what follows there.
use qjs_lws.Base.{
  get_elem?-length, some, ℕ, ◌+◌, ◌<◌, ◌≡◌, refl, List, [], ◌∷◌, ◌++◌, Text, All, length,
  length-append, append_assoc, get_elem?, slice, slice_middle, get_or-append, returned, arith,
}
use qjs_lws.Dns.Bytes.{get_u16, get_u32, u16_bytes, u32_bytes}
use qjs_lws.Dns.Name.{decode_name, print_name}
use qjs_lws.Dns.Name.Print.{IsLabel, wire}
use qjs_lws.Dns.Name.RoundTrip.{decode_name-wire}

-- From position `p` on, the message `buf` reads `rest`.
pub record At (buf : List ℕ) (p : ℕ) (rest : List ℕ) : Type 0 where
  pub front : List ℕ
  pub whole : buf ≡ front ++ rest
  pub start : p ≡ length front

module _ {buf : List ℕ} {p : ℕ} where
  pub At-skip : (xs rest : List ℕ) → At buf p (xs ++ rest) → At buf (p + length xs) rest
  At-skip xs rest at = record {
    front = at.front ++ xs;
    whole = ground (arith, at.whole, append_assoc at.front xs rest);
    start = omega (arith, at.start, length-append at.front xs);
  }

  pub At-slice : (xs rest : List ℕ) → At buf p (xs ++ rest) → slice buf p (p + length xs) ≡ xs
  At-slice xs rest at = rw (at.whole, at.start) (slice_middle at.front xs rest)

  pub At-name :
      (ls : List Text) (rest : List ℕ)
      → All IsLabel ls
      → At buf p (wire ls ++ rest)
      → decode_name buf p ≡ returned (print_name ls, p + length (wire ls))
  At-name ls rest h at = rw (at.whole, at.start) (decode_name-wire ls at.front rest h)

  pub At-length : (rest : List ℕ) → At buf p rest → length buf ≡ p + length rest
  At-length rest at = rw (at.whole, at.start) (length-append at.front rest)

  pub At-u16 :
      (n : ℕ) (rest : List ℕ)
      → n < 65536
      → At buf p (u16_bytes n ++ rest)
      → get_u16 buf p ≡ returned n
  unfolding get_u16 u16_bytes
  At-u16 n rest h at = ground (
    arith,
    At-length (u16_bytes n ++ rest) at,
    get_or-append at.front (u16_bytes n ++ rest) 0 0,
    get_or-append at.front (u16_bytes n ++ rest) 1 0,
  )

  pub At-u32 :
      (n : ℕ) (rest : List ℕ)
      → n < 4294967296
      → At buf p (u32_bytes n ++ rest)
      → get_u32 buf p ≡ returned n
  unfolding get_u32 u32_bytes
  At-u32 n rest h at = ground (
    arith,
    At-length (u32_bytes n ++ rest) at,
    get_or-append at.front (u32_bytes n ++ rest) 0 0,
    get_or-append at.front (u32_bytes n ++ rest) 1 0,
    get_or-append at.front (u32_bytes n ++ rest) 2 0,
    get_or-append at.front (u32_bytes n ++ rest) 3 0,
  )

module _ {buf : List ℕ} {p : ℕ} where
  pub At-elem : (y : ℕ) (rest : List ℕ) → At buf p (y ∷ rest) → get_elem? buf p ≡ some y
  At-elem y rest at = rw (at.whole, at.start) (get_elem?-length at.front rest y)

  pub At-skip_one : (y : ℕ) (rest : List ℕ) → At buf p (y ∷ rest) → At buf (p + 1) rest
  At-skip_one y rest at = At-skip (y ∷ []) rest at

  pub At-skip_u16 : (n : ℕ) (rest : List ℕ) → At buf p (u16_bytes n ++ rest) → At buf (p + 2) rest
  unfolding u16_bytes
  At-skip_u16 n rest at = At-skip (u16_bytes n) rest at

  pub At-skip_u32 : (n : ℕ) (rest : List ℕ) → At buf p (u32_bytes n ++ rest) → At buf (p + 4) rest
  unfolding u32_bytes
  At-skip_u32 n rest at = At-skip (u32_bytes n) rest at

  pub At-assoc :
      (xs ys rest : List ℕ) → At buf p ((xs ++ ys) ++ rest) → At buf p (xs ++ (ys ++ rest))
  At-assoc xs ys rest at = record {
    front = at.front;
    whole = ground (arith, at.whole, append_assoc xs ys rest);
    start = at.start;
  }

  pub At-move : {q : ℕ} {rest : List ℕ} → At buf p rest → p ≡ q → At buf q rest
  At-move at e = record { front = at.front; whole = at.whole; start = omega (arith, at.start) }

pub length-u16 : (n : ℕ) → length (u16_bytes n) ≡ 2
unfolding u16_bytes
length-u16 n = refl

pub length-u32 : (n : ℕ) → length (u32_bytes n) ≡ 4
unfolding u32_bytes
length-u32 n = refl
