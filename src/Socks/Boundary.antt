-- ===== src/Socks/Boundary.antt =====
-- A message is found complete by its own bytes: what follows it changes nothing, and it lies inside
-- the bytes that are there.
use qjs_lws.Base.{
  ℕ, zero, suc, ◌+◌, ◌*◌, ◌≤◌, ◌<◌, ◌≡◌, refl, Option, none, some, List, [], ◌∷◌, ◌++◌, Text,
  length, length-append, get_or, get_or-append_left, slice-append, drop, drop-append, length-drop,
  returned, >>=-eq-returned, returned_inj, ◌>>=◌, le→ltb, arith, Option-cases, inl, inr,
}
use qjs_lws.Text.{index_of}
use qjs_lws.Socks.{
  Request, Greeting, nul_after, quad_at, hex_parts, socks4_domain, socks4_user,
  decode_socks4_request, decode_socks5_greeting, decode_socks5_address, with_port,
  decode_socks5_request,
}

index_of-append :
    (c : ℕ) (xs ys : List ℕ) (i : ℕ)
    → index_of c xs ≡ some i
    → (index_of c (xs ++ ys) ≡ some i) × (i < length xs)
unfolding index_of
index_of-append c [] ys i e = cc
index_of-append c (x ∷ xs) ys i e = elim (Option-cases (index_of c xs)) [
  | inl missing ↦ ground arith
  | inr (j, found) ↦ ground (arith, index_of-append c xs ys j found)
]

nul_after-append :
    (xs ys : List ℕ) (start i : ℕ)
    → start ≤ length xs
    → nul_after xs start ≡ some i
    → (nul_after (xs ++ ys) start ≡ some i) × (i < length xs) × (start ≤ i)
unfolding nul_after
nul_after-append xs ys start i h e = elim (Option-cases (index_of 0 (drop start xs))) [
  | inl missing ↦ ground arith
  | inr (j, found) ↦ ground (
    arith,
    index_of-append 0 (drop start xs) ys j found,
    drop-append start xs ys h,
    length-drop start xs,
  )
]

hex_parts-append :
    (rounds : ℕ) (xs ys : List ℕ) (i : ℕ)
    → i + rounds * 2 ≤ length xs
    → hex_parts rounds (xs ++ ys) i ≡ hex_parts rounds xs i
unfolding hex_parts
hex_parts-append zero xs ys i h = refl
hex_parts-append (suc rounds) xs ys i h = ground (
  arith,
  get_or-append_left xs ys i 0,
  get_or-append_left xs ys (i + 1) 0,
  hex_parts-append rounds xs ys (i + 2),
)

quad_at-append : (xs ys : List ℕ) (i : ℕ) → i + 4 ≤ length xs → quad_at (xs ++ ys) i ≡ quad_at xs i
unfolding quad_at
quad_at-append xs ys i h = rw (
  get_or-append_left xs ys i 0 (omega arith),
  get_or-append_left xs ys (i + 1) 0 (omega arith),
  get_or-append_left xs ys (i + 2) 0 (omega arith),
  get_or-append_left xs ys (i + 3) 0 (omega arith),
)

module _ (xs ys : List ℕ) where
  decode_socks5_address-append :
      (offset next : ℕ) (host : Text)
      → offset < length xs
      → decode_socks5_address xs offset ≡ returned (some (host, next))
      → (decode_socks5_address (xs ++ ys) offset ≡ returned (some (host, next)))
        × (next + 2 ≤ length xs)
  unfolding decode_socks5_address
  decode_socks5_address-append offset next host inside e =
      let len = get_or xs (offset + 1) 0 in
      ground (
        arith,
        length-append xs ys,
        get_or-append_left xs ys offset 0,
        get_or-append_left xs ys (offset + 1) 0,
        quad_at-append xs ys (offset + 1),
        slice-append xs ys (offset + 2) (offset + 2 + len),
        hex_parts-append 8 xs ys (offset + 1),
      )

  with_port-append :
      (host : Text) (next : ℕ)
      → 4 ≤ length xs
      → next + 2 ≤ length xs
      → with_port (xs ++ ys) (some (host, next)) ≡ with_port xs (some (host, next))
  unfolding with_port
  with_port-append host next h hn = rw (
    get_or-append_left xs ys 1 0 (omega arith),
    get_or-append_left xs ys next 0 (omega arith),
    get_or-append_left xs ys (next + 1) 0 (omega arith),
  )

  socks5_address_cases :
      {r : Request}
      → (decode_socks5_address xs 3 >>= λ addr. returned (with_port xs addr)) ≡ returned (some r)
      → (host : Text) × (next : ℕ) × (decode_socks5_address xs 3 ≡ returned (some (host, next)))
        × (with_port xs (some (host, next)) ≡ some r)
  unfolding with_port
  socks5_address_cases {r} e =
      let (addr, ea, er) =
        >>=-eq-returned (decode_socks5_address xs 3) (λ addr. returned (with_port xs addr)) e in
      go addr ea (returned_inj er)
    where
      go :
          (addr : Option (Text × ℕ))
          → decode_socks5_address xs 3 ≡ returned addr
          → with_port xs addr ≡ some r
          → (host : Text) × (next : ℕ) × (decode_socks5_address xs 3 ≡ returned (some (host, next)))
            × (with_port xs (some (host, next)) ≡ some r)
      go none ea er = cc
      go (some (host, next)) ea er = (host, next, ea, er)

  used :
      (host : Text) (next : ℕ) {r : Request}
      → next + 2 ≤ length xs
      → with_port xs (some (host, next)) ≡ some r
      → r.consumed ≤ length xs
  unfolding with_port
  used host next {r} inside e = ground arith

  socks4_complete :
      {r : Request}
      → decode_socks4_request xs ≡ returned (some r)
      → (9 ≤ length xs) × (get_or xs 0 0 ≡ 4) × (socks4_user xs (nul_after xs 8) ≡ some r)
  unfolding decode_socks4_request
  socks4_complete e = ground arith

  socks4_domain-append :
      (start : ℕ) (o : Option ℕ) {r : Request}
      → 9 ≤ length xs
      → start ≤ length xs
      → nul_after xs start ≡ o
      → socks4_domain xs start o ≡ some r
      → (socks4_domain (xs ++ ys) start (nul_after (xs ++ ys) start) ≡ some r)
        × (r.consumed ≤ length xs)
  unfolding socks4_domain
  socks4_domain-append start none long h en e = cc
  socks4_domain-append start (some end) {r} long h en e =
      let (found, inside, behind) = nul_after-append xs ys start end h en in
      rw
        (
          found,
          get_or-append_left xs ys 1 0 (omega arith),
          get_or-append_left xs ys 2 0 (omega arith),
          get_or-append_left xs ys (2 + 1) 0 (omega arith),
          slice-append xs ys start end (omega arith) (omega arith),
        )
        (e, ground arith)

  socks4_user-append :
      (o : Option ℕ) {r : Request}
      → 9 ≤ length xs
      → nul_after xs 8 ≡ o
      → socks4_user xs o ≡ some r
      → (socks4_user (xs ++ ys) (nul_after (xs ++ ys) 8) ≡ some r) × (r.consumed ≤ length xs)
  unfolding socks4_user
  socks4_user-append none long eo e = cc
  socks4_user-append (some user_end) {r} long eo e =
      let (found, inside, behind) = nul_after-append xs ys 8 user_end (omega arith) eo in
      rw found (
        ground (
          arith,
          get_or-append_left xs ys 1 0,
          get_or-append_left xs ys 2 0,
          get_or-append_left xs ys 3 0,
          get_or-append_left xs ys 4 0,
          get_or-append_left xs ys 5 0,
          get_or-append_left xs ys 6 0,
          get_or-append_left xs ys 7 0,
          quad_at-append xs ys 4,
          socks4_domain-append (user_end + 1) (nul_after xs (user_end + 1)) {r = r} long
              (omega arith) refl,
        ))

  socks5_complete :
      {r : Request}
      → decode_socks5_request xs ≡ returned (some r)
      → (4 ≤ length xs)
        × (get_or xs 0 0 ≡ 5)
        × ((decode_socks5_address xs 3 >>= λ addr. returned (with_port xs addr))
            ≡ returned (some r))
  unfolding decode_socks5_request
  socks5_complete e = ground arith

  -- A SOCKS5 request that is decoded from a buffer is decoded alike from any longer buffer, and uses
  -- at most the bytes that are there.
  pub decode_socks5_request-append :
      {r : Request}
      → decode_socks5_request xs ≡ returned (some r)
      → (decode_socks5_request (xs ++ ys) ≡ returned (some r)) × (r.consumed ≤ length xs)
  unfolding decode_socks5_request
  decode_socks5_request-append {r} e =
      let (long, five, rest) = socks5_complete e in
      let (host, next, ea, er) = socks5_address_cases rest in
      let (ea', inside) = decode_socks5_address-append 3 next host (omega arith) ea in
      let same = with_port-append host next long inside in
      (
        rw (
          le→ltb (length (xs ++ ys)) 4 (omega (arith, length-append xs ys)),
          get_or-append_left xs ys 0 0 (omega arith),
          five,
          ea',
          same,
          er,
        ),
        used host next inside er,
      )

  -- A SOCKS4 or 4a request that is decoded from a buffer is decoded alike from any longer buffer, and
  -- uses at most the bytes that are there.
  pub decode_socks4_request-append :
      {r : Request}
      → decode_socks4_request xs ≡ returned (some r)
      → (decode_socks4_request (xs ++ ys) ≡ returned (some r)) × (r.consumed ≤ length xs)
  unfolding decode_socks4_request
  decode_socks4_request-append {r} e =
      let (long, four, rest) = socks4_complete e in
      let (same, inside) = socks4_user-append (nul_after xs 8) long refl rest in
      (
        rw (
          le→ltb (length (xs ++ ys)) 9 (omega (arith, length-append xs ys)),
          get_or-append_left xs ys 0 0 (omega arith),
          four,
          same,
        ),
        inside,
      )

  -- The greeting of a SOCKS5 client that is decoded from a buffer is decoded alike from any longer
  -- buffer, and uses at most the bytes that are there.
  pub decode_socks5_greeting-append :
      {g : Greeting}
      → decode_socks5_greeting xs ≡ returned (some g)
      → (decode_socks5_greeting (xs ++ ys) ≡ returned (some g)) × (g.consumed ≤ length xs)
  unfolding decode_socks5_greeting
  decode_socks5_greeting-append {g} e = ground (
    arith,
    length-append xs ys,
    get_or-append_left xs ys 0 0,
    get_or-append_left xs ys 1 0,
    slice-append xs ys 2 (2 + get_or xs 1 0),
  )
