-- ===== src/Dns/Message/Sections.antt =====
-- Questions, records and lists of them: what is written is read back at any place.
use qjs_lws.Base.{
  ℕ, ◌+◌, ◌≡◌, refl, ap, some, List, [], ◌∷◌, ◌++◌, Text, length, length-append, append_assoc,
  Outcome, returned, arith,
}
use qjs_lws.Dns.Bytes.{DnsError, u16_bytes, u32_bytes}
use qjs_lws.Dns.Name.{print_name}
use qjs_lws.Dns.Name.Print.{wire, encode_name-wire}
use qjs_lws.Text.Numbers.{JsNumbers}
use qjs_lws.Dns.At.{
  At, At-skip, At-name, At-u16, At-u32, At-skip_u16, At-skip_u32, At-move, At-assoc, length-u16,
}
use qjs_lws.Dns.Rdata.{Rdata, kind_of}
use qjs_lws.Dns.Rdata.Wire.{AllLabels, IsU16, IsU32, WireKind, encode_rdata-wire, decode_rdata-wire}
use qjs_lws.Dns.Message.{
  Question, Rr, decode_question, encode_question, decode_rr, encode_rr, decode_all, encode_all,
}

-- A question with these bytes.
pub data WireQuestion : Question → List ℕ → Type 0 where
  asks :
      (ls : List Text) (type cls : ℕ)
      → AllLabels ls
      → IsU16 type
      → IsU16 cls
      → WireQuestion
          (record { name = print_name ls; qtype = type; qclass = some cls })
          (wire ls ++ (u16_bytes type ++ u16_bytes cls))

-- A resource record with these bytes.
pub data WireRr : Rr → List ℕ → Type 0 where
  holds :
      (ls : List Text) (type cls ttl : ℕ) (rdata : Rdata) (bytes : List ℕ)
      → AllLabels ls
      → IsU16 type
      → IsU16 cls
      → IsU32 ttl
      → IsU16 (length bytes)
      → WireKind (kind_of type) rdata bytes
      → WireRr
          (record {
            name = print_name ls;
            rtype = type;
            rclass = some cls;
            ttl = ttl;
            rdata = rdata;
          })
          (wire ls
            ++ ((u16_bytes type ++ (u16_bytes cls ++ (u32_bytes ttl ++ u16_bytes (length bytes))))
                ++ bytes))

pub encode_question-wire :
    {q : Question} {bytes : List ℕ} → WireQuestion q bytes → encode_question q ≡ returned bytes
unfolding encode_question
encode_question-wire (asks ls type cls h ht hc) = rw (encode_name-wire ls h)

pub decode_question-wire :
    {q : Question} {bytes : List ℕ} (buf : List ℕ) (p : ℕ) (rest : List ℕ)
    → WireQuestion q bytes
    → At buf p (bytes ++ rest)
    → decode_question buf p ≡ returned (q, p + length bytes)
unfolding decode_question
decode_question-wire buf p rest (asks ls type cls h ht hc) at =
    let tail = u16_bytes cls ++ rest in
    let at' = At-assoc (wire ls) (u16_bytes type ++ u16_bytes cls) rest at in
    let behind = At-skip (wire ls) ((u16_bytes type ++ u16_bytes cls) ++ rest) at' in
    let at_t = At-assoc (u16_bytes type) (u16_bytes cls) rest behind in
    let at_c = At-skip_u16 type tail at_t in
    rw
      (
        At-name ls ((u16_bytes type ++ u16_bytes cls) ++ rest) h at',
        At-u16 type tail ht at_t,
        At-u16 cls rest hc at_c,
      )
      (ap (λ n. returned (record { name = print_name ls; qtype = type; qclass = some cls }, n))
        (omega (
          arith,
          length-append (wire ls) (u16_bytes type ++ u16_bytes cls),
          length-append (u16_bytes type) (u16_bytes cls),
          length-u16 type,
          length-u16 cls,
        )))

pub encode_rr-wire :
    (js : JsNumbers) {rr : Rr} {bytes : List ℕ} → WireRr rr bytes → encode_rr js rr ≡ returned bytes
unfolding encode_rr
encode_rr-wire js (holds ls type cls ttl rdata bytes h ht hc hl hn w) =
    rw (encode_rdata-wire js type w, encode_name-wire ls h)

right_five :
    (a b c d e f rest : List ℕ)
    → (a ++ ((b ++ (c ++ (d ++ e))) ++ f)) ++ rest ≡ a ++ (b ++ (c ++ (d ++ (e ++ (f ++ rest)))))
right_five a b c d e f rest = simp append_assoc

length-rr :
    (name bytes : List ℕ) (p type cls ttl : ℕ)
    → p + length name + 10 + length bytes
      ≡ p
        + length (
            name
            ++ ((u16_bytes type ++ (u16_bytes cls ++ (u32_bytes ttl ++ u16_bytes (length bytes))))
                ++ bytes))
unfolding u16_bytes u32_bytes
length-rr name bytes p type cls ttl =
    let head = u16_bytes type ++ (u16_bytes cls ++ (u32_bytes ttl ++ u16_bytes (length bytes))) in
    omega (arith, length-append name (head ++ bytes))

pub decode_rr-wire :
    {rr : Rr} {bytes : List ℕ} (buf : List ℕ) (p : ℕ) (rest : List ℕ)
    → WireRr rr bytes
    → At buf p (bytes ++ rest)
    → decode_rr buf p ≡ returned (rr, p + length bytes)
unfolding decode_rr
decode_rr-wire buf p rest (holds ls type cls ttl rdata bytes h ht hc hl hn w) at =
    let size = u16_bytes (length bytes) in
    let r4 = bytes ++ rest in
    let r3 = size ++ r4 in
    let r2 = u32_bytes ttl ++ r3 in
    let r1 = u16_bytes cls ++ r2 in
    let r0 = u16_bytes type ++ r1 in
    let n = p + length (wire ls) in
    let at' : At buf p (wire ls ++ r0) =
      rw (right_five (wire ls) (u16_bytes type) (u16_bytes cls) (u32_bytes ttl) size bytes rest) at
        at in
    let at_0 : At buf n r0 = At-skip (wire ls) r0 at' in
    let at_1 : At buf (n + 2) r1 = At-skip_u16 type r1 at_0 in
    let at_2 : At buf (n + 4) r2 = At-move (At-skip_u16 cls r2 at_1) (omega arith) in
    let at_3 : At buf (n + 8) r3 = At-move (At-skip_u32 ttl r3 at_2) (omega arith) in
    let at_4 : At buf (n + 10) r4 = At-move (At-skip_u16 (length bytes) r4 at_3) (omega arith) in
    rw
      (
        At-name ls r0 h at',
        At-u16 type r1 ht at_0,
        At-u16 cls r2 hc at_1,
        At-u32 ttl r3 hl at_2,
        At-u16 (length bytes) r4 hn at_3,
        decode_rdata-wire type buf (n + 10) rest w at_4,
      )
      (ap
        (λ end. returned (
          record {
            name = print_name ls;
            rtype = type;
            rclass = some cls;
            ttl = ttl;
            rdata = rdata;
          },
          end,
        ))
        (length-rr (wire ls) bytes p type cls ttl))

-- A list of entries with its bytes, and how many bytes those are.
pub data WireAll {A : Type 0} (Wire : A → List ℕ → Type 0) : List A → List ℕ → Type 0 where
  none : WireAll Wire [] []
  more :
      {x : A} {xs : List A} (bytes rest : List ℕ)
      → Wire x bytes
      → WireAll Wire xs rest
      → WireAll Wire (x ∷ xs) (bytes ++ rest)

module _ {A : Type 0} {Wire : A → List ℕ → Type 0} where
  pub encode_all-wire :
      (encode : A → Outcome DnsError (List ℕ))
      → ((x : A) (bytes : List ℕ) → Wire x bytes → encode x ≡ returned bytes)
      → {xs : List A} {bytes : List ℕ} → WireAll Wire xs bytes
      → encode_all encode xs ≡ returned bytes
  unfolding encode_all
  encode_all-wire encode each none = refl
  encode_all-wire encode each (more bytes rest w ws) =
      rw (each _ bytes w, encode_all-wire encode each ws)

  pub decode_all-wire :
      (decode : List ℕ → ℕ → Outcome DnsError (A × ℕ)) (buf : List ℕ)
      → ((x : A) (bytes : List ℕ) (p : ℕ) (rest : List ℕ)
          → Wire x bytes
          → At buf p (bytes ++ rest)
          → decode buf p ≡ returned (x, p + length bytes))
      → {xs : List A} {bytes : List ℕ} (p : ℕ) (rest : List ℕ) → WireAll Wire xs bytes
      → At buf p (bytes ++ rest)
      → decode_all decode (length xs) buf p ≡ returned (xs, p + length bytes)
  unfolding decode_all
  decode_all-wire decode buf each p rest none at = ap (λ n. returned ([], n)) (omega arith)
  decode_all-wire decode buf each p rest (more {x} {xs} bytes others w ws) at =
      let at' = At-assoc bytes others rest at in
      rw
        (
          each x bytes p (others ++ rest) w at',
          decode_all-wire decode buf each (p + length bytes) rest ws
              (At-skip bytes (others ++ rest) at'),
        )
        (ap (λ n. returned (x ∷ xs, n)) (omega (arith, length-append bytes others)))
