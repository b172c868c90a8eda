-- ===== src/Dns/Message.antt =====
-- Questions, resource records and whole messages of examples/dns-server/dns-message.js.
pub mod Flags
pub mod Sections
pub mod RoundTrip
use qjs_lws.Base.{
  ℕ, zero, suc, ◌+◌, ◌-◌, ◌*◌, ◌/◌, ◌^◌, Option, none, some, List, [], ◌∷◌, ◌++◌, Text, bit_and,
  bit_or, ltb, length, Outcome, returned, thrown, ◌>>=◌, if◌then◌else◌,
}
use qjs_lws.Dns.Bytes.{
  DnsError, short_message, concat_bytes, get_u16, get_u32, u16_bytes, u32_bytes,
}
use qjs_lws.Dns.Name.{encode_name, decode_name}
use qjs_lws.Text.Numbers.{JsNumbers}
use qjs_lws.Dns.Rdata.{Rdata, encode_rdata, decode_rdata}

pub record Question : Type 0 where
  pub name : Text
  pub qtype : ℕ
  pub qclass : Option ℕ

pub record Rr : Type 0 where
  pub name : Text
  pub rtype : ℕ
  pub rclass : Option ℕ
  pub ttl : ℕ
  pub rdata : Rdata

pub record Header : Type 0 where
  pub id : ℕ
  pub qr : ℕ
  pub opcode : ℕ
  pub aa : ℕ
  pub tc : ℕ
  pub rd : ℕ
  pub ra : ℕ
  pub rcode : ℕ
  pub qdcount : ℕ
  pub ancount : ℕ
  pub nscount : ℕ
  pub arcount : ℕ

pub record Message : Type 0 where
  pub header : Header
  pub questions : List Question
  pub answers : List Rr
  pub authorities : List Rr
  pub additionals : List Rr

-- `q.class ?? CLASS.IN`.
abbrev pub class_or : Option ℕ → ℕ
class_or none = 1
class_or (some c) = c

unfoldable pub decode_question : List ℕ → ℕ → Outcome DnsError (Question × ℕ)
decode_question buf offset = do
  (name, next) ← decode_name buf offset
  type ← get_u16 buf next
  cls ← get_u16 buf (next + 2)
  returned (record { name = name; qtype = type; qclass = some cls }, next + 4)

unfoldable pub encode_question : Question → Outcome DnsError (List ℕ)
encode_question q = do
  name ← encode_name q.name
  returned (name ++ (u16_bytes q.qtype ++ u16_bytes (class_or q.qclass)))

unfoldable pub decode_rr : List ℕ → ℕ → Outcome DnsError (Rr × ℕ)
decode_rr buf offset = do
  (name, next) ← decode_name buf offset
  type ← get_u16 buf next
  cls ← get_u16 buf (next + 2)
  ttl ← get_u32 buf (next + 4)
  rdlength ← get_u16 buf (next + 8)
  let start = next + 10
  let end = start + rdlength
  rdata ← decode_rdata type buf start end
  returned (record { name = name; rtype = type; rclass = some cls; ttl = ttl; rdata = rdata }, end)

unfoldable pub encode_rr : JsNumbers → Rr → Outcome DnsError (List ℕ)
encode_rr js rr = do
  bytes ← encode_rdata js rr.rtype rr.rdata
  name ← encode_name rr.name
  let head =
      u16_bytes rr.rtype
      ++ (u16_bytes (class_or rr.rclass) ++ (u32_bytes rr.ttl ++ u16_bytes (length bytes)))
  returned (name ++ (head ++ bytes))

-- A loop that reads `count` entries, and returns the offset behind them.
unfoldable pub decode_all :
    {A : Type 0}
    → (List ℕ → ℕ → Outcome DnsError (A × ℕ))
    → ℕ
    → List ℕ
    → ℕ
    → Outcome DnsError (List A × ℕ)
decode_all decode zero buf offset = returned ([], offset)
decode_all decode (suc count) buf offset = do
  (entry, next) ← decode buf offset
  (entries, end) ← decode_all decode count buf next
  returned (entry ∷ entries, end)

unfoldable pub encode_all :
    {A : Type 0} → (A → Outcome DnsError (List ℕ)) → List A → Outcome DnsError (List ℕ)
encode_all encode [] = returned []
encode_all encode (x ∷ xs) = do
  bytes ← encode x
  rest ← encode_all encode xs
  returned (bytes ++ rest)

-- `(flags >> shift) & mask`, with the mask of so many ones.
unfoldable pub flag_bits : ℕ → ℕ → ℕ → ℕ
flag_bits flags shift ones = bit_and (flags / 2 ^ shift) (2 ^ ones - 1)

unfoldable pub flags_of : Header → ℕ
flags_of h =
    let f = bit_and h.qr 1 * 2 ^ 15 in
    let f = bit_or f (bit_and h.opcode 0xf * 2 ^ 11) in
    let f = bit_or f (bit_and h.aa 1 * 2 ^ 10) in
    let f = bit_or f (bit_and h.tc 1 * 2 ^ 9) in
    let f = bit_or f (bit_and h.rd 1 * 2 ^ 8) in
    let f = bit_or f (bit_and h.ra 1 * 2 ^ 7) in bit_or f (bit_and h.rcode 0xf)

unfoldable pub decode_header : List ℕ → Outcome DnsError Header
decode_header buf = do
  flags ← get_u16 buf 2
  id ← get_u16 buf 0
  qdcount ← get_u16 buf 4
  ancount ← get_u16 buf 6
  nscount ← get_u16 buf 8
  arcount ← get_u16 buf 10
  returned (record {
    id = id;
    qr = flag_bits flags 15 1;
    opcode = flag_bits flags 11 4;
    aa = flag_bits flags 10 1;
    tc = flag_bits flags 9 1;
    rd = flag_bits flags 8 1;
    ra = flag_bits flags 7 1;
    rcode = flag_bits flags 0 4;
    qdcount = qdcount;
    ancount = ancount;
    nscount = nscount;
    arcount = arcount;
  })

unfoldable pub encode_header : Message → List ℕ
encode_header msg =
    u16_bytes (bit_and msg.header.id 0xffff)
    ++ (u16_bytes (flags_of msg.header)
        ++ (u16_bytes (length msg.questions)
            ++ (u16_bytes (length msg.answers)
                ++ (u16_bytes (length msg.authorities) ++ u16_bytes (length msg.additionals)))))

unfoldable pub decode_message : List ℕ → Outcome DnsError Message
decode_message buf =
    let body = (do
      header ← decode_header buf
      (questions, offset) ← decode_all decode_question header.qdcount buf 12
      (answers, offset) ← decode_all decode_rr header.ancount buf offset
      (authorities, offset) ← decode_all decode_rr header.nscount buf offset
      (additionals, offset) ← decode_all decode_rr header.arcount buf offset
      returned (record {
        header = header;
        questions = questions;
        answers = answers;
        authorities = authorities;
        additionals = additionals;
      })) in
    if ltb (length buf) 12 then thrown short_message else body

unfoldable pub encode_message : JsNumbers → Message → Outcome DnsError (List ℕ)
encode_message js msg = do
  questions ← encode_all encode_question msg.questions
  answers ← encode_all (encode_rr js) msg.answers
  authorities ← encode_all (encode_rr js) msg.authorities
  additionals ← encode_all (encode_rr js) msg.additionals
  returned (encode_header msg ++ (questions ++ (answers ++ (authorities ++ additionals))))

-- `buildQuery`, with the options that set `rd`.
unfoldable pub build_query : JsNumbers → (name : Text) (type id rd : ℕ) → Outcome DnsError (List ℕ)
build_query js name type id rd = encode_message js (record {
  header = record {
    id = id;
    qr = 0;
    opcode = 0;
    aa = 0;
    tc = 0;
    rd = rd;
    ra = 0;
    rcode = 0;
    qdcount = 0;
    ancount = 0;
    nscount = 0;
    arcount = 0;
  };
  questions = record { name = name; qtype = type; qclass = some 1 } ∷ [];
  answers = [];
  authorities = [];
  additionals = [];
})
