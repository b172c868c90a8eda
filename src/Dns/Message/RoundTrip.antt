-- ===== src/Dns/Message/RoundTrip.antt =====
-- `decodeMessage` reads back the message that `encodeMessage` wrote.
use qjs_lws.Base.{
  ℕ, ◌+◌, ◌≡◌, refl, ◌∙◌, List, [], ◌++◌, length, length-append, append_assoc, returned, append-nil,
  bit_and, false, ltb, le→ltb, arith,
}
use qjs_lws.Base.Bits.{and_ones}
use qjs_lws.Dns.Bytes.{u16_bytes}
use qjs_lws.Text.Numbers.{JsNumbers}
use qjs_lws.Dns.At.{At, At-skip, At-u16, At-skip_u16, At-move}
use qjs_lws.Dns.Rdata.Wire.{IsU16}
use qjs_lws.Dns.Message.{
  Question, Rr, Message, decode_question, encode_question, decode_rr, encode_rr, decode_all,
  encode_all, flags_of, decode_header, encode_header, decode_message, encode_message,
}
use qjs_lws.Dns.Message.Flags.{IsHeader, flag_bits-flags_of}
use qjs_lws.Dns.Message.Sections.{
  WireQuestion, WireRr, WireAll, encode_question-wire, decode_question-wire, encode_rr-wire,
  decode_rr-wire, encode_all-wire, decode_all-wire,
}

-- A message whose header fits and counts the entries, with the bytes of its four sections.
pub record WireMessage (m : Message) (qs rs ns es : List ℕ) : Type 0 where
  pub header : IsHeader m.header
  pub qdcount : m.header.qdcount ≡ length m.questions
  pub ancount : m.header.ancount ≡ length m.answers
  pub nscount : m.header.nscount ≡ length m.authorities
  pub arcount : m.header.arcount ≡ length m.additionals
  pub small_q : IsU16 (length m.questions)
  pub small_a : IsU16 (length m.answers)
  pub small_n : IsU16 (length m.authorities)
  pub small_e : IsU16 (length m.additionals)
  pub questions : WireAll WireQuestion m.questions qs
  pub answers : WireAll WireRr m.answers rs
  pub authorities : WireAll WireRr m.authorities ns
  pub additionals : WireAll WireRr m.additionals es

records-wire :
    (js : JsNumbers) {rrs : List Rr} {bytes : List ℕ}
    → WireAll WireRr rrs bytes
    → encode_all (encode_rr js) rrs ≡ returned bytes
records-wire js ws = encode_all-wire (encode_rr js) (λ x bytes h. encode_rr-wire js h) ws

read_records :
    {rrs : List Rr} {bytes : List ℕ} (count : ℕ) (buf : List ℕ) (p : ℕ) (rest : List ℕ)
    → count ≡ length rrs
    → WireAll WireRr rrs bytes
    → At buf p (bytes ++ rest)
    → decode_all decode_rr count buf p ≡ returned (rrs, p + length bytes)
read_records count buf p rest e ws at = rw e (
    decode_all-wire decode_rr buf (λ x bytes p rest w a. decode_rr-wire buf p rest w a) p rest ws
      at)

read_questions :
    {qs : List Question} {bytes : List ℕ} (count : ℕ) (buf : List ℕ) (p : ℕ) (rest : List ℕ)
    → count ≡ length qs
    → WireAll WireQuestion qs bytes
    → At buf p (bytes ++ rest)
    → decode_all decode_question count buf p ≡ returned (qs, p + length bytes)
read_questions count buf p rest e ws at = rw e (
    decode_all-wire decode_question buf (λ x bytes p rest w a. decode_question-wire buf p rest w a)
      p rest ws at)

module _ {m : Message} {qs rs ns es : List ℕ} (w : WireMessage m qs rs ns es) where
  encode_message-wire :
      (js : JsNumbers)
      → encode_message js m ≡ returned (encode_header m ++ (qs ++ (rs ++ (ns ++ es))))
  unfolding encode_message
  encode_message-wire js = rw (
    encode_all-wire encode_question (λ x bytes h. encode_question-wire h) w.questions,
    records-wire js w.answers,
    records-wire js w.authorities,
    records-wire js w.additionals,
  )

  decode_header-wire : (rest : List ℕ) → decode_header (encode_header m ++ rest) ≡ returned m.header
  unfolding decode_header encode_header
  decode_header-wire rest =
      let buf = encode_header m ++ rest in
      let (fits, qr, opcode, aa, tc, rd, ra, rcode) = flag_bits-flags_of m.header w.header in
      let id : bit_and m.header.id 0xffff ≡ m.header.id =
        and_ones 16 m.header.id ∙ omega (arith, w.header.id) in
      let r5 = u16_bytes (length m.additionals) ++ rest in
      let r4 = u16_bytes (length m.authorities) ++ r5 in
      let r3 = u16_bytes (length m.answers) ++ r4 in
      let r2 = u16_bytes (length m.questions) ++ r3 in
      let r1 = u16_bytes (flags_of m.header) ++ r2 in
      let r0 = u16_bytes (bit_and m.header.id 0xffff) ++ r1 in
      let at_0 : At buf 0 r0 = record { front = []; whole = simp append_assoc; start = refl } in
      let at_1 : At buf 2 r1 = At-skip_u16 (bit_and m.header.id 0xffff) r1 at_0 in
      let at_2 : At buf 4 r2 = At-skip_u16 (flags_of m.header) r2 at_1 in
      let at_3 : At buf 6 r3 = At-skip_u16 (length m.questions) r3 at_2 in
      let at_4 : At buf 8 r4 = At-skip_u16 (length m.answers) r4 at_3 in
      let at_5 : At buf 10 r5 = At-skip_u16 (length m.authorities) r5 at_4 in
      rw (
        At-u16 (flags_of m.header) r2 fits at_1,
        At-u16 (bit_and m.header.id 0xffff) r1 (omega arith) at_0,
        At-u16 (length m.questions) r3 w.small_q at_2,
        At-u16 (length m.answers) r4 w.small_a at_3,
        At-u16 (length m.authorities) r5 w.small_n at_4,
        At-u16 (length m.additionals) rest w.small_e at_5,
        id,
        qr,
        opcode,
        aa,
        tc,
        rd,
        ra,
        rcode,
        ← w.qdcount,
        ← w.ancount,
        ← w.nscount,
        ← w.arcount,
      )

  length-header : length (encode_header m) ≡ 12
  unfolding encode_header u16_bytes
  length-header = refl

  -- The sections, one behind the other.
  decode_message-wire : decode_message (encode_header m ++ (qs ++ (rs ++ (ns ++ es)))) ≡ returned m
  unfolding decode_message
  decode_message-wire =
      let body = qs ++ (rs ++ (ns ++ es)) in
      let buf = encode_header m ++ body in
      let at_h : At buf 0 buf = record { front = []; whole = refl; start = refl } in
      let at_q : At buf 12 body =
        At-move (At-skip (encode_header m) body at_h) (omega (arith, length-header)) in
      let p1 = 12 + length qs in
      let at_a : At buf p1 (rs ++ (ns ++ es)) = At-skip qs (rs ++ (ns ++ es)) at_q in
      let p2 = p1 + length rs in
      let at_n : At buf p2 (ns ++ es) = At-skip rs (ns ++ es) at_a in
      let p3 = p2 + length ns in
      let at_e : At buf p3 (es ++ []) = rw append-nil (At-skip ns es at_n) in
      let long : ltb (length buf) 12 ≡ false =
        le→ltb (length buf) 12
          (omega (arith, length-append (encode_header m) body, length-header)) in
      rw (
        long,
        decode_header-wire body,
        read_questions m.header.qdcount buf 12 (rs ++ (ns ++ es)) w.qdcount w.questions at_q,
        read_records m.header.ancount buf p1 (ns ++ es) w.ancount w.answers at_a,
        read_records m.header.nscount buf p2 es w.nscount w.authorities at_n,
        read_records m.header.arcount buf p3 [] w.arcount w.additionals at_e,
      )

  -- A message with valid names, data and counts is encoded without an error, and decoding the bytes
  -- returns the same message.
  pub decode_message-encode_message :
      (js : JsNumbers)
      → (bytes : List ℕ) × (encode_message js m ≡ returned bytes)
        × (decode_message bytes ≡ returned m)
  decode_message-encode_message js =
      (encode_header m ++ (qs ++ (rs ++ (ns ++ es))), encode_message-wire js, decode_message-wire)
