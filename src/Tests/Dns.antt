-- ===== src/Tests/Dns.antt =====
-- Runs of the DNS codec.
use qjs_lws.Base.{
  ℕ, ◌+◌, ◌<◌, ◌≤◌, ◌≡◌, refl, some, All, List, [], ◌∷◌, ◌++◌, Text, length, returned, stuck, ◌≢◌,
  arith,
}
use qjs_lws.Text.{text, contains}
use qjs_lws.Tests.Numbers.{js_numbers}
use qjs_lws.Dns.Bytes.{u16_bytes, u32_bytes}
use qjs_lws.Dns.Name.{encode_name, decode_name, print_name}
use qjs_lws.Dns.Name.Print.{IsLabel, wire}
use qjs_lws.Dns.Name.RoundTrip.{decode_name-encode_name, decode_name-wire}
use qjs_lws.Dns.Name.Total.{decode_name-ne-stuck}
use qjs_lws.Dns.Name.Bounds.{decode_name_bounds}
use qjs_lws.Dns.Address.{ipv4_to_string}
use qjs_lws.Dns.Address.RoundTrip.{BytePair}
use qjs_lws.Dns.Rdata.{address, kind_of}
use qjs_lws.Dns.Rdata.Wire.{WireKind, v4}
use qjs_lws.Dns.Message.{Header, Message, encode_message, decode_message}
use qjs_lws.Dns.Message.Flags.{IsHeader}
use qjs_lws.Dns.Message.Sections.{asks, holds, none, more}
use qjs_lws.Dns.Message.RoundTrip.{WireMessage, decode_message-encode_message}

abbrev labels : List Text
labels = text "lws" ∷ text "io" ∷ []

lws-IsLabel : IsLabel (text "lws")
unfolding contains
lws-IsLabel = record {
  nonempty = omega arith;
  short = omega arith;
  free = refl;
  bytes = (omega arith, (omega arith, (omega arith, tt)));
}

io-IsLabel : IsLabel (text "io")
unfolding contains
io-IsLabel = record {
  nonempty = omega arith;
  short = omega arith;
  free = refl;
  bytes = (omega arith, (omega arith, tt));
}

abbrev header : Header
header = record {
  id = 4660;
  qr = 1;
  opcode = 0;
  aa = 0;
  tc = 0;
  rd = 1;
  ra = 1;
  rcode = 0;
  qdcount = 1;
  ancount = 1;
  nscount = 0;
  arcount = 0;
}

header-IsHeader : IsHeader header
header-IsHeader = record {
  id = omega arith;
  qr = omega arith;
  opcode = omega arith;
  aa = omega arith;
  tc = omega arith;
  rd = omega arith;
  ra = omega arith;
  rcode = omega arith;
}

-- An answer with one question and one address record.
abbrev message : Message
message = record {
  header = header;
  questions = record { name = print_name labels; qtype = 1; qclass = some 1 } ∷ [];
  answers =
      record {
        name = print_name labels;
        rtype = 1;
        rclass = some 1;
        ttl = 300;
        rdata = address (ipv4_to_string (192 ∷ 0 ∷ 2 ∷ 1 ∷ []));
      }
      ∷ [];
  authorities = [];
  additionals = [];
}

address-WireKind :
    WireKind (kind_of 1) (address (ipv4_to_string (192 ∷ 0 ∷ 2 ∷ 1 ∷ []))) (192 ∷ 0 ∷ 2 ∷ 1 ∷ [])
unfolding kind_of
address-WireKind =
    v4 {a = 192} {b = 0} {c = 2} {d = 1}
      (omega arith, (omega arith, (omega arith, (omega arith, tt))))

labels-IsLabel : All IsLabel labels
labels-IsLabel = (lws-IsLabel, (io-IsLabel, tt))

abbrev question_bytes : List ℕ
question_bytes = wire labels ++ (u16_bytes 1 ++ u16_bytes 1)

abbrev answer_bytes : List ℕ
answer_bytes =
    wire labels
    ++ ((u16_bytes 1 ++ (u16_bytes 1 ++ (u32_bytes 300 ++ u16_bytes 4))) ++ 192 ∷ 0 ∷ 2 ∷ 1 ∷ [])

message-WireMessage : WireMessage message (question_bytes ++ []) (answer_bytes ++ []) [] []
message-WireMessage = record {
  header = header-IsHeader;
  qdcount = refl;
  ancount = refl;
  nscount = refl;
  arcount = refl;
  small_q = omega arith;
  small_a = omega arith;
  small_n = omega arith;
  small_e = omega arith;
  questions =
      more question_bytes [] (asks labels 1 1 labels-IsLabel (omega arith) (omega arith)) none;
  answers =
      more answer_bytes []
        (holds labels 1 1 300 (address (ipv4_to_string (192 ∷ 0 ∷ 2 ∷ 1 ∷ [])))
          (192 ∷ 0 ∷ 2 ∷ 1 ∷ []) labels-IsLabel (omega arith) (omega arith) (omega arith)
          (omega arith) address-WireKind)
        none;
  authorities = none;
  additionals = none;
}

decode_message-encode_message_example :
    (bytes : List ℕ) × (encode_message js_numbers message ≡ returned bytes)
    × (decode_message bytes ≡ returned message)
decode_message-encode_message_example = decode_message-encode_message message-WireMessage js_numbers

decode_name-encode_name_example :
    (bytes : List ℕ) × (encode_name (print_name labels) ≡ returned bytes)
    × (decode_name ((1 ∷ 2 ∷ []) ++ (bytes ++ 7 ∷ [])) 2
        ≡ returned (print_name labels, 2 + length bytes))
decode_name-encode_name_example =
    decode_name-encode_name labels (1 ∷ 2 ∷ []) (7 ∷ []) labels-IsLabel

-- A pointer to itself.
decode_name-ne-stuck_example : decode_name (0xc0 ∷ 0 ∷ []) 0 ≢ stuck
decode_name-ne-stuck_example = decode_name-ne-stuck (0xc0 ∷ 0 ∷ []) 0

decode_name_bounds_example : (0 < 8) × (8 ≤ length (wire labels ++ []))
decode_name_bounds_example =
    decode_name_bounds (wire labels ++ []) 0 (decode_name-wire labels [] [] labels-IsLabel)

abbrev pairs : List (ℕ × ℕ)
pairs = (32, 1) ∷ (13, 184) ∷ (0, 0) ∷ (0, 0) ∷ (0, 0) ∷ (0, 0) ∷ (0, 0) ∷ (0, 1) ∷ []

pairs-BytePair : All BytePair pairs
pairs-BytePair = (
  (omega arith, omega arith),
  (
    (omega arith, omega arith),
    (
      (omega arith, omega arith),
      (
        (omega arith, omega arith),
        (
          (omega arith, omega arith),
          (
            (omega arith, omega arith),
            ((omega arith, omega arith), ((omega arith, omega arith), tt)),
          ),
        ),
      ),
    ),
  ),
)
