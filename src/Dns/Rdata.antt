-- ===== src/Dns/Rdata.antt =====
-- `decodeRdata` and `encodeRdata` of examples/dns-server/dns-message.js.
pub mod Wire
use qjs_lws.Base.{
  ℕ, zero, suc, ◌+◌, ◌-◌, ◌%◌, ◌||◌, Option, none, some, List, [], ◌∷◌, ◌++◌, Text, ltb, ◌==◌,
  length, get_elem?, slice, Outcome, returned, thrown, stuck, ◌>>=◌, if◌then◌else◌,
}
use qjs_lws.Dns.Bytes.{
  DnsError, type_error, concat_bytes, label_bytes, bytes_to_label, get_u16, get_u32, u16_bytes,
  u32_bytes,
}
use qjs_lws.Dns.Name.{encode_name, decode_name}
use qjs_lws.Text.Numbers.{JsNumbers}
use qjs_lws.Dns.Address.{ipv4_to_bytes, ipv4_to_string, ipv6_to_bytes, ipv6_to_string}

-- The object in `rr.rdata`, by the fields that it has; `raw` is `none` where the field is missing.
pub data Rdata : Type 0 where
  address : Text → Rdata
  target : Text → Rdata
  soa : (mname rname : Text) (serial refresh retry expire minimum : ℕ) → Rdata
  mx : (preference : ℕ) (exchange : Text) → Rdata
  txt : List Text → Rdata
  raw : Option (List ℕ) → Rdata

-- The table TYPE.
pub data Kind : Type 0 where
  kind_a kind_aaaa kind_name kind_soa kind_mx kind_txt kind_other : Kind

-- The cases of the two `switch` statements.
unfoldable pub kind_of : ℕ → Kind
kind_of type =
    if type == 1
    then kind_a
    else if type == 28
    then kind_aaaa
    else if (type == 2 || type == 5) || type == 12
    then kind_name
    else if type == 6
    then kind_soa
    else if type == 15
    then kind_mx
    else if type == 16
    then kind_txt
    else kind_other

-- The loop over a TXT record; past the end of the message the length byte is `undefined`, which
-- pushes an empty text and ends the loop, since `NaN < end` is false.
unfoldable pub decode_texts : ℕ → List ℕ → (p end : ℕ) → List Text → Outcome DnsError Rdata
decode_texts zero buf p end text = stuck
decode_texts (suc fuel) buf p end text =
    let next : Outcome DnsError Rdata = elim (get_elem? buf p) [
      | none ↦ returned (txt (text ++ [] ∷ []))
      | some len ↦
          decode_texts fuel buf (p + (1 + len)) end
            (text ++ bytes_to_label (slice buf (p + 1) (p + 1 + len)) ∷ [])
    ] in
    if ltb p end then next else returned (txt text)

unfoldable pub decode_soa : List ℕ → ℕ → Outcome DnsError Rdata
decode_soa buf start = do
  (mname, after) ← decode_name buf start
  (rname, p) ← decode_name buf after
  serial ← get_u32 buf p
  refresh ← get_u32 buf (p + 4)
  retry ← get_u32 buf (p + 8)
  expire ← get_u32 buf (p + 12)
  minimum ← get_u32 buf (p + 16)
  returned (soa mname rname serial refresh retry expire minimum)

unfoldable pub decode_mx : List ℕ → ℕ → Outcome DnsError Rdata
decode_mx buf start = do
  preference ← get_u16 buf start
  (exchange, _) ← decode_name buf (start + 2)
  returned (mx preference exchange)

unfoldable pub decode_target : List ℕ → ℕ → Outcome DnsError Rdata
decode_target buf start = do (name, _) ← decode_name buf start; returned (target name)

unfoldable pub decode_kind : Kind → List ℕ → (start end : ℕ) → Outcome DnsError Rdata
decode_kind kind_a buf start end = returned (address (ipv4_to_string (slice buf start end)))
decode_kind kind_aaaa buf start end = returned (address (ipv6_to_string (slice buf start end)))
decode_kind kind_name buf start end = decode_target buf start
decode_kind kind_soa buf start end = decode_soa buf start
decode_kind kind_mx buf start end = decode_mx buf start
decode_kind kind_txt buf start end = decode_texts (suc (end - start)) buf start end []
decode_kind kind_other buf start end = returned (raw (some (slice buf start end)))

unfoldable pub decode_rdata : ℕ → List ℕ → (start end : ℕ) → Outcome DnsError Rdata
decode_rdata type buf start end = decode_kind (kind_of type) buf start end

unfoldable pub text_bytes : List Text → List ℕ
text_bytes [] = []
text_bytes (s ∷ ss) = (length s % 256) ∷ (label_bytes s ++ text_bytes ss)

unfoldable pub encode_soa :
    (mname rname : Text) (serial refresh retry expire minimum : ℕ) → Outcome DnsError (List ℕ)
encode_soa mname rname serial refresh retry expire minimum = do
  m ← encode_name mname
  r ← encode_name rname
  let tail =
      u32_bytes serial
      ++ (u32_bytes refresh ++ (u32_bytes retry ++ (u32_bytes expire ++ u32_bytes minimum)))
  returned (m ++ (r ++ tail))

-- A field that the object lacks is `undefined`, on which each of these methods throws.
unfoldable pub encode_kind : JsNumbers → Kind → Rdata → Outcome DnsError (List ℕ)
encode_kind js kind_a (address a) = ipv4_to_bytes js a
encode_kind js kind_aaaa (address a) = ipv6_to_bytes js a
encode_kind js kind_name (target name) = encode_name name
encode_kind js kind_soa (soa mname rname serial refresh retry expire minimum) =
    encode_soa mname rname serial refresh retry expire minimum
encode_kind js kind_mx (mx preference exchange) = do
  name ← encode_name exchange
  returned (u16_bytes preference ++ name)
encode_kind js kind_txt (txt text) = returned (text_bytes text)
encode_kind js kind_other (raw (some bytes)) = returned bytes
encode_kind js kind_other _ = returned []
encode_kind js _ _ = thrown type_error

unfoldable pub encode_rdata : JsNumbers → ℕ → Rdata → Outcome DnsError (List ℕ)
encode_rdata js type rdata = encode_kind js (kind_of type) rdata
