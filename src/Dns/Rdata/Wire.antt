-- ===== src/Dns/Rdata/Wire.antt =====
-- Resource data that can be written, its bytes, and the round trip.
use qjs_lws.Base.{
  ℕ, zero, suc, ◌+◌, ◌-◌, ◌≤◌, ◌<◌, ◌≡◌, refl, ap, ◌∙◌, some, List, [], ◌∷◌, ◌++◌, Text, All,
  length, length-append, append_assoc, append-nil, returned, arith,
}
use qjs_lws.Dns.Bytes.{u16_bytes, u32_bytes}
use qjs_lws.Dns.Name.{print_name}
use qjs_lws.Dns.Name.Print.{IsByte, IsLabel, wire, encode_name-wire, label_bytes-same}
use qjs_lws.Dns.Name.RoundTrip.{bytes_to_label-same}
use qjs_lws.Text.Numbers.{JsNumbers}
use qjs_lws.Dns.Address.{ipv4_to_string, ipv6_to_string}
use qjs_lws.Dns.Address.RoundTrip.{
  pair_bytes, BytePair, ipv4_to_bytes-to_string, ipv6_to_bytes-to_string,
}
use qjs_lws.Dns.At.{
  At, At-skip, At-slice, At-name, At-u16, At-u32, At-elem, At-skip_one, At-skip_u16, At-skip_u32,
  At-move, At-assoc,
}
use qjs_lws.Dns.Rdata.{
  Rdata, address, target, soa, mx, txt, raw, Kind, kind_a, kind_aaaa, kind_name, kind_soa, kind_mx,
  kind_txt, kind_other, kind_of, decode_rdata, encode_rdata, decode_texts, decode_kind, encode_kind,
  text_bytes, encode_soa, decode_soa, decode_mx, decode_target,
}

abbrev pub IsU16 : ℕ → Type 0
IsU16 n = n < 65536

abbrev pub IsU32 : ℕ → Type 0
IsU32 n = n < 4294967296

-- A character string of a TXT record.
abbrev pub IsString : Text → Type 0
IsString s = (length s < 256) × All IsByte s

abbrev pub AllLabels : List Text → Type 0
AllLabels ls = All IsLabel ls

-- `rdata` fits the kind of record and stands on the wire as these bytes.
pub data WireKind : Kind → Rdata → List ℕ → Type 0 where
  v4 :
      {a b c d : ℕ}
      → All IsByte (a ∷ b ∷ c ∷ d ∷ [])
      → WireKind kind_a (address (ipv4_to_string (a ∷ b ∷ c ∷ d ∷ []))) (a ∷ b ∷ c ∷ d ∷ [])
  v6 :
      (ps : List (ℕ × ℕ))
      → length ps ≡ 8
      → All BytePair ps
      → WireKind kind_aaaa (address (ipv6_to_string (pair_bytes ps))) (pair_bytes ps)
  name : (ls : List Text) → AllLabels ls → WireKind kind_name (target (print_name ls)) (wire ls)
  start :
      (ms rs : List Text) {serial refresh retry expire minimum : ℕ}
      → AllLabels ms
      → AllLabels rs
      → All IsU32 (serial ∷ refresh ∷ retry ∷ expire ∷ minimum ∷ [])
      → WireKind kind_soa
          (soa (print_name ms) (print_name rs) serial refresh retry expire minimum)
          (wire ms
            ++ (wire rs
                ++ (u32_bytes serial
                    ++ (u32_bytes refresh
                        ++ (u32_bytes retry ++ (u32_bytes expire ++ u32_bytes minimum))))))
  mail :
      {preference : ℕ} (ls : List Text)
      → IsU16 preference
      → AllLabels ls
      → WireKind kind_mx (mx preference (print_name ls)) (u16_bytes preference ++ wire ls)
  texts : (ss : List Text) → All IsString ss → WireKind kind_txt (txt ss) (text_bytes ss)
  other : (bytes : List ℕ) → WireKind kind_other (raw (some bytes)) bytes

encode_kind-wire :
    (js : JsNumbers) {k : Kind} {r : Rdata} {bytes : List ℕ}
    → WireKind k r bytes
    → encode_kind js k r ≡ returned bytes
unfolding encode_kind encode_soa
encode_kind-wire js (v4 {a} {b} {c} {d} h) = ipv4_to_bytes-to_string js a b c d h
encode_kind-wire js (v6 ps n h) = ipv6_to_bytes-to_string js ps n h
encode_kind-wire js (name ls h) = encode_name-wire ls h
encode_kind-wire js (start ms rs hm hr h) = rw (encode_name-wire ms hm, encode_name-wire rs hr)
encode_kind-wire js (mail ls p h) = rw (encode_name-wire ls h)
encode_kind-wire js (texts ss h) = refl
encode_kind-wire js (other bytes) = refl

text_bytes-cons :
    (s : Text) (ss : List Text) (rest : List ℕ)
    → IsString s
    → text_bytes (s ∷ ss) ++ rest ≡ length s ∷ (s ++ (text_bytes ss ++ rest))
unfolding text_bytes
text_bytes-cons s ss rest (short, bytes) =
    ground (arith, label_bytes-same s bytes, append_assoc s (text_bytes ss) rest)

length-text_bytes :
    (s : Text) (ss : List Text) (h : IsString s)
    → length (text_bytes (s ∷ ss)) ≡ 1 + length s + length (text_bytes ss)
unfolding text_bytes
length-text_bytes s ss (short, bytes) =
    ground (arith, label_bytes-same s bytes, length-append s (text_bytes ss))

-- One round of the loop, at the character string `s`.
decode_texts_step :
    (s : Text) (fuel : ℕ) (buf : List ℕ) (p end : ℕ) (text : List Text) (tail : List ℕ)
    → At buf p (length s ∷ (s ++ tail))
    → p < end
    → decode_texts (suc fuel) buf p end text
      ≡ decode_texts fuel buf (p + (1 + length s)) end (text ++ s ∷ [])
unfolding decode_texts
decode_texts_step s fuel buf p end text tail at more = ground (
  arith,
  At-elem (length s) (s ++ tail) at,
  At-slice s tail (At-skip_one (length s) (s ++ tail) at),
  bytes_to_label-same s,
)

decode_texts-wire :
    (ss : List Text) (fuel : ℕ) (buf : List ℕ) (p end : ℕ) (text : List Text) (rest : List ℕ)
    → All IsString ss
    → At buf p (text_bytes ss ++ rest)
    → end ≡ p + length (text_bytes ss)
    → length ss < fuel
    → decode_texts fuel buf p end text ≡ returned (txt (text ++ ss))
decode_texts-wire ss zero buf p end text rest h at e enough = absurd (omega arith)
decode_texts-wire [] (suc fuel) buf p end text rest h at e enough =
    rw append-nil (unfold decode_texts text_bytes in ground arith)
decode_texts-wire (s ∷ ss) (suc fuel) buf p end text rest (hs, h) at e enough =
    let tail = text_bytes ss ++ rest in
    let at' : At buf p (length s ∷ (s ++ tail)) = rw (text_bytes-cons s ss rest hs) at at in
    let after : At buf (p + 1 + length s) tail =
      At-skip s tail (At-skip_one (length s) (s ++ tail) at') in
    let size = length-text_bytes s ss hs in
    decode_texts_step s fuel buf p end text tail at' (omega (arith, size))
    ∙ decode_texts-wire ss fuel buf (p + (1 + length s)) end (text ++ s ∷ []) rest h
        (At-move after (omega arith)) (omega (arith, size)) (omega arith)
    ∙ ap (λ t. returned (txt t)) (append_assoc text (s ∷ []) ss)

texts-le : (ss : List Text) → All IsString ss → length ss ≤ length (text_bytes ss)
texts-le [] h = omega arith
texts-le (s ∷ ss) (hs, h) = omega (arith, length-text_bytes s ss hs, texts-le ss h)

-- The names of an SOA record and the five numbers behind them.
decode_soa-wire :
    (buf : List ℕ) (p : ℕ) (rest : List ℕ) (ms rs : List Text) (a b c d e : ℕ)
    → AllLabels ms
    → AllLabels rs
    → All IsU32 (a ∷ b ∷ c ∷ d ∷ e ∷ [])
    → At buf p (
        wire ms
        ++ (wire rs
            ++ (u32_bytes a
                ++ (u32_bytes b ++ (u32_bytes c ++ (u32_bytes d ++ (u32_bytes e ++ rest)))))))
    → decode_soa buf p ≡ returned (soa (print_name ms) (print_name rs) a b c d e)
unfolding decode_soa
decode_soa-wire buf p rest ms rs a b c d e hm hr (ha, (hb, (hc, (hd, (he, _))))) at =
    let re = u32_bytes e ++ rest in
    let rd = u32_bytes d ++ re in
    let rc = u32_bytes c ++ rd in
    let rb = u32_bytes b ++ rc in
    let ra = u32_bytes a ++ rb in
    let q = p + length (wire ms) in
    let n = q + length (wire rs) in
    let at_r = At-skip (wire ms) (wire rs ++ ra) at in
    let at_a = At-skip (wire rs) ra at_r in
    let at_b : At buf (n + 4) rb = At-skip_u32 a rb at_a in
    let at_c : At buf (n + 8) rc = At-move (At-skip_u32 b rc at_b) (omega arith) in
    let at_d : At buf (n + 12) rd = At-move (At-skip_u32 c rd at_c) (omega arith) in
    let at_e : At buf (n + 16) re = At-move (At-skip_u32 d re at_d) (omega arith) in
    rw (
      At-name ms (wire rs ++ ra) hm at,
      At-name rs ra hr at_r,
      At-u32 a rb ha at_a,
      At-u32 b rc hb at_b,
      At-u32 c rd hc at_c,
      At-u32 d re hd at_d,
      At-u32 e rest he at_e,
    )

decode_mx-wire :
    (buf : List ℕ) (p : ℕ) (rest : List ℕ) (preference : ℕ) (ls : List Text)
    → IsU16 preference
    → AllLabels ls
    → At buf p (u16_bytes preference ++ (wire ls ++ rest))
    → decode_mx buf p ≡ returned (mx preference (print_name ls))
unfolding decode_mx
decode_mx-wire buf p rest preference ls hp h at =
    let tail = wire ls ++ rest in
    rw (At-u16 preference tail hp at, At-name ls rest h (At-skip_u16 preference tail at))

-- Six appended parts and what follows, bracketed to the right.
right_six :
    (a b c d e f g rest : List ℕ)
    → (a ++ (b ++ (c ++ (d ++ (e ++ (f ++ g)))))) ++ rest
      ≡ a ++ (b ++ (c ++ (d ++ (e ++ (f ++ (g ++ rest))))))
right_six a b c d e f g rest = simp append_assoc

-- Resource data is read back as it was, whatever stands before and behind it.
decode_kind-wire :
    {k : Kind} {r : Rdata} {bytes : List ℕ} (buf : List ℕ) (p : ℕ) (rest : List ℕ)
    → WireKind k r bytes
    → At buf p (bytes ++ rest)
    → decode_kind k buf p (p + length bytes) ≡ returned r
unfolding decode_kind
decode_kind-wire buf p rest (v4 {a} {b} {c} {d} h) at =
    ap (λ bs. returned (address (ipv4_to_string bs))) (At-slice (a ∷ b ∷ c ∷ d ∷ []) rest at)
decode_kind-wire buf p rest (v6 ps n h) at =
    ap (λ bs. returned (address (ipv6_to_string bs))) (At-slice (pair_bytes ps) rest at)
decode_kind-wire buf p rest (name ls h) at = unfold decode_target in rw (At-name ls rest h at)
decode_kind-wire buf p rest (start ms rs {serial} {refresh} {retry} {expire} {minimum} hm hr h) at =
    decode_soa-wire buf p rest ms rs serial refresh retry expire minimum hm hr h (
      rw
        (right_six (wire ms) (wire rs) (u32_bytes serial) (u32_bytes refresh) (u32_bytes retry)
          (u32_bytes expire) (u32_bytes minimum) rest)
        at at)
decode_kind-wire buf p rest (mail {preference} ls hp h) at =
    decode_mx-wire buf p rest preference ls hp h (At-assoc (u16_bytes preference) (wire ls) rest at)
decode_kind-wire buf p rest (texts ss h) at =
    decode_texts-wire ss (suc (p + length (text_bytes ss) - p)) buf p (p + length (text_bytes ss))
      [] rest h at refl (omega (arith, texts-le ss h))
decode_kind-wire buf p rest (other bytes) at =
    ap (λ bs. returned (raw (some bs))) (At-slice bytes rest at)

-- The same for the number of the type.
pub encode_rdata-wire :
    (js : JsNumbers) (type : ℕ) {r : Rdata} {bytes : List ℕ}
    → WireKind (kind_of type) r bytes
    → encode_rdata js type r ≡ returned bytes
unfolding encode_rdata
encode_rdata-wire js type w = encode_kind-wire js w

pub decode_rdata-wire :
    (type : ℕ) {r : Rdata} {bytes : List ℕ} (buf : List ℕ) (p : ℕ) (rest : List ℕ)
    → WireKind (kind_of type) r bytes
    → At buf p (bytes ++ rest)
    → decode_rdata type buf p (p + length bytes) ≡ returned r
unfolding decode_rdata
decode_rdata-wire type buf p rest w at = decode_kind-wire buf p rest w at
