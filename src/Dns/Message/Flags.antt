-- ===== src/Dns/Message/Flags.antt =====
-- The second word of the header: packing the flags and taking them apart.
use qjs_lws.Base.{ℕ, ◌+◌, ◌*◌, ◌/◌, ◌%◌, ◌^◌, ◌<◌, ◌≡◌, ◌∙◌, bit_and, bit_or, arith}
use qjs_lws.Base.Bits.{or_shifted, and_ones}
use qjs_lws.Dns.Message.{Header, flags_of, flag_bits}

-- The fields within their widths.
pub record IsHeader (h : Header) : Type 0 where
  pub id : h.id < 65536
  pub qr : h.qr < 2
  pub opcode : h.opcode < 16
  pub aa : h.aa < 2
  pub tc : h.tc < 2
  pub rd : h.rd < 2
  pub ra : h.ra < 2
  pub rcode : h.rcode < 16

or_below : (k s h l : ℕ) → s ≡ h * 2 ^ k → l < 2 ^ k → bit_or s l ≡ s + l
or_below k s h l e fits = rw e (or_shifted k h l fits)

one : (x : ℕ) → x < 2 → bit_and x 1 ≡ x
one x h = and_ones 1 x ∙ omega arith

four : (x : ℕ) → x < 16 → bit_and x 0xf ≡ x
four x h = and_ones 4 x ∙ omega arith

abbrev pub flags_sum : Header → ℕ
flags_sum h =
    h.qr * 32768 + h.opcode * 2048 + h.aa * 1024 + h.tc * 512 + h.rd * 256 + h.ra * 128 + h.rcode

pub flags_of-sum : (h : Header) → IsHeader h → flags_of h ≡ flags_sum h
unfolding flags_of
flags_of-sum h v =
    let s1 = h.qr * 32768 in
    let s2 = s1 + h.opcode * 2048 in
    let s3 = s2 + h.aa * 1024 in
    let s4 = s3 + h.tc * 512 in
    let s5 = s4 + h.rd * 256 in
    let s6 = s5 + h.ra * 128 in
    let k2 = h.qr * 16 + h.opcode in
    let k3 = k2 * 2 + h.aa in
    let k4 = k3 * 2 + h.tc in
    let k5 = k4 * 2 + h.rd in
    let k6 = k5 * 2 + h.ra in
    rw (
      one h.qr v.qr,
      four h.opcode v.opcode,
      one h.aa v.aa,
      one h.tc v.tc,
      one h.rd v.rd,
      one h.ra v.ra,
      four h.rcode v.rcode,
      or_below 15 s1 h.qr (h.opcode * 2048) (omega arith) (omega arith),
      or_below 11 s2 k2 (h.aa * 1024) (omega arith) (omega arith),
      or_below 10 s3 k3 (h.tc * 512) (omega arith) (omega arith),
      or_below 9 s4 k4 (h.rd * 256) (omega arith) (omega arith),
      or_below 8 s5 k5 (h.ra * 128) (omega arith) (omega arith),
      or_below 7 s6 k6 h.rcode (omega arith) (omega arith),
    )

flag_bits-mod : (f s k : ℕ) → flag_bits f s k ≡ f / 2 ^ s % 2 ^ k
unfolding flag_bits
flag_bits-mod f s k = and_ones k (f / 2 ^ s)

-- Each field of the header comes back out of the packed word, which has 16 bits.
pub flag_bits-flags_of :
    (h : Header)
    → IsHeader h
    → (flags_of h < 65536)
      × (flag_bits (flags_of h) 15 1 ≡ h.qr)
      × (flag_bits (flags_of h) 11 4 ≡ h.opcode)
      × (flag_bits (flags_of h) 10 1 ≡ h.aa)
      × (flag_bits (flags_of h) 9 1 ≡ h.tc)
      × (flag_bits (flags_of h) 8 1 ≡ h.rd)
      × (flag_bits (flags_of h) 7 1 ≡ h.ra)
      × (flag_bits (flags_of h) 0 4 ≡ h.rcode)
flag_bits-flags_of h v = rw (flags_of-sum h v) (
  omega arith,
  flag_bits-mod (flags_sum h) 15 1 ∙ omega arith,
  flag_bits-mod (flags_sum h) 11 4 ∙ omega arith,
  flag_bits-mod (flags_sum h) 10 1 ∙ omega arith,
  flag_bits-mod (flags_sum h) 9 1 ∙ omega arith,
  flag_bits-mod (flags_sum h) 8 1 ∙ omega arith,
  flag_bits-mod (flags_sum h) 7 1 ∙ omega arith,
  flag_bits-mod (flags_sum h) 0 4 ∙ omega arith,
)
