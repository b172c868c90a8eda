-- ===== src/Dns/Name/Total.antt =====
-- The loop of `decodeName` ends on every input.
use qjs_lws.Base.{
  ℕ, zero, suc, ◌+◌, ◌-◌, ◌*◌, ◌<◌, ◌≡◌, ◌≢◌, Option, some, none, List, [], ◌∷◌, ◌++◌, Text,
  bit_and, bit_or, length, get_or, slice, stuck, arith,
}
use qjs_lws.Dns.Bytes.{bytes_to_label}
use qjs_lws.Dns.Name.{decode_loop, decode_name, next_or, name_fuel}

-- A jump takes one of the jumps left; a label moves on in the message.
decode_loop-ne-stuck :
    (fuel : ℕ) (buf : List ℕ) (pos : ℕ) (next : Option ℕ) (jumps left : ℕ) (labels : List Text)
    → jumps + left ≡ 128
    → left * (length buf + 1) + (length buf - pos) < fuel
    → decode_loop fuel buf pos next jumps labels ≢ stuck
unfolding decode_loop
decode_loop-ne-stuck zero buf pos next jumps left labels count enough = absurd (omega arith)
decode_loop-ne-stuck (suc fuel) buf pos next jumps zero labels count enough =
    let label = bytes_to_label (slice buf (pos + 1) (pos + 1 + get_or buf pos 0)) in
    ground (
      arith,
      decode_loop-ne-stuck fuel buf (pos + (1 + get_or buf pos 0)) next jumps zero
          (labels ++ label ∷ []),
    )
decode_loop-ne-stuck (suc fuel) buf pos next jumps (suc left) labels count enough =
    let len = get_or buf pos 0 in
    let target = bit_or (bit_and len 0x3f * 256) (get_or buf (pos + 1) 0) in
    let label = bytes_to_label (slice buf (pos + 1) (pos + 1 + len)) in
    ground (
      arith,
      decode_loop-ne-stuck fuel buf (pos + (1 + len)) next jumps (suc left) (labels ++ label ∷ []),
      decode_loop-ne-stuck fuel buf target (some (next_or next (pos + 2))) (jumps + 1) left labels,
    )

-- `decode_name` ends on every message and offset, cyclic pointers included.
pub decode_name-ne-stuck : (buf : List ℕ) (offset : ℕ) → decode_name buf offset ≢ stuck
unfolding decode_name
decode_name-ne-stuck buf offset =
    decode_loop-ne-stuck (name_fuel buf) buf offset none 0 128 [] (omega arith) (omega arith)
