-- ===== src/Dns/Name/Bounds.antt =====
-- Where a decoded name ends.
use qjs_lws.Base.{
  ℕ, zero, suc, ◌+◌, ◌*◌, ◌≤◌, ◌<◌, ◌≡◌, Option, none, some, List, [], ◌∷◌, ◌++◌, Text, bit_and,
  bit_or, length, get_or, slice, returned, arith,
}
use qjs_lws.Dns.Bytes.{bytes_to_label}
use qjs_lws.Dns.Name.{decode_loop, decode_name, next_or, name_fuel}

-- `next`, once it is set, lies behind the start and inside the message.
abbrev IsInside : Option ℕ → ℕ → ℕ → Type 0
IsInside none start size = Unit {0}
IsInside (some n) start size = (start < n) × (n ≤ size)

decode_loop_bounds :
    (fuel : ℕ) (buf : List ℕ) (pos : ℕ) (next : Option ℕ) (jumps : ℕ) (labels : List Text)
    (start : ℕ) (name : Text) (end : ℕ)
    → IsInside next start (length buf)
    → (next ≡ none → start ≤ pos)
    → decode_loop fuel buf pos next jumps labels ≡ returned (name, end)
    → (start < end) × (end ≤ length buf)
unfolding decode_loop
decode_loop_bounds zero buf pos next jumps labels start name end set ahead e = cc
decode_loop_bounds (suc fuel) buf pos next jumps labels start name end set ahead e =
    let len = get_or buf pos 0 in
    let target = bit_or (bit_and len 0x3f * 256) (get_or buf (pos + 1) 0) in
    let label = bytes_to_label (slice buf (pos + 1) (pos + 1 + len)) in
    ground (
      arith,
      decode_loop_bounds fuel buf target (some (next_or next (pos + 2))) (jumps + 1) labels start
          name end,
      decode_loop_bounds fuel buf (pos + (1 + len)) next jumps (labels ++ label ∷ []) start name
          end,
    )

-- A decoded name takes at least one byte, and ends inside the message.
pub decode_name_bounds :
    (buf : List ℕ) (offset : ℕ) {name : Text} {end : ℕ}
    → decode_name buf offset ≡ returned (name, end)
    → (offset < end) × (end ≤ length buf)
unfolding decode_name
decode_name_bounds buf offset {name} {end} e =
    decode_loop_bounds (name_fuel buf) buf offset none 0 [] offset name end tt (λ _. omega arith) e
