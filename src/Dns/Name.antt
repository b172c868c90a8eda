-- ===== src/Dns/Name.antt =====
-- `encodeName` and `decodeName` of examples/dns-server/dns-message.js.
pub mod Print
pub mod RoundTrip
pub mod Total
pub mod Bounds
use qjs_lws.Base.{
  ℕ, zero, suc, ◌+◌, ◌*◌, Bool, ◌||◌, Option, none, some, List, [], ◌∷◌, ◌++◌, Text, bit_and,
  bit_or, ltb, leb, ◌==◌, text_eq, length, get_or, slice, Outcome, returned, thrown, stuck, ◌>>=◌,
  if◌then◌else◌,
}
use qjs_lws.Text.{split, join}
use qjs_lws.Dns.Bytes.{
  DnsError, label_too_long, name_past_end, truncated_pointer, too_many_pointers, label_past_end,
  label_bytes, bytes_to_label,
}

-- `name.replace(/\.$/, '')`.
pub strip_dot : Text → Text
strip_dot [] = []
strip_dot (c ∷ []) = if c == b'.' then [] else c ∷ []
strip_dot (c ∷ d ∷ s) = c ∷ strip_dot (d ∷ s)

-- The loop over the labels, with the final zero byte.
pub encode_labels : List Text → Outcome DnsError (List ℕ)
encode_labels [] = returned (0 ∷ [])
encode_labels (label ∷ labels) =
    let lb = label_bytes label in
    let rest = encode_labels labels in
    if ltb 63 (length lb)
    then thrown label_too_long
    else (do parts ← rest; returned (length lb ∷ lb ++ parts))

unfoldable pub encode_name : Text → Outcome DnsError (List ℕ)
unfolding strip_dot encode_labels
encode_name name =
    if text_eq name (b'.' ∷ []) || text_eq name []
    then returned (0 ∷ [])
    else encode_labels (split b'.' (strip_dot name))

-- The text of a list of labels: `${labels.join('.')}.`, or the root.
unfoldable pub print_name : List Text → Text
print_name [] = b'.' ∷ []
print_name (l ∷ ls) = join b'.' (l ∷ ls) ++ b'.' ∷ []

-- `next` is `none` where the source has -1.
abbrev pub next_or : Option ℕ → ℕ → ℕ
next_or none n = n
next_or (some next) n = next

-- One byte is read in each round; `stuck` when the fuel runs out.
pub decode_loop :
    ℕ
    → List ℕ
    → (pos : ℕ) (next : Option ℕ) (jumps : ℕ) (labels : List Text) → Outcome DnsError (Text × ℕ)
decode_loop zero buf pos next jumps labels = stuck
decode_loop (suc fuel) buf pos next jumps labels =
    let len = get_or buf pos 0 in
    let target = bit_or (bit_and len 0x3f * 256) (get_or buf (pos + 1) 0) in
    let follow = decode_loop fuel buf target (some (next_or next (pos + 2))) (jumps + 1) labels in
    let label = bytes_to_label (slice buf (pos + 1) (pos + 1 + len)) in
    let more = decode_loop fuel buf (pos + (1 + len)) next jumps (labels ++ label ∷ []) in
    if leb (length buf) pos
    then thrown name_past_end
    else if bit_and len 0xc0 == 0xc0
    then if leb (length buf) (pos + 1)
      then thrown truncated_pointer
      else if ltb 128 (jumps + 1)
      then thrown too_many_pointers
      else follow
    else if len == 0
    then returned (print_name labels, next_or next (pos + 1))
    else if ltb (length buf) (pos + 1 + len)
    then thrown label_past_end
    else more

-- At most 128 jumps, and at most `length buf` rounds before each and after the last.
abbrev pub name_fuel : List ℕ → ℕ
name_fuel buf = 129 * (length buf + 1) + 1

unfoldable pub decode_name : List ℕ → ℕ → Outcome DnsError (Text × ℕ)
decode_name buf offset = decode_loop (name_fuel buf) buf offset none 0 []
