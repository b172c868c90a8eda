-- ===== src/Dns/Name/RoundTrip.antt =====
-- `decodeName` reads back what `encodeName` wrote, wherever it stands in a message.
use qjs_lws.Base.{
  ℕ, zero, suc, ◌+◌, ◌<◌, ◌≡◌, refl, ap, Option, none, List, [], ◌∷◌, ◌++◌, Text, All, length,
  length-append, get_or-length, slice_behind, append_assoc, append-nil, returned, arith,
}
use qjs_lws.Base.Bits.{and_top_two}
use qjs_lws.Dns.Bytes.{bytes_to_label}
use qjs_lws.Dns.Name.{decode_loop, decode_name, encode_name, next_or, print_name, name_fuel}
use qjs_lws.Dns.Name.Print.{IsLabel, wire, encode_name-wire}

pub bytes_to_label-same : (l : List ℕ) → bytes_to_label l ≡ l
unfolding bytes_to_label
bytes_to_label-same [] = refl
bytes_to_label-same (b ∷ l) = ap (λ r. b ∷ r) (bytes_to_label-same l)

-- One round at a label.
module _ (pre l tail : List ℕ) (h : IsLabel l) (fuel : ℕ) (next : Option ℕ) (jumps : ℕ)
    (labels : List Text) where
  abbrev buffer : List ℕ
  buffer = pre ++ length l ∷ (l ++ tail)

  decode_label :
      decode_loop (suc fuel) buffer (length pre) next jumps labels
      ≡ decode_loop fuel buffer (length (pre ++ length l ∷ l)) next jumps (labels ++ l ∷ [])
  unfolding decode_loop
  decode_label =
      let label = slice_behind pre l tail (length l) in
      let plain = and_top_two (length l) (omega (arith, h.short)) in
      let size = length-append pre (length l ∷ (l ++ tail)) in
      let rest = length-append l tail in
      let read = length-append pre (length l ∷ l) in
      ground (
        arith,
        h.nonempty,
        h.short,
        get_or-length pre (l ++ tail) (length l) 0,
        label,
        bytes_to_label-same l,
        plain,
        size,
        rest,
        read,
      )

-- The round at the final zero byte.
module _ (pre tail : List ℕ) (fuel : ℕ) (next : Option ℕ) (jumps : ℕ) (labels : List Text) where
  decode_end :
      decode_loop (suc fuel) (pre ++ 0 ∷ tail) (length pre) next jumps labels
      ≡ returned (print_name labels, next_or next (length pre + 1))
  unfolding decode_loop
  decode_end = ground (arith, get_or-length pre tail 0 0, length-append pre (0 ∷ tail))

-- The labels from `length pre` on, with the labels read so far.
decode_wire :
    (ls : List Text) (fuel : ℕ) (pre post : List ℕ) (next : Option ℕ) (jumps : ℕ)
    (labels : List Text)
    → All IsLabel ls
    → length ls < fuel
    → decode_loop fuel (pre ++ (wire ls ++ post)) (length pre) next jumps labels
      ≡ returned (print_name (labels ++ ls), next_or next (length pre + length (wire ls)))
decode_wire ls zero pre post next jumps labels h enough = absurd (omega arith)
decode_wire [] (suc fuel) pre post next jumps labels h enough =
    rw append-nil (decode_end pre post fuel next jumps labels)
decode_wire (l ∷ ls) (suc fuel) pre post next jumps labels (hl, hls) enough = ground (
  arith,
  decode_label pre l (wire ls ++ post) hl fuel next jumps labels,
  decode_wire ls fuel (pre ++ length l ∷ l) post next jumps (labels ++ l ∷ []) hls,
  append_assoc pre (length l ∷ l) (wire ls ++ post),
  append_assoc l (wire ls) post,
  append_assoc labels (l ∷ []) ls,
  length-append l (wire ls),
  length-append pre (length l ∷ l),
)

length-wire : (ls : List Text) → length ls < length (wire ls)
length-wire [] = omega arith
length-wire (l ∷ ls) = omega (arith, length-append l (wire ls), length-wire ls)

-- In a message that holds the encoding of a valid name between `pre` and `post`, `decode_name`
-- returns that name, and the position right behind the encoding.
pub decode_name-wire :
    (ls : List Text) (pre post : List ℕ)
    → All IsLabel ls
    → decode_name (pre ++ (wire ls ++ post)) (length pre)
      ≡ returned (print_name ls, length pre + length (wire ls))
unfolding decode_name
decode_name-wire ls pre post h =
    decode_wire ls (name_fuel (pre ++ (wire ls ++ post))) pre post none 0 [] h (
      omega
        (arith, length-wire ls, length-append pre (wire ls ++ post), length-append (wire ls) post))

-- What `encode_name` writes for a valid name, `decode_name` reads back at any place.
pub decode_name-encode_name :
    (ls : List Text) (pre post : List ℕ)
    → All IsLabel ls
    → (bytes : List ℕ) × (encode_name (print_name ls) ≡ returned bytes)
      × (decode_name (pre ++ (bytes ++ post)) (length pre)
          ≡ returned (print_name ls, length pre + length bytes))
decode_name-encode_name ls pre post h =
    (wire ls, encode_name-wire ls h, decode_name-wire ls pre post h)
