-- ===== src/Dns/Name/Print.antt =====
-- Valid names, what they are on the wire, and that `encodeName` writes that.
use qjs_lws.Base.{
  ℕ, ◌≤◌, ◌<◌, ◌≡◌, refl, List, [], ◌∷◌, ◌++◌, Text, All, length, returned, arith, ap, text_eq, ◌∙◌,
}
use qjs_lws.Base.Bits.{and_byte}
use qjs_lws.Text.{join, split}
use qjs_lws.Text.Split.{Free, split-join}
use qjs_lws.Dns.Bytes.{label_bytes}
use qjs_lws.Dns.Name.{strip_dot, encode_labels, encode_name, print_name}

abbrev pub IsByte : ℕ → Type 0
IsByte b = b < 256

-- A label of 1 to 63 byte-sized characters, none of them a dot.
pub record IsLabel (l : Text) : Type 0 where
  pub nonempty : 0 < length l
  pub short : length l ≤ 63
  pub free : Free b'.' l
  pub bytes : All IsByte l

-- Each label behind its length, then a zero byte.
abbrev pub wire : List Text → List ℕ
wire [] = 0 ∷ []
wire (l ∷ ls) = length l ∷ (l ++ wire ls)

pub label_bytes-same : (l : Text) → All IsByte l → label_bytes l ≡ l
unfolding label_bytes
label_bytes-same [] h = refl
label_bytes-same (c ∷ l) (hc, hl) = ground (arith, and_byte c, label_bytes-same l hl)

encode_labels-wire : (ls : List Text) → All IsLabel ls → encode_labels ls ≡ returned (wire ls)
unfolding encode_labels
encode_labels-wire [] h = refl
encode_labels-wire (l ∷ ls) (hl, hls) =
    rw (label_bytes-same l hl.bytes, encode_labels-wire ls hls) (ground (arith, hl.short))

strip_dot-append : (s : Text) → strip_dot (s ++ b'.' ∷ []) ≡ s
unfolding strip_dot
strip_dot-append [] = refl
strip_dot-append (c ∷ []) = refl
strip_dot-append (c ∷ d ∷ s) = ap (λ r. c ∷ r) (strip_dot-append (d ∷ s))

All-Free : (ls : List Text) → All IsLabel ls → All (Free b'.') ls
All-Free [] h = tt
All-Free (l ∷ ls) (hl, hls) = (hl.free, All-Free ls hls)

-- The final dot goes, and what is left is split; only the root is written as a dot alone.
encode_name_dot :
    (c : ℕ) (s : Text) → encode_name (c ∷ s ++ b'.' ∷ []) ≡ encode_labels (split b'.' (c ∷ s))
unfolding encode_name text_eq
encode_name_dot c [] = ground arith
encode_name_dot c (d ∷ s) = ground (arith, strip_dot-append (c ∷ d ∷ s))

encode_name-join :
    (c : ℕ) (l : Text) (ls : List Text)
    → encode_name (print_name ((c ∷ l) ∷ ls))
      ≡ encode_labels (split b'.' (join b'.' ((c ∷ l) ∷ ls)))
unfolding print_name join
encode_name-join c l [] = encode_name_dot c l
encode_name-join c l (m ∷ ls) = encode_name_dot c (l ++ b'.' ∷ join b'.' (m ∷ ls))

-- `encode_name` writes the labels of a valid name in order, uncompressed.
pub encode_name-wire :
    (ls : List Text) → All IsLabel ls → encode_name (print_name ls) ≡ returned (wire ls)
encode_name-wire [] h = unfold encode_name print_name text_eq in refl
encode_name-wire ([] ∷ ls) (h, _) = absurd (omega (arith, h.nonempty))
encode_name-wire ((c ∷ l) ∷ ls) h =
    encode_name-join c l ls
    ∙ ap encode_labels (split-join b'.' (c ∷ l) ls (All-Free ((c ∷ l) ∷ ls) h))
    ∙ encode_labels-wire ((c ∷ l) ∷ ls) h
