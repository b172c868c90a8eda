-- ===== src/Url/Form.antt =====
-- application/x-www-form-urlencoded.
pub mod Bytes
pub mod Encoded
pub mod RoundTrip
use qjs_lws.Base.{
  ℕ, Option, none, some, List, [], ◌∷◌, ◌++◌, map, Text, ◌==◌, ◌&&◌, suc, take, drop, if◌then◌else◌,
}
use qjs_lws.Text.{split, join, index_of}
use qjs_lws.Url.Native.{Native}
use qjs_lws.Url.Result.{Result, ok, ◌>>=◌}
use qjs_lws.Url.Percent.{form_extra, utf8_percent_encode, percent_decode_string}

abbrev pub Pairs : Type 0
Pairs = List (Text × Text)

-- `.replace(/\+/g, ' ')` on one character.
abbrev pub plus_to_space : ℕ → ℕ
plus_to_space c = if c == b'+' then b' ' else c

unfoldable pub decode_part : Native → Text → Result Text
decode_part native raw = percent_decode_string native (map plus_to_space raw)

-- The name and the value of one sequence, cut at the first `=`.
unfoldable pub cut_pair : Text → Option ℕ → Text × Text
cut_pair seq none = (seq, [])
cut_pair seq (some eq) = (take eq seq, drop (suc eq) seq)

unfoldable pub decode_pair : Native → Text × Text → Result (Text × Text)
decode_pair native (raw_name, raw_value) = do
  name ← decode_part native raw_name
  value ← decode_part native raw_value
  ok (name, value)

-- The loop over the sequences; an empty one is passed over. The first that is malformed throws.
unfoldable pub parse_sequences : Native → List Text → Result Pairs
parse_sequences native [] = ok []
parse_sequences native ([] ∷ seqs) = parse_sequences native seqs
parse_sequences native ((c ∷ seq) ∷ seqs) = do
  pair ← decode_pair native (cut_pair (c ∷ seq) (index_of b'=' (c ∷ seq)))
  output ← parse_sequences native seqs
  ok (pair ∷ output)

unfoldable pub parse_form_urlencoded : Native → Text → Result Pairs
parse_form_urlencoded native [] = ok []
parse_form_urlencoded native (c ∷ input) = parse_sequences native (split b'&' (c ∷ input))

-- `.replace(/%20/g, '+')`.
unfoldable pub space_to_plus : Text → Text
space_to_plus [] = []
space_to_plus (a ∷ []) = a ∷ []
space_to_plus (a ∷ b ∷ []) = a ∷ b ∷ []
space_to_plus (a ∷ b ∷ c ∷ s) =
    let taken = b'+' ∷ space_to_plus s in
    let kept = a ∷ space_to_plus (b ∷ c ∷ s) in
    if a == b'%' && b == b'2' && c == b'0' then taken else kept

unfoldable pub form_encode : Native → Text → Text
form_encode native s = space_to_plus (utf8_percent_encode native s form_extra)

unfoldable pub encode_pair : Native → Text × Text → Text
encode_pair native (name, value) = form_encode native name ++ b'=' ∷ form_encode native value

unfoldable pub serialize_form_urlencoded : Native → Pairs → Text
serialize_form_urlencoded native list = join b'&' (map (encode_pair native) list)
