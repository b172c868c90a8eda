-- ===== src/Tests/Url.antt =====
-- Runs of url.js.
use qjs_lws.Base.{
  ◌≡◌, ◌++◌, ◌<◌, true, inl, All, arith, refl, none, some, List, [], ◌∷◌, Text, returned, text_eq,
  if◌then◌else◌,
}
use qjs_lws.Text.{text, split, index_of}
use qjs_lws.Url.Percent.{percent_decode_string, percent_decode_bytes, is_hex_digit, hex_value}
use qjs_lws.Url.Host.{parse_host, decode_domain, parse_ipv6, ends_with}
use qjs_lws.Url.Form.{
  decode_pair, decode_part, parse_sequences, cut_pair, Pairs, parse_form_urlencoded,
  serialize_form_urlencoded,
}
use qjs_lws.Url.Form.RoundTrip.{ScalarPair, parse_form_urlencoded-serialize}
use qjs_lws.Url.Result.{UrlError, ok, raised}
use qjs_lws.Url.Record.{UrlRecord, new_url_record}
use qjs_lws.Url.Machine.{State}
use qjs_lws.Url.Parser.{basic_url_parse, start_state}
use qjs_lws.Url.Parser.Total.{Returns, basic_url_parse-Returns}
use qjs_lws.Url.Parser.Frame.{Edits, basic_url_parse-Edits}
use qjs_lws.Url.Parser.Keeps.{is_edited}
use qjs_lws.Url.SearchParams.{append, delete, set, sort, get_all}
use qjs_lws.Url.SearchParams.Laws.{IsSorted, sort_lem}
use qjs_lws.Url.SearchParams.Changes.{other_values, get_all_after}
use qjs_lws.Url.Object.{Url, new_url, query_list}
use qjs_lws.Url.Object.Calls.{Call, run_calls}
use qjs_lws.Url.Object.InSync.{InSync}
use qjs_lws.Url.Object.Sequences.{run_calls-InSync, Constructed, new_url-Constructed}
use qjs_lws.Url.Native.{IsScalar}
use qjs_lws.Tests.Utf8.{
  utf8_native, utf8_native-Utf8, encode, encode_one, decode, decode_lossy, checked, scalar_or,
}

abbrev pairs : Pairs
pairs = (text "b&=", text "1+2") ∷ (text "a b", text "100%") ∷ []

abbrev record_example : UrlRecord
record_example = record new_url_record { scheme = text "http"; port = some 8080 }

abbrev url_example : Url
url_example = record { rec = record_example; list = [] }

abbrev calls_example : List Call
calls_example =
    Call.search (text "?x=1")
    ∷ Call.port (text "99999")
    ∷ Call.params_append (text "y") (text "a&b")
    ∷ Call.href (text "no url")
    ∷ Call.params_sort
    ∷ Call.search (text "?x=%FF")
    ∷ Call.hostname (text "%FF")
    ∷ []

ascii-Scalar : (s : Text) → All (λ c. c < 128) s → All IsScalar s
ascii-Scalar [] h = tt
ascii-Scalar (c ∷ s) (less, h) = (inl (omega arith), ascii-Scalar s h)

pairs-Scalar : All ScalarPair pairs
pairs-Scalar = (
  (
    ascii-Scalar (text "b&=") (omega arith, (omega arith, (omega arith, tt))),
    ascii-Scalar (text "1+2") (omega arith, (omega arith, (omega arith, tt))),
  ),
  (
    (
      ascii-Scalar (text "a b") (omega arith, (omega arith, (omega arith, tt))),
      ascii-Scalar (text "100%") (omega arith, (omega arith, (omega arith, (omega arith, tt)))),
    ),
    tt,
  ),
)

url-InSync : InSync utf8_native url_example
unfolding query_list
url-InSync = record { same = inl refl; port = omega arith }

basic_url_parse-Returns_example : Returns (
    basic_url_parse utf8_native
      (text "HTTP://User:p@Ex.com:80/a/../b c?x=1#f")
      none
      new_url_record
      none)
unfolding start_state
basic_url_parse-Returns_example =
    basic_url_parse-Returns utf8_native (text "HTTP://User:p@Ex.com:80/a/../b c?x=1#f") none
      new_url_record none tt tt tt

basic_url_parse-Edits_example :
    Edits State.port record_example
      (basic_url_parse utf8_native (text "99999") none record_example (some State.port))
unfolding is_edited
basic_url_parse-Edits_example =
    basic_url_parse-Edits utf8_native (text "99999") none record_example State.port refl
      (omega arith) tt

parse_form_urlencoded-serialize_example :
    parse_form_urlencoded utf8_native (serialize_form_urlencoded utf8_native pairs) ≡ ok pairs
parse_form_urlencoded-serialize_example =
    parse_form_urlencoded-serialize utf8_native utf8_native-Utf8 pairs pairs-Scalar

run_calls-InSync_example :
    (u : Url) × (run_calls utf8_native calls_example url_example ≡ returned u)
    × InSync utf8_native u
run_calls-InSync_example =
    run_calls-InSync utf8_native utf8_native-Utf8 calls_example url_example url-InSync

new_url-Constructed_example :
    Constructed utf8_native calls_example
      (new_url utf8_native (text "../b?y=1") (some (text "http://a.b/c?d=e")))
new_url-Constructed_example =
    new_url-Constructed utf8_native utf8_native-Utf8 (text "../b?y=1")
      (some (text "http://a.b/c?d=e")) calls_example

sort_lem_example :
    IsSorted (sort pairs) × (get_all (sort pairs) (text "a b") ≡ get_all pairs (text "a b"))
sort_lem_example = sort_lem pairs (text "a b")

get_all_after_example :
    (get_all (set pairs (text "a b") (text "1")) (text "b&=")
      ≡ (if text_eq (text "a b") (text "b&=") then text "1" ∷ [] else get_all pairs (text "b&=")))
    × (get_all (delete pairs (text "a b") none) (text "b&=") ≡ (
        if text_eq (text "a b") (text "b&=")
        then other_values none (get_all pairs (text "b&="))
        else get_all pairs (text "b&=")))
    × (get_all (append pairs (text "a b") (text "1")) (text "b&=")
        ≡ get_all pairs (text "b&=")
          ++ (if text_eq (text "a b") (text "b&=") then text "1" ∷ [] else []))
get_all_after_example = get_all_after pairs (text "a b") (text "1") (text "b&=") none

-- A malformed query throws.
malformed_query : parse_form_urlencoded utf8_native (text "x=%FF") ≡ raised UrlError.type_error
unfolding parse_form_urlencoded parse_sequences decode_pair decode_part percent_decode_string
    percent_decode_bytes is_hex_digit hex_value cut_pair split index_of encode encode_one decode
    decode_lossy checked scalar_or text_eq
malformed_query = refl

-- So does a malformed host, and one that the native module refuses.
malformed_host : parse_host utf8_native (text "%FF") true ≡ raised UrlError.type_error
unfolding parse_host decode_domain percent_decode_string percent_decode_bytes is_hex_digit hex_value
    encode encode_one decode decode_lossy checked scalar_or text_eq
malformed_host = refl

refused_host : parse_host utf8_native (text "[[::1]") true ≡ raised UrlError.syntax_error
unfolding parse_host parse_ipv6 ends_with text_eq
refused_host = refl
