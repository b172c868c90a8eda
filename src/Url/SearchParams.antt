-- ===== src/Url/SearchParams.antt =====
-- The list of a `URLSearchParams`.
pub mod Laws
pub mod Changes
use qjs_lws.Base.{
  ℕ, ◌+◌, ◌-◌, ◌/◌, ◌%◌, Bool, true, false, not, ◌&&◌, ◌||◌, Option, none, some, List, [], ◌∷◌,
  ◌++◌, map, Text, text_eq, ltb, ◌==◌, length, if◌then◌else◌,
}
use qjs_lws.Url.Result.{Result}
use qjs_lws.Url.Native.{Native}
use qjs_lws.Url.Form.{Pairs, parse_form_urlencoded}

-- `init[0] === '?' ? init.slice(1) : init`.
unfoldable pub without_mark : ℕ → Text → Text
without_mark mark [] = []
without_mark mark (c ∷ s) = if c == mark then s else c ∷ s

unfoldable pub from_text : Native → Text → Result Pairs
from_text native init = parse_form_urlencoded native (without_mark b'?' init)

unfoldable pub append : Pairs → Text → Text → Pairs
append list name value = list ++ (name, value) ∷ []

-- `value === undefined` is `none`.
unfoldable pub same_value : Text → Option Text → Bool
same_value v none = true
same_value v (some value) = text_eq v value

unfoldable pub delete : Pairs → Text → Option Text → Pairs
delete [] name value = []
delete ((n, v) ∷ list) name value =
    let rest = delete list name value in
    if text_eq n name && same_value v value then rest else (n, v) ∷ rest

unfoldable pub get : Pairs → Text → Option Text
get [] name = none
get ((n, v) ∷ list) name = if text_eq n name then some v else get list name

unfoldable pub get_all : Pairs → Text → List Text
get_all [] name = []
get_all ((n, v) ∷ list) name =
    let rest = get_all list name in if text_eq n name then v ∷ rest else rest

unfoldable pub has : Pairs → Text → Option Text → Bool
has [] name value = false
has ((n, v) ∷ list) name value = (text_eq n name && same_value v value) || has list name value

-- The loop, whose flag `found` is the second argument; a name that is not found goes to the end.
unfoldable pub set_loop : Pairs → Bool → Text → Text → Pairs
set_loop [] found name value = if found then [] else (name, value) ∷ []
set_loop ((n, v) ∷ list) found name value =
    let dropped = set_loop list true name value in
    let replaced = (name, value) ∷ set_loop list true name value in
    let kept = (n, v) ∷ set_loop list found name value in
    if text_eq n name then (if found then dropped else replaced) else kept

unfoldable pub set : Pairs → Text → Text → Pairs
set list name value = set_loop list false name value

-- The UTF-16 code units, by which `<` compares strings.
unfoldable pub utf16 : Text → List ℕ
utf16 [] = []
utf16 (c ∷ s) =
    let rest = utf16 s in
    if ltb c 0x10000
    then c ∷ rest
    else (0xd800 + (c - 0x10000) / 0x400) ∷ (0xdc00 + (c - 0x10000) % 0x400) ∷ rest

unfoldable pub units_lt : List ℕ → List ℕ → Bool
units_lt s [] = false
units_lt [] (d ∷ t) = true
units_lt (c ∷ s) (d ∷ t) = ltb c d || (c == d && units_lt s t)

unfoldable pub name_lt : Text → Text → Bool
name_lt a b = units_lt (utf16 a) (utf16 b)

-- `sort` by the names, and by the places among equal ones: an entry goes before the first that has a
-- larger name or stood behind it.
unfoldable pub insert_sorted : Text × Text → Pairs → Pairs
insert_sorted (n, v) [] = (n, v) ∷ []
insert_sorted (n, v) ((m, w) ∷ list) =
    let later = (m, w) ∷ insert_sorted (n, v) list in
    if name_lt m n then later else (n, v) ∷ (m, w) ∷ list

unfoldable pub sort : Pairs → Pairs
sort [] = []
sort (p ∷ list) = insert_sorted p (sort list)

unfoldable pub keys : Pairs → List Text
keys list = map (λ p. p.0) list

unfoldable pub values : Pairs → List Text
values list = map (λ p. p.1) list

abbrev pub size : Pairs → ℕ
size list = length list
