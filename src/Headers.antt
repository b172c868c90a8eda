-- ===== src/Headers.antt =====
-- lib/lws/headers.js. The map is a dictionary of normalized names. The order in which JavaScript
-- lists names that look like array indices is not modelled.
pub mod Safety
pub mod Laws
use qjs_lws.Base.{
  ℕ, ◌+◌, Bool, true, false, not, ◌&&◌, ◌||◌, Option, none, some, List, [], ◌∷◌, ◌++◌, map, Text,
  text_eq, leb, ◌==◌, Outcome, returned, thrown, stuck, ◌>>=◌, if◌then◌else◌,
}
use qjs_lws.Text.{text, contains, lower, join}
use qjs_lws.Dict.{Dict, lookup, insert, remove, has}

pub data HeaderError : Type 0 where
  bad_name bad_value bad_pair : HeaderError

-- A character of the class `[a-z0-9\-#$%&'*+.^_`|~!]`, in either case.
unfoldable pub is_token : ℕ → Bool
is_token c =
    (leb b'a' c && leb c b'z')
    || (leb b'A' c && leb c b'Z')
    || (leb b'0' c && leb c b'9')
    || contains c (text "-#$%&'*+.^_`|~!")

unfoldable pub all_token : Text → Bool
all_token [] = true
all_token (c ∷ s) = is_token c && all_token s

unfoldable pub normalize_name : Text → Outcome HeaderError Text
normalize_name name =
    if not (all_token name) || text_eq name [] then thrown bad_name else returned (map lower name)

-- The class `[\t\n\r\x0c ]`.
unfoldable pub is_blank : ℕ → Bool
is_blank c = c == 9 || c == 10 || c == 13 || c == 12 || c == 32

unfoldable pub trim_start : Text → Text
trim_start [] = []
trim_start (c ∷ s) = let rest = trim_start s in if is_blank c then rest else c ∷ s

-- Drops the blanks at the end: a character stays if something behind it stays, or it is no blank.
unfoldable pub trim_end : Text → Text
trim_end [] = []
trim_end (c ∷ s) = let rest = trim_end s in if text_eq rest [] && is_blank c then [] else c ∷ rest

-- A character of `[\x00\r\n]`.
unfoldable pub is_control : ℕ → Bool
is_control c = c == 0 || c == 13 || c == 10

unfoldable pub any_control : Text → Bool
any_control [] = false
any_control (c ∷ s) = is_control c || any_control s

unfoldable pub normalize_value : Text → Outcome HeaderError Text
normalize_value value =
    let v = trim_end (trim_start value) in if any_control v then thrown bad_value else returned v

-- An array, which only `set-cookie` has, or a string.
pub data HeaderValue : Type 0 where
  single : Text → HeaderValue
  many : List Text → HeaderValue

abbrev pub Headers : Type 0
Headers = Dict HeaderValue

abbrev pub set_cookie : Text
set_cookie = text "set-cookie"

-- `Array.isArray(cur) ? [...cur, value] : cur != null ? [cur, value] : [value]`.
pub add_cookie : Option HeaderValue → Text → HeaderValue
add_cookie none value = many (value ∷ [])
add_cookie (some (single cur)) value = many (cur ∷ value ∷ [])
add_cookie (some (many cur)) value = many (cur ++ value ∷ [])

pub comma_join : List Text → Text
comma_join [] = []
comma_join (s ∷ []) = s
comma_join (s ∷ t ∷ ss) = s ++ (text ", " ++ comma_join (t ∷ ss))

-- A value as `get` returns it.
pub value_text : HeaderValue → Text
value_text (single v) = v
value_text (many vs) = comma_join vs

-- `oldValue ? oldValue + ', ' + value : value`; an empty string is falsy, an array never.
unfoldable pub fold_value : Option HeaderValue → Text → HeaderValue
fold_value none value = single value
fold_value (some (single [])) value = single value
fold_value (some (single (c ∷ old))) value = single (c ∷ old ++ (text ", " ++ value))
fold_value (some (many vs)) value = single (join b',' vs ++ (text ", " ++ value))

unfoldable pub append_normal : Headers → Text → Text → Headers
append_normal h name value =
    if text_eq name set_cookie
    then insert name (add_cookie (lookup name h) value) h
    else insert name (fold_value (lookup name h) value) h

unfoldable pub append : Headers → Text → Text → Outcome HeaderError Headers
append h name value = do
  n ← normalize_name name
  v ← normalize_value value
  returned (append_normal h n v)

pub delete : Headers → Text → Outcome HeaderError Headers
delete h name = do n ← normalize_name name; returned (remove n h)

pub has_header : Headers → Text → Outcome HeaderError Bool
has_header h name = do n ← normalize_name name; returned (has n h)

pub get_value : Option HeaderValue → Option Text
get_value none = none
get_value (some v) = some (value_text v)

-- `get`, with `none` for `null`; `has` and the look-up agree, since the prototype is null.
pub get : Headers → Text → Outcome HeaderError (Option Text)
get h name = do
  n ← normalize_name name
  present ← has_header h n
  returned (if present then get_value (lookup n h) else none)

pub cookies_of : Option HeaderValue → List Text
cookies_of none = []
cookies_of (some (single v)) = v ∷ []
cookies_of (some (many vs)) = vs

pub get_set_cookie : Headers → List Text
get_set_cookie h = cookies_of (lookup set_cookie h)

pub set : Headers → Text → Text → Outcome HeaderError Headers
set h name value = do
  n ← normalize_name name
  v ← normalize_value value
  returned (insert n (if text_eq n set_cookie then many (v ∷ []) else single v) h)

pub pairs_of : Text → List Text → List (Text × Text)
pairs_of name [] = []
pairs_of name (v ∷ vs) = (name, v) ∷ pairs_of name vs

-- The calls of `forEach`: one for each value, in order.
pub for_each : Headers → List (Text × Text)
for_each [] = []
for_each ((name, single v) ∷ h) = (name, v) ∷ for_each h
for_each ((name, many vs) ∷ h) = pairs_of name vs ++ for_each h

-- `Headers(headers)` for another `Headers` or an array of pairs: each is appended.
unfoldable pub from_pairs : Headers → List (Text × Text) → Outcome HeaderError Headers
from_pairs h [] = returned h
from_pairs h ((name, value) ∷ ps) = do h' ← append h name value; from_pairs h' ps

-- One property of an object given to the constructor: its error is dropped, with the values of an
-- array that were appended before it.
pub append_each : Headers → Text → List Text → Headers
append_each h name [] = h
append_each h name (v ∷ vs) = elim (append h name v) [
  | returned h' ↦ append_each h' name vs
  | thrown e ↦ h
  | stuck ↦ h
]

pub from_object : Headers → List (Text × List Text) → Headers
from_object h [] = h
from_object h ((name, values) ∷ ps) = from_object (append_each h name values) ps
