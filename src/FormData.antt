-- ===== src/FormData.antt =====
-- lib/lws/formdata.js: the list of entries. Names and values are taken after `String(…)`.
pub mod Laws
use qjs_lws.Base.{
  Bool, false, not, Option, none, some, List, [], ◌∷◌, ◌++◌, map, Text, text_eq, ◌||◌,
  if◌then◌else◌,
}
use qjs_lws.Text.{text}
use qjs_lws.Dict.{Dict, insert}

-- A string, or an object such as a file, with its own properties.
pub data FieldValue : Type 0 where
  string : Text → FieldValue
  object : Dict Text → FieldValue

abbrev pub Entries : Type 0
Entries = List (Text × FieldValue)

-- An object gets the filename that is given, in a copy.
unfoldable pub named_value : FieldValue → Option Text → FieldValue
named_value (string s) filename = string s
named_value (object o) none = object o
named_value (object o) (some filename) = object (insert (text "name") filename o)

unfoldable pub append : Entries → Text → FieldValue → Option Text → Entries
append entries name value filename = entries ++ (name, named_value value filename) ∷ []

unfoldable pub delete : Entries → Text → Entries
delete [] name = []
delete ((key, value) ∷ entries) name =
    let rest = delete entries name in if text_eq key name then rest else (key, value) ∷ rest

unfoldable pub get : Entries → Text → Option FieldValue
get [] name = none
get ((key, value) ∷ entries) name = if text_eq key name then some value else get entries name

unfoldable pub get_all : Entries → Text → List FieldValue
get_all [] name = []
get_all ((key, value) ∷ entries) name =
    let rest = get_all entries name in if text_eq key name then value ∷ rest else rest

unfoldable pub has : Entries → Text → Bool
has [] name = false
has ((key, value) ∷ entries) name = text_eq key name || has entries name

unfoldable pub set : Entries → Text → FieldValue → Option Text → Entries
set entries name value filename = delete entries name ++ (name, named_value value filename) ∷ []

-- `[...keys()]` and `[...values()]`.
unfoldable pub keys : Entries → List Text
keys entries = map (λ e. e.0) entries

unfoldable pub values : Entries → List FieldValue
values entries = map (λ e. e.1) entries
