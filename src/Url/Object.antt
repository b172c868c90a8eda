-- ===== src/Url/Object.antt =====
-- The class `URL`: its record, and the list of its `searchParams`. A setter hands the record to the
-- parser and keeps it as the parser leaves it, also where that returns `null` or throws.
pub mod Calls
pub mod InSync
pub mod Sequences
use qjs_lws.Base.{
  ℕ, Bool, true, false, not, Option, none, some, List, [], ◌∷◌, ◌++◌, Text, text_eq, Outcome,
  returned, thrown, stuck, ◌>>=◌, if◌then◌else◌,
}
use qjs_lws.Text.{text, number_text}
use qjs_lws.Url.Native.{Native}
use qjs_lws.Url.Result.{UrlError, Result, ok, raised}
use qjs_lws.Url.Percent.{utf8_percent_encode, userinfo_extra}
use qjs_lws.Url.Form.{Pairs, parse_form_urlencoded, serialize_form_urlencoded}
use qjs_lws.Url.Host.{Host, serialize_host}
use qjs_lws.Url.Record.{
  UrlRecord, UrlPath, segments, opaque, new_url_record, cannot_have_username_password_port,
}
use qjs_lws.Url.Machine.{State, Parsed, parsed, failed, threw}
use qjs_lws.Url.Parser.{basic_url_parse}
use qjs_lws.Url.Serialize.{serialize_url, serialize_origin, serialize_path, port_text}
use qjs_lws.Url.SearchParams.{without_mark, append, delete, set, sort}

pub record Url : Type 0 where
  pub rec : UrlRecord
  pub list : Pairs

-- The object as an assignment leaves it, and the exception of the assignment.
pub record Change : Type 0 where
  pub object : Url
  pub error : Option UrlError

abbrev pub done : Url → Change
done url = record { object = url; error = none }

unfoldable pub record_of : Parsed → UrlRecord
record_of (parsed url) = url
record_of (failed url) = url
record_of (threw e url) = url

unfoldable pub error_of : Parsed → Option UrlError
error_of (parsed url) = none
error_of (failed url) = none
error_of (threw e url) = some e

unfoldable pub require : Parsed → Outcome UrlError UrlRecord
require (parsed url) = returned url
require (failed url) = thrown UrlError.type_error
require (threw e url) = thrown e

unfoldable pub query_list : Native → Option Text → Result Pairs
query_list native none = ok []
query_list native (some query) = parse_form_urlencoded native query

-- `basicURLParse(value, base)` with the error for `null`.
unfoldable pub parse_new : Native → Text → Option UrlRecord → Outcome UrlError UrlRecord
parse_new native value base = do
  r ← basic_url_parse native value base new_url_record none
  require r

unfoldable pub with_list : UrlRecord → Result Pairs → Outcome UrlError Url
with_list rec (ok list) = returned (record { rec = rec; list = list })
with_list rec (raised e) = thrown e

unfoldable pub parse_base : Native → Option Text → Outcome UrlError (Option UrlRecord)
parse_base native none = returned none
parse_base native (some base) = do rec ← parse_new native base none; returned (some rec)

-- `new URL(url, base)`.
unfoldable pub new_url : Native → Text → Option Text → Outcome UrlError Url
new_url native url base = do
  parsed_base ← parse_base native base
  rec ← parse_new native url parsed_base
  with_list rec (query_list native rec.query)

unfoldable pub href : Native → Url → Text
href native url = serialize_url native url.rec false

-- The record is replaced before the query is parsed: where that throws, the list stays.
unfoldable pub replace_list : UrlRecord → Url → Result Pairs → Change
replace_list rec url (ok list) = done (record { rec = rec; list = list })
replace_list rec url (raised e) = record {
  object = record { rec = rec; list = url.list };
  error = some e;
}

unfoldable pub replace_record : Native → Url → Parsed → Change
replace_record native url (parsed rec) = replace_list rec url (query_list native rec.query)
replace_record native url (failed rec) = record { object = url; error = some UrlError.type_error }
replace_record native url (threw e rec) = record { object = url; error = some e }

unfoldable pub set_href : Native → Text → Url → Outcome UrlError Change
set_href native value url = do
  r ← basic_url_parse native value none new_url_record none
  returned (replace_record native url r)

unfoldable pub origin : Native → Url → Text
origin native url = serialize_origin native url.rec

unfoldable pub protocol : Url → Text
protocol url = url.rec.scheme ++ b':' ∷ []

-- One part of the record parsed anew.
unfoldable pub reparse : Native → Text → State → UrlRecord → Outcome UrlError Parsed
reparse native value state rec = basic_url_parse native value none rec (some state)

unfoldable pub with_record : Url → Outcome UrlError Parsed → Outcome UrlError Change
with_record url o = do
  r ← o
  returned (record { object = record url { rec = record_of r }; error = error_of r })

unfoldable pub set_protocol : Native → Text → Url → Outcome UrlError Change
set_protocol native value url =
    with_record url (reparse native (value ++ b':' ∷ []) State.scheme_start url.rec)

unfoldable pub set_username : Native → Text → Url → Url
set_username native value url =
    if cannot_have_username_password_port url.rec then url else record url {
      rec = record url.rec { username = utf8_percent_encode native value userinfo_extra };
    }

unfoldable pub set_password : Native → Text → Url → Url
set_password native value url =
    if cannot_have_username_password_port url.rec then url else record url {
      rec = record url.rec { password = utf8_percent_encode native value userinfo_extra };
    }

unfoldable pub host_and_port : Native → Option Host → Option ℕ → Text
host_and_port native none port = []
host_and_port native (some host) port = serialize_host native host ++ port_text port

unfoldable pub host : Native → Url → Text
host native url = host_and_port native url.rec.host url.rec.port

unfoldable pub hostname : Native → Url → Text
hostname native url = host_and_port native url.rec.host none

unfoldable pub is_opaque : UrlPath → Bool
is_opaque (opaque s) = true
is_opaque (segments ss) = false

unfoldable pub set_host : Native → Text → Url → Outcome UrlError Change
set_host native value url =
    if is_opaque url.rec.path
    then returned (done url)
    else with_record url (reparse native value State.host url.rec)

unfoldable pub set_hostname : Native → Text → Url → Outcome UrlError Change
set_hostname native value url =
    if is_opaque url.rec.path
    then returned (done url)
    else with_record url (reparse native value State.hostname url.rec)

unfoldable pub number_or_empty : Option ℕ → Text
number_or_empty none = []
number_or_empty (some port) = number_text 10 port

unfoldable pub port : Url → Text
port url = number_or_empty url.rec.port

unfoldable pub set_port : Native → Text → Url → Outcome UrlError Change
set_port native value url =
    if cannot_have_username_password_port url.rec
    then returned (done url)
    else if text_eq value []
    then returned (done (record url { rec = record url.rec { port = none } }))
    else with_record url (reparse native value State.port url.rec)

unfoldable pub pathname : Url → Text
pathname url = serialize_path url.rec.path

unfoldable pub set_pathname : Native → Text → Url → Outcome UrlError Change
set_pathname native value url =
    if is_opaque url.rec.path
    then returned (done url)
    else with_record url
        (reparse native value State.path_start (record url.rec { path = segments [] }))

-- `null` and the empty string are written as nothing.
unfoldable pub marked : ℕ → Option Text → Text
marked mark none = []
marked mark (some []) = []
marked mark (some (c ∷ s)) = mark ∷ c ∷ s

unfoldable pub search : Url → Text
search url = marked b'?' url.rec.query

unfoldable pub search_change : Native → Url → Parsed → Change
search_change native url (parsed rec) = replace_list rec url (query_list native rec.query)
search_change native url (failed rec) = replace_list rec url (query_list native rec.query)
search_change native url (threw e rec) = record {
  object = record url { rec = rec };
  error = some e;
}

unfoldable pub set_search : Native → Text → Url → Outcome UrlError Change
set_search native [] url =
    returned (done (record { rec = record url.rec { query = none }; list = [] }))
set_search native (c ∷ s) url = do
  r ← reparse native (without_mark b'?' (c ∷ s)) State.query (record url.rec { query = some [] })
  returned (search_change native url r)

unfoldable pub hash : Url → Text
hash url = marked b'#' url.rec.fragment

unfoldable pub set_hash : Native → Text → Url → Outcome UrlError Change
set_hash native [] url = returned (done (record url { rec = record url.rec { fragment = none } }))
set_hash native (c ∷ s) url = with_record url (
    reparse native (without_mark b'#' (c ∷ s)) State.fragment
      (record url.rec { fragment = some [] }))

unfoldable pub can_parse : Native → Text → Option Text → Bool
can_parse native url base = elim (new_url native url base) [
  | returned u ↦ true
  | thrown e ↦ false
  | stuck ↦ false
]

-- `s === '' ? null : s`.
unfoldable pub null_if_empty : Text → Option Text
null_if_empty [] = none
null_if_empty (c ∷ s) = some (c ∷ s)

-- `#update()` of the URL's own `searchParams`, with the new list.
unfoldable pub update : Native → Pairs → Url → Url
update native list url = record {
  rec = record url.rec { query = null_if_empty (serialize_form_urlencoded native list) };
  list = list;
}

unfoldable pub search_params_append : Native → Text → Text → Url → Url
search_params_append native name value url = update native (append url.list name value) url

unfoldable pub search_params_delete : Native → Text → Option Text → Url → Url
search_params_delete native name value url = update native (delete url.list name value) url

unfoldable pub search_params_set : Native → Text → Text → Url → Url
search_params_set native name value url = update native (set url.list name value) url

unfoldable pub search_params_sort : Native → Url → Url
search_params_sort native url = update native (sort url.list) url
