-- ===== src/Url/Object/Calls.antt =====
-- The calls that change a `URL` or its `searchParams`, in any order.
use qjs_lws.Base.{Option, List, [], ◌∷◌, Text, Outcome, returned, thrown, stuck}
use qjs_lws.Url.Native.{Native}
use qjs_lws.Url.Result.{UrlError}
use qjs_lws.Url.Object.{
  Url, Change, done, set_href, set_protocol, set_username, set_password, set_host, set_hostname,
  set_port, set_pathname, set_search, set_hash, search_params_append, search_params_delete,
  search_params_set, search_params_sort,
}

-- An assignment to a property, or a method of the `searchParams`.
pub data Call : Type 0 where
  href protocol username password host hostname port pathname search hash : Text → Call
  params_append params_set : (name value : Text) → Call
  params_delete : Text → Option Text → Call
  params_sort : Call

unfoldable pub step : Native → Call → Url → Outcome UrlError Change
step native (Call.href value) url = set_href native value url
step native (Call.protocol value) url = set_protocol native value url
step native (Call.username value) url = returned (done (set_username native value url))
step native (Call.password value) url = returned (done (set_password native value url))
step native (Call.host value) url = set_host native value url
step native (Call.hostname value) url = set_hostname native value url
step native (Call.port value) url = set_port native value url
step native (Call.pathname value) url = set_pathname native value url
step native (Call.search value) url = set_search native value url
step native (Call.hash value) url = set_hash native value url
step native (Call.params_append name value) url =
    returned (done (search_params_append native name value url))
step native (Call.params_set name value) url =
    returned (done (search_params_set native name value url))
step native (Call.params_delete name value) url =
    returned (done (search_params_delete native name value url))
step native Call.params_sort url = returned (done (search_params_sort native url))

-- The calls go on with the object as an exception leaves it.
unfoldable pub run_calls : Native → List Call → Url → Outcome UrlError Url
run_calls native [] url = returned url
run_calls native (call ∷ calls) url = elim (step native call url) [
  | returned change ↦ run_calls native calls change.object
  | thrown e ↦ thrown e
  | stuck ↦ stuck
]
