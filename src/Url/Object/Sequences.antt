-- ===== src/Url/Object/Sequences.antt =====
-- Any sequence of calls leaves the list and the query in step.
use qjs_lws.Base.{
  ◌⊎◌, inl, inr, ◌≡◌, ◌>>=◌, refl, Option, none, some, List, [], ◌∷◌, ◌++◌, Text, Outcome, returned,
  thrown, stuck,
}
use qjs_lws.Url.Native.{Native, Utf8}
use qjs_lws.Url.Record.{UrlRecord, segments, new_url_record}
use qjs_lws.Url.Machine.{State, Parsed, parsed, failed, threw}
use qjs_lws.Url.Result.{UrlError, Result, ok, raised}
use qjs_lws.Url.Form.{Pairs}
use qjs_lws.Url.Parser.{start_state}
use qjs_lws.Url.Parser.Sound.{PortFits, BaseFits}
use qjs_lws.Url.Parser.Total.{url_of, basic_url_parse-Returns}
use qjs_lws.Url.Parser.Keeps.{is_edited}
use qjs_lws.Url.SearchParams.{append, delete, set, sort}
use qjs_lws.Url.Object.{
  Url, Change, query_list, require, parse_new, with_list, parse_base, new_url, is_opaque, update,
  set_protocol, set_host, set_hostname, set_pathname, search_params_append, search_params_delete,
  search_params_set, search_params_sort,
}
use qjs_lws.Url.Object.Calls.{Call, step, run_calls}
use qjs_lws.Url.Object.InSync.{
  InSync, Good, Leaves, update-InSync, reparse-Leaves, set_href-Leaves, set_search-Leaves,
  set_hash-Leaves, unless-Leaves, set_port-Leaves, username-InSync, password-InSync,
}

-- What the constructor gives, when calls follow.
abbrev pub Constructed : Native → List Call → Outcome UrlError Url → Type 0
Constructed native calls o =
    ((e : UrlError) × (o ≡ thrown e))
    ⊎ ((u : Url) × (v : Url) × (o ≡ returned u)
        × (run_calls native calls u ≡ returned v)
        × InSync native v)

module _ (native : Native) (utf8 : Utf8 native) where
  step-Leaves : (call : Call) (url : Url) → InSync native url → Leaves native (step native call url)
  unfolding step set_protocol set_host set_hostname set_pathname is_edited search_params_append
      update search_params_set search_params_delete search_params_sort
  step-Leaves (Call.href value) url h = set_href-Leaves native utf8 value url h
  step-Leaves (Call.protocol value) url h =
      reparse-Leaves native utf8 url url.rec (value ++ b':' ∷ []) State.scheme_start h refl h.port
        refl (λ e. cc)
  step-Leaves (Call.username value) url h = username-InSync native utf8 value url h
  step-Leaves (Call.password value) url h = password-InSync native utf8 value url h
  step-Leaves (Call.host value) url h =
      unless-Leaves native utf8 url (is_opaque url.rec.path) _ h
        (reparse-Leaves native utf8 url url.rec value State.host h refl h.port refl (λ e. cc))
  step-Leaves (Call.hostname value) url h =
      unless-Leaves native utf8 url (is_opaque url.rec.path) _ h
        (reparse-Leaves native utf8 url url.rec value State.hostname h refl h.port refl (λ e. cc))
  step-Leaves (Call.port value) url h = set_port-Leaves native utf8 value url h
  step-Leaves (Call.pathname value) url h =
      unless-Leaves native utf8 url (is_opaque url.rec.path) _ h (
        reparse-Leaves native utf8 url (record url.rec { path = segments [] }) value
          State.path_start h refl h.port refl (λ e. cc))
  step-Leaves (Call.search value) url h = set_search-Leaves native utf8 value url h
  step-Leaves (Call.hash value) url h = set_hash-Leaves native utf8 value url h
  step-Leaves (Call.params_append name value) url h =
      update-InSync native utf8 url (append url.list name value) h
  step-Leaves (Call.params_set name value) url h =
      update-InSync native utf8 url (set url.list name value) h
  step-Leaves (Call.params_delete name value) url h =
      update-InSync native utf8 url (delete url.list name value) h
  step-Leaves Call.params_sort url h = update-InSync native utf8 url (sort url.list) h

  -- The calls go on with an object in sync.
  calls-InSync :
      (calls : List Call) (o : Outcome UrlError Change)
      → ((url : Url)
          → InSync native url
          → (u : Url) × (run_calls native calls url ≡ returned u) × InSync native u)
      → Leaves native o
      → (u : Url) × (elim o [
        | returned change ↦ run_calls native calls change.object
        | thrown e ↦ thrown e
        | stuck ↦ stuck
      ]
          ≡ returned u)
        × InSync native u
  calls-InSync calls (returned change) k g = k change.object g
  calls-InSync calls (thrown e) k g = absurd g
  calls-InSync calls stuck k g = absurd g

  -- A `URL` is in sync if its port is below 65536 and the list of its `searchParams` is what its query
  -- is parsed to, where the list holds no surrogate and the parsing does not throw. Under the laws of
  -- UTF-8, from a `URL` in sync any sequence of assignments to the properties and of calls on the
  -- `searchParams` ends, also where some of them throw, with a `URL` in sync.
  pub run_calls-InSync :
      (calls : List Call) (url : Url)
      → InSync native url
      → (u : Url) × (run_calls native calls url ≡ returned u) × InSync native u
  unfolding run_calls
  run_calls-InSync [] url h = (url, refl, h)
  run_calls-InSync (call ∷ calls) url h =
      calls-InSync calls (step native call url) (run_calls-InSync calls) (step-Leaves call url h)

  -- What the parser makes of a base fits.
  abbrev Fits : Outcome UrlError (Option UrlRecord) → Type 0
  Fits (returned base) = BaseFits base
  Fits (thrown e) = Unit {0}
  Fits stuck = ⊥

  require-Fits :
      (r : Parsed) → PortFits (url_of r).port → Fits (require r >>= λ rec. returned (some rec))
  unfolding require
  require-Fits (parsed rec) p = p
  require-Fits (failed rec) p = tt
  require-Fits (threw e rec) p = tt

  parse_base-Fits : (base : Option Text) → Fits (parse_base native base)
  unfolding parse_base parse_new start_state
  parse_base-Fits none = tt
  parse_base-Fits (some value) =
      let (r, eq, fits) = basic_url_parse-Returns native value none new_url_record none tt tt tt in
      rw eq (require-Fits r fits)

  with_list-Good :
      (rec : UrlRecord) (list : Result Pairs)
      → query_list native rec.query ≡ list
      → PortFits rec.port
      → Good native (with_list rec list)
  unfolding with_list
  with_list-Good rec (ok list) e p = (e, p)
  with_list-Good rec (raised err) e p = tt

  require-Good :
      (r : Parsed)
      → PortFits (url_of r).port
      → Good native (require r >>= λ rec. with_list rec (query_list native rec.query))
  unfolding require
  require-Good (parsed rec) p = with_list-Good rec _ refl p
  require-Good (failed rec) p = tt
  require-Good (threw e rec) p = tt

  with_base-Good :
      (url : Text) (o : Outcome UrlError (Option UrlRecord))
      → Fits o
      → Good native (
          o >>= λ base.
          parse_new native url base >>= λ rec. with_list rec (query_list native rec.query))
  unfolding parse_new start_state
  with_base-Good url (returned base) fits =
      let (r, eq, p) = basic_url_parse-Returns native url base new_url_record none tt tt fits in
      rw eq (require-Good r p)
  with_base-Good url (thrown e) fits = tt
  with_base-Good url stuck fits = absurd fits

  -- `new URL(url, base)` ends with an exception, or with an object that is in sync.
  new_url-Good : (url : Text) (base : Option Text) → Good native (new_url native url base)
  unfolding new_url
  new_url-Good url base = with_base-Good url (parse_base native base) (parse_base-Fits base)

  Good-Constructed :
      (calls : List Call) (o : Outcome UrlError Url) → Good native o → Constructed native calls o
  Good-Constructed calls (returned u) (same, port) =
      let (v, ran, h) = run_calls-InSync calls u (record { same = inl same; port = port }) in
      inr (u, v, refl, ran, h)
  Good-Constructed calls (thrown e) g = inl (e, refl)
  Good-Constructed calls stuck g = absurd g

  -- Under the laws of UTF-8, `new URL(url, base)` ends on every input: with an exception, or with an
  -- object with which any sequence of assignments to the properties and of calls on the `searchParams`
  -- ends, whatever they throw, and leaves the port below 65536 and the list what the query is parsed
  -- to, where the list holds no surrogate and the parsing does not throw.
  pub new_url-Constructed :
      (url : Text) (base : Option Text) (calls : List Call)
      → Constructed native calls (new_url native url base)
  new_url-Constructed url base calls =
      Good-Constructed calls (new_url native url base) (new_url-Good url base)
