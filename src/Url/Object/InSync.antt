-- ===== src/Url/Object/InSync.antt =====
-- The list of the `searchParams` and the query of the record say the same. Two cases are outside: a
-- name or a value with a surrogate, which a serialized query may not give back, and a query with
-- malformed percent sequences, which is never read: what assigns it throws.
use mathlib.Core.Path.{subst}
use qjs_lws.Base.{
  ℕ, ◌⊎◌, sym, ◌&&◌, ◌||◌, ltb, arith, ◌≡◌, ◌≢◌, refl, ap, ◌∙◌, Bool, true, false, Option, none,
  some, [], ◌∷◌, Text, All, Outcome, returned, thrown, stuck, Bool-cases, inl, inr, text_eq,
  if◌then◌else◌,
}
use qjs_lws.Url.Native.{Native, IsScalar, Utf8}
use qjs_lws.Url.Form.{Pairs, parse_form_urlencoded, serialize_form_urlencoded}
use qjs_lws.Url.Form.RoundTrip.{ScalarPair, parse_form_urlencoded-serialize}
use qjs_lws.Url.Record.{UrlRecord, new_url_record, cannot_have_username_password_port}
use qjs_lws.Url.Machine.{State, Parsed, parsed, failed, threw}
use qjs_lws.Url.Result.{UrlError, Result, ok, raised}
use qjs_lws.Url.Parser.{start_state}
use qjs_lws.Url.Parser.Sound.{PortFits}
use qjs_lws.Url.Parser.Total.{url_of, basic_url_parse-Returns}
use qjs_lws.Url.Parser.Frame.{Quiet, basic_url_parse-Edits}
use qjs_lws.Url.Parser.Keeps.{is_edited, rest}
use qjs_lws.Url.SearchParams.{without_mark}
use qjs_lws.Url.Object.{
  Url, Change, done, record_of, query_list, replace_list, replace_record, search_change, reparse,
  with_record, null_if_empty, update, set_href, set_username, set_password, set_port, set_search,
  set_hash,
}

unfoldable pub is_scalar : ℕ → Bool
is_scalar c = ltb c 0xd800 || (ltb 0xdfff c && ltb c 0x110000)

unfoldable pub all_scalar : Text → Bool
all_scalar [] = true
all_scalar (c ∷ s) = is_scalar c && all_scalar s

unfoldable pub scalar_pairs : Pairs → Bool
scalar_pairs [] = true
scalar_pairs ((name, value) ∷ list) = all_scalar name && all_scalar value && scalar_pairs list

all_scalar-IsScalar : (s : Text) → all_scalar s ≡ true → All IsScalar s
unfolding all_scalar is_scalar
all_scalar-IsScalar [] e = tt
all_scalar-IsScalar (c ∷ s) e = (ground arith, all_scalar-IsScalar s (ground arith))

scalar_pairs-ScalarPair : (list : Pairs) → scalar_pairs list ≡ true → All ScalarPair list
unfolding scalar_pairs
scalar_pairs-ScalarPair [] e = tt
scalar_pairs-ScalarPair ((name, value) ∷ list) e = (
  (all_scalar-IsScalar name (ground arith), all_scalar-IsScalar value (ground arith)),
  scalar_pairs-ScalarPair list (ground arith),
)

-- The list is what the query is parsed to, the list holds a surrogate, or the query is malformed.
abbrev pub Agree : Native → Option Text → Pairs → Type 0
Agree native query list =
    (query_list native query ≡ ok list)
    ⊎ (scalar_pairs list ≡ false)
    ⊎ ((e : UrlError) × (query_list native query ≡ raised e))

pub record InSync (native : Native) (url : Url) : Type 0 where
  pub same : Agree native url.rec.query url.list
  pub port : PortFits url.rec.port

-- What is constructed: an exception, or an object whose list is what its query is parsed to.
abbrev pub Good : Native → Outcome UrlError Url → Type 0
Good native (returned url) = (query_list native url.rec.query ≡ ok url.list) × PortFits url.rec.port
Good native (thrown e) = Unit {0}
Good native stuck = ⊥

-- An assignment ends, with or without an exception, and leaves an object in sync.
abbrev pub Leaves : Native → Outcome UrlError Change → Type 0
Leaves native (returned change) = InSync native change.object
Leaves native (thrown e) = ⊥
Leaves native stuck = ⊥

-- The empty text is `null` in the record, and the list is empty either way.
null_if_empty-query_list :
    (native : Native) (s : Text)
    → query_list native (null_if_empty s) ≡ parse_form_urlencoded native s
unfolding query_list null_if_empty parse_form_urlencoded
null_if_empty-query_list native [] = refl
null_if_empty-query_list native (c ∷ s) = refl

record_of-url_of : (r : Parsed) → record_of r ≡ url_of r
unfolding record_of
record_of-url_of (parsed u) = refl
record_of-url_of (failed u) = refl
record_of-url_of (threw e u) = refl

-- The setters that parse leave the query alone, but the one of the query.
rest-query :
    (s : State) (u v : UrlRecord) → s ≢ State.query → rest s u ≡ rest s v → u.query ≡ v.query
rest-query State.query u v n e = absurd (n refl)
rest-query s u v n e = ap (λ w. w.query) e

module _ (native : Native) (utf8 : Utf8 native) where
  pub update-InSync :
      (url : Url) (list : Pairs) → InSync native url → InSync native (update native list url)
  unfolding update
  update-InSync url list h = record { same = agree; port = h.port }
    where
      agree : Agree native (null_if_empty (serialize_form_urlencoded native list)) list
      agree = elim (Bool-cases (scalar_pairs list)) [
        | inl t ↦ inl (
            null_if_empty-query_list native (serialize_form_urlencoded native list)
            ∙ parse_form_urlencoded-serialize native utf8 list (scalar_pairs-ScalarPair list t))
        | inr t ↦ inr (inl t)
      ]

  -- A setter that parses the value for its part of a record with the same query.
  pub reparse-Leaves :
      (url : Url) (rec : UrlRecord) (value : Text) (s : State)
      → InSync native url
      → rec.query ≡ url.rec.query
      → PortFits rec.port
      → is_edited s s ≡ true
      → s ≢ State.query
      → Leaves native (with_record url (reparse native value s rec))
  unfolding with_record reparse
  reparse-Leaves url rec value s h q p i n =
      let (r, eq, fits, (kept, quiet)) = basic_url_parse-Edits native value none rec s i p tt in
      let same : (url_of r).query ≡ url.rec.query = rest-query s (url_of r) rec n kept ∙ q in
      rw (eq, record_of-url_of r)
        (record { same = subst (λ t. Agree native t url.list) (sym same) h.same; port = fits })

  -- The list, if the query is parsed.
  replace_list-InSync :
      (rec : UrlRecord) (url : Url) (list : Result Pairs)
      → query_list native rec.query ≡ list
      → PortFits rec.port
      → InSync native (replace_list rec url list).object
  unfolding replace_list
  replace_list-InSync rec url (ok list) e p = record { same = inl e; port = p }
  replace_list-InSync rec url (raised err) e p = record { same = inr (inr (err, e)); port = p }

  replace_record-InSync :
      (url : Url) (r : Parsed)
      → InSync native url
      → PortFits (url_of r).port
      → InSync native (replace_record native url r).object
  unfolding replace_record
  replace_record-InSync url (parsed rec) h p = replace_list-InSync rec url _ refl p
  replace_record-InSync url (failed rec) h p = h
  replace_record-InSync url (threw e rec) h p = h

  pub set_href-Leaves :
      (value : Text) (url : Url) → InSync native url → Leaves native (set_href native value url)
  unfolding set_href start_state
  set_href-Leaves value url h =
      let (r, eq, fits) = basic_url_parse-Returns native value none new_url_record none tt tt tt in
      rw eq (replace_record-InSync url r h fits)

  search_change-InSync :
      (url : Url) (r : Parsed)
      → PortFits (url_of r).port
      → Quiet State.query r
      → InSync native (search_change native url r).object
  unfolding search_change
  search_change-InSync url (parsed rec) p q = replace_list-InSync rec url _ refl p
  search_change-InSync url (failed rec) p q = replace_list-InSync rec url _ refl p
  search_change-InSync url (threw e rec) p q = absurd q

  pub set_search-Leaves :
      (value : Text) (url : Url) → InSync native url → Leaves native (set_search native value url)
  unfolding set_search query_list reparse is_edited
  set_search-Leaves [] url h = record { same = inl refl; port = h.port }
  set_search-Leaves (c ∷ s) url h =
      let rec = record url.rec { query = some [] } in
      let value = without_mark b'?' (c ∷ s) in
      let (r, eq, fits, (kept, quiet)) =
        basic_url_parse-Edits native value none rec State.query refl h.port tt in
      rw eq (search_change-InSync url r fits quiet)

  pub set_hash-Leaves :
      (value : Text) (url : Url) → InSync native url → Leaves native (set_hash native value url)
  unfolding set_hash is_edited
  set_hash-Leaves [] url h = record { same = h.same; port = h.port }
  set_hash-Leaves (c ∷ s) url h =
      reparse-Leaves url (record url.rec { fragment = some [] }) (without_mark b'#' (c ∷ s))
        State.fragment h refl h.port refl (λ e. cc)

  -- A setter that an opaque path turns off.
  pub unless-Leaves :
      (url : Url) (t : Bool) (o : Outcome UrlError Change)
      → InSync native url
      → Leaves native o
      → Leaves native (if t then returned (done url) else o)
  unless-Leaves url true o h k = h
  unless-Leaves url false o h k = k

  either-Leaves :
      (t : Bool) (o o' : Outcome UrlError Change)
      → Leaves native o
      → Leaves native o'
      → Leaves native (if t then o else o')
  either-Leaves true o o' h k = h
  either-Leaves false o o' h k = k

  pub set_port-Leaves :
      (value : Text) (url : Url) → InSync native url → Leaves native (set_port native value url)
  unfolding set_port is_edited
  set_port-Leaves value url h =
      let dropped : InSync native (record url { rec = record url.rec { port = none } }) = record {
        same = h.same;
        port = tt;
      } in
      unless-Leaves url (cannot_have_username_password_port url.rec) _ h (
        either-Leaves (text_eq value []) _ _ dropped
          (reparse-Leaves url url.rec value State.port h refl h.port refl (λ e. cc)))

  pub username-InSync :
      (value : Text) (url : Url) → InSync native url → InSync native (set_username native value url)
  unfolding set_username
  username-InSync value url h = elim (Bool-cases (cannot_have_username_password_port url.rec)) [
    | inl t ↦ rw t h
    | inr t ↦ rw t (record { same = h.same; port = h.port })
  ]

  pub password-InSync :
      (value : Text) (url : Url) → InSync native url → InSync native (set_password native value url)
  unfolding set_password
  password-InSync value url h = elim (Bool-cases (cannot_have_username_password_port url.rec)) [
    | inl t ↦ rw t h
    | inr t ↦ rw t (record { same = h.same; port = h.port })
  ]
