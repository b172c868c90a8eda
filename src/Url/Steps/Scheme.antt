-- ===== src/Url/Steps/Scheme.antt =====
-- The states up to the authority.
use qjs_lws.Base.{
  ℕ, ◌+◌, Bool, false, not, ◌&&◌, ◌||◌, Option, none, some, [], Text, text_eq, leb, ◌==◌, get_elem?,
  if◌then◌else◌,
}
use qjs_lws.Text.{text, lower}
use qjs_lws.Url.Record.{
  UrlRecord, UrlPath, opaque, segments, same_port, default_port, is_special_scheme, is_special,
  is_file, includes_credentials, no_host, is_ascii_alpha, pop_path,
}
use qjs_lws.Url.Machine.{
  State, Machine, parsed, failed, Step, go, halt, crash, is, next, again, with_url, add_char,
  no_buffer,
}

unfoldable pub step_scheme_start : Bool → Option ℕ → Machine → Step
step_scheme_start overridden none m =
    if not overridden then again State.no_scheme m else halt (failed m.url)
step_scheme_start overridden (some c) m =
    if is_ascii_alpha c
    then next State.scheme (add_char (lower c) m)
    else if not overridden
    then again State.no_scheme m
    else halt (failed m.url)

unfoldable pub is_scheme_char : ℕ → Bool
is_scheme_char c =
    is_ascii_alpha c || (leb b'0' c && leb c b'9') || c == b'+' || c == b'-' || c == b'.'

-- The URL is left as it is: the scheme may not change in this way.
unfoldable pub keeps_scheme : UrlRecord → Text → Bool
keeps_scheme url buffer =
    (is_special url && not (is_special_scheme buffer))
    || (not (is_special url) && is_special_scheme buffer)
    || ((includes_credentials url || not (same_port url.port none)) && text_eq buffer (text "file"))
    || (is_file url && no_host url.host)

-- `if(url.port === defaultPort(url.scheme)) url.port = null;`.
unfoldable pub drop_default_port : UrlRecord → UrlRecord
drop_default_port url =
    if same_port url.port (default_port url.scheme) then record url { port = none } else url

unfoldable pub same_scheme : Option UrlRecord → Text → Bool
same_scheme none scheme = false
same_scheme (some base) scheme = text_eq base.scheme scheme

-- Behind the colon: the next state by the scheme, which `m` has with an empty buffer.
unfoldable pub after_scheme : Option UrlRecord → Text → Machine → Step
after_scheme base cp m =
    if is_file m.url
    then next State.file m
    else if is_special m.url && same_scheme base m.url.scheme
    then next State.special_relative_or_authority m
    else if is_special m.url
    then next State.special_authority_slashes m
    else if is (get_elem? cp (m.pointer + 1)) b'/'
    then next State.path_or_authority (record m { pointer = m.pointer + 1 })
    else next State.opaque_path (with_url (record m.url { path = opaque [] }) m)

unfoldable pub no_scheme_char : Bool → Machine → Step
no_scheme_char overridden m =
    if not overridden
    then go (record m { buffer = []; state = State.no_scheme; pointer = 0 })
    else halt (failed m.url)

unfoldable pub step_scheme : Bool → Option UrlRecord → Text → Option ℕ → Machine → Step
step_scheme overridden base cp none m = no_scheme_char overridden m
step_scheme overridden base cp (some c) m =
    let url = record m.url { scheme = m.buffer } in
    if is_scheme_char c
    then next State.scheme (add_char (lower c) m)
    else if c == b':'
    then (if overridden && keeps_scheme m.url m.buffer
        then halt (parsed m.url)
        else if overridden
        then halt (parsed (drop_default_port url))
        else after_scheme base cp (no_buffer (with_url url m)))
    else no_scheme_char overridden m

unfoldable pub step_no_scheme : Option UrlRecord → Option ℕ → Machine → Step
step_no_scheme none c m = halt (failed m.url)
step_no_scheme (some base) c m = elim base.path [
  | opaque s ↦
      if is c b'#'
      then next State.fragment (
          with_url
            (record m.url {
              scheme = base.scheme;
              path = opaque s;
              query = base.query;
              fragment = some [];
            })
            m)
      else halt (failed m.url)
  | segments ss ↦ if is_file base then again State.file m else again State.relative m
]

unfoldable pub step_special_relative_or_authority : Text → Option ℕ → Machine → Step
step_special_relative_or_authority cp c m =
    if is c b'/' && is (get_elem? cp (m.pointer + 1)) b'/'
    then next State.special_authority_ignore_slashes (record m { pointer = m.pointer + 1 })
    else again State.relative m

unfoldable pub step_path_or_authority : Option ℕ → Machine → Step
step_path_or_authority c m = if is c b'/' then next State.authority m else again State.path m

-- `/`, or `\` for a special scheme.
abbrev pub is_slash : UrlRecord → Option ℕ → Bool
is_slash url c = is c b'/' || (is_special url && is c b'\\')

-- What is taken over from the base.
unfoldable pub inherit_authority : UrlRecord → UrlRecord → UrlRecord
inherit_authority base url = record url {
  username = base.username;
  password = base.password;
  host = base.host;
  port = base.port;
}

unfoldable pub inherit : UrlRecord → UrlRecord → UrlRecord
inherit base url = record url {
  username = base.username;
  password = base.password;
  host = base.host;
  port = base.port;
  path = base.path;
  query = base.query;
}

-- Behind the parts of the base: `url` has its path and query.
unfoldable pub after_inherit : (UrlRecord → UrlPath) → UrlRecord → Option ℕ → Machine → Step
after_inherit shorter url none m = next m.state (with_url url m)
after_inherit shorter url (some c) m =
    if c == b'?'
    then next State.query (with_url (record url { query = some [] }) m)
    else if c == b'#'
    then next State.fragment (with_url (record url { fragment = some [] }) m)
    else again State.path (with_url (record url { query = none; path = shorter url }) m)

unfoldable pub step_relative : Option UrlRecord → Option ℕ → Machine → Step
step_relative none c m = crash
step_relative (some base) c m =
    let url = record m.url { scheme = base.scheme } in
    if is_slash url c
    then next State.relative_slash (with_url url m)
    else after_inherit (λ u. pop_path u.path) (inherit base url) c m

unfoldable pub step_relative_slash : Option UrlRecord → Option ℕ → Machine → Step
step_relative_slash base c m =
    if is_special m.url && (is c b'/' || is c b'\\')
    then next State.special_authority_ignore_slashes m
    else if is c b'/'
    then next State.authority m
    else elim base [
      | none ↦ crash
      | some b ↦ again State.path (with_url (inherit_authority b m.url) m)
    ]

unfoldable pub step_special_authority_slashes : Text → Option ℕ → Machine → Step
step_special_authority_slashes cp c m =
    if is c b'/' && is (get_elem? cp (m.pointer + 1)) b'/'
    then next State.special_authority_ignore_slashes (record m { pointer = m.pointer + 1 })
    else again State.special_authority_ignore_slashes m

unfoldable pub step_special_authority_ignore_slashes : Option ℕ → Machine → Step
step_special_authority_ignore_slashes c m =
    if is c b'/' || is c b'\\'
    then next State.special_authority_ignore_slashes m
    else again State.authority m
