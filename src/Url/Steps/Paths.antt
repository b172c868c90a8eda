-- ===== src/Url/Steps/Paths.antt =====
-- Path, query and fragment.
use qjs_lws.Base.{
  ℕ, Bool, true, false, not, ◌&&◌, ◌||◌, Option, none, some, [], ◌∷◌, ◌++◌, Text, text_eq, ◌==◌,
  if◌then◌else◌,
}
use qjs_lws.Text.{text}
use qjs_lws.Url.Native.{Native}
use qjs_lws.Url.Percent.{
  utf8_percent_encode, path_extra, c0_extra, query_extra, special_query_extra, fragment_extra,
}
use qjs_lws.Url.Host.{Host}
use qjs_lws.Url.Record.{
  UrlRecord, UrlPath, opaque, segments, is_special, is_file, is_windows_drive_letter,
  is_single_dot_segment, is_double_dot_segment, shorten_path, push_path, add_to_path,
}
use qjs_lws.Url.Machine.{
  State, Machine, Step, crash, is, next, again, with_url, add_char, no_buffer,
}
use qjs_lws.Url.Steps.Scheme.{is_slash}

abbrev pub start_query : Machine → Step
start_query m = next State.query (with_url (record m.url { query = some [] }) m)

abbrev pub start_fragment : Machine → Step
start_fragment m = next State.fragment (with_url (record m.url { fragment = some [] }) m)

unfoldable pub is_null_host : Option Host → Bool
is_null_host none = true
is_null_host (some host) = false

unfoldable pub step_path_start : Bool → Option ℕ → Machine → Step
step_path_start overridden c m =
    if is_special m.url
    then if is c b'/' || is c b'\\' then next State.path m else again State.path m
    else if not overridden && is c b'?'
    then start_query m
    else if not overridden && is c b'#'
    then start_fragment m
    else elim c [
      | some ch ↦ if ch == b'/' then next State.path m else again State.path m
      | none ↦
          if overridden && is_null_host m.url.host
          then next State.path_start (with_url (record m.url { path = push_path [] m.url.path }) m)
          else next State.path_start m
    ]

unfoldable pub ends_segment : Bool → UrlRecord → Option ℕ → Bool
ends_segment overridden url none = true
ends_segment overridden url (some c) =
    is_slash url (some c) || (not overridden && (c == b'?' || c == b'#'))

-- `c:` for the drive letter `c|` at the head of a file's path.
unfoldable pub drive_segment : Text → Text
drive_segment [] = b':' ∷ []
drive_segment (c ∷ s) = c ∷ b':' ∷ []

unfoldable pub is_empty_path : UrlPath → Bool
is_empty_path (segments []) = true
is_empty_path (segments (s ∷ ss)) = false
is_empty_path (opaque s) = text_eq s []

-- The path with the segment in the buffer.
unfoldable pub close_segment : Bool → Text → UrlRecord → UrlPath
close_segment slashish buffer url =
    let shorter = shorten_path (is_file url) url.path in
    if is_double_dot_segment buffer
    then (if slashish then shorter else push_path [] shorter)
    else if is_single_dot_segment buffer
    then (if slashish then url.path else push_path [] url.path)
    else if is_file url && is_empty_path url.path && is_windows_drive_letter buffer
    then push_path (drive_segment buffer) url.path
    else push_path buffer url.path

-- A record whose segment is closed: a query, a fragment, or the next segment.
unfoldable pub after_segment : Option ℕ → Machine → Step
after_segment c m =
    if is c b'?' then start_query m else if is c b'#' then start_fragment m else next State.path m

unfoldable pub step_path : Native → Bool → Option ℕ → Machine → Step
step_path native overridden c m =
    if ends_segment overridden m.url c
    then after_segment c (
        no_buffer
          (with_url (record m.url { path = close_segment (is_slash m.url c) m.buffer m.url }) m))
    else elim c [
      | none ↦ crash
      | some ch ↦
          next State.path
            (record m { buffer = m.buffer ++ utf8_percent_encode native (ch ∷ []) path_extra })
    ]

unfoldable pub step_opaque_path : Native → Option ℕ → Machine → Step
step_opaque_path native none m = next State.opaque_path m
step_opaque_path native (some c) m =
    if c == b'?'
    then start_query m
    else if c == b'#'
    then start_fragment m
    else next State.opaque_path (
        with_url
          (record m.url {
            path = add_to_path (utf8_percent_encode native (c ∷ []) c0_extra) m.url.path;
          })
          m)

-- `s += t` for a string or `null`.
unfoldable pub append_or_null : Option Text → Text → Option Text
append_or_null none t = some (text "null" ++ t)
append_or_null (some s) t = some (s ++ t)

unfoldable pub step_query : Native → Bool → Option ℕ → Machine → Step
step_query native overridden c m =
    let set = if is_special m.url then special_query_extra else query_extra in
    let closed = no_buffer (
      with_url
        (record m.url {
          query = append_or_null m.url.query (utf8_percent_encode native m.buffer set);
        })
        m) in
    elim c [
      | none ↦ next State.query closed
      | some ch ↦
          if not overridden && ch == b'#'
          then start_fragment closed
          else next State.query (add_char ch m)
    ]

unfoldable pub step_fragment : Native → Option ℕ → Machine → Step
step_fragment native none m = next State.fragment m
step_fragment native (some c) m = next State.fragment (
    with_url
      (record m.url {
        fragment =
            append_or_null m.url.fragment (utf8_percent_encode native (c ∷ []) fragment_extra);
      })
      m)
