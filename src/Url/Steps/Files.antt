-- ===== src/Url/Steps/Files.antt =====
-- File URLs.
use qjs_lws.Base.{
  ℕ, Bool, true, not, ◌&&◌, ◌||◌, Option, none, some, [], ◌∷◌, Text, text_eq, ◌==◌, drop,
  if◌then◌else◌,
}
use qjs_lws.Text.{text}
use qjs_lws.Url.Native.{Native}
use qjs_lws.Url.Host.{Host, domain, parse_host}
use qjs_lws.Url.Record.{
  UrlRecord, UrlPath, opaque, segments, is_special, is_file, is_windows_drive_letter,
  is_normalized_windows_drive_letter, starts_with_windows_drive_letter, shorten_path, push_path,
}
use qjs_lws.Url.Machine.{
  State, Machine, parsed, failed, threw, Step, halt, crash, is, next, again, with_url, add_char,
  no_buffer,
}
use qjs_lws.Url.Result.{Result, ok, raised}
use qjs_lws.Url.Steps.Scheme.{after_inherit}

unfoldable pub file_base : Option UrlRecord → Option UrlRecord
file_base none = none
file_base (some base) = if is_file base then some base else none

-- The host, path and query of a base that is a file.
unfoldable pub inherit_file : UrlRecord → UrlRecord → UrlRecord
inherit_file base url = record url { host = base.host; path = base.path; query = base.query }

unfoldable pub file_path : Text → UrlRecord → UrlPath
file_path rest url =
    if starts_with_windows_drive_letter rest
    then segments []
    else shorten_path (is_file url) url.path

unfoldable pub step_file : Option UrlRecord → Text → Option ℕ → Machine → Step
step_file base cp c m =
    let url = record m.url { scheme = text "file"; host = some (domain []) } in
    if is c b'/' || is c b'\\'
    then next State.file_slash (with_url url m)
    else elim (file_base base) [
      | none ↦ again State.path (with_url url m)
      | some b ↦ after_inherit (file_path (drop m.pointer cp)) (inherit_file b url) c m
    ]

-- A drive letter at the head of the base's path is kept.
unfoldable pub keep_drive : UrlPath → UrlPath → UrlPath
keep_drive (segments (s ∷ ss)) path =
    if is_normalized_windows_drive_letter s then push_path s path else path
keep_drive (segments []) path = path
keep_drive (opaque s) path = path

unfoldable pub step_file_slash : Option UrlRecord → Text → Option ℕ → Machine → Step
step_file_slash base cp c m =
    if is c b'/' || is c b'\\' then next State.file_host m else elim (file_base base) [
      | none ↦ again State.path m
      | some b ↦ again State.path (
          with_url
            (record m.url {
              host = b.host;
              path =
                  if starts_with_windows_drive_letter (drop m.pointer cp)
                  then m.url.path
                  else keep_drive b.path m.url.path;
            })
            m)
    ]

-- `localhost` is no host.
unfoldable pub without_localhost : Host → Host
without_localhost (domain s) = if text_eq s (text "localhost") then domain [] else domain s
without_localhost host = host

unfoldable pub file_host_end : Bool → Result (Option Host) → Machine → Step
file_host_end overridden (raised e) m = halt (threw e m.url)
file_host_end overridden (ok none) m = halt (failed m.url)
file_host_end overridden (ok (some host)) m =
    let url = record m.url { host = some (without_localhost host) } in
    if overridden then halt (parsed url) else again State.path_start (no_buffer (with_url url m))

unfoldable pub ends_file_host : Option ℕ → Bool
ends_file_host none = true
ends_file_host (some c) = c == b'/' || c == b'\\' || c == b'?' || c == b'#'

unfoldable pub step_file_host : Native → Bool → Option ℕ → Machine → Step
step_file_host native overridden c m =
    let url = record m.url { host = some (domain []) } in
    if ends_file_host c
    then (if not overridden && is_windows_drive_letter m.buffer
        then again State.path m
        else if text_eq m.buffer []
        then (if overridden then halt (parsed url) else again State.path_start (with_url url m))
        else file_host_end overridden (parse_host native m.buffer (is_special m.url)) m)
    else elim c [ none ↦ crash | some ch ↦ next State.file_host (add_char ch m) ]
