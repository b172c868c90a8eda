-- ===== src/Url/Steps/Authority.antt =====
-- Credentials, host and port.
use qjs_lws.Base.{
  ℕ, ◌-◌, Bool, true, false, not, ◌&&◌, ◌||◌, Option, none, some, [], ◌∷◌, ◌++◌, Text, text_eq, leb,
  ltb, ◌==◌, length, if◌then◌else◌,
}
use qjs_lws.Text.{text}
use qjs_lws.Url.Native.{Native}
use qjs_lws.Url.Percent.{utf8_percent_encode, userinfo_extra}
use qjs_lws.Url.Host.{Host, parse_host, digits_value}
use qjs_lws.Url.Record.{UrlRecord, same_port, default_port, is_special, includes_credentials}
use qjs_lws.Url.Machine.{
  State, Machine, parsed, failed, threw, Step, go, halt, crash, is, next, again, with_url, add_char,
  no_buffer,
}
use qjs_lws.Url.Result.{Result, ok, raised}
use qjs_lws.Url.Steps.Scheme.{is_slash}

-- `undefined`, `/`, `?`, `#`, or `\` for a special scheme.
unfoldable pub ends_authority : UrlRecord → Option ℕ → Bool
ends_authority url none = true
ends_authority url (some c) = is_slash url (some c) || c == b'?' || c == b'#'

-- The loop over the buffer: the user name up to the first colon, then the password. The result is the
-- flag and the record.
unfoldable pub add_credentials : Native → Text → Bool → UrlRecord → Bool × UrlRecord
add_credentials native [] seen url = (seen, url)
add_credentials native (ch ∷ buffer) seen url =
    let colon = add_credentials native buffer true url in
    let enc = utf8_percent_encode native (ch ∷ []) userinfo_extra in
    let added = add_credentials native buffer seen (
      if seen
      then record url { password = url.password ++ enc }
      else record url { username = url.username ++ enc }) in
    if ch == b':' && not seen then colon else added

unfoldable pub take_credentials : Native → Machine → Machine
take_credentials native m =
    let buffer = if m.at_sign_seen then text "%40" ++ m.buffer else m.buffer in
    let (seen, url) = add_credentials native buffer m.password_token_seen m.url in
    record m { at_sign_seen = true; password_token_seen = seen; url = url; buffer = [] }

-- At the end the pointer goes back to where the buffer began: the buffer is the text since then.
unfoldable pub step_authority : Native → Option ℕ → Machine → Step
step_authority native c m =
    if is c b'@'
    then next State.authority (take_credentials native m)
    else if ends_authority m.url c
    then (if m.at_sign_seen && text_eq m.buffer []
        then halt (failed m.url)
        else go
            (record m { state = State.host; buffer = []; pointer = m.pointer - length m.buffer }))
    else elim c [ none ↦ crash | some ch ↦ next State.authority (add_char ch m) ]

-- With the host that the buffer gives, if it gives one.
unfoldable pub with_host : Result (Option Host) → Machine → (Machine → Step) → Step
with_host (raised e) m on = halt (threw e m.url)
with_host (ok none) m on = halt (failed m.url)
with_host (ok (some host)) m on = on (no_buffer (with_url (record m.url { host = some host }) m))

unfoldable pub mark_bracket : ℕ → Machine → Machine
mark_bracket c m = record m {
  inside_brackets = if c == b'[' then true else if c == b']' then false else m.inside_brackets;
}

-- At a colon; `named` is `stateOverride === 'hostname'`.
unfoldable pub host_colon : Native → (named : Bool) → Machine → Step
host_colon native named m =
    if text_eq m.buffer []
    then halt (failed m.url)
    else if named
    then halt (parsed m.url)
    else with_host (parse_host native m.buffer (is_special m.url)) m (next State.port)

-- At the end of the host.
unfoldable pub host_end : Native → (overridden : Bool) → Machine → Step
host_end native overridden m =
    if is_special m.url && text_eq m.buffer []
    then halt (failed m.url)
    else if overridden
        && text_eq m.buffer []
        && (includes_credentials m.url || not (same_port m.url.port none))
    then halt (parsed m.url)
    else with_host (parse_host native m.buffer (is_special m.url)) m
        (λ m'. if overridden then halt (parsed m'.url) else again State.path_start m')

unfoldable pub step_host : Native → (overridden named : Bool) → Option ℕ → Machine → Step
step_host native overridden named c m =
    if is c b':' && not m.inside_brackets
    then host_colon native named m
    else if ends_authority m.url c
    then host_end native overridden m
    else elim c [ none ↦ crash | some ch ↦ next m.state (add_char ch (mark_bracket ch m)) ]

abbrev pub is_digit_at : Option ℕ → Bool
is_digit_at none = false
is_digit_at (some c) = leb b'0' c && leb c b'9'

-- The port in the buffer, if there is one.
unfoldable pub set_port : Text → UrlRecord → UrlRecord
set_port [] url = url
set_port (d ∷ buffer) url =
    let port = digits_value 10 0 (d ∷ buffer) in
    record url {
      port = if same_port (some port) (default_port url.scheme) then none else some port;
    }

unfoldable pub too_large : Text → Bool
too_large [] = false
too_large (d ∷ buffer) = ltb 65535 (digits_value 10 0 (d ∷ buffer))

unfoldable pub step_port : Bool → Option ℕ → Machine → Step
step_port overridden c m =
    let m' = no_buffer (with_url (set_port m.buffer m.url) m) in
    let ended =
      if too_large m.buffer
      then halt (failed m.url)
      else if overridden
      then halt (parsed m'.url)
      else again State.path_start m' in
    elim c [
      | none ↦ ended
      | some ch ↦
          if is_digit_at (some ch)
          then next State.port (add_char ch m)
          else if ends_authority m.url (some ch) || overridden
          then ended
          else halt (failed m.url)
    ]
