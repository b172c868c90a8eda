-- ===== src/Url/Parser/Keeps.antt =====
-- What each state of the parser leaves of the record, when a setter has called it.
use qjs_lws.Base.{ℕ, ◌≡◌, Bool, true, false, Option, none, some, [], ◌∷◌, Text, arith, refl, ◌∙◌}
use qjs_lws.Url.Native.{Native}
use qjs_lws.Url.Host.{Host, parse_host}
use qjs_lws.Url.Record.{UrlRecord, segments, is_special}
use qjs_lws.Url.Machine.{
  State, Machine, parsed, failed, threw, Step, go, halt, crash, next, with_url, no_buffer,
}
use qjs_lws.Url.Result.{Result, ok, raised}
use qjs_lws.Url.Steps.Scheme.{step_scheme_start, step_scheme, no_scheme_char, drop_default_port}
use qjs_lws.Url.Steps.Authority.{
  ends_authority, with_host, mark_bracket, host_colon, host_end, step_host, set_port, step_port,
}
use qjs_lws.Url.Steps.Paths.{
  step_path_start, ends_segment, after_segment, step_path, step_query, step_fragment,
}

-- The states that a setter's parser passes through.
unfoldable pub is_edited : (start current : State) → Bool
is_edited State.scheme_start State.scheme_start = true
is_edited State.scheme_start State.scheme = true
is_edited State.host State.host = true
is_edited State.host State.port = true
is_edited State.hostname State.hostname = true
is_edited State.port State.port = true
is_edited State.path_start State.path_start = true
is_edited State.path_start State.path = true
is_edited State.query State.query = true
is_edited State.fragment State.fragment = true
is_edited start current = false

-- The record without the part that a setter may change.
abbrev pub rest : State → UrlRecord → UrlRecord
rest State.scheme_start u = record u { scheme = []; port = none }
rest State.host u = record u { host = none; port = none }
rest State.hostname u = record u { host = none }
rest State.port u = record u { port = none }
rest State.path_start u = record u { path = segments [] }
rest State.query u = record u { query = none }
rest State.fragment u = record u { fragment = none }
rest start u = u

-- The states of a setter in which a native function may throw.
abbrev pub MayThrow : State → Type 0
MayThrow State.host = Unit {0}
MayThrow State.hostname = Unit {0}
MayThrow start = ⊥

abbrev pub Keeps : State → UrlRecord → Step → Type 0
Keeps s u (go m) = (is_edited s m.state ≡ true) × (rest s m.url ≡ rest s u)
Keeps s u (halt (parsed url)) = rest s url ≡ rest s u
Keeps s u (halt (failed url)) = rest s url ≡ rest s u
Keeps s u (halt (threw err url)) = (rest s url ≡ rest s u) × MayThrow s
Keeps s u crash = Unit {0}

module _ (u : UrlRecord) (m : Machine) where
  pub fragment-Keeps :
      (native : Native) (c : Option ℕ)
      → rest State.fragment m.url ≡ rest State.fragment u
      → Keeps State.fragment u (step_fragment native c m)
  unfolding step_fragment is_edited
  fragment-Keeps native none e = (refl, e)
  fragment-Keeps native (some c) e = (refl, e)

  pub query-Keeps :
      (native : Native) (c : Option ℕ)
      → rest State.query m.url ≡ rest State.query u
      → Keeps State.query u (step_query native true c m)
  unfolding step_query is_edited
  query-Keeps native none e = (refl, e)
  query-Keeps native (some c) e = (refl, e)

  pub path-Keeps :
      (native : Native) (c : Option ℕ)
      → rest State.path_start m.url ≡ rest State.path_start u
      → Keeps State.path_start u (step_path native true c m)
  unfolding step_path ends_segment after_segment is_edited
  path-Keeps native none e = (refl, e)
  path-Keeps native (some c) e = ground (arith, e)

  pub path_start-Keeps :
      (c : Option ℕ)
      → rest State.path_start m.url ≡ rest State.path_start u
      → Keeps State.path_start u (step_path_start true c m)
  unfolding step_path_start is_edited
  path_start-Keeps none e = ground (arith, e)
  path_start-Keeps (some c) e = ground (arith, e)

  set_port-rest :
      (buffer : Text) (url : UrlRecord)
      → rest State.port (set_port buffer url) ≡ rest State.port url
  unfolding set_port
  set_port-rest [] url = refl
  set_port-rest (d ∷ buffer) url = refl

  -- The port stands in the record for a host, too.
  set_port-rest_host :
      (buffer : Text) (url : UrlRecord)
      → rest State.host (set_port buffer url) ≡ rest State.host url
  unfolding set_port
  set_port-rest_host [] url = refl
  set_port-rest_host (d ∷ buffer) url = refl

  pub port-Keeps :
      (c : Option ℕ)
      → rest State.port m.url ≡ rest State.port u
      → Keeps State.port u (step_port true c m)
  unfolding step_port is_edited
  port-Keeps none e = ground (arith, e, set_port-rest m.buffer m.url ∙ e)
  port-Keeps (some c) e = ground (arith, e, set_port-rest m.buffer m.url ∙ e)

  pub host_port-Keeps :
      (c : Option ℕ)
      → rest State.host m.url ≡ rest State.host u
      → Keeps State.host u (step_port true c m)
  unfolding step_port is_edited
  host_port-Keeps none e = ground (arith, e, set_port-rest_host m.buffer m.url ∙ e)
  host_port-Keeps (some c) e = ground (arith, e, set_port-rest_host m.buffer m.url ∙ e)

  with_host-Keeps :
      (s : State) (host : Result (Option Host)) (on : Machine → Step)
      → rest s m.url ≡ rest s u
      → MayThrow s
      → ((h : Host) → Keeps s u (on (no_buffer (with_url (record m.url { host = some h }) m))))
      → Keeps s u (with_host host m on)
  unfolding with_host
  with_host-Keeps s (raised err) on e t k = (e, t)
  with_host-Keeps s (ok none) on e t k = e
  with_host-Keeps s (ok (some h)) on e t k = k h

  host_end-Keeps :
      (native : Native) (s : State)
      → rest s m.url ≡ rest s u
      → MayThrow s
      → ((h : Host) → rest s (record m.url { host = some h }) ≡ rest s u)
      → Keeps s u (host_end native true m)
  unfolding host_end
  host_end-Keeps native s e t k = ground (
    arith,
    e,
    with_host-Keeps s (parse_host native m.buffer (is_special m.url)) (λ m'. halt (parsed m'.url)) e
        t k,
  )

  pub host-Keeps :
      (native : Native) (c : Option ℕ)
      → m.state ≡ State.host
      → rest State.host m.url ≡ rest State.host u
      → Keeps State.host u (step_host native true false c m)
  unfolding step_host host_colon is_edited ends_authority mark_bracket
  host-Keeps native none st e = host_end-Keeps native State.host e tt (λ h. e)
  host-Keeps native (some c) st e =
      let same : is_edited State.host m.state ≡ true = rw st refl in
      let on =
        with_host-Keeps State.host (parse_host native m.buffer (is_special m.url)) (next State.port)
          e tt (λ h. (refl, e)) in
      ground (arith, e, same, on, host_end-Keeps native State.host e tt (λ h. e))

  pub hostname-Keeps :
      (native : Native) (c : Option ℕ)
      → m.state ≡ State.hostname
      → rest State.hostname m.url ≡ rest State.hostname u
      → Keeps State.hostname u (step_host native true true c m)
  unfolding step_host host_colon is_edited ends_authority mark_bracket
  hostname-Keeps native none st e = host_end-Keeps native State.hostname e tt (λ h. e)
  hostname-Keeps native (some c) st e =
      let same : is_edited State.hostname m.state ≡ true = rw st refl in
      ground (arith, e, same, host_end-Keeps native State.hostname e tt (λ h. e))

  pub scheme_start-Keeps :
      (c : Option ℕ)
      → rest State.scheme_start m.url ≡ rest State.scheme_start u
      → Keeps State.scheme_start u (step_scheme_start true c m)
  unfolding step_scheme_start is_edited
  scheme_start-Keeps none e = e
  scheme_start-Keeps (some c) e = ground (arith, e)

  drop_default_port-rest :
      (url : UrlRecord)
      → rest State.scheme_start (drop_default_port url) ≡ rest State.scheme_start url
  unfolding drop_default_port
  drop_default_port-rest url = ground arith

  pub scheme-Keeps :
      (base : Option UrlRecord) (cp : Text) (c : Option ℕ)
      → rest State.scheme_start m.url ≡ rest State.scheme_start u
      → Keeps State.scheme_start u (step_scheme true base cp c m)
  unfolding step_scheme no_scheme_char is_edited
  scheme-Keeps base cp none e = e
  scheme-Keeps base cp (some c) e =
      ground (arith, e, drop_default_port-rest (record m.url { scheme = m.buffer }) ∙ e)

pub no_true : false ≡ true → ⊥
no_true e = ground arith
