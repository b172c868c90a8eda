-- ===== src/Url/Parser/Frame.antt =====
-- With a state to start from, as the setters call it, the parser touches one part of the record.
use qjs_lws.Base.{
  ℕ, zero, suc, ◌≡◌, Bool, true, false, Option, none, some, Text, length, ltb, get_elem?, refl,
  Outcome, returned, thrown, returned_inj, sym,
}
use qjs_lws.Url.Native.{Native}
use qjs_lws.Url.Record.{UrlRecord}
use qjs_lws.Url.Machine.{State, Machine, Parsed, parsed, failed, threw, Step, go, halt, crash}
use qjs_lws.Url.Parser.Total.{url_of, basic_url_parse-Returns}
use qjs_lws.Url.Parser.Sound.{PortFits, BaseFits, NeedsBase}
use qjs_lws.Url.Result.{UrlError}
use qjs_lws.Url.Parser.{
  step_in, run, start_state, start_machine, parse_fuel, clean_input, basic_url_parse, is_overridden,
  is_hostname,
}
use qjs_lws.Url.Parser.Keeps.{
  is_edited, rest, MayThrow, Keeps, fragment-Keeps, query-Keeps, path-Keeps, path_start-Keeps,
  port-Keeps, host_port-Keeps, host-Keeps, hostname-Keeps, scheme_start-Keeps, scheme-Keeps,
  no_true,
}

-- Only the states of the host throw.
abbrev pub Quiet : State → Parsed → Type 0
Quiet s (parsed v) = Unit {0}
Quiet s (failed v) = Unit {0}
Quiet s (threw err v) = MayThrow s

abbrev pub Kept : State → UrlRecord → Parsed → Type 0
Kept s u p = (rest s (url_of p) ≡ rest s u) × Quiet s p

module _ (native : Native) (base : Option UrlRecord) (cp : Text) (u : UrlRecord) where
  step_in-Keeps :
      (s t : State) (c : Option ℕ) (m : Machine)
      → m.state ≡ t
      → is_edited s t ≡ true
      → rest s m.url ≡ rest s u
      → Keeps s u (step_in native base (some s) cp t c m)
  unfolding step_in is_edited is_overridden is_hostname
  step_in-Keeps State.scheme_start State.scheme_start c m st i e = scheme_start-Keeps u m c e
  step_in-Keeps State.scheme_start State.scheme c m st i e = scheme-Keeps u m base cp c e
  step_in-Keeps State.host State.host c m st i e = host-Keeps u m native c st e
  step_in-Keeps State.host State.port c m st i e = host_port-Keeps u m c e
  step_in-Keeps State.hostname State.hostname c m st i e = hostname-Keeps u m native c st e
  step_in-Keeps State.port State.port c m st i e = port-Keeps u m c e
  step_in-Keeps State.path_start State.path_start c m st i e = path_start-Keeps u m c e
  step_in-Keeps State.path_start State.path c m st i e = path-Keeps u m native c e
  step_in-Keeps State.query State.query c m st i e = query-Keeps u m native c e
  step_in-Keeps State.fragment State.fragment c m st i e = fragment-Keeps u m native c e
  step_in-Keeps s t c m st i e = absurd (no_true i)

  -- The test at the end of a round.
  leave-Keeps :
      (s : State) (on : Machine → Outcome UrlError Parsed) (m : Machine) (p : Parsed) (t : Bool)
      → (on m ≡ returned p → Kept s u p)
      → rest s m.url ≡ rest s u
      → elim t [ true ↦ returned (parsed m.url) | false ↦ on m ] ≡ returned p
      → Kept s u p
  leave-Keeps s on m p true k e eq = rw (sym (returned_inj eq)) (e, tt)
  leave-Keeps s on m p false k e eq = k eq

  -- One round of the loop on a result of the switch; `on` is the loop.
  round-Keeps :
      (s : State) (on : Machine → Outcome UrlError Parsed) (r : Step) (p : Parsed)
      → ((m : Machine)
          → is_edited s m.state ≡ true
          → rest s m.url ≡ rest s u
          → on m ≡ returned p
          → Kept s u p)
      → Keeps s u r
      → elim r [
        | go m' ↦ elim (ltb (length cp) m'.pointer) [
          | true ↦ returned (parsed m'.url)
          | false ↦ on m'
        ]
        | halt r' ↦ returned r'
        | crash ↦ thrown UrlError.type_error
      ]
        ≡ returned p
      → Kept s u p
  round-Keeps s on (go m) p k (i, e) eq =
      leave-Keeps s on m p (ltb (length cp) m.pointer) (k m i e) e eq
  round-Keeps s on (halt (parsed v)) p k e eq = rw (sym (returned_inj eq)) (e, tt)
  round-Keeps s on (halt (failed v)) p k e eq = rw (sym (returned_inj eq)) (e, tt)
  round-Keeps s on (halt (threw err v)) p k e eq = rw (sym (returned_inj eq)) e
  round-Keeps s on crash p k e eq = cc

  run-Keeps :
      (s : State) (fuel : ℕ) (m : Machine) (p : Parsed)
      → is_edited s m.state ≡ true
      → rest s m.url ≡ rest s u
      → run native base (some s) cp fuel m ≡ returned p
      → Kept s u p
  unfolding run
  run-Keeps s zero m p i e eq = cc
  run-Keeps s (suc fuel) m p i e eq =
      round-Keeps s (run native base (some s) cp fuel)
        (step_in native base (some s) cp m.state (get_elem? cp m.pointer) m) p
        (λ m' i' e' eq'. run-Keeps s fuel m' p i' e' eq')
        (step_in-Keeps s m.state (get_elem? cp m.pointer) m refl i e) eq

setter-NeedsBase :
    (s : State) (base : Option UrlRecord)
    → is_edited s s ≡ true
    → NeedsBase (start_state (some s)) base
unfolding is_edited start_state
setter-NeedsBase State.special_relative_or_authority base i = absurd (no_true i)
setter-NeedsBase State.relative base i = absurd (no_true i)
setter-NeedsBase State.relative_slash base i = absurd (no_true i)
setter-NeedsBase s none i = tt
setter-NeedsBase s (some base) i = tt

kept :
    (native : Native) (input : Text) (base : Option UrlRecord) (url : UrlRecord) (s : State)
    → is_edited s s ≡ true
    → (r : Parsed) → basic_url_parse native input base url (some s) ≡ returned r
    → Kept s url r
unfolding basic_url_parse start_state
kept native input base url s i r eq =
    let cp = clean_input input in
    run-Keeps native base cp url s (parse_fuel cp) (start_machine (some s) url) r i refl eq

-- What a setter's call of the parser gives: it ends, and has changed nothing but its part of the
-- record.
abbrev pub Edits : State → UrlRecord → Outcome UrlError Parsed → Type 0
Edits s url o = (r : Parsed) × (o ≡ returned r) × PortFits (url_of r).port × Kept s url r

-- If the ports of the record and of the base are below 65536: started for a setter, in the state of
-- the scheme, the host, the host name, the port, the path, the query or the fragment, the parser ends
-- on every input, whether it accepts it or not; only for the host and the host name may a native
-- function throw; the record is the same as before but for that part, where a scheme or a host may take
-- the port along, and its port is below 65536.
pub basic_url_parse-Edits :
    (native : Native) (input : Text) (base : Option UrlRecord) (url : UrlRecord) (s : State)
    → is_edited s s ≡ true
    → PortFits url.port
    → BaseFits base
    → Edits s url (basic_url_parse native input base url (some s))
basic_url_parse-Edits native input base url s i p b =
    let (r, eq, fits) =
      basic_url_parse-Returns native input base url (some s) (setter-NeedsBase s base i) p b in
    (r, eq, fits, kept native input base url s i r eq)
