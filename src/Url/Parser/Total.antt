-- ===== src/Url/Parser/Total.antt =====
-- `basicURLParse` returns on every input.
use qjs_lws.Base.{
  ℕ, zero, suc, ◌+◌, ◌<◌, ◌≡◌, Bool, true, false, Option, Text, arith, length, ltb, get_elem?, refl,
  Outcome, returned, thrown,
}
use qjs_lws.Url.Native.{Native}
use qjs_lws.Url.Record.{UrlRecord}
use qjs_lws.Url.Machine.{State, Machine, Parsed, parsed, failed, threw, Step, go, halt, crash}
use qjs_lws.Url.Result.{UrlError}
use qjs_lws.Url.Parser.{
  step_in, run, start_state, start_machine, parse_fuel, clean_input, basic_url_parse, is_overridden,
  is_hostname,
}
use qjs_lws.Url.Parser.Sound.{
  left, Sound, Running, PortFits, BaseFits, NeedsBase, room, room_le, more_room,
}
use qjs_lws.Url.Parser.Ends.Scheme.{
  scheme_start-Sound, scheme-Sound, no_scheme-Sound, special_relative_or_authority-Sound,
  path_or_authority-Sound, relative-Sound, relative_slash-Sound, special_authority_slashes-Sound,
  special_authority_ignore_slashes-Sound,
}
use qjs_lws.Url.Parser.Ends.Authority.{authority-Sound, host-Sound, port-Sound}
use qjs_lws.Url.Parser.Ends.Files.{file-Sound, file_slash-Sound, file_host-Sound}
use qjs_lws.Url.Parser.Ends.Paths.{
  path_start-Sound, path-Sound, opaque_path-Sound, query-Sound, fragment-Sound,
}

-- The record of a result, parsed or not.
abbrev pub url_of : Parsed → UrlRecord
url_of (parsed url) = url
url_of (failed url) = url
url_of (threw e url) = url

-- A result, whose port is in its range.
abbrev pub Returns : Outcome UrlError Parsed → Type 0
Returns o = (r : Parsed) × (o ≡ returned r) × PortFits (url_of r).port

module _ (native : Native) (base : Option UrlRecord) (override : Option State) (cp : Text) where
  abbrev overridden : Bool
  overridden = is_overridden override

  step_in-Sound :
      (m : Machine)
      → Running base (length cp) m
      → (s : State) (c : Option ℕ) → m.state ≡ s
      → NeedsBase s base
      → Sound base
          (length cp)
          (left (length cp) s m.pointer)
          (step_in native base override cp s c m)
  unfolding step_in
  step_in-Sound m h State.scheme_start c e n = scheme_start-Sound base (length cp) m h overridden c
  step_in-Sound m h State.scheme c e n = scheme-Sound base (length cp) m h overridden cp c
  step_in-Sound m h State.no_scheme c e n = no_scheme-Sound base (length cp) m h c
  step_in-Sound m h State.special_relative_or_authority c e n =
      special_relative_or_authority-Sound base (length cp) m h cp c n
  step_in-Sound m h State.path_or_authority c e n = path_or_authority-Sound base (length cp) m h c
  step_in-Sound m h State.relative c e n = relative-Sound base (length cp) m h c e n
  step_in-Sound m h State.relative_slash c e n = relative_slash-Sound base (length cp) m h c n
  step_in-Sound m h State.special_authority_slashes c e n =
      special_authority_slashes-Sound base (length cp) m h cp c
  step_in-Sound m h State.special_authority_ignore_slashes c e n =
      special_authority_ignore_slashes-Sound base (length cp) m h c
  step_in-Sound m h State.authority c e n = authority-Sound base (length cp) m h native c
  step_in-Sound m h State.host c e n =
      host-Sound base (length cp) m h native overridden (is_hostname override) c State.host e refl
        tt
  step_in-Sound m h State.hostname c e n =
      host-Sound base (length cp) m h native overridden (is_hostname override) c State.hostname e
        refl tt
  step_in-Sound m h State.port c e n = port-Sound base (length cp) m h overridden c
  step_in-Sound m h State.file c e n = file-Sound base (length cp) m h cp c e
  step_in-Sound m h State.file_slash c e n = file_slash-Sound base (length cp) m h cp c
  step_in-Sound m h State.file_host c e n = file_host-Sound base (length cp) m h native overridden c
  step_in-Sound m h State.path_start c e n = path_start-Sound base (length cp) m h overridden c
  step_in-Sound m h State.path c e n = path-Sound base (length cp) m h native overridden c
  step_in-Sound m h State.opaque_path c e n = opaque_path-Sound base (length cp) m h native c
  step_in-Sound m h State.query c e n = query-Sound base (length cp) m h native overridden c
  step_in-Sound m h State.fragment c e n = fragment-Sound base (length cp) m h native c

  -- The test at the end of a round.
  leave-Returns :
      (on : Machine → Outcome UrlError Parsed) (m : Machine) (t : Bool)
      → PortFits m.url.port
      → (t ≡ false → Returns (on m))
      → Returns (elim t [ true ↦ returned (parsed m.url) | false ↦ on m ])
  leave-Returns on m true fits k = (parsed m.url, refl, fits)
  leave-Returns on m false fits k = k refl

  -- One round of the loop on a result of the switch; `on` is the loop.
  round-Returns :
      (on : Machine → Outcome UrlError Parsed) (bound : ℕ) (r : Step)
      → ((m : Machine)
          → Running base (length cp) m
          → NeedsBase m.state base
          → left (length cp) m.state m.pointer < bound
          → Returns (on m))
      → BaseFits base
      → Sound base (length cp) bound r
      → Returns (elim r [
        | go m' ↦ elim (ltb (length cp) m'.pointer) [
          | true ↦ returned (parsed m'.url)
          | false ↦ on m'
        ]
        | halt r' ↦ returned r'
        | crash ↦ thrown UrlError.type_error
      ])
  round-Returns on bound (go m') k known (less, needs, fits) =
      leave-Returns on m' (ltb (length cp) m'.pointer) fits
        (λ e. k m' (record { inside = ground arith; port = fits; known = known }) needs less)
  round-Returns on bound (halt (parsed url)) k known s = (parsed url, refl, s)
  round-Returns on bound (halt (failed url)) k known s = (failed url, refl, s)
  round-Returns on bound (halt (threw e url)) k known s = (threw e url, refl, s)
  round-Returns on bound crash k known s = absurd s

  run-Returns :
      (fuel : ℕ) (m : Machine)
      → Running base (length cp) m
      → NeedsBase m.state base
      → left (length cp) m.state m.pointer < fuel
      → Returns (run native base override cp fuel m)
  unfolding run
  run-Returns zero m h n less = absurd (omega arith)
  run-Returns (suc fuel) m h n less =
      round-Returns (run native base override cp fuel) (left (length cp) m.state m.pointer)
        (step_in native base override cp m.state (get_elem? cp m.pointer) m)
        (λ m' h' n' less'. run-Returns fuel m' h' n' (omega arith)) h.known
        (step_in-Sound m h m.state (get_elem? cp m.pointer) refl n)

-- If the ports of the base and of the record given are below 65536, and a state to start from that
-- reads the base is given one: the parser ends on every input, with a record, with `null` or with the
-- exception of a native function; it never reads a field of a missing base, and the port of the record
-- is below 65536.
pub basic_url_parse-Returns :
    (native : Native) (input : Text) (base : Option UrlRecord) (url : UrlRecord)
    (override : Option State)
    → NeedsBase (start_state override) base
    → PortFits url.port
    → BaseFits base
    → Returns (basic_url_parse native input base url override)
unfolding basic_url_parse
basic_url_parse-Returns native input base url override n p b =
    let cp = clean_input input in
    run-Returns native base override cp (parse_fuel cp) (start_machine override url)
      (record { inside = omega arith; port = p; known = b }) n
      (omega (
        arith,
        room_le (start_state override),
        more_room (room (start_state override)) 14 (length cp + 2)
            (omega (arith, room_le (start_state override))),
      ))
