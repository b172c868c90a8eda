-- ===== src/Url/Parser/Ends/Authority.antt =====
-- Credentials, host and port.
use qjs_lws.Base.{
  ℕ, ◌+◌, ◌-◌, ◌<◌, ◌≡◌, Bool, true, false, Option, none, some, [], ◌∷◌, ◌++◌, Text, arith, length,
  if◌then◌else◌, sym, refl,
}
use mathlib.Core.Path.{subst}
use qjs_lws.Text.{text}
use qjs_lws.Url.Native.{Native}
use qjs_lws.Url.Percent.{utf8_percent_encode, userinfo_extra}
use qjs_lws.Url.Host.{Host, parse_host}
use qjs_lws.Url.Record.{UrlRecord, is_special}
use qjs_lws.Url.Machine.{State, Machine, Step, halt, parsed, next, again}
use qjs_lws.Url.Result.{Result, ok, raised}
use qjs_lws.Url.Steps.Authority.{
  ends_authority, add_credentials, take_credentials, step_authority, with_host, mark_bracket,
  host_colon, host_end, step_host, set_port, too_large, step_port,
}
use qjs_lws.Url.Parser.Sound.{
  left, Sound, Running, PortFits, NeedsBase, room, left-later, left-next,
}

add_credentials-port :
    (native : Native) (buffer : Text) (seen : Bool) (url : UrlRecord)
    → (add_credentials native buffer seen url).1.port ≡ url.port
unfolding add_credentials
add_credentials-port native [] seen url = refl
add_credentials-port native (ch ∷ buffer) seen url = ground (
  arith,
  add_credentials-port native buffer true url,
  add_credentials-port native buffer seen (record url {
    password = url.password ++ utf8_percent_encode native (ch ∷ []) userinfo_extra;
  }),
  add_credentials-port native buffer seen (record url {
    username = url.username ++ utf8_percent_encode native (ch ∷ []) userinfo_extra;
  }),
)

module _ (base : Option UrlRecord) (len : ℕ) (m : Machine) (h : Running base len m) where
  take_credentials-port : (native : Native) → (take_credentials native m).url.port ≡ m.url.port
  unfolding take_credentials
  take_credentials-port native =
      add_credentials-port native (if m.at_sign_seen then text "%40" ++ m.buffer else m.buffer)
        m.password_token_seen m.url

  take_credentials-pointer : (native : Native) → (take_credentials native m).pointer ≡ m.pointer
  unfolding take_credentials
  take_credentials-pointer native = refl

  pub authority-Sound :
      (native : Native) (c : Option ℕ)
      → Sound base len (left len State.authority m.pointer) (step_authority native c m)
  unfolding step_authority ends_authority
  authority-Sound native none = ground (
    arith,
    left-later len State.authority State.host m.pointer (m.pointer - length m.buffer) (omega arith),
  )
  authority-Sound native (some c) =
      let same = take_credentials-port native in
      let fits : PortFits (take_credentials native m).url.port = subst PortFits (sym same) h.port in
      ground (
        arith,
        fits,
        take_credentials-pointer native,
        left-later len State.authority State.host m.pointer (m.pointer - length m.buffer)
            (omega arith),
      )

  set_port_fits :
      (buffer : Text) (url : UrlRecord)
      → too_large buffer ≡ false
      → PortFits url.port
      → PortFits (set_port buffer url).port
  unfolding set_port too_large
  set_port_fits [] url small p = p
  set_port_fits (d ∷ buffer) url small p = ground arith

  pub port-Sound :
      (overridden : Bool) (c : Option ℕ)
      → Sound base len (left len State.port m.pointer) (step_port overridden c m)
  unfolding step_port
  port-Sound overridden none = ground (arith, set_port_fits m.buffer m.url)
  port-Sound overridden (some c) = ground (arith, set_port_fits m.buffer m.url)

  with_host-Sound :
      (host : Result (Option Host)) (bound : ℕ) (on : Machine → Step)
      → ((m' : Machine)
          → m'.pointer ≡ m.pointer
          → m'.url.port ≡ m.url.port
          → Sound base len bound (on m'))
      → Sound base len bound (with_host host m on)
  unfolding with_host
  with_host-Sound (raised e) bound on k = h.port
  with_host-Sound (ok none) bound on k = h.port
  with_host-Sound (ok (some host)) bound on k = k _ refl refl

  host_colon-Sound :
      (native : Native) (named : Bool) (s : State)
      → room s ≡ 5
      → Sound base len (left len s m.pointer) (host_colon native named m)
  unfolding host_colon
  host_colon-Sound native named s r =
      let host = parse_host native m.buffer (is_special m.url) in
      let on = with_host-Sound host (left len s m.pointer) (next State.port) (λ m' p q. (
        left-later len s State.port m.pointer (m'.pointer + 1) (omega arith),
        tt,
        subst PortFits (sym q) h.port,
      )) in
      ground (arith, on)

  after_host :
      (native : Native) (overridden : Bool) (s : State)
      → room s ≡ 5
      → (m' : Machine) → PortFits m'.url.port
      → Sound base len
          (left len s m.pointer)
          (if overridden then halt (parsed m'.url) else again State.path_start m')
  after_host native false s r m' p =
      (left-later len s State.path_start m.pointer m'.pointer (omega arith), tt, p)
  after_host native true s r m' p = p

  host_end-Sound :
      (native : Native) (overridden : Bool) (s : State)
      → room s ≡ 5
      → Sound base len (left len s m.pointer) (host_end native overridden m)
  unfolding host_end
  host_end-Sound native overridden s r =
      let host = parse_host native m.buffer (is_special m.url) in
      let on =
        with_host-Sound host (left len s m.pointer)
          (λ m'. if overridden then halt (parsed m'.url) else again State.path_start m')
          (λ m' p q. after_host native overridden s r m' (subst PortFits (sym q) h.port)) in
      ground (arith, on)

  pub host-Sound :
      (native : Native) (overridden named : Bool) (c : Option ℕ) (s : State)
      → m.state ≡ s
      → room s ≡ 5
      → NeedsBase s base
      → Sound base len (left len s m.pointer) (step_host native overridden named c m)
  unfolding step_host ends_authority mark_bracket
  host-Sound native overridden named none s e r n = host_end-Sound native overridden s r
  host-Sound native overridden named (some c) s e r n =
      let on = left-next len s m.pointer h.inside in
      let needs : NeedsBase m.state base = subst (λ t. NeedsBase t base) (sym e) n in
      let less : left len m.state (m.pointer + 1) < left len s m.pointer =
        subst (λ t. left len t (m.pointer + 1) < left len s m.pointer) (sym e) on in
      ground (
        arith,
        host_colon-Sound native named s r,
        host_end-Sound native overridden s r,
        needs,
        less,
      )
