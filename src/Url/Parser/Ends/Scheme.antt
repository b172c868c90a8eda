-- ===== src/Url/Parser/Ends/Scheme.antt =====
-- The states up to the authority.
use qjs_lws.Base.{
  ℕ, ◌+◌, ◌≤◌, ◌≡◌, Bool, Option, none, some, Text, arith, sym, Bool-cases, inl, inr,
}
use mathlib.Core.Path.{subst}
use qjs_lws.Url.Record.{UrlRecord, UrlPath, pop_path}
use qjs_lws.Url.Machine.{State, Machine, no_buffer, with_url}
use qjs_lws.Url.Steps.Scheme.{
  step_scheme_start, step_scheme, step_no_scheme, step_special_relative_or_authority,
  step_path_or_authority, step_relative, step_relative_slash, step_special_authority_slashes,
  step_special_authority_ignore_slashes, no_scheme_char, after_scheme, after_inherit, inherit,
  inherit_authority, drop_default_port, same_scheme, is_slash,
}
use qjs_lws.Url.Parser.Sound.{left, Sound, Running, PortFits, NeedsBase, room, left-later}

module _ (base : Option UrlRecord) (len : ℕ) (m : Machine) (h : Running base len m) where
  pub scheme_start-Sound :
      (overridden : Bool) (c : Option ℕ)
      → Sound base len (left len State.scheme_start m.pointer) (step_scheme_start overridden c m)
  unfolding step_scheme_start
  scheme_start-Sound overridden none = ground arith
  scheme_start-Sound overridden (some c) = ground arith

  pub no_scheme-Sound :
      (c : Option ℕ) → Sound base len (left len State.no_scheme m.pointer) (step_no_scheme base c m)
  unfolding step_no_scheme
  no_scheme-Sound c = ground arith

  no_scheme_char-Sound :
      (overridden : Bool)
      → Sound base len (left len State.scheme m.pointer) (no_scheme_char overridden m)
  unfolding no_scheme_char
  no_scheme_char-Sound overridden = ground arith

  drop_default_port_fits :
      (url : UrlRecord) → PortFits url.port → PortFits (drop_default_port url).port
  unfolding drop_default_port
  drop_default_port_fits url p = ground arith

  pub special_relative_or_authority-Sound :
      (cp : Text) (c : Option ℕ)
      → NeedsBase State.special_relative_or_authority base
      → Sound base len
          (left len State.special_relative_or_authority m.pointer)
          (step_special_relative_or_authority cp c m)
  unfolding step_special_relative_or_authority
  special_relative_or_authority-Sound cp c n = ground arith

  pub path_or_authority-Sound :
      (c : Option ℕ)
      → Sound base len (left len State.path_or_authority m.pointer) (step_path_or_authority c m)
  unfolding step_path_or_authority
  path_or_authority-Sound c = ground arith

  pub special_authority_slashes-Sound :
      (cp : Text) (c : Option ℕ)
      → Sound base len
          (left len State.special_authority_slashes m.pointer)
          (step_special_authority_slashes cp c m)
  unfolding step_special_authority_slashes
  special_authority_slashes-Sound cp c = ground arith

  pub special_authority_ignore_slashes-Sound :
      (c : Option ℕ)
      → Sound base len
          (left len State.special_authority_ignore_slashes m.pointer)
          (step_special_authority_ignore_slashes c m)
  unfolding step_special_authority_ignore_slashes
  special_authority_ignore_slashes-Sound c = ground arith

-- Behind the base's parts the parser is in the path or later, or at the end of the text.
after_inherit_bound :
    (base : Option UrlRecord) (len : ℕ) (shorter : UrlRecord → UrlPath) (url : UrlRecord)
    (c : Option ℕ) (m : Machine)
    → m.pointer ≤ len
    → 3 ≤ room m.state
    → NeedsBase m.state base
    → PortFits url.port
    → Sound base len (left len m.state m.pointer) (after_inherit shorter url c m)
unfolding after_inherit
after_inherit_bound base len shorter url none m inside early n p = (omega arith, n, p)
after_inherit_bound base len shorter url (some c) m inside early n p = ground (
  arith,
  left-later len m.state State.query m.pointer (m.pointer + 1) (omega arith),
  left-later len m.state State.fragment m.pointer (m.pointer + 1) (omega arith),
  left-later len m.state State.path m.pointer m.pointer (omega arith),
)

pub after_inherit-Sound :
    (base : Option UrlRecord) (len : ℕ) (shorter : UrlRecord → UrlPath) (url : UrlRecord)
    (c : Option ℕ) (m : Machine) (s : State)
    → m.state ≡ s
    → m.pointer ≤ len
    → 3 ≤ room s
    → NeedsBase s base
    → PortFits url.port
    → Sound base len (left len s m.pointer) (after_inherit shorter url c m)
after_inherit-Sound base len shorter url c m s e inside early n p =
    subst (λ t. Sound base len (left len t m.pointer) (after_inherit shorter url c m)) e
      (after_inherit_bound base len shorter url c m inside (subst (λ t. 3 ≤ room t) (sym e) early)
        (subst (λ t. NeedsBase t base) (sym e) n) p)

module _ (base : Option UrlRecord) (len : ℕ) (m : Machine) (h : Running base len m) where
  pub relative_slash-Sound :
      (c : Option ℕ)
      → NeedsBase State.relative_slash base
      → Sound base len (left len State.relative_slash m.pointer) (step_relative_slash base c m)
  unfolding step_relative_slash inherit_authority
  relative_slash-Sound c n = ground (arith, h.known)

  after_scheme-Sound :
      (cp : Text) → Sound base len (left len State.scheme m.pointer) (after_scheme base cp m)
  unfolding after_scheme same_scheme
  after_scheme-Sound cp = ground arith

pub relative-Sound :
    (base : Option UrlRecord) (len : ℕ) (m : Machine)
    → Running base len m
    → (c : Option ℕ) → m.state ≡ State.relative
    → NeedsBase State.relative base
    → Sound base len (left len State.relative m.pointer) (step_relative base c m)
unfolding step_relative
relative-Sound none len m h c e n = absurd n
relative-Sound (some b) len m h c e n =
    let url = record m.url { scheme = b.scheme } in
    let rest =
      after_inherit-Sound (some b) len (λ u. pop_path u.path) (inherit b url) c m State.relative e
        h.inside (omega arith) tt (unfold inherit in h.known) in
    elim (Bool-cases (is_slash url c)) [
      | inl slash ↦ rw slash (ground arith)
      | inr other ↦ rw other rest
    ]

pub scheme-Sound :
    (base : Option UrlRecord) (len : ℕ) (m : Machine)
    → Running base len m
    → (overridden : Bool) (cp : Text) (c : Option ℕ)
    → Sound base len (left len State.scheme m.pointer) (step_scheme overridden base cp c m)
unfolding step_scheme
scheme-Sound base len m h overridden cp none = no_scheme_char-Sound base len m h overridden
scheme-Sound base len m h overridden cp (some c) =
    let url = record m.url { scheme = m.buffer } in
    let m' = no_buffer (with_url url m) in
    ground (
      arith,
      no_scheme_char-Sound base len m h overridden,
      drop_default_port_fits base len m h url h.port,
      after_scheme-Sound base len m' (record { inside = h.inside; port = h.port; known = h.known })
          cp,
    )
