-- ===== src/Url/Parser/Ends/Files.antt =====
-- File URLs.
use qjs_lws.Base.{
  ℕ, ◌≡◌, Bool, ◌||◌, Option, none, some, [], Text, arith, drop, Bool-cases, inl, inr,
}
use qjs_lws.Text.{text}
use qjs_lws.Url.Native.{Native}
use qjs_lws.Url.Host.{Host, domain, parse_host}
use qjs_lws.Url.Record.{UrlRecord, is_special}
use qjs_lws.Url.Machine.{State, Machine, with_url, is, again}
use qjs_lws.Url.Result.{Result, ok, raised}
use qjs_lws.Url.Parser.Sound.{left, Sound, Running}
use qjs_lws.Url.Steps.Files.{
  file_base, inherit_file, file_path, step_file, step_file_slash, file_host_end, ends_file_host,
  step_file_host,
}
use qjs_lws.Url.Steps.Scheme.{after_inherit}
use qjs_lws.Url.Parser.Ends.Scheme.{after_inherit-Sound}

module _ (base : Option UrlRecord) (len : ℕ) (m : Machine) (h : Running base len m) where
  pub file-Sound :
      (cp : Text) (c : Option ℕ)
      → m.state ≡ State.file
      → Sound base len (left len State.file m.pointer) (step_file base cp c m)
  unfolding step_file
  file-Sound cp c e = elim (Bool-cases (is c b'/' || is c b'\\')) [
    | inl slash ↦ rw slash (ground arith)
    | inr other ↦ rw other (without_slash (file_base base))
  ]
    where
      without_slash :
          (found : Option UrlRecord)
          → Sound base len (left len State.file m.pointer) (elim found [
            | none ↦
                again State.path
                  (with_url (record m.url { scheme = text "file"; host = some (domain []) }) m)
            | some b ↦
                after_inherit
                  (file_path (drop m.pointer cp))
                  (inherit_file b (record m.url { scheme = text "file"; host = some (domain []) }))
                  c
                  m
          ])
      without_slash none = ground arith
      without_slash (some b) =
          after_inherit-Sound base len (file_path (drop m.pointer cp))
            (inherit_file b (record m.url { scheme = text "file"; host = some (domain []) })) c m
            State.file e h.inside (omega arith) tt (unfold inherit_file in h.port)

  pub file_slash-Sound :
      (cp : Text) (c : Option ℕ)
      → Sound base len (left len State.file_slash m.pointer) (step_file_slash base cp c m)
  unfolding step_file_slash
  file_slash-Sound cp c = ground arith

  file_host_end-Sound :
      (overridden : Bool) (host : Result (Option Host))
      → Sound base len (left len State.file_host m.pointer) (file_host_end overridden host m)
  unfolding file_host_end
  file_host_end-Sound overridden (raised e) = ground arith
  file_host_end-Sound overridden (ok none) = ground arith
  file_host_end-Sound overridden (ok (some host)) = ground arith

  pub file_host-Sound :
      (native : Native) (overridden : Bool) (c : Option ℕ)
      → Sound base len (left len State.file_host m.pointer) (step_file_host native overridden c m)
  unfolding step_file_host ends_file_host
  file_host-Sound native overridden none =
      ground (arith, file_host_end-Sound overridden (parse_host native m.buffer (is_special m.url)))
  file_host-Sound native overridden (some c) =
      ground (arith, file_host_end-Sound overridden (parse_host native m.buffer (is_special m.url)))
