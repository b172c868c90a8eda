-- ===== src/Url/Parser/Ends/Paths.antt =====
-- Path, query and fragment.
use qjs_lws.Base.{ℕ, ◌≡◌, Bool, Option, none, some, arith, refl}
use qjs_lws.Url.Native.{Native}
use qjs_lws.Url.Record.{UrlRecord}
use qjs_lws.Url.Machine.{State, Machine, no_buffer, with_url}
use qjs_lws.Url.Steps.Scheme.{is_slash}
use qjs_lws.Url.Parser.Sound.{left, Sound, Running, PortFits}
use qjs_lws.Url.Steps.Paths.{
  step_path_start, ends_segment, close_segment, after_segment, step_path, step_opaque_path,
  step_query, step_fragment,
}

module _ (base : Option UrlRecord) (len : ℕ) (m : Machine) (h : Running base len m) where
  pub path_start-Sound :
      (overridden : Bool) (c : Option ℕ)
      → Sound base len (left len State.path_start m.pointer) (step_path_start overridden c m)
  unfolding step_path_start
  path_start-Sound overridden none = ground arith
  path_start-Sound overridden (some c) = ground arith

  after_segment-Sound :
      (c : Option ℕ) (m' : Machine)
      → m'.pointer ≡ m.pointer
      → PortFits m'.url.port
      → Sound base len (left len State.path m.pointer) (after_segment c m')
  unfolding after_segment
  after_segment-Sound c m' e p = ground arith

  pub path-Sound :
      (native : Native) (overridden : Bool) (c : Option ℕ)
      → Sound base len (left len State.path m.pointer) (step_path native overridden c m)
  unfolding step_path ends_segment
  path-Sound native overridden none = after_segment-Sound none _ refl h.port
  path-Sound native overridden (some c) =
      let closed = no_buffer (
        with_url (record m.url { path = close_segment (is_slash m.url (some c)) m.buffer m.url })
          m) in
      ground (arith, after_segment-Sound (some c) closed refl h.port)

  pub opaque_path-Sound :
      (native : Native) (c : Option ℕ)
      → Sound base len (left len State.opaque_path m.pointer) (step_opaque_path native c m)
  unfolding step_opaque_path
  opaque_path-Sound native none = ground arith
  opaque_path-Sound native (some c) = ground arith

  pub query-Sound :
      (native : Native) (overridden : Bool) (c : Option ℕ)
      → Sound base len (left len State.query m.pointer) (step_query native overridden c m)
  unfolding step_query
  query-Sound native overridden none = ground arith
  query-Sound native overridden (some c) = ground arith

  pub fragment-Sound :
      (native : Native) (c : Option ℕ)
      → Sound base len (left len State.fragment m.pointer) (step_fragment native c m)
  unfolding step_fragment
  fragment-Sound native none = ground arith
  fragment-Sound native (some c) = ground arith
