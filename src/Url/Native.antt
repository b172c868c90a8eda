-- ===== src/Url/Native.antt =====
-- What url.js calls of the native module and of the engine's Unicode tables.
use qjs_lws.Base.{ℕ, ◌<◌, ◌≡◌, ◌⊎◌, Option, some, List, [], ◌∷◌, ◌++◌, Text, All}

pub record Native : Type 0 where
  -- `toArrayBuffer(s)` and `toString(b)`: UTF-8. The latter throws a `TypeError` on bytes that are
  -- malformed, which is `none`.
  pub encode : Text → List ℕ
  pub decode : List ℕ → Option Text
  -- `new LWSSockAddr46(input).address`, where the outer `none` is the `SyntaxError` that the
  -- constructor throws, and `new LWSSockAddr46(bytes).host`.
  pub parse_address : Text → Option (Option (List ℕ))
  pub print_address : List ℕ → Text
  -- `toLowerCase()`.
  pub to_lower : Text → Text

-- A code point that is no surrogate.
abbrev pub IsScalar : ℕ → Type 0
IsScalar c = (c < 0xd800) ⊎ ((0xdfff < c) × (c < 0x110000))

-- What UTF-8 promises.
pub record Utf8 (native : Native) : Type 0 where
  pub decode-encode : (s : Text) → All IsScalar s → native.decode (native.encode s) ≡ some s
  pub encode-IsByte : (s : Text) → All (λ b. b < 256) (native.encode s)
  pub encode-ascii : (s : Text) → All (λ c. c < 128) s → native.encode s ≡ s
  pub encode_each :
      (c : ℕ) (s : Text)
      → IsScalar c
      → All IsScalar s
      → native.encode (c ∷ s) ≡ native.encode (c ∷ []) ++ native.encode s
