-- ===== src/Url/Result.antt =====
-- Exceptions of url.js and of the native functions that it calls.
use qjs_lws.Base.{Option, none, some}

pub data UrlError : Type 0 where
  type_error syntax_error : UrlError

-- A value, or the exception that is thrown in place of it.
pub data Result {ℓ} (A : Type ℓ) : Type ℓ where
  ok : A → Result A
  raised : UrlError → Result A

infixl 5 ◌>>=◌
abbrev pub ◌>>=◌ {ℓ κ} : {A : Type ℓ} {B : Type κ} → Result A → (A → Result B) → Result B
ok a >>= f = f a
raised e >>= f = raised e

-- The answer of a native function, where `none` is its exception.
abbrev pub or_raise {ℓ} : {A : Type ℓ} → UrlError → Option A → Result A
or_raise e none = raised e
or_raise e (some a) = ok a
