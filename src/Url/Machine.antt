-- ===== src/Url/Machine.antt =====
-- The variables of `basicURLParse` and what one round of its loop does with them.
use qjs_lws.Base.{ℕ, ◌+◌, Bool, false, Option, none, some, [], ◌∷◌, ◌++◌, Text, ◌==◌}
use qjs_lws.Url.Record.{UrlRecord}
use qjs_lws.Url.Result.{UrlError}

pub data State : Type 0 where
  scheme_start scheme no_scheme special_relative_or_authority path_or_authority : State
  relative relative_slash special_authority_slashes special_authority_ignore_slashes : State
  authority host hostname port file file_slash file_host path_start path opaque_path : State
  query fragment : State

pub record Machine : Type 0 where
  pub state : State
  pub buffer : Text
  pub at_sign_seen : Bool
  pub inside_brackets : Bool
  pub password_token_seen : Bool
  pub pointer : ℕ
  pub url : UrlRecord

-- The record that is returned, or the one that the caller holds when `null` is returned or when the
-- exception of a native function gets out.
pub data Parsed : Type 0 where
  parsed : UrlRecord → Parsed
  failed : UrlRecord → Parsed
  threw : UrlError → UrlRecord → Parsed

-- The next round, with the pointer that it starts from; a return; or a `TypeError`, where a field of
-- `null` is read.
pub data Step : Type 0 where
  go : Machine → Step
  halt : Parsed → Step
  crash : Step

-- `c === ch`, where `none` is `undefined`.
abbrev pub is : Option ℕ → ℕ → Bool
is none ch = false
is (some c) ch = c == ch

-- `pointer++`, and `pointer--; pointer++`.
abbrev pub next : State → Machine → Step
next s m = go (record m { state = s; pointer = m.pointer + 1 })

abbrev pub again : State → Machine → Step
again s m = go (record m { state = s })

abbrev pub with_url : UrlRecord → Machine → Machine
with_url u m = record m { url = u }

abbrev pub add_char : ℕ → Machine → Machine
add_char c m = record m { buffer = m.buffer ++ c ∷ [] }

abbrev pub no_buffer : Machine → Machine
no_buffer m = record m { buffer = [] }
