-- ===== src/Url/Parser.antt =====
-- `basicURLParse`.
pub mod Sound
pub mod Keeps
pub mod Frame
pub mod Ends
pub mod Total
use qjs_lws.Base.{
  ℕ, zero, suc, ◌+◌, ◌*◌, Bool, true, false, not, ◌||◌, Option, none, some, List, [], ◌∷◌, Text,
  leb, ltb, ◌==◌, length, get_elem?, Outcome, returned, thrown, stuck, if◌then◌else◌,
}
use qjs_lws.Url.Native.{Native}
use qjs_lws.Url.Record.{UrlRecord}
use qjs_lws.Url.Result.{UrlError}
use qjs_lws.Url.Machine.{State, Machine, Parsed, parsed, failed, Step, go, halt, crash}
use qjs_lws.Url.Steps.Scheme.{
  step_scheme_start, step_scheme, step_no_scheme, step_special_relative_or_authority,
  step_path_or_authority, step_relative, step_relative_slash, step_special_authority_slashes,
  step_special_authority_ignore_slashes,
}
use qjs_lws.Url.Steps.Authority.{step_authority, step_host, step_port}
use qjs_lws.Url.Steps.Files.{step_file, step_file_slash, step_file_host}
use qjs_lws.Url.Steps.Paths.{
  step_path_start, step_path, step_opaque_path, step_query, step_fragment,
}

-- `.replace(/^[\u0000-\u0020]+|[\u0000-\u0020]+$/g, '').replace(/[\t\n\r]/g, '')`.
unfoldable pub trim_front : Text → Text
trim_front [] = []
trim_front (c ∷ s) = let rest = trim_front s in if leb c 0x20 then rest else c ∷ s

unfoldable pub trim_back : Text → Text
trim_back [] = []
trim_back (c ∷ s) = elim (trim_back s) [
  | [] ↦ if leb c 0x20 then [] else c ∷ []
  | d ∷ t ↦ c ∷ d ∷ t
]

unfoldable pub drop_breaks : Text → Text
drop_breaks [] = []
drop_breaks (c ∷ s) =
    let rest = drop_breaks s in if c == 9 || c == 10 || c == 13 then rest else c ∷ rest

unfoldable pub clean_input : Text → Text
clean_input input = drop_breaks (trim_back (trim_front input))

unfoldable pub is_hostname : Option State → Bool
is_hostname (some State.hostname) = true
is_hostname other = false

unfoldable pub is_overridden : Option State → Bool
is_overridden none = false
is_overridden (some s) = true

module _ (native : Native) (base : Option UrlRecord) (override : Option State) (cp : Text) where
  -- One round: the switch.
  unfoldable pub step_in : State → Option ℕ → Machine → Step
  step_in State.scheme_start c m = step_scheme_start (is_overridden override) c m
  step_in State.scheme c m = step_scheme (is_overridden override) base cp c m
  step_in State.no_scheme c m = step_no_scheme base c m
  step_in State.special_relative_or_authority c m = step_special_relative_or_authority cp c m
  step_in State.path_or_authority c m = step_path_or_authority c m
  step_in State.relative c m = step_relative base c m
  step_in State.relative_slash c m = step_relative_slash base c m
  step_in State.special_authority_slashes c m = step_special_authority_slashes cp c m
  step_in State.special_authority_ignore_slashes c m = step_special_authority_ignore_slashes c m
  step_in State.authority c m = step_authority native c m
  step_in State.host c m = step_host native (is_overridden override) (is_hostname override) c m
  step_in State.hostname c m = step_host native (is_overridden override) (is_hostname override) c m
  step_in State.port c m = step_port (is_overridden override) c m
  step_in State.file c m = step_file base cp c m
  step_in State.file_slash c m = step_file_slash base cp c m
  step_in State.file_host c m = step_file_host native (is_overridden override) c m
  step_in State.path_start c m = step_path_start (is_overridden override) c m
  step_in State.path c m = step_path native (is_overridden override) c m
  step_in State.opaque_path c m = step_opaque_path native c m
  step_in State.query c m = step_query native (is_overridden override) c m
  step_in State.fragment c m = step_fragment native c m

  -- The loop, which a pointer behind the end leaves.
  unfoldable pub run : ℕ → Machine → Outcome UrlError Parsed
  run zero m = stuck
  run (suc fuel) m = elim (step_in m.state (get_elem? cp m.pointer) m) [
    | go m' ↦ elim (ltb (length cp) m'.pointer) [
      | true ↦ returned (parsed m'.url)
      | false ↦ run fuel m'
    ]
    | halt r ↦ returned r
    | crash ↦ thrown UrlError.type_error
  ]

unfoldable pub start_state : Option State → State
start_state none = State.scheme_start
start_state (some s) = s

abbrev pub start_machine : Option State → UrlRecord → Machine
start_machine override url = record {
  state = start_state override;
  buffer = [];
  at_sign_seen = false;
  inside_brackets = false;
  password_token_seen = false;
  pointer = 0;
  url = url;
}

-- The states are left in one direction only, and each is entered with the pointer anywhere.
abbrev pub parse_fuel : Text → ℕ
parse_fuel cp = 16 * (length cp + 2)

unfoldable pub basic_url_parse :
    Native
    → Text
    → (base : Option UrlRecord) → UrlRecord
    → (override : Option State) → Outcome UrlError Parsed
basic_url_parse native input base url override =
    let cp = clean_input input in
    run native base override cp (parse_fuel cp) (start_machine override url)
