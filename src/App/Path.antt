-- ===== src/App/Path.antt =====
-- `compilePath` of lib/lws/app.js and `RegExp.exec` on the expressions that it builds. A segment that
-- holds a `*` beside other characters builds an expression that is not modelled: `none`.
pub mod Fill
pub mod Compile
use qjs_lws.Base.{
  ℕ, suc, ◌-◌, Bool, true, false, not, ◌&&◌, ◌||◌, Option, none, some, List, [], ◌∷◌, ◌++◌, map,
  Text, text_eq, leb, ◌==◌, length, drop, if◌then◌else◌,
}
use qjs_lws.Text.{text, split, contains}

-- A piece of an expression: a character, `([^/]+)` or `.*`.
pub data Token : Type 0 where
  char : ℕ → Token
  capture : Token
  any : Token

-- `^.*`, `^\/?$`, `^\/`, and `^` with a body and one of the two suffixes.
pub data Regex : Type 0 where
  everything : Regex
  root_only : Regex
  root_prefix : Regex
  path_only : List Token → Regex
  path_prefix : List Token → Regex

pub is_word : ℕ → Bool
is_word c =
    (leb b'a' c && leb c b'z')
    || (leb b'A' c && leb c b'Z')
    || (leb b'0' c && leb c b'9')
    || c == b'_'

-- `.replace(/[^a-zA-Z0-9_]/g, '')`.
pub key_text : Text → Text
key_text [] = []
key_text (c ∷ s) = let rest = key_text s in if is_word c then c ∷ rest else rest

-- One segment: its tokens and the key that it adds. The characters with a meaning are escaped.
pub compile_segment : Text → Option (List Token × List Text)
compile_segment [] = some ([], [])
compile_segment (c ∷ seg) =
    if c == b':'
    then some (capture ∷ [], key_text seg ∷ [])
    else if text_eq (c ∷ seg) (b'*' ∷ [])
    then some (any ∷ [], [])
    else if contains b'*' (c ∷ seg)
    then none
    else some (map char (c ∷ seg), [])

-- The segments, joined by `/`.
pub compile_segments : List Text → Option (List Token × List Text)
compile_segments [] = some ([], [])
compile_segments (seg ∷ []) = compile_segment seg
compile_segments (seg ∷ seg' ∷ segs) = elim (compile_segment seg) [
  | none ↦ none
  | some (tokens, keys) ↦ elim (compile_segments (seg' ∷ segs)) [
    | none ↦ none
    | some (more, others) ↦ some (tokens ++ char b'/' ∷ more, keys ++ others)
  ]
]

pub compile_body : Bool → Option (List Token × List Text) → Option (Regex × List Text)
compile_body end none = none
compile_body end (some (tokens, keys)) =
    some (if end then path_only tokens else path_prefix tokens, keys)

pub compile_path : Text → Bool → Option (Regex × List Text)
compile_path pattern end =
    if text_eq pattern (text "*") || text_eq pattern (text "/*")
    then some (everything, [])
    else if text_eq pattern (text "/") || text_eq pattern []
    then some (if end then root_only else root_prefix, [])
    else compile_body end (compile_segments (split b'/' pattern))

-- The captures of a match, or `none`.
abbrev pub Match : Type 0
Match = Option (List Text)

abbrev pub or_else : Match → Match → Match
or_else none m = m
or_else (some vs) m = some vs

-- `[^/]+` has taken `taken`, and what follows is left to `rest`.
pub captured : (Text → Match) → Text → Text → Match
captured rest [] s = none
captured rest (c ∷ taken) s = elim (rest s) [ none ↦ none | some vs ↦ some ((c ∷ taken) ∷ vs) ]

-- Greedy: one more character if that leads to a match, else stop here.
pub match_capture : (Text → Match) → Text → Text → Match
match_capture rest taken [] = captured rest taken []
match_capture rest taken (c ∷ s) =
    let longer = match_capture rest (taken ++ c ∷ []) s in
    if c == b'/' then captured rest taken (c ∷ s) else or_else longer (captured rest taken (c ∷ s))

-- A line terminator, which `.` does not match.
pub is_newline : ℕ → Bool
is_newline c = c == 10 || c == 13 || c == 0x2028 || c == 0x2029

pub match_any : (Text → Match) → Text → Match
match_any rest [] = rest []
match_any rest (c ∷ s) =
    let longer = match_any rest s in
    if is_newline c then rest (c ∷ s) else or_else longer (rest (c ∷ s))

pub match_char : ℕ → (Text → Match) → Text → Match
match_char c rest [] = none
match_char c rest (x ∷ s) = if x == c then rest s else none

pub match_tokens : List Token → (Text → Match) → Text → Match
match_tokens [] rest s = rest s
match_tokens (char c ∷ ts) rest s = match_char c (match_tokens ts rest) s
match_tokens (capture ∷ ts) rest s = match_capture (match_tokens ts rest) [] s
match_tokens (any ∷ ts) rest s = match_any (match_tokens ts rest) s

-- `/?$`.
pub ends : Text → Match
ends s = if text_eq s [] || text_eq s (b'/' ∷ []) then some [] else none

-- `(?:/|$)`.
pub ends_segment : Text → Match
ends_segment [] = some []
ends_segment (c ∷ s) = if c == b'/' then some [] else none

-- `regex.exec(path)`: the captures, without the whole match.
pub exec : Regex → Text → Match
exec everything s = some []
exec root_only s = ends s
exec root_prefix [] = none
exec root_prefix (c ∷ s) = if c == b'/' then some [] else none
exec (path_only ts) s = match_tokens ts ends s
exec (path_prefix ts) s = match_tokens ts ends_segment s

-- `req.path.slice(path.length) || '/'`, the path that a mounted router sees.
pub or_root : Text → Text
or_root [] = b'/' ∷ []
or_root (c ∷ s) = c ∷ s

pub mounted_path : Text → Text → Text
mounted_path prefix path = or_root (drop (length prefix) path)
