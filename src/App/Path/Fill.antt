-- ===== src/App/Path/Fill.antt =====
-- A pattern of literal and named segments matches the paths that it describes.
use qjs_lws.Base.{
  ℕ, ◌<◌, ◌≡◌, refl, ap, ◌∙◌, false, some, List, [], ◌∷◌, ◌++◌, map, Text, text_eq, ◌==◌, length,
  append_assoc, append-nil, arith, sym,
}
use mathlib.Core.Path.{subst}
use qjs_lws.Text.{contains}
use qjs_lws.Text.Split.{Free}
use qjs_lws.App.Path.{
  Token, char, capture, Match, captured, match_capture, match_char, match_tokens, ends, exec,
  path_only,
}

-- A segment of a pattern: fixed text, or a name with the content that stands there in the path.
pub data Segment : Type 0 where
  fixed : Text → Segment
  value : (name content : Text) → Segment

abbrev pub tokens_of : List Segment → List Token
tokens_of [] = []
tokens_of (fixed s ∷ segs) = char b'/' ∷ (map char s ++ tokens_of segs)
tokens_of (value n v ∷ segs) = char b'/' ∷ capture ∷ tokens_of segs

abbrev pub path_of : List Segment → Text
path_of [] = []
path_of (fixed s ∷ segs) = b'/' ∷ (s ++ path_of segs)
path_of (value n v ∷ segs) = b'/' ∷ (v ++ path_of segs)

abbrev pub values_of : List Segment → List Text
values_of [] = []
values_of (fixed s ∷ segs) = values_of segs
values_of (value n v ∷ segs) = v ∷ values_of segs

-- Values are not empty and hold no slash.
abbrev pub IsFilled : List Segment → Type 0
IsFilled [] = Unit {0}
IsFilled (fixed s ∷ segs) = IsFilled segs
IsFilled (value n v ∷ segs) = (0 < length v) × Free b'/' v × IsFilled segs

match_literal :
    (s : Text) (ts : List Token) (rest : Text → Match) (t : Text)
    → match_tokens (map char s ++ ts) rest (s ++ t) ≡ match_tokens ts rest t
unfolding match_tokens match_char
match_literal [] ts rest t = refl
match_literal (c ∷ s) ts rest t = ground (arith, match_literal s ts rest t)

-- What follows a segment: nothing, or a slash.
abbrev Stops : Text → Type 0
Stops [] = Unit {0}
Stops (c ∷ s) = c ≡ b'/'

path_of-Stops : (segs : List Segment) → Stops (path_of segs)
path_of-Stops [] = tt
path_of-Stops (fixed s ∷ segs) = refl
path_of-Stops (value n v ∷ segs) = refl

capture_stop :
    (rest : Text → Match) (taken t : Text)
    → Stops t
    → match_capture rest taken t ≡ captured rest taken t
unfolding match_capture
capture_stop rest taken [] h = refl
capture_stop rest taken (c ∷ t) h = ground arith

-- What `captured` gives for a value that is not empty.
captured_value :
    (rest : Text → Match) (v t : Text) {vs : List Text}
    → 0 < length v
    → rest t ≡ some vs
    → captured rest v t ≡ some (v ∷ vs)
unfolding captured
captured_value rest [] t n e = absurd (omega arith)
captured_value rest (c ∷ v) t n e = rw (captured, e)

Free-head : (c : ℕ) (v : Text) → Free b'/' (c ∷ v) → (c == b'/') ≡ false
unfolding contains
Free-head c v h = ground arith

Free-tail : (c : ℕ) (v : Text) → Free b'/' (c ∷ v) → Free b'/' v
unfolding contains
Free-tail c v h = ground arith

capture_value :
    (rest : Text → Match) (taken v t : Text) {vs : List Text}
    → Free b'/' v
    → Stops t
    → 0 < length (taken ++ v)
    → rest t ≡ some vs
    → match_capture rest taken (v ++ t) ≡ some ((taken ++ v) ∷ vs)
unfolding match_capture contains
capture_value rest taken [] t {vs} h st n e =
    capture_stop rest taken t st
    ∙ captured_value rest taken t (subst (λ l. 0 < length l) (append-nil taken) n) e
    ∙ ap (λ l. some (l ∷ vs)) (sym (append-nil taken))
capture_value rest taken (c ∷ v) t {vs} h st n e =
    let same = append_assoc taken (c ∷ []) v in
    let nonempty = subst (λ l. 0 < length l) (sym same) n in
    let more = capture_value rest (taken ++ c ∷ []) v t (Free-tail c v h) st nonempty e in
    rw (Free-head c v h, more, same)

ends-nil : ends [] ≡ some []
unfolding ends text_eq
ends-nil = refl

fill-match :
    (segs : List Segment)
    → IsFilled segs
    → match_tokens (tokens_of segs) ends (path_of segs) ≡ some (values_of segs)
unfolding match_tokens match_char
fill-match [] h = ends-nil
fill-match (fixed s ∷ segs) h =
    match_literal s (tokens_of segs) ends (path_of segs) ∙ fill-match segs h
fill-match (value n v ∷ segs) (full, f, h) =
    capture_value (match_tokens (tokens_of segs) ends) [] v (path_of segs) f (path_of-Stops segs)
      full (fill-match segs h)

-- A path that fills a pattern of fixed and named segments, with values that are not empty and hold no
-- slash, is matched, and the captures are the values, in order.
pub exec-fill :
    (segs : List Segment)
    → IsFilled segs
    → exec (path_only (tokens_of segs)) (path_of segs) ≡ some (values_of segs)
unfolding exec
exec-fill segs h = fill-match segs h
