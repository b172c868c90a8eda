-- ===== src/App/Path/Compile.antt =====
-- `compilePath` on patterns of fixed and named segments.
use qjs_lws.Base.{
  ℕ, ◌≡◌, refl, ap, ◌∙◌, true, some, List, [], ◌∷◌, ◌++◌, map, Text, All, text_eq, ◌≢◌, append-nil,
  arith,
}
use qjs_lws.Text.{contains, split, join}
use qjs_lws.Text.Split.{Free, split-join}
use qjs_lws.App.Path.{
  Token, char, capture, Regex, path_only, exec, compile_segment, compile_segments, compile_body,
  compile_path, key_text,
}
use qjs_lws.App.Path.Fill.{
  Segment, fixed, value, tokens_of, path_of, values_of, IsFilled, exec-fill,
}

abbrev pub source : Segment → Text
source (fixed s) = s
source (value name v) = b':' ∷ name

abbrev pub keys_of : List Segment → List Text
keys_of [] = []
keys_of (fixed s ∷ segs) = keys_of segs
keys_of (value name v ∷ segs) = key_text name ∷ keys_of segs

-- The pattern, with a slash before each segment.
abbrev pub pattern_of : List Segment → Text
pattern_of segs = join b'/' ([] ∷ map source segs)

-- Fixed text is not empty, does not begin with a colon, and holds no slash and no asterisk; a name
-- holds no slash.
abbrev pub IsPlain : Segment → Type 0
IsPlain (fixed []) = ⊥
IsPlain (fixed (c ∷ s)) = (c ≢ b':') × Free b'/' (c ∷ s) × Free b'*' (c ∷ s)
IsPlain (value name v) = Free b'/' name

abbrev tail_tokens : Segment → List Token
tail_tokens (fixed s) = map char s
tail_tokens (value name v) = capture ∷ []

compile-source :
    (seg : Segment)
    → IsPlain seg
    → compile_segment (source seg) ≡ some (tail_tokens seg, keys_of (seg ∷ []))
unfolding compile_segment contains text_eq
compile-source (fixed []) h = absurd h
compile-source (fixed (c ∷ s)) (h, f, g) = ground arith
compile-source (value name v) h = refl

keys_of-cons :
    (seg : Segment) (segs : List Segment)
    → keys_of (seg ∷ segs) ≡ keys_of (seg ∷ []) ++ keys_of segs
keys_of-cons (fixed s) segs = refl
keys_of-cons (value name v) segs = refl

tokens_of-cons :
    (seg : Segment) (segs : List Segment)
    → tokens_of (seg ∷ segs) ≡ char b'/' ∷ (tail_tokens seg ++ tokens_of segs)
tokens_of-cons (fixed s) segs = refl
tokens_of-cons (value name v) segs = refl

compile-plain :
    (seg : Segment) (segs : List Segment)
    → All IsPlain (seg ∷ segs)
    → compile_segments (map source (seg ∷ segs))
      ≡ some (tail_tokens seg ++ tokens_of segs, keys_of (seg ∷ segs))
unfolding compile_segments
compile-plain seg [] (h, _) = rw (compile-source seg h, append-nil (tail_tokens seg)) refl
compile-plain seg (seg' ∷ segs) (h, hs) =
    rw
      (
        compile_segments,
        compile-source seg h,
        compile-plain seg' segs hs,
        tokens_of-cons seg' segs,
        keys_of-cons seg (seg' ∷ segs),
      )
      refl

Free-source : (seg : Segment) → IsPlain seg → Free b'/' (source seg)
unfolding contains
Free-source (fixed []) h = absurd h
Free-source (fixed (c ∷ s)) (h, f, g) = f
Free-source (value name v) h = ground (arith, h)

All-source : (segs : List Segment) → All IsPlain segs → All (Free b'/') (map source segs)
All-source [] h = tt
All-source (seg ∷ segs) (h, hs) = (Free-source seg h, All-source segs hs)

split-pattern :
    (segs : List Segment) → All IsPlain segs → split b'/' (pattern_of segs) ≡ [] ∷ map source segs
unfolding contains
split-pattern segs h = split-join b'/' [] (map source segs) (refl, All-source segs h)

-- Such a pattern is none of the four that are compiled apart.
join-cons : (c : ℕ) (s : Text) (ss : List Text) → (t : Text) × (join b'/' ((c ∷ s) ∷ ss) ≡ c ∷ t)
unfolding join
join-cons c s [] = (s, refl)
join-cons c s (t ∷ ss) = (_, refl)

pattern-starts :
    (seg : Segment) (segs : List Segment)
    → IsPlain seg
    → (c : ℕ) × (t : Text) × (pattern_of (seg ∷ segs) ≡ b'/' ∷ c ∷ t) × (c ≢ b'*')
unfolding join contains
pattern-starts (fixed []) segs h = absurd h
pattern-starts (fixed (c ∷ s)) segs (h, f, g) =
    let (t, e) = join-cons c s (map source segs) in (c, t, ap (λ x. b'/' ∷ x) e, ground (arith, g))
pattern-starts (value name v) segs h =
    let (t, e) = join-cons b':' name (map source segs) in
    (b':', t, ap (λ x. b'/' ∷ x) e, ground arith)

compile_path-general :
    (p : Text) (c : ℕ) (t : Text)
    → p ≡ b'/' ∷ c ∷ t
    → c ≢ b'*'
    → compile_path p true ≡ compile_body true (compile_segments (split b'/' p))
unfolding compile_path text_eq
compile_path-general p c t e h = rw e (ground arith)

compile-slash :
    (seg : Segment) (segs : List Segment)
    → All IsPlain (seg ∷ segs)
    → compile_segments ([] ∷ map source (seg ∷ segs))
      ≡ some (tokens_of (seg ∷ segs), keys_of (seg ∷ segs))
unfolding compile_segments compile_segment
compile-slash seg segs h = rw (compile-plain seg segs h, tokens_of-cons seg segs) refl

-- A pattern of at least one segment, each plain text or a name, is compiled to an expression and the
-- names as keys; a path that fills the pattern, with values that are not empty and hold no slash, is
-- matched by the expression, and the captures are the values, in the order of the keys.
pub exec-compile_path :
    (seg : Segment) (segs : List Segment)
    → All IsPlain (seg ∷ segs)
    → IsFilled (seg ∷ segs)
    → (regex : Regex) × (compile_path (pattern_of (seg ∷ segs)) true
        ≡ some (regex, keys_of (seg ∷ segs)))
      × (exec regex (path_of (seg ∷ segs)) ≡ some (values_of (seg ∷ segs)))
unfolding compile_body
exec-compile_path seg segs (h, hs) filled =
    let (c, t, e, plain) = pattern-starts seg segs h in
    (
      path_only (tokens_of (seg ∷ segs)),
      compile_path-general (pattern_of (seg ∷ segs)) c t e plain
          ∙ ap (λ parts. compile_body true (compile_segments parts))
              (split-pattern (seg ∷ segs) (h, hs))
          ∙ ap (compile_body true) (compile-slash seg segs (h, hs)),
      exec-fill (seg ∷ segs) filled,
    )
