-- ===== src/Text/Split.antt =====
-- Splitting what was joined.
use qjs_lws.Base.{ℕ, ◌≡◌, refl, false, List, [], ◌∷◌, ◌++◌, Text, All, arith, ap, ◌∙◌}
use qjs_lws.Text.{split, join, contains}

-- No part holds the separator.
abbrev pub Free : ℕ → Text → Type 0
Free c s = contains c s ≡ false

pub split-Free : (c : ℕ) (s : Text) → Free c s → split c s ≡ s ∷ []
unfolding split contains
split-Free c [] h = refl
split-Free c (x ∷ s) h = ground (arith, split-Free c s)

pub split-append : (c : ℕ) (s t : Text) → Free c s → split c (s ++ c ∷ t) ≡ s ∷ split c t
unfolding split contains
split-append c [] t h = ground arith
split-append c (x ∷ s) t h = ground (arith, split-append c s t)

pub split-join :
    (c : ℕ) (s : Text) (ss : List Text) → All (Free c) (s ∷ ss) → split c (join c (s ∷ ss)) ≡ s ∷ ss
unfolding join
split-join c s [] (h, _) = split-Free c s h
split-join c s (t ∷ ss) (h, rest) =
    split-append c s (join c (t ∷ ss)) h ∙ ap (λ r. s ∷ r) (split-join c t ss rest)
