-- ===== src/Headers/Safety.antt =====
-- No stored name or value can break out of its header line.
use mathlib.Core.Path.{subst}
use qjs_lws.Base.{
  ◌≡◌, ◌⊎◌, >>=-eq-returned, returned_inj, refl, false, Option, none, some, List, [], ◌∷◌, ◌++◌,
  Text, All, text_eq, returned, arith, Bool-cases, inl, inr, if◌then◌else◌,
}
use qjs_lws.Text.{text, join}
use qjs_lws.Dict.{lookup, insert, AllOf}
use qjs_lws.Dict.Laws.{insert-AllOf, remove-AllOf, lookup-AllOf}
use qjs_lws.Headers.{
  Headers, HeaderValue, single, many, any_control, normalize_name, normalize_value, append,
  append_normal, add_cookie, fold_value, delete, set, set_cookie, is_control, from_pairs,
}

-- No NUL, CR or LF.
abbrev pub IsClean : Text → Type 0
IsClean s = any_control s ≡ false

abbrev pub CleanValue : HeaderValue → Type 0
CleanValue (single v) = IsClean v
CleanValue (many vs) = All IsClean vs

-- Every value that the object holds is clean.
abbrev pub IsSafe : Headers → Type 0
IsSafe h = AllOf (λ name v. CleanValue v) h

append-IsClean : (s t : Text) → IsClean s → IsClean t → IsClean (s ++ t)
unfolding any_control
append-IsClean [] t hs ht = ht
append-IsClean (c ∷ s) t hs ht = ground (arith, append-IsClean s t)

comma-IsClean : (t : Text) → IsClean t → IsClean (b',' ∷ t)
unfolding any_control is_control
comma-IsClean t h = h

join-IsClean : (ss : List Text) → All IsClean ss → IsClean (join b',' ss)
unfolding join
join-IsClean [] h = unfold any_control in refl
join-IsClean (s ∷ []) (h, _) = h
join-IsClean (s ∷ t ∷ ss) (h, hs) =
    append-IsClean s (b',' ∷ join b',' (t ∷ ss)) h
      (comma-IsClean (join b',' (t ∷ ss)) (join-IsClean (t ∷ ss) hs))

All-snoc : (vs : List Text) (v : Text) → All IsClean vs → IsClean v → All IsClean (vs ++ v ∷ [])
All-snoc [] v h hv = (hv, tt)
All-snoc (w ∷ vs) v (hw, h) hv = (hw, All-snoc vs v h hv)

-- What `normalize_value` accepts is clean.
pub normalize_value-IsClean :
    (value : Text) {v : Text} → normalize_value value ≡ returned v → IsClean v
unfolding normalize_value
normalize_value-IsClean value e = ground arith

CleanEntry : Option HeaderValue → Type 0
CleanEntry o = (v : HeaderValue) → o ≡ some v → CleanValue v

add_cookie-Clean :
    (o : Option HeaderValue) (value : Text)
    → CleanEntry o
    → IsClean value
    → CleanValue (add_cookie o value)
unfolding add_cookie CleanEntry
add_cookie-Clean none value h hv = (hv, tt)
add_cookie-Clean (some (single cur)) value h hv = (h (single cur) refl, (hv, tt))
add_cookie-Clean (some (many vs)) value h hv = All-snoc vs value (h (many vs) refl) hv

comma_space-IsClean : (value : Text) → IsClean value → IsClean (text ", " ++ value)
unfolding any_control is_control
comma_space-IsClean value h = h

fold_value-Clean :
    (o : Option HeaderValue) (value : Text)
    → CleanEntry o
    → IsClean value
    → CleanValue (fold_value o value)
unfolding fold_value CleanEntry
fold_value-Clean none value h hv = hv
fold_value-Clean (some (single [])) value h hv = hv
fold_value-Clean (some (single (c ∷ old))) value h hv =
    append-IsClean (c ∷ old) (text ", " ++ value) (h (single (c ∷ old)) refl)
      (comma_space-IsClean value hv)
fold_value-Clean (some (many vs)) value h hv =
    append-IsClean (join b',' vs) (text ", " ++ value) (join-IsClean vs (h (many vs) refl))
      (comma_space-IsClean value hv)

lookup-Clean : (n : Text) (h : Headers) → IsSafe h → CleanEntry (lookup n h)
unfolding CleanEntry
lookup-Clean n h safe v e = lookup-AllOf (λ name v. CleanValue v) n h safe e

append_normal-IsSafe :
    (h : Headers) (n v : Text) → IsSafe h → IsClean v → IsSafe (append_normal h n v)
unfolding append_normal
append_normal-IsSafe h n v safe clean =
    let old = lookup-Clean n h safe in
    elim (Bool-cases (text_eq n set_cookie)) [
      | inl e ↦ rw e (
          insert-AllOf (λ name v. CleanValue v) n (add_cookie (lookup n h) v) h
            (add_cookie-Clean (lookup n h) v old clean) safe)
      | inr e ↦ rw e (
          insert-AllOf (λ name v. CleanValue v) n (fold_value (lookup n h) v) h
            (fold_value-Clean (lookup n h) v old clean) safe)
    ]

set-IsSafe :
    (h : Headers) (n v : Text)
    → IsSafe h
    → IsClean v
    → IsSafe (insert n (if text_eq n set_cookie then many (v ∷ []) else single v) h)
set-IsSafe h n v safe clean = elim (Bool-cases (text_eq n set_cookie)) [
  | inl e ↦ rw e (insert-AllOf (λ name v. CleanValue v) n (many (v ∷ [])) h (clean, tt) safe)
  | inr e ↦ rw e (insert-AllOf (λ name v. CleanValue v) n (single v) h clean safe)
]

-- After `append` and `set` of any name and value, and after `delete`, no stored value holds a NUL,
-- a CR or an LF, if none did before.
pub append-set-delete-IsSafe :
    (h : Headers) (name value : Text) {h' : Headers}
    → IsSafe h
    → (append h name value ≡ returned h')
      ⊎ (set h name value ≡ returned h')
      ⊎ (delete h name ≡ returned h')
    → IsSafe h'
unfolding append set delete
append-set-delete-IsSafe h name value safe (inl e) =
    let (n, en, e') = >>=-eq-returned (normalize_name name) _ e in
    let (v, ev, e'') = >>=-eq-returned (normalize_value value) _ e' in
    subst IsSafe (returned_inj e'')
      (append_normal-IsSafe h n v safe (normalize_value-IsClean value ev))
append-set-delete-IsSafe h name value safe (inr (inl e)) =
    let (n, en, e') = >>=-eq-returned (normalize_name name) _ e in
    let (v, ev, e'') = >>=-eq-returned (normalize_value value) _ e' in
    subst IsSafe (returned_inj e'') (set-IsSafe h n v safe (normalize_value-IsClean value ev))
append-set-delete-IsSafe h name value safe (inr (inr e)) =
    let (n, en, e') = >>=-eq-returned (normalize_name name) _ e in
    subst IsSafe (returned_inj e') (remove-AllOf (λ name v. CleanValue v) n h safe)

-- Headers built from pairs are safe, whatever the pairs hold.
pub from_pairs-IsSafe :
    (ps : List (Text × Text)) (h : Headers) {h' : Headers}
    → IsSafe h
    → from_pairs h ps ≡ returned h'
    → IsSafe h'
unfolding from_pairs
from_pairs-IsSafe [] h safe e = subst IsSafe (returned_inj e) safe
from_pairs-IsSafe ((name, value) ∷ ps) h safe e =
    let (g, eg, e') = >>=-eq-returned (append h name value) _ e in
    from_pairs-IsSafe ps g (append-set-delete-IsSafe h name value safe (inl eg)) e'
