-- ===== src/Headers/Laws.antt =====
-- `append`, `set` and `delete` against `get`, by normalized names.
use qjs_lws.Base.{
  ℕ, ◌≡◌, refl, ap, ◌∙◌, true, false, Option, none, some, [], ◌∷◌, ◌++◌, map, Text, text_eq,
  text_eq_refl, returned, Outcome, ◌>>=◌, arith, Bool-cases, inl, inr, if◌then◌else◌,
}
use qjs_lws.Text.{lower, text, contains}
use qjs_lws.Dict.{lookup, insert, remove}
use qjs_lws.Dict.Laws.{lookup-insert, lookup-remove, has-lookup}
use qjs_lws.Headers.{
  Headers, HeaderValue, single, many, normalize_name, normalize_value, append, append_normal,
  add_cookie, fold_value, delete, set, get, get_value, has_header, set_cookie, value_text,
  all_token, is_token, get_set_cookie, cookies_of, HeaderError, comma_join,
}

token-lower :
    (c : ℕ) → is_token c ≡ true → (is_token (lower c) ≡ true) × (lower (lower c) ≡ lower c)
unfolding is_token
token-lower c h = ground arith

lower-token : (c : ℕ) → is_token (lower c) ≡ true → is_token c ≡ true
unfolding is_token
lower-token c h = ground arith

all_token-lower : (s : Text) → all_token (map lower s) ≡ all_token s
unfolding all_token
all_token-lower [] = refl
all_token-lower (c ∷ s) = ground (arith, token-lower c, lower-token c, all_token-lower s)

map-lower_idem : (s : Text) → map lower (map lower s) ≡ map lower s
map-lower_idem [] = refl
map-lower_idem (c ∷ s) = ground (arith, map-lower_idem s)

empty-lower : (s : Text) → text_eq (map lower s) [] ≡ text_eq s []
unfolding text_eq
empty-lower [] = refl
empty-lower (c ∷ s) = refl

-- A name and its lower-case form are normalized alike.
pub normalize_name-lower : (name : Text) → normalize_name (map lower name) ≡ normalize_name name
unfolding normalize_name
normalize_name-lower name = rw (all_token-lower name, empty-lower name, map-lower_idem name)

normalize_name_returned :
    (name : Text) {n : Text} → normalize_name name ≡ returned n → n ≡ map lower name
unfolding normalize_name
normalize_name_returned name e = ground arith

normalize_name_again :
    (name : Text) {n : Text} → normalize_name name ≡ returned n → normalize_name n ≡ returned n
normalize_name_again name {n} e =
    let same = normalize_name-lower name in
    rw (normalize_name_returned name e) (same ∙ e ∙ ap returned (normalize_name_returned name e))

present :
    (o : Option HeaderValue)
    → ◌≡◌ {A = Outcome HeaderError (Option Text)}
        (returned (if elim o [ none ↦ false | some _ ↦ true ] then get_value o else none))
        (returned (get_value o))
unfolding get_value
present none = refl
present (some v) = refl

-- `get` reads the entry of the normalized name.
get-lookup :
    (h : Headers) (name : Text) {n : Text}
    → normalize_name name ≡ returned n
    → get h name ≡ returned (get_value (lookup n h))
unfolding get has_header get_value
get-lookup h name {n} e = rw (e, normalize_name_again name e, has-lookup n h) (present (lookup n h))

stored-value :
    (n v : Text) → value_text (if text_eq n set_cookie then many (v ∷ []) else single v) ≡ v
unfolding value_text comma_join
stored-value n v = elim (Bool-cases (text_eq n set_cookie)) [ inl e ↦ rw e | inr e ↦ rw e ]

cookies-add :
    (o : Option HeaderValue) (v : Text)
    → cookies_of (some (add_cookie o v)) ≡ cookies_of o ++ v ∷ []
unfolding cookies_of add_cookie
cookies-add none v = refl
cookies-add (some (single w)) v = refl
cookies-add (some (many ws)) v = refl

set_cookie_name : normalize_name (text "Set-Cookie") ≡ returned set_cookie
unfolding normalize_name all_token is_token contains text_eq
set_cookie_name = refl

-- What `get` returns after a `set` whose name and value are accepted: the new value for every
-- spelling of that name, what it was for all others.
pub get-set :
    (h : Headers) (name value asked : Text) {n v a : Text}
    → normalize_name name ≡ returned n
    → normalize_value value ≡ returned v
    → normalize_name asked ≡ returned a
    → (set h name value >>= λ h'. get h' asked)
      ≡ (if text_eq n a then returned (some v) else get h asked)
unfolding set get_value value_text comma_join
get-set h name value asked {n} {v} {a} en ev ea =
    let new = if text_eq n set_cookie then many (v ∷ []) else single v in
    rw
      (en, ev, get-lookup (insert n new h) asked ea, lookup-insert n a new h, get-lookup h asked ea)
      (elim (Bool-cases (text_eq n a)) [
        | inl e ↦ rw e (ap (λ t. returned (some t)) (stored-value n v))
        | inr e ↦ rw e
      ])

-- `delete` makes `get` answer null for every spelling of the name, and changes no other answer.
pub get-delete :
    (h : Headers) (name asked : Text) {n a : Text}
    → normalize_name name ≡ returned n
    → normalize_name asked ≡ returned a
    → (delete h name >>= λ h'. get h' asked) ≡ (if text_eq n a then returned none else get h asked)
unfolding delete get_value
get-delete h name asked {n} {a} en ea =
    rw (en, get-lookup (remove n h) asked ea, lookup-remove n a h, get-lookup h asked ea)
      (elim (Bool-cases (text_eq n a)) [ inl e ↦ rw e | inr e ↦ rw e ])

-- Each `append` of a cookie adds one entry at the end of the list, and folds nothing.
get_set_cookie-append :
    (h : Headers) (value : Text) {v : Text}
    → normalize_value value ≡ returned v
    → (append h (text "Set-Cookie") value >>= λ h'. returned (get_set_cookie h'))
      ≡ returned (get_set_cookie h ++ v ∷ [])
unfolding append append_normal get_set_cookie
get_set_cookie-append h value {v} ev =
    let new = add_cookie (lookup set_cookie h) v in
    rw
      (
        set_cookie_name,
        ev,
        text_eq_refl set_cookie,
        lookup-insert set_cookie set_cookie new h,
        text_eq_refl set_cookie,
      )
      (ap returned (cookies-add (lookup set_cookie h) v))

-- The text that `append` stores for a name other than `set-cookie`.
abbrev folded : Option Text → Text → Text
folded none v = v
folded (some []) v = v
folded (some (c ∷ old)) v = c ∷ old ++ (text ", " ++ v)

abbrev entry : Option Text → Option HeaderValue
entry none = none
entry (some old) = some (single old)

fold-folded : (old : Option Text) (v : Text) → fold_value (entry old) v ≡ single (folded old v)
unfolding fold_value
fold-folded none v = refl
fold-folded (some []) v = refl
fold-folded (some (c ∷ old)) v = refl

-- For a name other than `set-cookie` that has no value or one string `append` puts the new value behind a comma, or
-- alone if there was no value or an empty one; `get` of any name reads that or what it read before.
pub get-append :
    (h : Headers) (name value asked : Text) {n v a : Text} (old : Option Text)
    → normalize_name name ≡ returned n
    → normalize_value value ≡ returned v
    → normalize_name asked ≡ returned a
    → text_eq n set_cookie ≡ false
    → lookup n h ≡ entry old
    → (append h name value >>= λ h'. get h' asked)
      ≡ (if text_eq n a then returned (some (folded old v)) else get h asked)
unfolding append append_normal get_value value_text
get-append h name value asked {n} {v} {a} old en ev ea plain e =
    let new = single (folded old v) in
    rw
      (
        en,
        ev,
        plain,
        e,
        fold-folded old v,
        get-lookup (insert n new h) asked ea,
        lookup-insert n a new h,
        get-lookup h asked ea,
      )
      (elim (Bool-cases (text_eq n a)) [ inl same ↦ rw same | inr other ↦ rw other ])
