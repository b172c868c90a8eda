-- ===== src/Tests/Headers.antt =====
-- Runs of the headers and of the byte queue.
use qjs_lws.Base.{◌≡◌, refl, none, some, [], ◌∷◌, text_eq, returned, ◌>>=◌, inl, if◌then◌else◌}
use qjs_lws.Text.{text, contains}
use qjs_lws.Dict.{lookup, insert}
use qjs_lws.Headers.{
  Headers, single, normalize_name, normalize_value, append, set, delete, get, from_pairs, all_token,
  is_token, trim_start, trim_end, is_blank, any_control, is_control, append_normal, fold_value,
}
use qjs_lws.Headers.Laws.{get-set, get-delete, get-append}
use qjs_lws.Headers.Safety.{IsSafe, append-set-delete-IsSafe, from_pairs-IsSafe}

abbrev stored : Headers
stored = (text "vary", single (text "origin")) ∷ []

vary_name : normalize_name (text "Vary") ≡ returned (text "vary")
unfolding normalize_name all_token is_token contains text_eq
vary_name = refl

etag_name : normalize_name (text "ETag") ≡ returned (text "etag")
unfolding normalize_name all_token is_token contains text_eq
etag_name = refl

trimmed : normalize_value (text " accept ") ≡ returned (text "accept")
unfolding normalize_value trim_start trim_end is_blank any_control is_control text_eq
trimmed = refl

stored-IsSafe : IsSafe stored
unfolding any_control is_control
stored-IsSafe = (refl, tt)

abbrev longer : Headers
longer = (text "vary", single (text "origin, accept")) ∷ []

appended : append stored (text "Vary") (text " accept ") ≡ returned longer
unfolding append append_normal fold_value text_eq lookup insert
appended = rw (vary_name, trimmed) refl

built : from_pairs stored ((text "Vary", text " accept ") ∷ []) ≡ returned longer
unfolding from_pairs
built = rw appended refl

append-set-delete-IsSafe_example : IsSafe longer
append-set-delete-IsSafe_example =
    append-set-delete-IsSafe stored (text "Vary") (text " accept ") stored-IsSafe (inl appended)

from_pairs-IsSafe_example : IsSafe longer
from_pairs-IsSafe_example =
    from_pairs-IsSafe ((text "Vary", text " accept ") ∷ []) stored stored-IsSafe built

get-set_example : (set stored (text "ETag") (text " accept ") >>= λ h'. get h' (text "Vary")) ≡ (
    if text_eq (text "etag") (text "vary")
    then returned (some (text "accept"))
    else get stored (text "Vary"))
get-set_example =
    get-set stored (text "ETag") (text " accept ") (text "Vary") etag_name trimmed vary_name

get-delete_example :
    (delete stored (text "Vary") >>= λ h'. get h' (text "ETag"))
    ≡ (if text_eq (text "vary") (text "etag") then returned none else get stored (text "ETag"))
get-delete_example = get-delete stored (text "Vary") (text "ETag") vary_name etag_name

get-append_example :
    (append stored (text "Vary") (text " accept ") >>= λ h'. get h' (text "ETag")) ≡ (
      if text_eq (text "vary") (text "etag")
      then returned (some (text "origin, accept"))
      else get stored (text "ETag"))
unfolding text_eq lookup
get-append_example =
    get-append stored (text "Vary") (text " accept ") (text "ETag") (some (text "origin")) vary_name
      trimmed etag_name refl refl
