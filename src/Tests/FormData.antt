-- ===== src/Tests/FormData.antt =====
-- Runs of the form data.
use qjs_lws.Base.{◌≡◌, none, [], ◌∷◌, text_eq, if◌then◌else◌}
use qjs_lws.Text.{text}
use qjs_lws.FormData.{Entries, string, named_value, set, delete, get_all}
use qjs_lws.FormData.Laws.{get_all-set-delete}

abbrev form : Entries
form =
    (text "a", string (text "1"))
    ∷ (text "b", string (text "2"))
    ∷ (text "a", string (text "3"))
    ∷ []

get_all-set-delete_example :
    (get_all (set form (text "a") (string []) none) (text "b") ≡ (
      if text_eq (text "a") (text "b")
      then named_value (string []) none ∷ []
      else get_all form (text "b")))
    × (get_all (delete form (text "a")) (text "b")
        ≡ (if text_eq (text "a") (text "b") then [] else get_all form (text "b")))
get_all-set-delete_example = get_all-set-delete form (text "a") (text "b") (string []) none
