-- ===== src/Tests/Session.antt =====
-- Runs of the session store and its middleware.
use qjs_lws.Base.{
  ℕ, ◌+◌, ◌≡◌, refl, false, none, some, [], ◌∷◌, Text, ltb, text_eq, arith, if◌then◌else◌,
}
use qjs_lws.Text.{text}
use qjs_lws.Session.{Store, get}
use qjs_lws.Session.Store.{live, get-live}
use qjs_lws.Session.Middleware.{
  Options, Run, write, destroys, regenerates, touches, act, handle, finish, request, data_eq,
}
use qjs_lws.Session.Guarantees.{request_other, destroyed_stays, regenerate_moves, finish_saves}

abbrev options : Options
options = record { ttl = 1000; resave = false; save_uninitialized = false; rolling = false }

abbrev store : Store
store =
    (text "a", record { stored = (text "user", text "1") ∷ []; expires = 500 })
    ∷ (text "b", record { stored = []; expires = 700 })
    ∷ []

-- The ids that are drawn begin with an x.
abbrev ids : ℕ → Text
ids i = b'x' ∷ i ∷ []

abbrev run : Run
run = record {
  sid = text "a";
  props = (text "user", text "2") ∷ [];
  is_new = false;
  destroyed = false;
  initial = (text "user", text "1") ∷ [];
  store = store;
  now = 100;
  ids = ids;
  used = 0;
  headers_sent = false;
  cookies = [];
}

request_other_example :
    live 200 (text "b") (
      request options 100 ids
        (text "a")
        (write (text "k") (text "v") ∷ regenerates ∷ destroys ∷ [])
        store)
    ≡ live 200 (text "b") store
unfolding text_eq
request_other_example =
    request_other options 100 200 ids (text "a") (text "b")
      (write (text "k") (text "v") ∷ regenerates ∷ destroys ∷ []) store (omega arith) refl
      (λ i. refl)

destroyed_stays_example :
    live 200 (text "a") (
      finish options
        (handle options (write (text "k") (text "v") ∷ touches ∷ []) (act options destroys run)))
    ≡ none
destroyed_stays_example =
    destroyed_stays options run (write (text "k") (text "v") ∷ touches ∷ []) 200 (tt, (tt, tt))

regenerate_moves_example :
    (live 200 (text "a") (act options regenerates run).store ≡ none)
    × (live 200 (ids 0) (act options regenerates run).store
        ≡ (if ltb 200 (100 + 1000) then some ((text "user", text "2") ∷ []) else none))
unfolding text_eq
regenerate_moves_example = regenerate_moves options run 200 refl

finish_saves_example :
    live 200 (text "a") (finish options run)
    ≡ (if ltb 200 (100 + 1000) then some ((text "user", text "2") ∷ []) else none)
unfolding data_eq text_eq
finish_saves_example = finish_saves options run 200 refl (omega arith) refl

get-live_example :
    ((get 100 (text "a") store).1 ≡ live 100 (text "a") store)
    × (live 200 (text "b") (get 100 (text "a") store).0 ≡ live 200 (text "b") store)
get-live_example = get-live 100 200 (text "a") (text "b") store (omega arith)
