-- ===== src/Tests/Dispatch.antt =====
-- A chain whose first handler hands on an error, which an error handler then answers.
use qjs_lws.Base.{ℕ, zero, suc, ◌≡◌, true, false, Option, none, some, List, [], ◌∷◌, Text}
use qjs_lws.Text.{text}
use qjs_lws.Dict.{Dict}
use qjs_lws.App.Path.{everything}
use qjs_lws.App.Dispatch.{Layer, Handling, returns, Ended, dispatch}
use qjs_lws.App.Dispatch.Calls.{Calls}
use qjs_lws.App.Dispatch.Total.{dispatch_ends}

abbrev behave : ℕ → Option Text → Dict Text → Handling
behave zero err params = record { calls = some (text "denied") ∷ []; ending = returns }
behave (suc n) err params = record { calls = []; ending = returns }

abbrev layers : List Layer
layers =
    record { method = none; regex = everything; keys = []; handler = 0; is_error = false }
    ∷ record {
      method = some (text "GET");
      regex = everything;
      keys = [];
      handler = 1;
      is_error = true;
    }
    ∷ []

dispatch_ends_example :
    (r : Ended) × (dispatch behave some (text "GET") (text "/") layers ≡ some r)
    × Calls (text "GET") (text "/") r.chain.called layers
dispatch_ends_example = dispatch_ends (text "GET") (text "/") behave some layers
