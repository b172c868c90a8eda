-- ===== src/App/Dispatch.antt =====
-- `dispatch` of lib/lws/app.js. A handler is a number, and what it does is an argument: the calls of
-- `next`, each with an error or none, that it waits for in turn, and how it ends. It is taken to pass on
-- an exception that such a call gives, and to make no call that it does not wait for. Errors are truthy
-- values; `decodeURIComponent`, where `none` is its exception, is an argument, too. Mounted routers are
-- not modelled.
pub mod Calls
pub mod Total
use qjs_lws.Base.{
  ℕ, zero, suc, Bool, true, false, not, ◌&&◌, Option, none, some, List, [], ◌∷◌, ◌++◌, Text,
  text_eq, length, if◌then◌else◌,
}
use qjs_lws.Text.{text}
use qjs_lws.Dict.{Dict, insert}
use qjs_lws.App.Path.{Regex, exec}

pub record Layer : Type 0 where
  pub method : Option Text
  pub regex : Regex
  pub keys : List Text
  pub handler : ℕ
  pub is_error : Bool

-- A handler returns, throws, or never settles.
pub data Ending : Type 0 where
  returns hangs : Ending
  throws : Option Text → Ending

pub record Handling : Type 0 where
  pub calls : List (Option Text)
  pub ending : Ending

-- The layers that `i` has not reached, and what has happened: the handlers called, each with its
-- error, and the errors that the drained stack reported.
pub record Chain : Type 0 where
  pub layers : List Layer
  pub responded : Bool
  pub params : Dict Text
  pub called : List (ℕ × Option Text)
  pub reported : List Text

-- `layer.method && layer.method !== req.method`.
unfoldable pub other_method : Option Text → Text → Bool
other_method none method = false
other_method (some m) method = not (text_eq m method)

-- The promise of `run`: fulfilled, rejected, or neither.
pub data Status : Type 0 where
  settled pending : Status
  rejected : Text → Status

pub record Ended : Type 0 where
  pub chain : Chain
  pub status : Status

abbrev pub ended : Chain → Option Ended
ended s = some (record { chain = s; status = settled })

-- The parameters that are set, and whether all captures were decoded.
unfoldable pub set_params :
    (Text → Option Text) → List Text → List Text → Dict Text → Dict Text × Bool
set_params decode [] captures params = (params, true)
set_params decode (k ∷ keys) [] params = (params, true)
set_params decode (k ∷ keys) (v ∷ captures) params = elim (decode v) [
  | none ↦ (params, false)
  | some t ↦ set_params decode keys captures (insert k t params)
]

-- An error goes to error handlers, no error to the others.
unfoldable pub fits : Option Text → Bool → Bool
fits none is_error = not is_error
fits (some e) is_error = is_error

unfoldable pub drained : Option Text → Chain → Chain
drained none s = s
drained (some e) s = record s { responded = true; reported = s.reported ++ e ∷ [] }

-- The exception of `decodeURIComponent`.
abbrev pub uri_error : Text
uri_error = text "URIError"

-- A call of `next` that is rejected or never settles is the last one.
unfoldable pub go_on : Status → Ended → Option Ended → Option Ended
go_on settled r rest = rest
go_on pending r rest = some r
go_on (rejected e) r rest = some r

-- The calls of `next`, one after the other; `go` is `run`.
unfoldable pub run_calls :
    (Option Text → Chain → Option Ended) → List (Option Text) → Chain → Option Ended
run_calls go [] s = ended s
run_calls go (e ∷ es) s = elim (go e s) [
  | none ↦ none
  | some r ↦ go_on r.status r (run_calls go es r.chain)
]

-- How the handler ends, after its calls.
unfoldable pub ending_after : Status → Ending → Ending
ending_after settled ending = ending
ending_after pending ending = hangs
ending_after (rejected e) ending = throws (some e)

-- A throw goes on with the error, and a handler that returns without a call of `next` owns the
-- response.
unfoldable pub settle :
    (Option Text → Chain → Option Ended) → List (Option Text) → Ending → Chain → Option Ended
settle go [] returns s = ended (record s { responded = true })
settle go (e ∷ es) returns s = ended s
settle go es (throws e) s = go e s
settle go es hangs s = some (record { chain = s; status = pending })

module _ (behave : ℕ → Option Text → Dict Text → Handling) (decode : Text → Option Text)
    (method path : Text) where
  unfoldable pub call_handler :
      (Option Text → Chain → Option Ended) → Layer → Option Text → Chain → Option Ended
  call_handler go layer err s =
      let h = behave layer.handler err s.params in
      let s' = record s { called = s.called ++ (layer.handler, err) ∷ [] } in
      elim (run_calls go h.calls s') [
        | none ↦ none
        | some r ↦ settle go h.calls (ending_after r.status h.ending) r.chain
      ]

  unfoldable pub on_match :
      (Option Text → Chain → Option Ended)
      → Layer
      → Option Text
      → Chain
      → Option (List Text)
      → Option Ended
  on_match go layer err s none = go err s
  on_match go layer err s (some captures) =
      let (params, decoded) = set_params decode layer.keys captures s.params in
      let s' = record s { params = params } in
      if not decoded
      then some (record { chain = s'; status = rejected uri_error })
      else if fits err layer.is_error
      then call_handler go layer err s'
      else go err s'

  -- One round of the loop: to continue is to run again with the same error.
  unfoldable pub next_layer :
      (Option Text → Chain → Option Ended) → Option Text → Chain → List Layer → Option Ended
  next_layer go err s [] = ended (drained err s)
  next_layer go err s (layer ∷ layers) =
      let s' = record s { layers = layers } in
      if other_method layer.method method
      then go err s'
      else on_match go layer err s' (exec layer.regex path)

  unfoldable pub run : ℕ → Option Text → Chain → Option Ended
  run zero err s = none
  run (suc fuel) err s = next_layer (run fuel) err s s.layers

  -- One round for each layer and one for the drained stack.
  unfoldable pub dispatch : List Layer → Option Ended
  dispatch layers =
      run (suc (length layers)) none
        (record { layers = layers; responded = false; params = []; called = []; reported = [] })
