-- ===== src/App/Dispatch/Total.antt =====
-- The chain ends, and calls the handlers in their order.
use qjs_lws.Base.{
  ℕ, zero, suc, ◌≡◌, ◌<◌, refl, ap, ◌∙◌, Bool, true, false, not, if◌then◌else◌, Bool-cases, inl,
  inr, Option, none, some, List, [], ◌∷◌, ◌++◌, append_assoc, Text, length, arith,
}
use mathlib.Core.Path.{subst}
use qjs_lws.Dict.{Dict}
use qjs_lws.App.Path.{exec}
use qjs_lws.App.Dispatch.{
  Layer, Ending, returns, hangs, throws, Handling, Chain, Status, settled, pending, rejected, Ended,
  go_on, ending_after, run_calls, settle, drained, call_handler, on_match, next_layer, run,
  dispatch, fits, other_method, set_params, uri_error,
}
use qjs_lws.App.Dispatch.Calls.{
  Calls, passed, reached, Extends, Extends-refl, Extends-length, Extends-Calls, Ends, Ends-trans,
}

module _ (method path : Text) where
  -- A `run` that ends on every chain of less than `n` layers.
  abbrev Runs : ℕ → (Option Text → Chain → Option Ended) → Type 0
  Runs n go =
      (err : Option Text) (s : Chain)
      → length s.layers < n
      → Ends method path s.layers s.called (go err s)

  module _ (n : ℕ) (go : Option Text → Chain → Option Ended) (ok : Runs n go) where
    go_on-Ends :
        (status : Status) (layers : List Layer) (called : List (ℕ × Option Text)) (r : Ended)
        (o : Option Ended)
        → Extends method path layers called r.chain
        → Ends method path r.chain.layers r.chain.called o
        → Ends method path layers called (go_on status r o)
    unfolding go_on
    go_on-Ends settled layers called r o h k = Ends-trans method path layers called r.chain o h k
    go_on-Ends pending layers called r o h k = (r, refl, h)
    go_on-Ends (rejected e) layers called r o h k = (r, refl, h)

    run_calls-Ends :
        (es : List (Option Text)) (s : Chain)
        → length s.layers < n
        → Ends method path s.layers s.called (run_calls go es s)
    unfolding run_calls
    run_calls-Ends [] s h = (_, refl, Extends-refl method path s)
    run_calls-Ends (e ∷ es) s h =
        let (r, er, x) = ok e s h in
        let less = Extends-length method path s.layers s.called r.chain x in
        rw (run_calls, er)
          (go_on-Ends r.status s.layers s.called r _ x (run_calls-Ends es r.chain (omega arith)))

    settle-Ends :
        (es : List (Option Text)) (ending : Ending) (s : Chain)
        → length s.layers < n
        → Ends method path s.layers s.called (settle go es ending s)
    unfolding settle
    settle-Ends [] returns s h = (_, refl, Extends-refl method path (record s { responded = true }))
    settle-Ends (e ∷ es) returns s h = (_, refl, Extends-refl method path s)
    settle-Ends [] (throws e) s h = ok e s h
    settle-Ends (x ∷ es) (throws e) s h = ok e s h
    settle-Ends [] hangs s h = (_, refl, Extends-refl method path s)
    settle-Ends (x ∷ es) hangs s h = (_, refl, Extends-refl method path s)

    module _ (behave : ℕ → Option Text → Dict Text → Handling) (decode : Text → Option Text) where
      call_handler-Ends :
          (layer : Layer) (err : Option Text) (s : Chain)
          → length s.layers < n
          → Ends method path s.layers
              (s.called ++ (layer.handler, err) ∷ [])
              (call_handler behave decode method path go layer err s)
      unfolding call_handler
      call_handler-Ends layer err s h =
          let s' = record s { called = s.called ++ (layer.handler, err) ∷ [] } in
          let done = behave layer.handler err s.params in
          let (r, er, x) = run_calls-Ends done.calls s' h in
          let less = Extends-length method path s'.layers s'.called r.chain x in
          rw (call_handler, er)
            (Ends-trans method path s'.layers s'.called r.chain _ x
              (settle-Ends done.calls (ending_after r.status done.ending) r.chain (omega arith)))

      -- A layer that is passed over, and one whose handler is called.
      pass :
          (layer : Layer) (layers : List Layer) (called : List (ℕ × Option Text)) (o : Option Ended)
          → Ends method path layers called o
          → Ends method path (layer ∷ layers) called o
      pass layer layers called o (r, e, x) = (
        r,
        e,
        record {
          taken = layer ∷ x.taken;
          later = x.later;
          split = ap (λ l. layer ∷ l) x.split;
          calls = x.calls;
          allowed = passed layer x.allowed;
        },
      )

      reach :
          (layer : Layer) (err : Option Text) (captures : List Text) (layers : List Layer)
          (called : List (ℕ × Option Text)) (o : Option Ended)
          → other_method layer.method method ≡ false
          → exec layer.regex path ≡ some captures
          → fits err layer.is_error ≡ true
          → Ends method path layers (called ++ (layer.handler, err) ∷ []) o
          → Ends method path (layer ∷ layers) called o
      reach layer err captures layers called o m p f (r, e, x) = (
        r,
        e,
        record {
          taken = layer ∷ x.taken;
          later = (layer.handler, err) ∷ x.later;
          split = ap (λ l. layer ∷ l) x.split;
          calls = x.calls ∙ append_assoc called ((layer.handler, err) ∷ []) x.later;
          allowed = reached layer err captures m p f x.allowed;
        },
      )

      decoded_match-Ends :
          (layer : Layer) (err : Option Text) (captures : List Text) (s : Chain)
          (decoded fit : Bool)
          → length s.layers < n
          → other_method layer.method method ≡ false
          → exec layer.regex path ≡ some captures
          → fits err layer.is_error ≡ fit
          → Ends method path (layer ∷ s.layers) s.called (
              if not decoded
              then some (record { chain = s; status = rejected uri_error })
              else if fit
              then call_handler behave decode method path go layer err s
              else go err s)
      decoded_match-Ends layer err captures s false fit h m p f =
          pass layer s.layers s.called _ (_, refl, Extends-refl method path s)
      decoded_match-Ends layer err captures s true true h m p f =
          reach layer err captures s.layers s.called _ m p f (call_handler-Ends layer err s h)
      decoded_match-Ends layer err captures s true false h m p f =
          pass layer s.layers s.called _ (ok err s h)

      on_match-Ends :
          (layer : Layer) (err : Option Text) (s : Chain) (m : Option (List Text))
          → length s.layers < n
          → other_method layer.method method ≡ false
          → exec layer.regex path ≡ m
          → Ends method path
              (layer ∷ s.layers)
              s.called
              (on_match behave decode method path go layer err s m)
      unfolding on_match
      on_match-Ends layer err s none h o e = pass layer s.layers s.called _ (ok err s h)
      on_match-Ends layer err s (some captures) h o e =
          let (params, decoded) = set_params decode layer.keys captures s.params in
          decoded_match-Ends layer err captures (record s { params = params }) decoded
            (fits err layer.is_error) h o e refl

      next_layer-Ends :
          (err : Option Text) (s : Chain) (layers : List Layer)
          → length layers < suc n
          → s.layers ≡ layers
          → Ends method path layers s.called (next_layer behave decode method path go err s layers)
      unfolding next_layer drained
      next_layer-Ends none s [] h e =
          (_, refl, subst (λ l. Extends method path l s.called s) e (Extends-refl method path s))
      next_layer-Ends (some x) s [] h e = (
        _,
        refl,
        subst (λ l. Extends method path l s.called (drained (some x) s)) e
            (Extends-refl method path (drained (some x) s)),
      )
      next_layer-Ends err s (layer ∷ layers) h e =
          let s' = record s { layers = layers } in
          elim (Bool-cases (other_method layer.method method)) [
            | inl other ↦ rw other (pass layer layers s.called _ (ok err s' (omega arith)))
            | inr same ↦
                rw same (on_match-Ends layer err s' (exec layer.regex path) (omega arith) same refl)
          ]

  module _ (behave : ℕ → Option Text → Dict Text → Handling) (decode : Text → Option Text) where
    -- As much fuel as there are layers, and one more, is enough.
    run-Ends : (fuel : ℕ) → Runs fuel (run behave decode method path fuel)
    unfolding run
    run-Ends zero err s h = absurd (omega arith)
    run-Ends (suc n) err s h =
        next_layer-Ends n (run behave decode method path n) (run-Ends n) behave decode err s
          s.layers h refl

    -- For handlers that are described by the calls of `next` that they wait for, in turn, and by how
    -- they end, by returning, throwing or never settling: the loop of `dispatch` ends within one round
    -- for each layer and one more, and the handlers called are those of layers whose method and path
    -- are the request's, each called at most once, in the order of the layers, an error handler with an
    -- error and any other with none.
    pub dispatch_ends :
        (layers : List Layer)
        → (r : Ended) × (dispatch behave decode method path layers ≡ some r)
          × Calls method path r.chain.called layers
    unfolding dispatch
    dispatch_ends layers =
        let s : Chain = record {
          layers = layers;
          responded = false;
          params = [];
          called = [];
          reported = [];
        } in
        let (r, e, x) = run-Ends (suc (length layers)) none s (omega arith) in
        (r, e, Extends-Calls method path layers r.chain x)
