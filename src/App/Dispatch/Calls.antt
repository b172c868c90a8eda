-- ===== src/App/Dispatch/Calls.antt =====
-- Which handlers of lib/lws/app.js may be called by `dispatch`, and in which order.
use qjs_lws.Base.{
  ℕ, ◌+◌, ◌≡◌, ◌≤◌, refl, sym, ap, ◌∙◌, true, false, Option, some, List, [], ◌∷◌, ◌++◌, append-nil,
  append_assoc, Text, length, length-append, arith,
}
use mathlib.Core.Path.{subst}
use qjs_lws.App.Path.{exec}
use qjs_lws.App.Dispatch.{Layer, Chain, Ended, fits, other_method}

-- The calls that layers may get: each at most one, in their order, if its method and its path are those
-- of the request, and only an error handler an error.
pub data Calls (method path : Text) : List (ℕ × Option Text) → List Layer → Type 0 where
  no_layer : Calls method path [] []
  passed :
      (layer : Layer) {calls : List (ℕ × Option Text)} {layers : List Layer}
      → Calls method path calls layers
      → Calls method path calls (layer ∷ layers)
  reached :
      (layer : Layer) (err : Option Text) (captures : List Text) {calls : List (ℕ × Option Text)}
      {layers : List Layer}
      → other_method layer.method method ≡ false
      → exec layer.regex path ≡ some captures
      → fits err layer.is_error ≡ true
      → Calls method path calls layers
      → Calls method path ((layer.handler, err) ∷ calls) (layer ∷ layers)

module _ (method path : Text) where
  pub Calls-append :
      {calls later : List (ℕ × Option Text)} {layers rest : List Layer}
      → Calls method path calls layers
      → Calls method path later rest
      → Calls method path (calls ++ later) (layers ++ rest)
  Calls-append no_layer k = k
  Calls-append (passed layer c) k = passed layer (Calls-append c k)
  Calls-append (reached layer err captures m x f c) k =
      reached layer err captures m x f (Calls-append c k)

  -- A chain that goes on from layers and calls.
  pub record Extends (layers : List Layer) (called : List (ℕ × Option Text)) (t : Chain)
      : Type 0 where
    pub taken : List Layer
    pub later : List (ℕ × Option Text)
    pub split : layers ≡ taken ++ t.layers
    pub calls : t.called ≡ called ++ later
    pub allowed : Calls method path later taken

  pub Extends-refl : (t : Chain) → Extends t.layers t.called t
  Extends-refl t = record {
    taken = [];
    later = [];
    split = refl;
    calls = sym (append-nil t.called);
    allowed = no_layer;
  }

  pub Extends-trans :
      (layers : List Layer) (called : List (ℕ × Option Text)) (t u : Chain)
      → Extends layers called t
      → Extends t.layers t.called u
      → Extends layers called u
  Extends-trans layers called t u h k = record {
    taken = h.taken ++ k.taken;
    later = h.later ++ k.later;
    split = h.split ∙ ap (λ l. h.taken ++ l) k.split ∙ sym (append_assoc h.taken k.taken u.layers);
    calls = k.calls ∙ ap (λ l. l ++ k.later) h.calls ∙ append_assoc called h.later k.later;
    allowed = Calls-append h.allowed k.allowed;
  }

  pub Extends-length :
      (layers : List Layer) (called : List (ℕ × Option Text)) (t : Chain)
      → Extends layers called t
      → length t.layers ≤ length layers
  Extends-length layers called t h =
      let whole : length layers ≡ length h.taken + length t.layers =
        ap length h.split ∙ length-append h.taken t.layers in
      omega arith

  -- A result that goes on from them.
  abbrev pub Ends : List Layer → List (ℕ × Option Text) → Option Ended → Type 0
  Ends layers called o = (r : Ended) × (o ≡ some r) × Extends layers called r.chain

  pub Ends-trans :
      (layers : List Layer) (called : List (ℕ × Option Text)) (t : Chain) (o : Option Ended)
      → Extends layers called t
      → Ends t.layers t.called o
      → Ends layers called o
  Ends-trans layers called t o h (r, e, k) = (r, e, Extends-trans layers called t r.chain h k)

  pub all_passed : (layers : List Layer) → Calls method path [] layers
  all_passed [] = no_layer
  all_passed (layer ∷ layers) = passed layer (all_passed layers)

  -- All calls, and all layers.
  pub Extends-Calls :
      (layers : List Layer) (t : Chain) → Extends layers [] t → Calls method path t.called layers
  Extends-Calls layers t h =
      let whole : Calls method path (h.later ++ []) (h.taken ++ t.layers) =
        Calls-append h.allowed (all_passed t.layers) in
      rw (h.calls, h.split)
        (subst (λ c. Calls method path c (h.taken ++ t.layers)) (append-nil h.later) whole)
