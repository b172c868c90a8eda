-- ===== src/ByteUtils/Chunks.antt =====
-- Where the chunks of a stream are cut changes nothing.
use qjs_lws.Base.{
  ℕ, ◌≡◌, refl, ap, ◌∙◌, sym, Option, none, some, List, [], ◌∷◌, ◌++◌, append_assoc, append-nil,
  drop, Outcome, returned, thrown, stuck, ◌>>=◌, returned_inj, drop-append, ◌≢◌,
}
use mathlib.Core.Path.{subst}
use qjs_lws.ByteUtils.{Accumulated, round, accumulate_until, concat}
use qjs_lws.ByteUtils.Incremental.{IsIncremental}

-- All bytes of a list of chunks.
abbrev pub joined : List (List ℕ) → List ℕ
joined [] = []
joined (chunk ∷ chunks) = chunk ++ joined chunks

some_inj : {A : Type 0} {a b : A} → ◌≡◌ {A = Option A} (some a) (some b) → a ≡ b
some_inj e = cc

thrown-ne-returned : {E A : Type 0} {e : E} {a : A} → ◌≢◌ {A = Outcome E A} (thrown e) (returned a)
thrown-ne-returned e = cc

none-ne-some :
    {E A : Type 0} {a : A} → ◌≢◌ {A = Outcome E (Option A)} (returned none) (returned (some a))
none-ne-some e = cc

-- The outcome is the message `d`, with what stands behind it in the bytes.
abbrev pub Reads :
    {E A : Type 0} → (A → ℕ) → List ℕ → A → Outcome E (Option (Accumulated A)) → Type 0
Reads {E} {A} consumed bytes d o =
    (a : Accumulated A) × (o ≡ returned (some a))
    × (a.decoded ≡ d)
    × (a.rest ++ joined a.unread ≡ drop (consumed d) bytes)

module _ {E A : Type 0} {consumed : A → ℕ} {try_decode : List ℕ → Outcome E (Option A)}
    (law : IsIncremental consumed try_decode) where
  -- A decoder that has found a message is done, whatever chunks follow.
  read_now :
      (d d' : A) (buf : List ℕ) (unread : List (List ℕ))
      → try_decode buf ≡ returned (some d')
      → try_decode (buf ++ joined unread) ≡ returned (some d)
      → Reads {E = E} consumed (buf ++ joined unread) d (
          returned (
            some
              (record { decoded = d'; buf = buf; rest = drop (consumed d') buf; unread = unread })))
  read_now d d' buf unread e e' =
      let (same, inside) = law.decoded-append buf (joined unread) d' e in
      let equal : d' ≡ d = some_inj (returned_inj (sym same ∙ e')) in
      (
        _,
        refl,
        equal,
        sym (drop-append (consumed d') buf (joined unread) inside)
            ∙ ap (λ x. drop (consumed x) (buf ++ joined unread)) equal,
      )

  read_round :
      (r : Outcome E (Option A)) (buf : List ℕ) (unread : List (List ℕ))
      (more : Outcome E (Option (Accumulated A))) {d : A}
      → try_decode buf ≡ r
      → try_decode (buf ++ joined unread) ≡ returned (some d)
      → (r ≡ returned none → Reads consumed (buf ++ joined unread) d more)
      → Reads consumed
          (buf ++ joined unread)
          d
          (r >>= λ o. round consumed try_decode o buf unread more)
  unfolding round
  read_round (returned none) buf unread more e e' h = h refl
  read_round (returned (some d')) buf unread more {d} e e' h = read_now d d' buf unread e e'
  read_round (thrown x) buf unread more e e' h =
      absurd (thrown-ne-returned (sym (law.thrown-append buf (joined unread) x e) ∙ e'))
  read_round stuck buf unread more e e' h = absurd (law.total buf e)

  -- If the whole stream holds a message, `accumulateUntil` returns it, however the stream is cut into
  -- chunks, for a decoder that is incremental; the bytes behind it and the chunks not read are the
  -- stream behind the message.
  pub accumulate_until-joined :
      (buf : List ℕ) (chunks : List (List ℕ)) {d : A}
      → try_decode (buf ++ joined chunks) ≡ returned (some d)
      → Reads consumed (buf ++ joined chunks) d (accumulate_until consumed try_decode buf chunks)
  unfolding accumulate_until concat
  accumulate_until-joined buf [] {d} e =
      read_round (try_decode buf) buf [] (returned none) refl e
        (λ missing. absurd (none-ne-some (sym missing ∙ ap try_decode (sym (append-nil buf)) ∙ e)))
  accumulate_until-joined buf (chunk ∷ chunks) {d} e =
      let whole = append_assoc buf chunk (joined chunks) in
      let later = accumulate_until-joined (buf ++ chunk) chunks (ap try_decode whole ∙ e) in
      read_round (try_decode buf) buf (chunk ∷ chunks)
        (accumulate_until consumed try_decode (buf ++ chunk) chunks) refl e
        (λ missing.
          subst
            (λ bytes.
              Reads consumed bytes d (accumulate_until consumed try_decode (buf ++ chunk) chunks))
            whole later)
