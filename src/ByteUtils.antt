-- ===== src/ByteUtils.antt =====
-- examples/proxy/lib/byte-utils.js: reading chunks until a message is complete. The chunks that
-- `reader.read()` is going to return are a list, and the stream ends behind the last.
pub mod Incremental
pub mod Chunks
use qjs_lws.Base.{
  ℕ, Option, none, some, List, [], ◌∷◌, ◌++◌, drop, Outcome, returned, thrown, stuck, ◌>>=◌,
}

unfoldable pub concat : List ℕ → List ℕ → List ℕ
concat a b = a ++ b

-- The object that `accumulateUntil` resolves with, and the chunks that are not read yet.
pub record Accumulated (A : Type 0) : Type 0 where
  pub decoded : A
  pub buf : List ℕ
  pub rest : List ℕ
  pub unread : List (List ℕ)

module _ {E A : Type 0} (consumed : A → ℕ) (try_decode : List ℕ → Outcome E (Option A)) where
  -- What one round does with the result of `tryDecode(buf)`; `more` is what follows.
  unfoldable pub round :
      Option A
      → List ℕ
      → List (List ℕ)
      → Outcome E (Option (Accumulated A))
      → Outcome E (Option (Accumulated A))
  round none buf unread more = more
  round (some d) buf unread more =
      returned
        (some (record { decoded = d; buf = buf; rest = drop (consumed d) buf; unread = unread }))

  unfoldable pub accumulate_until : List ℕ → List (List ℕ) → Outcome E (Option (Accumulated A))
  accumulate_until buf [] = do d ← try_decode buf; round d buf [] (returned none)
  accumulate_until buf (chunk ∷ chunks) =
      let later = accumulate_until (concat buf chunk) chunks in
      (do d ← try_decode buf; round d buf (chunk ∷ chunks) later)
