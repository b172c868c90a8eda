-- ===== src/ByteUtils/Incremental.antt =====
-- What `accumulateUntil` asks of its decoder, and that the SOCKS decoders have it.
use qjs_lws.Base.{
  ℕ, ◌≡◌, ◌≤◌, Option, some, List, ◌++◌, length, Outcome, returned, thrown, stuck, ◌≢◌,
}

-- More bytes change no result but "not yet", and a message lies in the bytes that are there.
pub record IsIncremental {E A : Type 0} (consumed : A → ℕ)
    (try_decode : List ℕ → Outcome E (Option A)) : Type 0 where
  pub decoded-append :
      (xs ys : List ℕ) (d : A)
      → try_decode xs ≡ returned (some d)
      → (try_decode (xs ++ ys) ≡ returned (some d)) × (consumed d ≤ length xs)
  pub thrown-append :
      (xs ys : List ℕ) (e : E) → try_decode xs ≡ thrown e → try_decode (xs ++ ys) ≡ thrown e
  pub total : (xs : List ℕ) → try_decode xs ≢ stuck
