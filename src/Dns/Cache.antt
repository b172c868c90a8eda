-- ===== src/Dns/Cache.antt =====
-- examples/dns-server/cache.js. `Date.now()` is the argument `now`, in milliseconds.
use qjs_lws.Base.{
  ℕ, ◌+◌, ◌-◌, ◌*◌, ◌/◌, ◌≤◌, ◌<◌, ◌≡◌, refl, not, ◌&&◌, Option, none, some, List, map, Text,
  length, text_eq, text_eq_refl, ◌==◌, if◌then◌else◌, arith, ◌||◌, text_eq_iff, Option-cases, inl,
  inr,
}
use qjs_lws.Dict.{Dict, lookup, insert, remove}
use qjs_lws.Dict.Laws.{lookup-insert, lookup-remove}
use qjs_lws.Dns.Message.{Rr}

pub record CacheEntry : Type 0 where
  pub rrs : List Rr
  pub expires_at : ℕ

abbrev pub Cache : Type 0
Cache = Dict CacheEntry

unfoldable pub with_ttl : ℕ → List Rr → List Rr
with_ttl remaining rrs = map {A = Rr} (λ rr. record rr { ttl = remaining }) rrs

-- `Math.floor((entry.expiresAt - Date.now()) / 1000)`, with 0 where that is negative.
abbrev pub remaining_at : ℕ → CacheEntry → ℕ
remaining_at now entry = (entry.expires_at - now) / 1000

unfoldable pub get_entry : ℕ → Text → Cache → Option CacheEntry → Cache × Option (List Rr)
get_entry now key cache none = (cache, none)
get_entry now key cache (some entry) =
    let remaining = remaining_at now entry in
    if remaining == 0
    then (remove key cache, none)
    else (cache, some (with_ttl remaining entry.rrs))

unfoldable pub get : ℕ → Text → Cache → Cache × Option (List Rr)
get now key cache = get_entry now key cache (lookup key cache)

unfoldable pub set : ℕ → Text → List Rr → ℕ → Cache → Cache
set now key rrs ttl_seconds cache =
    if length rrs == 0 || ttl_seconds == 0
    then cache
    else insert key (record { rrs = rrs; expires_at = now + ttl_seconds * 1000 }) cache

-- A set of records that is stored is returned as long as a whole second of its time to live is left,
-- so not in the last second, with the whole seconds that are left; other keys, and empty sets or a time
-- to live of 0, change no answer.
pub get-set_timed :
    (now at ttl_seconds : ℕ) (key asked : Text) (rrs : List Rr) (cache : Cache)
    → (get at asked (set now key rrs ttl_seconds cache)).1 ≡ (
        if text_eq key asked && not (length rrs == 0 || ttl_seconds == 0)
        then (if (now + ttl_seconds * 1000 - at) / 1000 == 0
            then none
            else some (with_ttl ((now + ttl_seconds * 1000 - at) / 1000) rrs))
        else (get at asked cache).1)
unfolding get set get_entry
get-set_timed now at ttl_seconds key asked rrs cache = ground (
  arith,
  lookup-insert key asked (record { rrs = rrs; expires_at = now + ttl_seconds * 1000 }) cache,
)

expires_once : (at later e : ℕ) → at ≤ later → (e - at) / 1000 ≡ 0 → (e - later) / 1000 ≡ 0
expires_once at later e h z = omega arith

-- A look-up, which may delete what has expired, changes no answer at any later time.
get-get_later :
    (at later : ℕ) (key asked : Text) (cache : Cache)
    → at ≤ later
    → (get later asked (get at key cache).0).1 ≡ (get later asked cache).1
unfolding get get_entry
get-get_later at later key asked cache h = elim (Option-cases (lookup key cache)) [
  | inl missing ↦ rw missing refl
  | inr (e, found) ↦ ground (
    arith,
    found,
    lookup-remove key asked cache,
    text_eq_iff key asked,
    expires_once at later e.expires_at h,
  )
]

-- The time to live that a stored set is returned with is positive, and at most the seconds it was
-- stored with when it is asked for no earlier.
pub get-set_bounds :
    (now at ttl_seconds : ℕ) (key : Text) (rrs found : List Rr) (cache : Cache)
    → now ≤ at
    → 0 < length rrs
    → 0 < ttl_seconds
    → (get at key (set now key rrs ttl_seconds cache)).1 ≡ some found
    → (left : ℕ) × (found ≡ with_ttl left rrs) × (0 < left) × (left ≤ ttl_seconds)
get-set_bounds now at ttl_seconds key rrs found cache h full live e =
    let left = (now + ttl_seconds * 1000 - at) / 1000 in
    let whole = get-set_timed now at ttl_seconds key key rrs cache in
    let answer : (found ≡ with_ttl left rrs) × (0 < left) =
      ground (arith, whole, text_eq_refl key) in
    (left, answer.0, answer.1, omega arith)
