-- ===== src/Session.antt =====
-- lib/lws/session.js: the in-memory store. `Date.now()` is the argument `now`, in milliseconds.
pub mod Store
pub mod Middleware
pub mod Guarantees
use qjs_lws.Base.{
  ℕ, zero, suc, ◌+◌, ◌*◌, ◌/◌, Bool, true, false, not, ◌&&◌, ◌||◌, Option, none, some, List, [],
  ◌∷◌, Text, leb, length, if◌then◌else◌,
}
use qjs_lws.Dict.{Dict, lookup, insert, remove}

-- The own properties of a session object, each with the JSON text of its value.
abbrev pub Data : Type 0
Data = Dict Text

pub record Entry : Type 0 where
  pub stored : Data
  pub expires : ℕ

abbrev pub Store : Type 0
Store = Dict Entry

unfoldable pub get_entry : ℕ → Text → Store → Option Entry → Store × Option Data
get_entry now sid s none = (s, none)
get_entry now sid s (some e) =
    if leb e.expires now then (remove sid s, none) else (s, some e.stored)

-- `store.get(sid)`: an expired entry is deleted on the way.
unfoldable pub get : ℕ → Text → Store → Store × Option Data
get now sid s = get_entry now sid s (lookup sid s)

unfoldable pub set : ℕ → Text → Data → ℕ → Store → Store
set now sid d ttl s = insert sid (record { stored = d; expires = now + ttl }) s

unfoldable pub destroy : Text → Store → Store
destroy sid s = remove sid s

unfoldable pub touch_entry : ℕ → Text → ℕ → Store → Option Entry → Store
touch_entry now sid ttl s none = s
touch_entry now sid ttl s (some e) = insert sid (record e { expires = now + ttl }) s

unfoldable pub touch : ℕ → Text → ℕ → Store → Store
touch now sid ttl s = touch_entry now sid ttl s (lookup sid s)

-- Deletes what has expired and counts it.
unfoldable pub sweep : ℕ → Store → Store × ℕ
sweep now [] = ([], 0)
sweep now ((sid, e) ∷ s) =
    let (rest, n) = sweep now s in if leb e.expires now then (rest, n + 1) else ((sid, e) ∷ rest, n)
