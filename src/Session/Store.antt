-- ===== src/Session/Store.antt =====
-- What a store answers after each operation.
use qjs_lws.Base.{
  ℕ, ◌+◌, ◌≤◌, ◌≡◌, refl, Option, none, some, Text, leb, ltb, text_eq, text_eq_iff, arith,
  if◌then◌else◌, Option-cases, inl, inr,
}
use qjs_lws.Dict.{lookup}
use qjs_lws.Dict.Laws.{lookup-insert, lookup-remove}
use qjs_lws.Session.{Data, Entry, Store, get, get_entry, set, destroy, touch, touch_entry}

-- The session that is live at a time.
abbrev pub live_entry : ℕ → Option Entry → Option Data
live_entry now none = none
live_entry now (some e) = if leb e.expires now then none else some e.stored

unfoldable pub live : ℕ → Text → Store → Option Data
live now sid s = live_entry now (lookup sid s)

-- `get` answers the live session, and deletes nothing that is live at any later time.
pub get-live :
    (now later : ℕ) (sid asked : Text) (s : Store)
    → now ≤ later
    → ((get now sid s).1 ≡ live now sid s)
      × (live later asked (get now sid s).0 ≡ live later asked s)
unfolding get get_entry live
get-live now later sid asked s h = elim (Option-cases (lookup sid s)) [
  | inl missing ↦ rw missing (refl, refl)
  | inr (e, found) ↦ ground (arith, found, lookup-remove sid asked s, text_eq_iff sid asked)
]

-- A session that is set is live until its time is up, and no other session changes.
pub live-set :
    (now ttl at : ℕ) (sid asked : Text) (d : Data) (s : Store)
    → live at asked (set now sid d ttl s) ≡ (
        if text_eq sid asked
        then (if ltb at (now + ttl) then some d else none)
        else live at asked s)
unfolding live set
live-set now ttl at sid asked d s =
    rw (lookup-insert sid asked (record { stored = d; expires = now + ttl }) s) (ground arith)

-- A session that is destroyed is gone at every time, and no other changes.
pub live-destroy :
    (at : ℕ) (sid asked : Text) (s : Store)
    → live at asked (destroy sid s) ≡ (if text_eq sid asked then none else live at asked s)
unfolding live destroy
live-destroy at sid asked s = rw (lookup-remove sid asked s) (ground arith)

-- `touch` moves the end of a stored session and keeps its data; it creates none.
pub live-touch :
    (now ttl at : ℕ) (sid asked : Text) (s : Store)
    → live at asked (touch now sid ttl s) ≡ (
        if text_eq sid asked
        then elim (lookup sid s) [
          | none ↦ none
          | some e ↦ if ltb at (now + ttl) then some e.stored else none
        ]
        else live at asked s)
unfolding live touch touch_entry
live-touch now ttl at sid asked s = elim (Option-cases (lookup sid s)) [
  | inl missing ↦ ground (arith, missing, text_eq_iff sid asked)
  | inr (e, found) ↦
      let new = record e { expires = now + ttl } in
      rw (found, lookup-insert sid asked new s) (ground arith)
]
