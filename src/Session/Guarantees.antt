-- ===== src/Session/Guarantees.antt =====
-- What a request does to the sessions in the store.
use qjs_lws.Base.{
  ℕ, ◌+◌, ◌≤◌, ◌<◌, ◌≡◌, refl, ◌∙◌, true, false, Option, none, some, List, [], ◌∷◌, Text, All, ltb,
  text_eq, text_eq_iff, text_eq_refl, length, arith, if◌then◌else◌, Option-cases, inl, inr,
}
use qjs_lws.Dict.{lookup}
use qjs_lws.Dict.Laws.{lookup-insert, lookup-remove}
use qjs_lws.Session.{Data, Store, destroy, touch, touch_entry}
use qjs_lws.Session.Store.{live, get-live, live-set, live-destroy, live-touch}
use qjs_lws.Session.Middleware.{
  Options, Run, Action, write, erase, destroys, saves, touches, regenerates, flushes, waits, act,
  handle, start, opened, fetch, finish, request, data_eq,
}

-- A session that a request does not name, at a time not before the request.
module _ (o : Options) (s : Store) (other : Text) (at : ℕ) where
  -- The run works on another id, will draw other ids, and the session is as it was.
  record Spares (r : Run) : Type 0 where
    apart : text_eq r.sid other ≡ false
    fresh : (i : ℕ) → text_eq (r.ids i) other ≡ false
    same : live at other r.store ≡ live at other s

  act-Spares : (a : Action) (r : Run) → Spares r → Spares (act o a r)
  unfolding act
  act-Spares (write k v) r h = record { apart = h.apart; fresh = h.fresh; same = h.same }
  act-Spares (erase k) r h = record { apart = h.apart; fresh = h.fresh; same = h.same }
  act-Spares destroys r h = record {
    apart = h.apart;
    fresh = h.fresh;
    same = live-destroy at r.sid other r.store ∙ rw (h.apart) h.same;
  }
  act-Spares saves r h = record {
    apart = h.apart;
    fresh = h.fresh;
    same = live-set r.now o.ttl at r.sid other r.props r.store ∙ rw (h.apart) h.same;
  }
  act-Spares touches r h = record {
    apart = h.apart;
    fresh = h.fresh;
    same = live-touch r.now o.ttl at r.sid other r.store ∙ rw (h.apart) h.same;
  }
  act-Spares regenerates r h = record {
    apart = h.fresh r.used;
    fresh = h.fresh;
    same =
        live-set r.now o.ttl at (r.ids r.used) other r.props (destroy r.sid r.store)
        ∙ rw (h.fresh r.used) (live-destroy at r.sid other r.store ∙ rw (h.apart) h.same);
  }
  act-Spares flushes r h = record { apart = h.apart; fresh = h.fresh; same = h.same }
  act-Spares (waits n) r h = record { apart = h.apart; fresh = h.fresh; same = h.same }

  handle-Spares : (as' : List Action) (r : Run) → Spares r → Spares (handle o as' r)
  unfolding handle
  handle-Spares [] r h = h
  handle-Spares (a ∷ as') r h = handle-Spares as' (act o a r) (act-Spares a r h)

  finish-Spares : (r : Run) → Spares r → live at other (finish o r) ≡ live at other s
  unfolding finish
  finish-Spares r h = ground (
    arith,
    h.apart,
    h.same,
    live-set r.now o.ttl at r.sid other r.props r.store,
    live-touch r.now o.ttl at r.sid other r.store,
  )

  opened-Spares :
      (now : ℕ) (ids : ℕ → Text) (sid : Text) (found : Store × Option Data)
      → text_eq sid other ≡ false
      → ((i : ℕ) → text_eq (ids i) other ≡ false)
      → live at other found.0 ≡ live at other s
      → Spares (opened o now ids sid found)
  unfolding opened
  opened-Spares now ids sid (t, some d) ha hf hs = record { apart = ha; fresh = hf; same = hs }
  opened-Spares now ids sid (t, none) ha hf hs = record { apart = hf 0; fresh = hf; same = hs }

  fetch-same :
      (now : ℕ) (sid : Text) → now ≤ at → live at other (fetch now sid s).0 ≡ live at other s
  unfolding fetch
  fetch-same now [] h = refl
  fetch-same now (c ∷ sid) h = (get-live now at (c ∷ sid) other s h).1

-- Whatever the handlers of a request do, no session changes but that of the request's cookie and
-- those under the ids that the request generates: from the start of the request on, any other
-- session is live just when it was, with the same data.
pub request_other :
    (o : Options) (now at : ℕ) (ids : ℕ → Text) (sid other : Text) (actions : List Action)
    (s : Store)
    → now ≤ at
    → text_eq sid other ≡ false
    → ((i : ℕ) → text_eq (ids i) other ≡ false)
    → live at other (request o now ids sid actions s) ≡ live at other s
unfolding request start
request_other o now at ids sid other actions s h ha hf =
    let opens =
      opened-Spares o s other at now ids sid (fetch now sid s) ha hf
        (fetch-same o s other at now sid h) in
    finish-Spares o s other at (handle o actions (opened o now ids sid (fetch now sid s)))
      (handle-Spares o s other at actions (opened o now ids sid (fetch now sid s)) opens)

-- An action that puts nothing back into the store.
abbrev pub IsQuiet : Action → Type 0
IsQuiet saves = ⊥
IsQuiet regenerates = ⊥
IsQuiet _ = Unit {0}

-- The session under `sid` is destroyed, and the store has no entry for it.
record Gone (sid : Text) (r : Run) : Type 0 where
  dead : lookup sid r.store ≡ none
  flag : r.destroyed ≡ true

lookup-touch :
    (now ttl : ℕ) (other sid : Text) (s : Store)
    → lookup sid s ≡ none
    → lookup sid (touch now other ttl s) ≡ none
unfolding touch touch_entry
lookup-touch now ttl other sid s h = elim (Option-cases (lookup other s)) [
  | inl missing ↦ rw missing h
  | inr (e, found) ↦
      let new = record e { expires = now + ttl } in
      rw (found, lookup-insert other sid new s) (ground (arith, text_eq_iff other sid))
]

module _ (o : Options) (sid : Text) where
  act-Gone : (a : Action) (r : Run) → IsQuiet a → Gone sid r → Gone sid (act o a r)
  unfolding act
  act-Gone (write k v) r q h = record { dead = h.dead; flag = h.flag }
  act-Gone (erase k) r q h = record { dead = h.dead; flag = h.flag }
  act-Gone destroys r q h = record {
    dead = unfold destroy in lookup-remove r.sid sid r.store ∙ ground (arith, h.dead);
    flag = refl;
  }
  act-Gone saves r q h = absurd q
  act-Gone touches r q h = record {
    dead = lookup-touch r.now o.ttl r.sid sid r.store h.dead;
    flag = h.flag;
  }
  act-Gone regenerates r q h = absurd q
  act-Gone flushes r q h = record { dead = h.dead; flag = h.flag }
  act-Gone (waits n) r q h = record { dead = h.dead; flag = h.flag }

  handle-Gone :
      (as' : List Action) (r : Run) → All IsQuiet as' → Gone sid r → Gone sid (handle o as' r)
  unfolding handle
  handle-Gone [] r q h = h
  handle-Gone (a ∷ as') r (qa, q) h = handle-Gone as' (act o a r) q (act-Gone a r qa h)

destroy-Gone : (o : Options) (r : Run) → Gone r.sid (act o destroys r)
unfolding act destroy
destroy-Gone o r = record {
  dead = lookup-remove r.sid r.sid r.store ∙ rw (text_eq_refl r.sid);
  flag = refl;
}

finish-Gone : (o : Options) (sid : Text) (r : Run) → Gone sid r → lookup sid (finish o r) ≡ none
unfolding finish
finish-Gone o sid r h = rw (h.flag) h.dead

-- Once a handler destroys its session, at any point of the request, and none later saves it or
-- regenerates its id, the store has no session under that id after the request, at any time: the
-- automatic save at the end does not bring it back.
pub destroyed_stays :
    (o : Options) (r : Run) (later : List Action) (at : ℕ)
    → All IsQuiet later
    → live at r.sid (finish o (handle o later (act o destroys r))) ≡ none
unfolding live
destroyed_stays o r later at q = rw (
    finish-Gone o r.sid (handle o later (act o destroys r))
      (handle-Gone o r.sid later (act o destroys r) q (destroy-Gone o r)))

-- Regenerating moves the session: at once the old id is gone, and the new one holds the data until
-- its time is up, if the two ids differ.
pub regenerate_moves :
    (o : Options) (r : Run) (at : ℕ)
    → text_eq (r.ids r.used) r.sid ≡ false
    → (live at r.sid (act o regenerates r).store ≡ none)
      × (live at (r.ids r.used) (act o regenerates r).store
          ≡ (if ltb at (r.now + o.ttl) then some r.props else none))
unfolding act
regenerate_moves o r at apart =
    let new = r.ids r.used in
    (
      live-set r.now o.ttl at new r.sid r.props (destroy r.sid r.store)
          ∙ rw apart (live-destroy at r.sid r.sid r.store ∙ rw (text_eq_refl r.sid)),
      live-set r.now o.ttl at new new r.props (destroy r.sid r.store) ∙ rw (text_eq_refl new),
    )

-- At the end of a request a session that was not destroyed, has properties and was changed is in
-- the store under its id with exactly these, until its time is up.
pub finish_saves :
    (o : Options) (r : Run) (at : ℕ)
    → r.destroyed ≡ false
    → 0 < length r.props
    → data_eq r.props r.initial ≡ false
    → live at r.sid (finish o r) ≡ (if ltb at (r.now + o.ttl) then some r.props else none)
unfolding finish
finish_saves o r at kept some_props changed =
    ground (arith, live-set r.now o.ttl at r.sid r.sid r.props r.store, text_eq_refl r.sid)

-- Unless the options ask for it, a new session without properties leaves the store as it is.
pub finish_uninitialized :
    (o : Options) (r : Run)
    → r.is_new ≡ true
    → length r.props ≡ 0
    → o.save_uninitialized ≡ false
    → finish o r ≡ r.store
unfolding finish
finish_uninitialized o r new no_props off = ground arith
