-- ===== src/Session/Middleware.antt =====
-- `session(opts)`: one request through the middleware, over the in-memory store. The handlers behind
-- `next()` are a list of what they do with `req.session`. Cookies are recorded as they are set.
use qjs_lws.Base.{
  ℕ, ◌+◌, Bool, true, false, not, ◌&&◌, ◌||◌, Option, none, some, List, [], ◌∷◌, ◌++◌, Text,
  text_eq, ◌==◌, length, if◌then◌else◌,
}
use qjs_lws.Dict.{insert, remove}
use qjs_lws.Session.{Data, Store, get, set, destroy, touch}

pub record Options : Type 0 where
  pub ttl : ℕ
  pub resave : Bool
  pub save_uninitialized : Bool
  pub rolling : Bool

-- What happens to the session cookie: set to an id, or cleared.
pub data CookieEvent : Type 0 where
  cookie : Text → CookieEvent
  clear_cookie : CookieEvent

-- The variables of one run of the middleware, the store, the time, the ids that `genId` has yet to
-- return, the response's `headersSent` and the cookies set.
pub record Run : Type 0 where
  pub sid : Text
  pub props : Data
  pub is_new : Bool
  pub destroyed : Bool
  pub initial : Data
  pub store : Store
  pub now : ℕ
  pub ids : ℕ → Text
  pub used : ℕ
  pub headers_sent : Bool
  pub cookies : List CookieEvent

-- `sid` is empty when there is no cookie, and an empty cookie is falsy.
unfoldable pub fetch : ℕ → Text → Store → Store × Option Data
fetch now [] s = (s, none)
fetch now (c ∷ sid) s = get now (c ∷ sid) s

unfoldable pub opened : Options → ℕ → (ℕ → Text) → Text → Store × Option Data → Run
opened o now ids sid (s, some d) = record {
  sid = sid;
  props = d;
  is_new = false;
  destroyed = false;
  initial = d;
  store = s;
  now = now;
  ids = ids;
  used = 0;
  headers_sent = false;
  cookies = if o.rolling then cookie sid ∷ [] else [];
}
opened o now ids sid (s, none) = record {
  sid = ids 0;
  props = [];
  is_new = true;
  destroyed = false;
  initial = [];
  store = s;
  now = now;
  ids = ids;
  used = 1;
  headers_sent = false;
  cookies = cookie (ids 0) ∷ [];
}

-- Up to the call of `next()`.
unfoldable pub start : Options → ℕ → (ℕ → Text) → Text → Store → Run
start o now ids sid s = opened o now ids sid (fetch now sid s)

-- What a handler does: write or delete a property, call a method of the session, or flush the
-- headers; time may pass.
pub data Action : Type 0 where
  write : Text → Text → Action
  erase : Text → Action
  destroys saves touches regenerates flushes : Action
  waits : ℕ → Action

unfoldable pub act : Options → Action → Run → Run
act o (write k v) r = record r { props = insert k v r.props }
act o (erase k) r = record r { props = remove k r.props }
act o destroys r = record r {
  destroyed = true;
  store = destroy r.sid r.store;
  props = [];
  cookies = if r.headers_sent then r.cookies else r.cookies ++ clear_cookie ∷ [];
}
act o saves r = record r { store = set r.now r.sid r.props o.ttl r.store }
act o touches r = record r { store = touch r.now r.sid o.ttl r.store }
act o regenerates r =
    let sid = r.ids r.used in
    record r {
      sid = sid;
      is_new = true;
      used = r.used + 1;
      cookies = if r.headers_sent then r.cookies else r.cookies ++ cookie sid ∷ [];
      store = set r.now sid r.props o.ttl (destroy r.sid r.store);
    }
act o flushes r = record r { headers_sent = true }
act o (waits n) r = record r { now = r.now + n }

unfoldable pub handle : Options → List Action → Run → Run
handle o [] r = r
handle o (a ∷ as') r = handle o as' (act o a r)

-- The texts of `JSON.stringify` differ.
unfoldable pub data_eq : Data → Data → Bool
data_eq [] [] = true
data_eq [] (_ ∷ _) = false
data_eq (_ ∷ _) [] = false
data_eq ((k, v) ∷ d) ((j, w) ∷ e) = text_eq k j && text_eq v w && data_eq d e

-- The `finally` block.
unfoldable pub finish : Options → Run → Store
finish o r =
    let populated = not (length r.props == 0) in
    let changed = not (data_eq r.props r.initial) in
    if r.destroyed
    then r.store
    else if (r.is_new && not populated && not o.save_uninitialized)
        || (not changed && not o.resave && not o.rolling)
    then r.store
    else if changed || o.resave || not o.rolling
    then set r.now r.sid r.props o.ttl r.store
    else touch r.now r.sid o.ttl r.store

-- A whole request: the store behind it.
unfoldable pub request : Options → ℕ → (ℕ → Text) → Text → List Action → Store → Store
request o now ids sid actions s = finish o (handle o actions (start o now ids sid s))
