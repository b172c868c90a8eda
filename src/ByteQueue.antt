-- ===== src/ByteQueue.antt =====
-- lib/lws/byte-queue.js: pushed chunks are read in pieces of a wanted size. A promise is a number
-- given by the caller of `read`; what resolves it is returned in a list of deliveries.
pub mod Delivery
use qjs_lws.Base.{
  ℕ, Bool, true, false, Option, none, some, List, [], ◌∷◌, ◌++◌, leb, length, take, drop,
  if◌then◌else◌,
}

pub record Waiting : Type 0 where
  pub n : ℕ
  pub promise : ℕ

pub record ByteQueue : Type 0 where
  pub buf : List ℕ
  pub closed : Bool
  pub waiting : Option Waiting

-- A promise and the bytes that it is resolved with; `none` is `null`.
abbrev pub Delivery : Type 0
Delivery = ℕ × Option (List ℕ)

abbrev pub empty : ByteQueue
empty = record { buf = []; closed = false; waiting = none }

-- `#check`.
pub check_waiting : Option Waiting → ByteQueue → ByteQueue × List Delivery
check_waiting none q = (q, [])
check_waiting (some w) q =
    if leb w.n (length q.buf)
    then (
      record q { buf = drop w.n q.buf; waiting = none },
      (w.promise, some (take w.n q.buf)) ∷ [],
    )
    else if q.closed
    then (record q { waiting = none }, (w.promise, none) ∷ [])
    else (q, [])

pub check : ByteQueue → ByteQueue × List Delivery
check q = check_waiting q.waiting q

pub feed : List ℕ → ByteQueue → ByteQueue × List Delivery
feed chunk q = check (record q { buf = q.buf ++ chunk })

pub close : ByteQueue → ByteQueue × List Delivery
close q = check (record q { closed = true })

-- A read replaces the one that waits, whose promise is dropped.
pub read : ℕ → ℕ → ByteQueue → ByteQueue × List Delivery
read n promise q = check (record q { waiting = some (record { n = n; promise = promise }) })

-- The calls of the clients, in the order in which they run.
pub data Call : Type 0 where
  feeds : List ℕ → Call
  closes : Call
  reads : (n promise : ℕ) → Call

pub step : Call → ByteQueue → ByteQueue × List Delivery
step (feeds chunk) q = feed chunk q
step closes q = close q
step (reads n promise) q = read n promise q

pub run : List Call → ByteQueue → ByteQueue × List Delivery
run [] q = (q, [])
run (c ∷ cs) q = let (q', now) = step c q in let (end, later) = run cs q' in (end, now ++ later)
