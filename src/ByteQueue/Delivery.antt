-- ===== src/ByteQueue/Delivery.antt =====
-- No byte is lost, doubled or moved, and what is owed is delivered at once.
use qjs_lws.Base.{
  ℕ, ◌<◌, ◌≡◌, refl, ap, ◌∙◌, sym, true, false, Option, none, some, List, [], ◌∷◌, ◌++◌, length,
  take, take-append-drop, append-nil, append_assoc, arith,
}
use qjs_lws.ByteQueue.{
  ByteQueue, Waiting, Delivery, check, check_waiting, feed, close, read, Call, feeds, closes, reads,
  step, run,
}

-- The bytes that were delivered, in order.
abbrev pub delivered : List Delivery → List ℕ
delivered [] = []
delivered ((p, none) ∷ ds) = delivered ds
delivered ((p, some bytes) ∷ ds) = bytes ++ delivered ds

abbrev pub fed : List Call → List ℕ
fed [] = []
fed (feeds chunk ∷ cs) = chunk ++ fed cs
fed (closes ∷ cs) = fed cs
fed (reads n p ∷ cs) = fed cs

delivered-append : (xs ys : List Delivery) → delivered (xs ++ ys) ≡ delivered xs ++ delivered ys
delivered-append [] ys = refl
delivered-append ((p, none) ∷ xs) ys = delivered-append xs ys
delivered-append ((p, some bytes) ∷ xs) ys =
    ap (λ t. bytes ++ t) (delivered-append xs ys)
    ∙ sym (append_assoc bytes (delivered xs) (delivered ys))

check_waiting-bytes :
    (o : Option Waiting) (q : ByteQueue)
    → delivered (check_waiting o q).1 ++ (check_waiting o q).0.buf ≡ q.buf
unfolding check_waiting
check_waiting-bytes none q = refl
check_waiting-bytes (some w) q =
    ground (arith, take-append-drop w.n q.buf, append-nil (take w.n q.buf))

check-bytes : (q : ByteQueue) → delivered (check q).1 ++ (check q).0.buf ≡ q.buf
unfolding check
check-bytes q = check_waiting-bytes q.waiting q

step-bytes :
    (c : Call) (q : ByteQueue) → delivered (step c q).1 ++ (step c q).0.buf ≡ q.buf ++ fed (c ∷ [])
unfolding step feed close read
step-bytes (feeds chunk) q =
    check-bytes (record q { buf = q.buf ++ chunk }) ∙ ap (λ t. q.buf ++ t) (sym (append-nil chunk))
step-bytes closes q = check-bytes (record q { closed = true }) ∙ sym (append-nil q.buf)
step-bytes (reads n p) q =
    check-bytes (record q { waiting = some (record { n = n; promise = p }) })
    ∙ sym (append-nil q.buf)

fed-cons : (c : Call) (cs : List Call) → fed (c ∷ cs) ≡ fed (c ∷ []) ++ fed cs
fed-cons (feeds chunk) cs = ap (λ t. t ++ fed cs) (sym (append-nil chunk))
fed-cons closes cs = refl
fed-cons (reads n p) cs = refl

-- Over any sequence of calls, the bytes delivered followed by the bytes left are the bytes that were
-- there followed by the bytes fed, in order.
pub run-bytes :
    (cs : List Call) (q : ByteQueue) → delivered (run cs q).1 ++ (run cs q).0.buf ≡ q.buf ++ fed cs
unfolding run
run-bytes [] q = sym (append-nil q.buf)
run-bytes (c ∷ cs) q =
    let now = (step c q).1 in
    let q' = (step c q).0 in
    let later = (run cs q').1 in
    let end = (run cs q').0 in
    ap (λ t. t ++ end.buf) (delivered-append now later)
    ∙ append_assoc (delivered now) (delivered later) end.buf
    ∙ ap (λ t. delivered now ++ t) (run-bytes cs q')
    ∙ sym (append_assoc (delivered now) q'.buf (fed cs))
    ∙ ap (λ t. t ++ fed cs) (step-bytes c q)
    ∙ append_assoc q.buf (fed (c ∷ [])) (fed cs)
    ∙ ap (λ t. q.buf ++ t) (sym (fed-cons c cs))

-- A waiting read is neither satisfied by the buffer nor ended by a close.
abbrev pub Settled : Option Waiting → ByteQueue → Type 0
Settled none q = Unit {0}
Settled (some w) q = (length q.buf < w.n) × (q.closed ≡ false)
