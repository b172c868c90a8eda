-- ===== src/LinkedList/Nodes.antt =====
-- The functions on nodes.
use qjs_lws.Base.{
  ℕ, zero, suc, Bool, true, false, Option, none, some, List, [], ◌∷◌, ◌==◌, if◌then◌else◌, Outcome,
  returned, thrown, stuck, ◌>>=◌,
}

-- The fields `prev` and `next` of all nodes; a node is a number, and `none` is `null`.
pub record Links : Type 0 where
  pub prev : ℕ → Option ℕ
  pub next : ℕ → Option ℕ

pub data LinkError : Type 0 where
  type_error assertion : LinkError

-- `el.prev = value` and `el.next = value`.
unfoldable pub set_prev : ℕ → Option ℕ → Links → Links
set_prev el value s = record s { prev = λ x. if x == el then value else s.prev x }

unfoldable pub set_next : ℕ → Option ℕ → Links → Links
set_next el value s = record s { next = λ x. if x == el then value else s.next x }

-- A field of `null` is read or written.
unfoldable pub node : Option ℕ → Outcome LinkError ℕ
node none = thrown LinkError.type_error
node (some x) = returned x

unfoldable pub init_list_head : ℕ → Links → Links
init_list_head head s = set_next head (some head) (set_prev head (some head) s)

-- `__list_add`, for `prev` and `next` that are nodes.
unfoldable pub add_between : (el prev next : ℕ) → Links → Links
add_between el prev next s =
    set_prev next (some el)
      (set_next el (some next) (set_prev el (some prev) (set_next prev (some el) s)))

unfoldable pub list_add : (el head : ℕ) → Links → Outcome LinkError Links
list_add el head s = do n ← node (s.next head); returned (add_between el head n s)

unfoldable pub list_add_tail : (el head : ℕ) → Links → Outcome LinkError Links
list_add_tail el head s = do p ← node (s.prev head); returned (add_between el p head s)

-- `list_del`, for an element between nodes.
unfoldable pub del_between : (el prev next : ℕ) → Links → Links
del_between el prev next s =
    set_next el none (set_prev el none (set_next prev (some next) (set_prev next (some prev) s)))

unfoldable pub list_del : ℕ → Links → Outcome LinkError Links
list_del el s = do n ← node (s.next el); p ← node (s.prev el); returned (del_between el p n s)

unfoldable pub is_node : Option ℕ → ℕ → Bool
is_node none x = false
is_node (some y) x = y == x

unfoldable pub list_empty : ℕ → Links → Bool
list_empty head s = is_node (s.next head) head

-- The loop of `__list_reverse`: `p` moves behind the head, up to `last`.
unfoldable pub reverse_loop : (fuel head last p : ℕ) → Links → Outcome LinkError Links
reverse_loop zero head last p s = stuck
reverse_loop (suc fuel) head last p s = elim (s.next p) [
  | none ↦ returned s
  | some q ↦ do
    s' ← list_add p head s
    elim (p == last) [ true ↦ returned s' | false ↦ reverse_loop fuel head last q s' ]
]

unfoldable pub reverse_nodes : (fuel head : ℕ) → Links → Outcome LinkError Links
reverse_nodes fuel head s = do
  first ← node (s.next head)
  last ← node (s.prev head)
  s' ← list_del head s
  reverse_loop fuel head last first (init_list_head head s')

unfoldable pub list_reverse : (fuel head : ℕ) → Links → Outcome LinkError Links
list_reverse fuel head s = if list_empty head s then returned s else reverse_nodes fuel head s

unfoldable pub list_move : (el head : ℕ) → Links → Outcome LinkError Links
list_move el head s = do s' ← list_del el s; list_add el head s'

unfoldable pub list_move_tail : (el head : ℕ) → Links → Outcome LinkError Links
list_move_tail el head s = do s' ← list_del el s; list_add_tail el head s'

-- `list_for_each` from `el` on: the elements in the order of the iteration.
unfoldable pub elements_from : (fuel head : ℕ) → Option ℕ → Links → Outcome LinkError (List ℕ)
elements_from zero head el s = stuck
elements_from (suc fuel) head el s = elim (is_node el head) [
  | true ↦ returned []
  | false ↦ do x ← node el; rest ← elements_from fuel head (s.next x) s; returned (x ∷ rest)
]

unfoldable pub list_for_each : (fuel head : ℕ) → Links → Outcome LinkError (List ℕ)
list_for_each fuel head s = elements_from fuel head (s.next head) s

-- `__list_splice`, for the nodes that it reads: `first` and `last` of the source, `at` behind `dest`.
unfoldable pub splice_nodes : (first last dest at : ℕ) → Links → Links
splice_nodes first last dest at s =
    set_prev at (some last)
      (set_next last (some at) (set_next dest (some first) (set_prev first (some dest) s)))

unfoldable pub list_splice : (src dest : ℕ) → Links → Outcome LinkError Links
list_splice src dest s = if list_empty src s then returned s else do
  first ← node (s.next src)
  last ← node (s.prev src)
  at ← node (s.next dest)
  returned (splice_nodes first last dest at s)

-- `__list_merge`, for nodes.
unfoldable pub merge_nodes : (dprev shead stail dnext : ℕ) → Links → Links
merge_nodes dprev shead stail dnext s =
    set_prev dnext (some stail)
      (set_next stail (some dnext) (set_prev shead (some dprev) (set_next dprev (some shead) s)))

unfoldable pub list_merge : (dest src : ℕ) → Links → Outcome LinkError Links
list_merge dest src s = if list_empty src s then returned s else do
  first ← node (s.next src)
  last ← node (s.prev src)
  at ← node (s.next dest)
  returned (merge_nodes dest first last at s)
