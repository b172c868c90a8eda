-- ===== src/Tests/LinkedList.antt =====
-- Runs of the linked list.
use qjs_lws.Base.{ℕ, ◌≡◌, refl, ◌++◌, List, [], ◌∷◌, none, arith}
use qjs_lws.LinkedList.Nodes.{
  Links, init_list_head, add_between, list_reverse, list_splice, list_merge, set_prev, set_next,
}
use qjs_lws.LinkedList.Ring.{Ring, Gives}
use qjs_lws.LinkedList.Splice.{list_splice-Ring}
use qjs_lws.LinkedList.Reverse.{reverse_onto, list_reverse-Ring}
use qjs_lws.LinkedList.Class.{new_list}
use qjs_lws.LinkedList.Spec.{
  Call, call_push_front, call_append, call_prepend, call_pop_back, call_pop_front, call_reverse,
  call_values, call_back, step, spec_step, answers,
}
use qjs_lws.LinkedList.Answers.{answers-step}

abbrev calls_example : List (Call ℕ)
calls_example =
    call_pop_front
    ∷ call_append (1 ∷ 2 ∷ 3 ∷ [])
    ∷ call_prepend (7 ∷ 8 ∷ [])
    ∷ call_reverse
    ∷ call_pop_back
    ∷ call_push_front 9
    ∷ call_values
    ∷ call_back
    ∷ []

answers-step_example : answers step calls_example new_list ≡ answers spec_step calls_example []
answers-step_example = answers-step calls_example

-- The head 0 with the nodes 1 and 2.
abbrev two_nodes : Links
two_nodes =
    add_between 2 1 0
      (add_between 1 0 0 (init_list_head 0 (record { prev = λ x. none; next = λ x. none })))

two_nodes-Ring : Ring two_nodes 0 (1 ∷ 2 ∷ [])
unfolding add_between init_list_head set_prev set_next
two_nodes-Ring = record {
  linked = (refl, refl, (refl, refl, (refl, refl)));
  distinct = ((λ q. ground arith, (λ q. ground arith, tt)), ((λ q. ground arith, tt), (tt, tt)));
}

list_reverse-Ring_example : Gives 0 (reverse_onto (1 ∷ 2 ∷ []) []) (list_reverse 2 0 two_nodes)
list_reverse-Ring_example =
    list_reverse-Ring (1 ∷ 2 ∷ []) 2 two_nodes 0 two_nodes-Ring (omega arith)

-- The head 3 with the node 4, beside the other ring.
abbrev two_rings : Links
two_rings = add_between 4 3 3 (init_list_head 3 two_nodes)

two_rings-Ring : Ring two_rings 0 (1 ∷ 2 ∷ []) × Ring two_rings 3 (4 ∷ [])
unfolding add_between init_list_head set_prev set_next
two_rings-Ring = (
  record {
    linked = (refl, refl, (refl, refl, (refl, refl)));
    distinct = ((λ q. ground arith, (λ q. ground arith, tt)), ((λ q. ground arith, tt), (tt, tt)));
  },
  record { linked = (refl, refl, (refl, refl)); distinct = ((λ q. ground arith, tt), (tt, tt)) },
)

list_splice-Ring_example :
    Gives 3 ((1 ∷ 2 ∷ []) ++ 4 ∷ []) (list_splice 0 3 two_rings)
    × Gives 3 ((1 ∷ 2 ∷ []) ++ 4 ∷ []) (list_merge 3 0 two_rings)
list_splice-Ring_example =
    list_splice-Ring (1 ∷ 2 ∷ []) (4 ∷ []) 0 3 two_rings two_rings-Ring.0 two_rings-Ring.1 (
      (λ q. ground arith, (λ q. ground arith, tt)),
      ((λ q. ground arith, (λ q. ground arith, tt)), tt),
    )
