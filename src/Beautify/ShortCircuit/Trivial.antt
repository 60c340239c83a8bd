-- ===== src/Beautify/ShortCircuit/Trivial.antt =====
-- lib/RestructureCFG/BeautifyGHAST.cpp: `simplifyTrivialShortCircuit`, the visit of the whole GHAST.
-- After a reduction the `if` is visited again, and its branches after that once more, so the recursion
-- is on fuel. `none` is a null pointer that is read, the abort on a comparison, or too little fuel.
use revng_c.Prelude.{ℕ, zero, suc, ◌+◌, Bool, Option, none, some, ◌>>=◌, if◌then◌else◌}
use revng_c.Ghast.Expr.{and_also}
use revng_c.Ghast.Node.{
  RelatedCondition, Node, null, if_node, scs, sequence, switch, Nodes, nil, cons, Cases, no_case,
  case, is_null,
}
use revng_c.Beautify.ShortCircuit.{has_side_effects, if_of, replace}

-- the `if` after the reduction, if there is one, for an `if` with the branches `t` and `e`
unfoldable pub reduce_inner : (ℕ → Bool) → RelatedCondition → Node → Node → Option (Option Node)
unfolding has_side_effects is_null
reduce_inner fx q null e = none
reduce_inner fx q (if_node j bb c w t e') e =
    if is_null e'
    then (has_side_effects fx c >>= λ v.
        some (if v then none else some (if_of (replace q (and_also q.cond_expr c)) t e)))
    else some none
reduce_inner fx q _ e = some none

unfoldable pub reduce_trivial : (ℕ → Bool) → RelatedCondition → Node → Node → Option (Option Node)
unfolding reduce_inner is_null
reduce_trivial fx q t e = if is_null e then reduce_inner fx q t e else some none

abbrev pub when_there : Node → Option Node → Option Node
when_there null o = some null
when_there _ o = o

-- the recursive call after a reduction
abbrev pub again : (Node → Option Node) → Option Node → Node → Option Node
again visit none n = some n
again visit (some n') n = visit n'

-- the branches of the `if`
abbrev pub visit_branches : (Node → Option Node) → Node → Option Node
visit_branches visit (if_node i bb c w t e) =
    when_there t (visit t) >>= λ t'. when_there e (visit e) >>= λ e'. some (if_node i bb c w t' e')
visit_branches visit n = some n

unfoldable pub visit_nodes : (Node → Option Node) → Nodes → Option Nodes
visit_nodes visit nil = some nil
visit_nodes visit (cons n ns) = visit n >>= λ m. visit_nodes visit ns >>= λ ms. some (cons m ms)

unfoldable pub visit_cases : (Node → Option Node) → Cases → Option Cases
visit_cases visit no_case = some no_case
visit_cases visit (case l n cs) = visit n >>= λ m. visit_cases visit cs >>= λ ds. some (case l m ds)

-- a call, where `visit` is the function itself
unfoldable pub visit_node : (ℕ → Bool) → (Node → Option Node) → Node → Option Node
unfolding reduce_trivial visit_nodes visit_cases
visit_node fx visit null = none
visit_node fx visit (sequence i ns) = visit_nodes visit ns >>= λ ms. some (sequence i ms)
visit_node fx visit (scs i t b) = visit b >>= λ b'. some (scs i t b')
visit_node fx visit (switch i g cs) = visit_cases visit cs >>= λ ds. some (switch i g ds)
visit_node fx visit (if_node i bb c w t e) =
    reduce_trivial fx (record { id = i; bb = bb; cond_expr = c; is_weaved = w }) t e >>= λ o.
    again visit o (if_node i bb c w t e) >>= λ n. visit_branches visit n
visit_node fx visit n = some n

unfoldable pub simplify_trivial_short_circuit : (ℕ → Bool) → ℕ → Node → Option Node
unfolding visit_node
simplify_trivial_short_circuit fx zero n = none
simplify_trivial_short_circuit fx (suc f) n = visit_node fx (simplify_trivial_short_circuit fx f) n

-- the number of nodes, which is enough fuel
unfoldable mutual
  pub node_count : Node → ℕ
  node_count null = 0
  node_count (if_node i bb c w t e) = suc (node_count t + node_count e)
  node_count (scs i t b) = suc (node_count b)
  node_count (sequence i ns) = suc (nodes_count ns)
  node_count (switch i g cs) = suc (cases_count cs)
  node_count _ = 1

  pub nodes_count : Nodes → ℕ
  nodes_count nil = 0
  nodes_count (cons n ns) = node_count n + nodes_count ns

  pub cases_count : Cases → ℕ
  cases_count no_case = 0
  cases_count (case l n cs) = node_count n + cases_count cs
