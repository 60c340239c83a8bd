-- ===== src/Beautify/CompareNode.antt =====
-- lib/RestructureCFG/SimplifyCompareNode.cpp: `simplifyCompareNode`.
pub mod Preserves
use revng_c.Prelude.{zero, suc}
use revng_c.Ghast.Expr.{
  equal, not_equal, not_present, Expr, compare, atomic, negated, and_also, or_else, flip_comparison,
}
use revng_c.Ghast.Node.{
  Node, null, code, break, continue, if_node, scs, sequence, switch, switch_break, set, Nodes, nil,
  cons, Cases, no_case, case,
}

-- A negated comparison becomes the flipped comparison.
pub strip_not : Expr → Expr
unfolding flip_comparison
strip_not (negated (compare l k c)) = let r = flip_comparison k c in compare l r.0 r.1
strip_not e = e

-- A comparison with 0 is printed as its left side alone.
pub compare_with_zero : Expr → Expr
compare_with_zero (compare l equal zero) = negated (compare l not_present 0)
compare_with_zero (compare l not_equal zero) = compare l not_present 0
compare_with_zero e = e

mutual
  pub simplify_compare_node : Node → Node
  simplify_compare_node (sequence i ns) = sequence i (simplify_nodes ns)
  simplify_compare_node (scs i t b) = scs i t (simplify_compare_node b)
  simplify_compare_node (if_node i bb c w t e) =
      if_node i bb (compare_with_zero (strip_not c)) w (simplify_compare_node t)
        (simplify_compare_node e)
  simplify_compare_node (switch i f cs) = switch i f (simplify_cases cs)
  simplify_compare_node n = n

  pub simplify_nodes : Nodes → Nodes
  simplify_nodes nil = nil
  simplify_nodes (cons n ns) = cons (simplify_compare_node n) (simplify_nodes ns)

  pub simplify_cases : Cases → Cases
  simplify_cases no_case = no_case
  simplify_cases (case l n cs) = case l (simplify_compare_node n) (simplify_cases cs)
