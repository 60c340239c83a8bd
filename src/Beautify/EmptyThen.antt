-- ===== src/Beautify/EmptyThen.antt =====
-- lib/RestructureCFG/ASTNodeUtils.cpp: `flipEmptyThen`, which negates an `if` without a `then`
-- branch. The source does not come to a null pointer where the GHAST is well-formed; elsewhere the
-- value at `null` stands for a run that the source does not define.
pub mod Preserves
use revng_c.Ghast.Expr.{Expr, negated}
use revng_c.Ghast.Node.{
  Node, null, if_node, scs, sequence, switch, Nodes, nil, cons, Cases, no_case, case,
}

unfoldable mutual
  pub flip_empty_then : Node → Node
  flip_empty_then (sequence i ns) = sequence i (flip_nodes ns)
  flip_empty_then (if_node i bb c w null e) = if_node i bb (negated c) w (flip_empty_then e) null
  flip_empty_then (if_node i bb c w t e) = if_node i bb c w (flip_empty_then t) (flip_empty_then e)
  flip_empty_then (scs i t b) = scs i t (flip_empty_then b)
  flip_empty_then (switch i f cs) = switch i f (flip_cases cs)
  flip_empty_then n = n

  pub flip_nodes : Nodes → Nodes
  flip_nodes nil = nil
  flip_nodes (cons n ns) = cons (flip_empty_then n) (flip_nodes ns)

  pub flip_cases : Cases → Cases
  flip_cases no_case = no_case
  flip_cases (case l n cs) = case l (flip_empty_then n) (flip_cases cs)
