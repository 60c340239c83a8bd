-- ===== src/Ghast/Identity.antt =====
-- include/revng-c/RestructureCFG/ASTNode.h: the identity of a node, which stands for its address.
use revng_c.Prelude.{ℕ}
use revng_c.Ghast.Node.{
  Node, null, code, break, continue, if_node, scs, sequence, switch, switch_break, set,
}

unfoldable pub node_id : Node → ℕ
node_id null = 0
node_id (code i _ _) = i
node_id (break i _) = i
node_id (continue i _ _) = i
node_id (if_node i _ _ _ _ _) = i
node_id (scs i _ _) = i
node_id (sequence i _) = i
node_id (switch i _ _) = i
node_id (switch_break i _) = i
node_id (set i _ _) = i
