-- ===== src/Beautify/LoopVariable.antt =====
-- lib/RestructureCFG/ASTNodeUtils.cpp: `needsLoopVar`, whether a GHAST uses the loop state variable.
pub mod Exact
use revng_c.Prelude.{Bool, true, false, ◌||◌, is_none}
use revng_c.Ghast.Node.{
  Node, null, code, break, continue, if_node, scs, sequence, switch, switch_break, set, Nodes, nil,
  cons, Cases, no_case, case,
}

mutual
  pub needs_loop_var : Node → Bool
  needs_loop_var (if_node i bb c w t e) = needs_loop_var t || needs_loop_var e
  needs_loop_var (scs i t b) = needs_loop_var b
  needs_loop_var (sequence i ns) = needs_in_nodes ns
  needs_loop_var (switch i f cs) = is_none f.condition || needs_in_cases cs
  needs_loop_var (set i v k) = true
  needs_loop_var n = false

  pub needs_in_nodes : Nodes → Bool
  needs_in_nodes nil = false
  needs_in_nodes (cons n ns) = needs_loop_var n || needs_in_nodes ns

  pub needs_in_cases : Cases → Bool
  needs_in_cases no_case = false
  needs_in_cases (case l n cs) = needs_loop_var n || needs_in_cases cs
