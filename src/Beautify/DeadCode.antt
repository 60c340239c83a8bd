-- ===== src/Beautify/DeadCode.antt =====
-- lib/RestructureCFG/RemoveDeadCode.cpp: `removeDeadCode`, which drops the children of a sequence
-- after one that does not fall through.
--
-- `none` is a failed assertion or a node that the map has no entry for. The pass never returns a
-- null pointer for a node, so the cases that it would remove for that reason do not arise.
pub mod Preserves
pub mod Succeeds
use revng_c.Prelude.{ℕ, Bool, true, false, Option, none, some, List, ◌>>=◌}
use revng_c.Ghast.Node.{
  Node, null, code, break, continue, if_node, scs, sequence, switch, switch_break, set, Nodes, nil,
  cons, Cases, no_case, case, is_null,
}
use revng_c.Ghast.Identity.{node_id}
use revng_c.Semantics.{Last}
use revng_c.Beautify.FallThrough.{
  ScopeType, Binary, ScopeMap, at, falls_through, compute_fall_through_scope,
}

-- revng_assert(not Seq->empty())
abbrev pub assert_not_empty : Nodes → Option Nodes
assert_not_empty nil = none
assert_not_empty (cons n ns) = some (cons n ns)

-- what is kept after a child: everything, as processed, or nothing
abbrev pub keep_after : Bool → Option Nodes → Option Nodes
keep_after true rest = rest
keep_after false rest = some nil

-- a branch or a body, which may be absent
abbrev pub if_present : Node → Option Node → Option Node
if_present null r = some null
if_present n r = r

abbrev pub keep_case : List ℕ → Node → Cases → Cases
keep_case l null cs = cs
keep_case l n cs = case l n cs

unfoldable mutual
  unfolding node_id at falls_through

  -- `removeDeadCodeImpl`
  pub remove_dead_code_impl : ScopeMap → Node → Option Node
  remove_dead_code_impl mp (sequence i ns) =
      remove_in_nodes mp ns >>= assert_not_empty >>= λ r. some (sequence i r)
  remove_dead_code_impl mp (scs i t b) =
      if_present b (remove_dead_code_impl mp b) >>= λ b'. some (scs i t b')
  remove_dead_code_impl mp (if_node i bb c w t e) =
      if_present t (remove_dead_code_impl mp t) >>= λ t'.
      if_present e (remove_dead_code_impl mp e) >>= λ e'. some (if_node i bb c w t' e')
  remove_dead_code_impl mp (switch i f cs) = remove_in_cases mp cs >>= λ r. some (switch i f r)
  remove_dead_code_impl mp null = none
  remove_dead_code_impl mp n = some n

  pub remove_in_nodes : ScopeMap → Nodes → Option Nodes
  remove_in_nodes mp nil = some nil
  remove_in_nodes mp (cons n ns) =
      let rest = remove_in_nodes mp ns in
      remove_dead_code_impl mp n >>= λ n'.
      at mp (node_id n') >>= λ t. keep_after (falls_through t) rest >>= λ r. some (cons n' r)

  pub remove_in_cases : ScopeMap → Cases → Option Cases
  remove_in_cases mp no_case = some no_case
  remove_in_cases mp (case l n cs) =
      remove_dead_code_impl mp n >>= λ n'. remove_in_cases mp cs >>= λ r. some (keep_case l n' r)

-- `removeDeadCode`
unfoldable pub remove_dead_code : Binary → (ℕ → Last) → Node → Option Node
unfolding remove_dead_code_impl compute_fall_through_scope
remove_dead_code b last root =
    compute_fall_through_scope b last root >>= λ mp. remove_dead_code_impl mp root
