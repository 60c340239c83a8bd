-- ===== src/Ghast/Equality.antt =====
-- lib/RestructureCFG/ASTNode.cpp and ASTNode.h: `ASTNode::isEqual`, by which the short-circuit
-- reduction finds duplicate branches.
--
-- At a null pointer, where the source does not call it, the value stands for a run that the source
-- does not define. The label sets of two cases are equal if each has the elements of the other.
pub mod Sound
use revng_c.Prelude.{
  ℕ, suc, Bool, true, false, ◌&&◌, ◌==◌, Option, none, some, List, [], ◌∷◌, if◌then◌else◌,
}
use revng_c.Ghast.Node.{
  Node, null, code, break, continue, if_node, scs, sequence, switch, switch_break, set, Nodes, nil,
  cons, Cases, no_case, case, is_null, length_nodes,
}
use revng_c.Semantics.{is_in}

-- pointers to blocks, none of them null
abbrev pub same_block : Option ℕ → Option ℕ → Bool
same_block (some a) (some b) = a == b
same_block _ _ = false

-- pointers to blocks
abbrev pub block_eq : Option ℕ → Option ℕ → Bool
block_eq none none = true
block_eq (some a) (some b) = a == b
block_eq _ _ = false

abbrev pub all_in : List ℕ → List ℕ → Bool
all_in [] ks = true
all_in (l ∷ ls) ks = is_in l ks && all_in ls ks

abbrev pub labels_eq : List ℕ → List ℕ → Bool
labels_eq ls ks = all_in ls ks && all_in ks ls

abbrev pub length_cases : Cases → ℕ
length_cases no_case = 0
length_cases (case l n cs) = suc (length_cases cs)

-- ComparisonState of an `if`: the verdict on the `else` branches replaces that on the `then` ones.
abbrev pub comparison_state : Bool → Bool → Bool → Bool → Bool
comparison_state no_then no_else then_equal else_equal =
    let state = if no_then then true else then_equal in if no_else then state else else_equal

unfoldable mutual
  unfolding is_null length_nodes

  pub is_equal : Node → Node → Bool
  is_equal (switch i f cs) (switch j g ds) =
      block_eq f.bb g.bb && ((length_cases cs == length_cases ds) && cases_equal cs ds)
  is_equal (code i bb x) (code j bb' y) = same_block bb bb'
  is_equal (if_node i bb c w t e) (if_node j bb' c' w' t' e') =
      same_block bb bb' && comparison_state (is_null t) (is_null e) (is_equal t t') (is_equal e e')
  is_equal (scs i t b) (scs j t' b') = is_equal b b'
  is_equal (set i v k) (set j v' k') = v == v'
  is_equal (sequence i ns) (sequence j ms) =
      (length_nodes ns == length_nodes ms) && nodes_equal ns ms
  is_equal (break i w) (break j w') = true
  is_equal (continue i c x) (continue j c' y) = true
  is_equal (switch_break i p) (switch_break j p') = true
  is_equal _ _ = false

  pub nodes_equal : Nodes → Nodes → Bool
  nodes_equal nil ms = true
  nodes_equal (cons n ns) nil = false
  nodes_equal (cons n ns) (cons k ms) = is_equal n k && nodes_equal ns ms

  pub cases_equal : Cases → Cases → Bool
  cases_equal no_case ds = true
  cases_equal (case l n cs) no_case = false
  cases_equal (case l n cs) (case k d ds) = labels_eq l k && (is_equal n d && cases_equal cs ds)
