-- ===== src/Beautify/ImplicitStatement.antt =====
-- lib/RestructureCFG/SimplifyImplicitStatement.cpp: a `continue` at the end of a loop's body, or a
-- `return` of a void function at its end, is marked so that it is not printed.
--
-- `simplify` is `simplifyImplicitStatementImpl`: it takes whether nothing follows, and returns the
-- marked GHAST and whether that is taken to be empty. `last` is the last instruction of a block.
mod Absorb
pub mod Steps
mod Parts
mod Sound
pub mod Continue
pub mod Return
pub mod Bugs
use revng_c.Prelude.{ℕ, Bool, true, false, ◌&&◌, Option, none, some, if◌then◌else◌}
use revng_c.Ghast.Node.{
  Node, null, code, break, continue, if_node, scs, sequence, switch, switch_break, set, Nodes, nil,
  cons, Cases, no_case, case,
}
use revng_c.Semantics.{Last, return_value, return_void, unreachable, branch}

pub data StatementType : Type 0 where
  st_continue st_return : StatementType

pub is_return_void : Last → Bool
is_return_void return_void = true
is_return_void _ = false

-- case NK_Continue
pub simplify_continue : StatementType → ℕ → Option ℕ → Bool → Bool → Node × Bool
simplify_continue st_continue i c implicit true = (continue i c true, true)
simplify_continue st_continue i c implicit false = (continue i c implicit, false)
simplify_continue st_return i c implicit empty = (continue i c implicit, false)

-- case NK_Code; the source asserts that there is a block
pub simplify_code : StatementType → (ℕ → Last) → ℕ → Option ℕ → Bool → Bool → Node × Bool
unfolding is_return_void
simplify_code st_return last i (some bb) implicit true =
    if is_return_void (last bb)
    then (code i (some bb) true, true)
    else (code i (some bb) implicit, false)
simplify_code st last i bb implicit empty = (code i bb implicit, false)

-- An absent branch of an `if` is not visited, and is empty.
pub visit_branch : Node → Node × Bool → Node × Bool
visit_branch null r = (null, true)
visit_branch n r = r

-- The children of a sequence are visited from the last one on, until one is not empty.
pub visit_child : Node → Node × Bool → Nodes × Bool → Nodes × Bool
visit_child n r (ns, true) = (cons r.0 ns, r.1)
visit_child n r (ns, false) = (cons n ns, false)

-- The cases of a `switch` are visited from the first one on, until one is not empty.
pub visit_case : Bool → Node → Node × Bool → Node × Bool
visit_case true n r = r
visit_case false n r = (n, false)

-- A loop without a body is not empty: the value at `null` says so.
mutual
  unfolding simplify_continue simplify_code visit_branch visit_child visit_case

  pub simplify : StatementType → (ℕ → Last) → Node → Bool → Node × Bool
  simplify st last (sequence i ns) empty =
      let r = simplify_nodes st last ns empty in (sequence i r.0, r.1)
  simplify st last (scs i t b) empty = let r = simplify st last b empty in (scs i t r.0, r.1)
  simplify st last (if_node i bb c w t e) empty =
      let r_else = visit_branch e (simplify st last e empty) in
      let r_then = visit_branch t (simplify st last t empty) in
      (if_node i bb c w r_then.0 r_else.0, r_else.1 && r_then.1)
  simplify st last (switch i f cs) empty =
      let r = simplify_cases st last cs empty true in (switch i f r.0, r.1)
  simplify st last (continue i c implicit) empty = simplify_continue st i c implicit empty
  simplify st last (code i bb implicit) empty = simplify_code st last i bb implicit empty
  simplify st last n empty = (n, false)

  pub simplify_nodes : StatementType → (ℕ → Last) → Nodes → Bool → Nodes × Bool
  simplify_nodes st last nil empty = (nil, empty)
  simplify_nodes st last (cons n ns) empty =
      visit_child n (simplify st last n true) (simplify_nodes st last ns empty)

  pub simplify_cases : StatementType → (ℕ → Last) → Cases → Bool → Bool → Cases × Bool
  simplify_cases st last no_case empty so_far = (no_case, so_far)
  simplify_cases st last (case l n cs) empty so_far =
      let r = visit_case so_far n (simplify st last n empty) in
      let rs = simplify_cases st last cs empty r.1 in (case l r.0 rs.0, rs.1)

-- `simplifyImplicitContinue`: each loop's body is visited with nothing after it. The source goes
-- through the loops in the order of their creation; the marks that a visit sets do not depend on
-- the marks that others set, so the order is of no consequence.
unfoldable mutual
  unfolding simplify

  pub simplify_implicit_continue : (ℕ → Last) → Node → Node
  simplify_implicit_continue last (scs i t b) =
      scs i t (simplify st_continue last (simplify_implicit_continue last b) true).0
  simplify_implicit_continue last (sequence i ns) = sequence i (continue_nodes last ns)
  simplify_implicit_continue last (if_node i bb c w t e) =
      if_node i bb c w (simplify_implicit_continue last t) (simplify_implicit_continue last e)
  simplify_implicit_continue last (switch i f cs) = switch i f (continue_cases last cs)
  simplify_implicit_continue last n = n

  pub continue_nodes : (ℕ → Last) → Nodes → Nodes
  continue_nodes last nil = nil
  continue_nodes last (cons n ns) =
      cons (simplify_implicit_continue last n) (continue_nodes last ns)

  pub continue_cases : (ℕ → Last) → Cases → Cases
  continue_cases last no_case = no_case
  continue_cases last (case l n cs) =
      case l (simplify_implicit_continue last n) (continue_cases last cs)

-- `simplifyImplicitReturn`
pub simplify_implicit_return : (ℕ → Last) → Node → Node
unfolding simplify
simplify_implicit_return last n = (simplify st_return last n true).0
