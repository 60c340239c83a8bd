-- ===== src/Ghast/Node.antt =====
-- include/revng-c/RestructureCFG/ASTNode.h: the statements of the GHAST.
-- Each node carries its identity, which stands for its address. `null` is the null pointer, so an
-- absent `then`, `else` or body is `null`. Basic blocks, LLVM values and labels are numbers.
use revng_c.Prelude.{ℕ, suc, Bool, true, false, Option, List, [], ◌∷◌, if◌then◌else◌}
use revng_c.Ghast.Expr.{Expr}

-- ASTNode::DispatcherKind
pub data DispatcherKind : Type 0 where
  not_a_dispatcher entry exit : DispatcherKind

-- What the passes read of the `IfNode` that a promoted loop refers to.
pub record RelatedCondition : Type 0 where
  pub id : ℕ
  pub bb : Option ℕ
  pub cond_expr : Expr
  pub is_weaved : Bool

-- ScsNode::Type, with ScsNode::RelatedCondition where the type has one
pub data LoopType : Type 0 where
  while_true : LoopType
  while do_while : RelatedCondition → LoopType

-- The fields of a SwitchNode, but for its cases
pub record SwitchFields : Type 0 where
  pub bb : Option ℕ
  pub condition : Option ℕ
  pub is_weaved : Bool
  pub need_state_variable : Bool
  pub need_loop_break_dispatcher : Bool
  pub dispatcher_kind : DispatcherKind

mutual
  pub data Node : Type 0 where
    null : Node
    -- identity, block, ImplicitReturn
    code : ℕ → Option ℕ → Bool → Node
    -- identity, BreakFromWithinSwitch
    break : ℕ → Bool → Node
    -- identity, ComputationIf, IsImplicit
    continue : ℕ → Option ℕ → Bool → Node
    -- identity, block, condition, IsWeaved, then, else
    if_node : ℕ → Option ℕ → Expr → Bool → Node → Node → Node
    scs : ℕ → LoopType → Node → Node
    sequence : ℕ → Nodes → Node
    switch : ℕ → SwitchFields → Cases → Node
    -- identity, ParentSwitch
    switch_break : ℕ → Option ℕ → Node
    -- identity, StateVariableValue
    set : ℕ → ℕ → DispatcherKind → Node

  pub data Nodes : Type 0 where
    nil : Nodes
    cons : Node → Nodes → Nodes

  -- LabelCaseVec: an empty label set is the `default`
  pub data Cases : Type 0 where
    no_case : Cases
    case : List ℕ → Node → Cases → Cases

unfoldable pub is_null : Node → Bool
is_null null = true
is_null _ = false

-- std::vector<ASTNode *>::insert at the position of an erased child
unfoldable pub append_nodes : Nodes → Nodes → Nodes
append_nodes nil ys = ys
append_nodes (cons x xs) ys = cons x (append_nodes xs ys)

unfoldable pub length_nodes : Nodes → ℕ
length_nodes nil = 0
length_nodes (cons x xs) = suc (length_nodes xs)

-- SwitchNode::getDefault: the body under an empty label set, `null` if there is none.
-- The source asserts that there is at most one such case.
unfoldable pub get_default : Cases → Node
get_default no_case = null
get_default (case [] n cs) = n
get_default (case (l ∷ ls) n cs) = get_default cs

-- SwitchNode::hasDefault
unfoldable pub has_default : Cases → Bool
unfolding is_null get_default
has_default cs = if is_null (get_default cs) then false else true
