-- ===== src/Ghast/Expr.antt =====
-- include/revng-c/RestructureCFG/ExprNode.h: the conditions of the GHAST.
-- A basic block is a number. The subclass of a `CompareNode` is what it compares: the value that a
-- block computes, or the loop state variable.
use revng_c.Prelude.{ℕ}

-- CompareNode::ComparisonKind
pub data ComparisonKind : Type 0 where
  equal not_equal not_present : ComparisonKind

-- ValueCompareNode and LoopStateCompareNode
pub data Lhs : Type 0 where
  block_value : ℕ → Lhs
  loop_state : Lhs

pub data Expr : Type 0 where
  compare : Lhs → ComparisonKind → ℕ → Expr
  atomic : ℕ → Expr
  negated : Expr → Expr
  and_also or_else : Expr → Expr → Expr

-- CompareNode::flipComparison, on the kind and the constant
unfoldable pub flip_comparison : ComparisonKind → ℕ → ComparisonKind × ℕ
flip_comparison equal c = (not_equal, c)
flip_comparison not_equal c = (equal, c)
flip_comparison not_present c = (equal, 0)
