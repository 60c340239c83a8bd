-- ===== src/Clift/Statements.antt =====
-- lib/mlir/Dialect/Clift/IR/CliftOps.cpp: the check of ModuleValidator on the statements of a function.
-- An operation is told apart by what the check asks of it. The condition of a statement has no
-- statements in it and is left out, but for the type of what a `return` returns.
pub mod Placed
pub mod Void
use revng_c.Prelude.{Bool, true, false, ◌&&◌, not, Option, some, none, List, [], ◌∷◌, if◌then◌else◌}
use revng_c.Clift.Types.{ValueType, same_type}
use revng_c.Clift.Kinds.{is_void}

-- ModuleValidator::LoopOrSwitch
pub data LoopOrSwitch : Type 0 where
  loop switch : LoopOrSwitch

mutual
  pub data Op : Type 0 where
    loop_break loop_continue switch_break : Op
    -- with the type of the expression, if there is one
    return_op : Option ValueType → Op
    -- a FunctionOp or a GlobalVariableOp
    module_level : Op
    -- a statement with no statements in it, of no other kind
    simple : Op
    if_op : Ops → Ops → Op
    for_op while_op do_while_op : Ops → Op
    switch_op : Regions → Op

  pub data Ops : Type 0 where
    nil : Ops
    cons : Op → Ops → Ops

  -- the default and the cases of a switch
  pub data Regions : Type 0 where
    no_region : Regions
    region : Ops → Regions → Regions

-- isLoopOrSwitch of each ancestor, from the inside out
abbrev pub Ancestors : Type 0
Ancestors = List (Option LoopOrSwitch)

unfoldable pub is_kind : LoopOrSwitch → LoopOrSwitch → Bool
is_kind loop loop = true
is_kind loop switch = false
is_kind switch loop = false
is_kind switch switch = true

-- hasLoopOrSwitchParent, with Kind and DirectlyNested
unfoldable pub has_parent : LoopOrSwitch → Bool → Ancestors → Bool
unfolding is_kind
has_parent kind directly [] = false
has_parent kind directly (none ∷ parents) = has_parent kind directly parents
has_parent kind directly (some k ∷ parents) =
    let outside = has_parent kind directly parents in
    if is_kind k kind then true else if directly then false else outside

-- the check on a return: the type of its expression against FunctionReturnType
unfoldable pub check_return : ValueType → Option ValueType → Bool
unfolding is_void same_type
check_return return_type none = false
check_return return_type (some t) = if is_void return_type then false else same_type t return_type

-- visitNestedOp at an operation and at all operations below it
unfoldable mutual
  unfolding has_parent check_return

  pub visit_op : ValueType → Ancestors → Op → Bool
  visit_op return_type parents loop_break = has_parent loop true parents
  visit_op return_type parents loop_continue = has_parent loop false parents
  visit_op return_type parents switch_break = has_parent switch true parents
  visit_op return_type parents (return_op t) = check_return return_type t
  visit_op return_type parents module_level = false
  visit_op return_type parents simple = true
  visit_op return_type parents (if_op t e) =
      visit_ops return_type (none ∷ parents) t && visit_ops return_type (none ∷ parents) e
  visit_op return_type parents (for_op b) = visit_ops return_type (some loop ∷ parents) b
  visit_op return_type parents (while_op b) = visit_ops return_type (some loop ∷ parents) b
  visit_op return_type parents (do_while_op b) = visit_ops return_type (some loop ∷ parents) b
  visit_op return_type parents (switch_op rs) = visit_regions return_type (some switch ∷ parents) rs

  pub visit_ops : ValueType → Ancestors → Ops → Bool
  visit_ops return_type parents nil = true
  visit_ops return_type parents (cons o os) =
      visit_op return_type parents o && visit_ops return_type parents os

  pub visit_regions : ValueType → Ancestors → Regions → Bool
  visit_regions return_type parents no_region = true
  visit_regions return_type parents (region os rs) =
      visit_ops return_type parents os && visit_regions return_type parents rs

-- the walk over the body of a function, whose parents are the function and the module
unfoldable pub visit_function : ValueType → Ops → Bool
unfolding visit_ops
visit_function return_type body = visit_ops return_type (none ∷ (none ∷ [])) body
