-- ===== src/Clift/Statements/Void.antt =====
-- A function that returns nothing cannot have a `return`.
use revng_c.Prelude.{Bool, true, false, Option, ◌≡◌, Bool-cases, inl, inr}
use revng_c.Clift.Types.{ValueType}
use revng_c.Clift.Kinds.{is_void}
use revng_c.Clift.Statements.{
  LoopOrSwitch, Op, return_op, if_op, for_op, while_op, do_while_op, switch_op, Ops, cons, Regions,
  region, visit_function,
}
use revng_c.Clift.Statements.Placed.{
  Placed, returns, in_if, in_for, in_while, in_do_while, in_switch, AllPlaced, first, EachPlaced,
  one, visit_function_iff,
}

-- a `return`, with an expression or without, somewhere among the statements
mutual
  pub data Returns : Op → Type 0 where
    itself : {t : Option ValueType} → Returns (return_op t)
    in_then : {x y : Ops} → SomeReturns x → Returns (if_op x y)
    in_else : {x y : Ops} → SomeReturns y → Returns (if_op x y)
    of_for : {x : Ops} → SomeReturns x → Returns (for_op x)
    of_while : {x : Ops} → SomeReturns x → Returns (while_op x)
    of_do_while : {x : Ops} → SomeReturns x → Returns (do_while_op x)
    of_switch : {rs : Regions} → CaseReturns rs → Returns (switch_op rs)

  pub data SomeReturns : Ops → Type 0 where
    at : {o : Op} {os : Ops} → Returns o → SomeReturns (cons o os)
    after : {o : Op} {os : Ops} → SomeReturns os → SomeReturns (cons o os)

  pub data CaseReturns : Regions → Type 0 where
    at_case : {os : Ops} {rs : Regions} → SomeReturns os → CaseReturns (region os rs)
    after_case : {os : Ops} {rs : Regions} → CaseReturns rs → CaseReturns (region os rs)

module _ (r : ValueType) (v : is_void r ≡ true) where
  mutual
    refute : {t : Option LoopOrSwitch} {b : Bool} {o : Op} → Returns o → Placed r t b o → ⊥
    refute itself (returns p q) = cc
    refute (in_then x) (in_if p q) = refute_all x p
    refute (in_else x) (in_if p q) = refute_all x q
    refute (of_for x) (in_for p) = refute_all x p
    refute (of_while x) (in_while p) = refute_all x p
    refute (of_do_while x) (in_do_while p) = refute_all x p
    refute (of_switch x) (in_switch p) = refute_cases x p

    refute_all :
        {t : Option LoopOrSwitch} {b : Bool} {os : Ops} → SomeReturns os → AllPlaced r t b os → ⊥
    refute_all (at x) (first p q) = refute x p
    refute_all (after x) (first p q) = refute_all x q

    refute_cases :
        {t : Option LoopOrSwitch} {b : Bool} {rs : Regions}
        → CaseReturns rs
        → EachPlaced r t b rs
        → ⊥
    refute_cases (at_case x) (one p q) = refute_all x p
    refute_cases (after_case x) (one p q) = refute_cases x q

-- The validator refuses every function that returns void and has a `return` anywhere in it, with an
-- expression or without.
pub visit_function-void :
    (r : ValueType) (body : Ops)
    → is_void r ≡ true
    → SomeReturns body
    → visit_function r body ≡ false
visit_function-void r body v s = elim (Bool-cases (visit_function r body)) [
  | inl e ↦ absurd (refute_all r v s ((visit_function_iff r body).0 e))
  | inr e ↦ e
]
