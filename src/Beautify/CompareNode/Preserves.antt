-- ===== src/Beautify/CompareNode/Preserves.antt =====
-- `simplifyCompareNode` (SimplifyCompareNode.cpp): the GHAST before and after it.
use revng_c.Prelude.{ℕ, zero, Bool, ◌≡◌, refl, fun_ext, arith}
use revng_c.Ghast.Expr.{equal, not_equal, Expr, compare, negated}
use revng_c.Ghast.Node.{
  Node, if_node, scs, sequence, switch, Nodes, nil, cons, Cases, no_case, case,
}
use revng_c.Semantics.{Machine, eval, exec}
use revng_c.Semantics.Congruence.{
  SameExpr, Same, SameNodes, SameCases, Same-refl, SameNodes-refl, SameCases-refl, Same-run,
  Same-if_node, Same-scs, Same-sequence, Same-switch, SameNodes-cons, SameCases-case,
}
use revng_c.Beautify.CompareNode.{
  strip_not, compare_with_zero, simplify_compare_node, simplify_nodes, simplify_cases,
}

eval-strip_not :
    {S : Type 0} (m : Machine S) (emit : Bool) (e : Expr)
    → eval m emit (strip_not e) ≡ eval m emit e
unfolding eval strip_not
eval-strip_not m emit (negated (compare l k c)) = fun_ext λ s. ground arith
eval-strip_not m emit _ = refl

eval-compare_with_zero :
    {S : Type 0} (m : Machine S) (emit : Bool) (e : Expr)
    → eval m emit (compare_with_zero e) ≡ eval m emit e
unfolding eval compare_with_zero
eval-compare_with_zero m emit (compare l equal zero) = fun_ext λ s. ground arith
eval-compare_with_zero m emit (compare l not_equal zero) = fun_ext λ s. ground arith
eval-compare_with_zero m emit _ = refl

SameExpr-condition :
    {S : Type 0} {m : Machine S} (e : Expr) → SameExpr m (compare_with_zero (strip_not e)) e
SameExpr-condition e = record { at = λ emit. rw (eval-compare_with_zero, eval-strip_not) }

module _ {S : Type 0} (m : Machine S) (fuel : ℕ) where
  mutual
    unfolding simplify_compare_node

    simplify-Same : (n : Node) → Same m fuel (simplify_compare_node n) n
    simplify-Same (sequence i ns) = Same-sequence i (simplify-SameNodes ns)
    simplify-Same (scs i t b) = Same-scs i t (simplify-Same b)
    simplify-Same (if_node i bb c w t e) =
        Same-if_node i bb w (SameExpr-condition c) (simplify-Same t) (simplify-Same e)
    simplify-Same (switch i f cs) = Same-switch i f (simplify-SameCases cs)
    simplify-Same _ = Same-refl _

    simplify-SameNodes : (ns : Nodes) → SameNodes m fuel (simplify_nodes ns) ns
    simplify-SameNodes nil = SameNodes-refl nil
    simplify-SameNodes (cons n ns) = SameNodes-cons (simplify-Same n) (simplify-SameNodes ns)

    simplify-SameCases : (cs : Cases) → SameCases m fuel (simplify_cases cs) cs
    simplify-SameCases no_case = SameCases-refl no_case
    simplify-SameCases (case l n cs) = SameCases-case l (simplify-Same n) (simplify-SameCases cs)

-- On every machine, with any fuel and from any state, the simplified GHAST has the outcome of the
-- GHAST that it came from.
pub exec-simplify_compare_node :
    {S : Type 0} (m : Machine S) (fuel : ℕ) (n : Node) (s : S)
    → exec m fuel (simplify_compare_node n) s ≡ exec m fuel n s
exec-simplify_compare_node m fuel n s = Same-run (simplify-Same m fuel n) s
