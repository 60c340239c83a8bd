-- ===== src/Tests/HybridNots.antt =====
-- Block 0 compares for difference, block 1 ends in a call of BooleanNot.
use revng_c.Prelude.{ℕ, zero, suc, true, false, Option, some, none, ◌≡◌, refl, ◌==◌, if◌then◌else◌}
use revng_c.Ghast.Expr.{Expr, atomic, negated, or_else}
use revng_c.Ghast.Node.{Node, null, code, if_node}
use revng_c.Semantics.{exec}
use revng_c.Beautify.HybridNot.{
  icmp_ne, icmp_eq, Condition, comparison, boolean_not, is_not_null, Ir, simplify_hybrid_not,
}
use revng_c.Beautify.HybridNot.Branches.{Reading, laid_over, NoSharing}
use revng_c.Beautify.HybridNot.Preserves.{exec-simplify_hybrid_not}
use revng_c.Tests.{counter}

abbrev branch_of : ℕ → Option Condition
branch_of zero = some (comparison 0)
branch_of (suc zero) = some (boolean_not 3)
branch_of _ = none

abbrev found : Ir
found = record { condition = branch_of; predicate = λ i. icmp_ne }

abbrev reading : Reading ℕ
reading = record {
  settle = λ emit b s. s;
  are_equal = λ i s. s == 4;
  other_comparison = λ i s. true;
  value = λ v s. s;
  other_truth = λ v s. true;
}

abbrev of_tests : Expr → Expr → Node
of_tests a b = if_node 0 (some 0) (or_else a b) false (code 1 (some 5) false) null

found-NoSharing : NoSharing found
found-NoSharing zero zero i p q = refl
found-NoSharing zero (suc zero) i p q = cc
found-NoSharing zero (suc (suc b)) i p q = cc
found-NoSharing (suc zero) b i p q = cc
found-NoSharing (suc (suc a)) b i p q = cc

-- what the pass leaves
abbrev returned : Ir
returned = record {
  condition = λ b. if b == 1 then some (is_not_null 3) else branch_of b;
  predicate = λ i. if i == 0 then icmp_eq else icmp_ne;
}

exec-simplify_hybrid_not_example :
    exec (laid_over counter reading returned) 1 (of_tests (atomic 0) (atomic 1)) 3
    ≡ exec
        (laid_over counter reading found)
        1
        (of_tests (negated (atomic 0)) (negated (atomic 1)))
        3
unfolding simplify_hybrid_not
exec-simplify_hybrid_not_example =
    exec-simplify_hybrid_not counter reading found returned
      (of_tests (negated (atomic 0)) (negated (atomic 1))) (of_tests (atomic 0) (atomic 1)) 1 3 refl
      found-NoSharing

-- One comparison for both branches is inverted twice, while each expression loses its negation.
abbrev shared : Ir
shared = record { condition = λ b. some (comparison 0); predicate = λ i. icmp_ne }

shared_test :
    (ir : Ir) × (simplify_hybrid_not shared (of_tests (negated (atomic 0)) (negated (atomic 1)))
      ≡ some (ir, of_tests (atomic 0) (atomic 1)))
    × (ir.predicate 0 ≡ icmp_ne)
unfolding simplify_hybrid_not
shared_test = (_, refl, refl)
