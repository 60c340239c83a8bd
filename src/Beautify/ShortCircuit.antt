-- ===== src/Beautify/ShortCircuit.antt =====
-- lib/RestructureCFG/BeautifyGHAST.cpp: `hasSideEffects`, the four reductions of
-- `simplifyShortCircuit`, which turn two nested `if`s that share a branch into one, and the reduction
-- of `simplifyTrivialShortCircuit`, for two that have no `else`.
--
-- Each function is one reduction at an `if`, which has both branches but for the last; `none` is the
-- abort on a comparison in the condition. The visit of simplifyTrivialShortCircuit is in Trivial.
pub mod Meaning
pub mod Exchanged
pub mod Trivial
pub mod Reduced
pub mod Repeated
use revng_c.Prelude.{ℕ, Bool, true, false, not, ◌&&◌, Option, none, some, ◌>>=◌}
use revng_c.Ghast.Expr.{Expr, compare, atomic, negated, and_also, or_else}
use revng_c.Ghast.Node.{RelatedCondition, Node, null, if_node, is_null}
use revng_c.Ghast.Equality.{is_equal}

-- a condition that is evaluated after another one: `or` on the results
abbrev pub or_effects : Bool → Option Bool → Option Bool
or_effects true r = some true
or_effects false r = r

-- hasSideEffects; whether a block has a void instruction with side effects is a parameter
unfoldable pub has_side_effects : (ℕ → Bool) → Expr → Option Bool
has_side_effects fx (atomic bb) = some (fx bb)
has_side_effects fx (negated e) = has_side_effects fx e
has_side_effects fx (and_also a b) =
    let rest = has_side_effects fx b in has_side_effects fx a >>= λ x. or_effects x rest
has_side_effects fx (or_else a b) =
    let rest = has_side_effects fx b in has_side_effects fx a >>= λ x. or_effects x rest
has_side_effects fx (compare l k c) = none

-- an `if` from the fields of an IfNode and its branches
abbrev pub if_of : RelatedCondition → Node → Node → Node
if_of q t e = if_node q.id q.bb q.cond_expr q.is_weaved t e

-- replaceCondExpr
abbrev pub replace : RelatedCondition → Expr → RelatedCondition
replace q c = record q { cond_expr = c }

abbrev pub unless_effects : Bool → Node → Node → Node
unless_effects true old new = old
unless_effects false old new = new

-- the test of the branches, that of the side effects, the `if` and what it becomes
abbrev pub guarded : Bool → Option Bool → Node → Node → Option Node
guarded false effects old new = some old
guarded true effects old new = effects >>= λ v. some (unless_effects v old new)

-- if q { if r { t } else { e } } else { o }, where `o` is `t`
unfoldable pub a_and_not_b :
    (ℕ → Bool) → RelatedCondition → RelatedCondition → Node → Node → Node → Option Node
unfolding has_side_effects is_equal is_null
a_and_not_b fx q r t e o =
    guarded (not (is_null t) && is_equal o t) (has_side_effects fx r.cond_expr)
      (if_of q (if_of r t e) o) (if_of (replace q (and_also q.cond_expr (negated r.cond_expr))) e t)

-- if q { if r { t } else { e } } else { o }, where `o` is `e`
unfoldable pub a_and_b :
    (ℕ → Bool) → RelatedCondition → RelatedCondition → Node → Node → Node → Option Node
unfolding has_side_effects is_equal is_null
a_and_b fx q r t e o =
    guarded (not (is_null e) && is_equal o e) (has_side_effects fx r.cond_expr)
      (if_of q (if_of r t e) o) (if_of (replace q (and_also q.cond_expr r.cond_expr)) t e)

-- if q { o } else { if r { t } else { e } }, where `o` is `t`
unfoldable pub not_a_and_not_b :
    (ℕ → Bool) → RelatedCondition → RelatedCondition → Node → Node → Node → Option Node
unfolding has_side_effects is_equal is_null
not_a_and_not_b fx q r t e o =
    guarded (not (is_null t) && is_equal o t) (has_side_effects fx r.cond_expr)
      (if_of q o (if_of r t e))
      (if_of (replace q (and_also (negated q.cond_expr) (negated r.cond_expr))) t e)

-- if q { o } else { if r { t } else { e } }, where `o` is `e`
unfoldable pub not_a_and_b :
    (ℕ → Bool) → RelatedCondition → RelatedCondition → Node → Node → Node → Option Node
unfolding has_side_effects is_equal is_null
not_a_and_b fx q r t e o =
    guarded (not (is_null e) && is_equal o e) (has_side_effects fx r.cond_expr)
      (if_of q o (if_of r t e)) (if_of (replace q (and_also (negated q.cond_expr) r.cond_expr)) e t)

-- if q { if r { t } }
unfoldable pub trivial_a_and_b :
    (ℕ → Bool) → RelatedCondition → RelatedCondition → Node → Option Node
unfolding has_side_effects
trivial_a_and_b fx q r t =
    guarded true (has_side_effects fx r.cond_expr) (if_of q (if_of r t null) null)
      (if_of (replace q (and_also q.cond_expr r.cond_expr)) t null)
