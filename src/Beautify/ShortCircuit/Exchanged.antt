-- ===== src/Beautify/ShortCircuit/Exchanged.antt =====
-- The reductions of `simplifyShortCircuit` (BeautifyGHAST.cpp) for an inner `if` in the `else` branch.
use revng_c.Prelude.{
  ℕ, Bool, true, false, not, ◌&&◌, ◌≡◌, ap, sym, ◌∙◌, Option, none, some, of_some,
}
use revng_c.Ghast.Node.{RelatedCondition, Node, is_null}
use revng_c.Ghast.Equality.{is_equal}
use revng_c.Semantics.{Machine, exec}
use revng_c.Beautify.ShortCircuit.{has_side_effects, if_of, guarded, not_a_and_not_b, not_a_and_b}
use revng_c.Beautify.ShortCircuit.Meaning.{IsStill, not_a_and_not_b-run, not_a_and_b-run}

reduced :
    (c : Bool) (effects : Option Bool) (old new n : Node)
    → guarded c effects old new ≡ some n
    → c ≡ true
    → effects ≡ some false
    → new ≡ n
reduced false effects old new n e h f = cc
reduced true none old new n e h f = cc
reduced true (some true) old new n e h f = cc
reduced true (some false) old new n e h f = of_some e

-- Where the third reduction takes place, and conditions without side effects leave the state alone,
-- its result runs the branches of the inner `if` the wrong way round: it is like the nested `if`s in
-- which `t`, the shared branch, and `e` are exchanged.
pub not_a_and_not_b-exchanged :
    {S : Type 0} (m : Machine S) (fuel : ℕ) (fx : ℕ → Bool) (q r : RelatedCondition)
    (t e o n : Node) (s : S)
    → not_a_and_not_b fx q r t e o ≡ some n
    → (not (is_null t) && is_equal o t) ≡ true
    → has_side_effects fx r.cond_expr ≡ some false
    → IsStill m fx
    → exec m fuel n s ≡ exec m fuel (if_of q e (if_of r e t)) s
unfolding not_a_and_not_b
not_a_and_not_b-exchanged m fuel fx q r t e o n s h eq free st =
    ap (λ x. exec m fuel x s) (sym (reduced _ _ _ _ n h eq free))
    ∙ not_a_and_not_b-run m fuel fx st q r free t e s

-- Where the fourth reduction takes place, and conditions without side effects leave the state alone,
-- its result runs the branches of the inner `if` the wrong way round: it is like the nested `if`s in
-- which `t` and `e`, the shared branch, are exchanged.
pub not_a_and_b-exchanged :
    {S : Type 0} (m : Machine S) (fuel : ℕ) (fx : ℕ → Bool) (q r : RelatedCondition)
    (t e o n : Node) (s : S)
    → not_a_and_b fx q r t e o ≡ some n
    → (not (is_null e) && is_equal o e) ≡ true
    → has_side_effects fx r.cond_expr ≡ some false
    → IsStill m fx
    → exec m fuel n s ≡ exec m fuel (if_of q t (if_of r e t)) s
unfolding not_a_and_b
not_a_and_b-exchanged m fuel fx q r t e o n s h eq free st =
    ap (λ x. exec m fuel x s) (sym (reduced _ _ _ _ n h eq free))
    ∙ not_a_and_b-run m fuel fx st q r free t e s
