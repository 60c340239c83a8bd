-- ===== src/Tests/ShortCircuits.antt =====
-- if (s == 5) { if (s == 6) ... } else ..., with block 0 as the shared branch
use revng_c.Prelude.{
  ℕ, Bool, true, false, ◌&&◌, ◌||◌, not, ◌≡◌, refl, sym, ap, ◌∙◌, Option, none, some, arith,
}
use revng_c.Ghast.Expr.{block_value, loop_state, Expr, compare, atomic, negated, and_also, or_else}
use revng_c.Ghast.Node.{RelatedCondition, Node, null, code, break, scs, while_true, is_null}
use revng_c.Ghast.Everywhere.{Everywhere}
use revng_c.Ghast.Equality.{is_equal}
use revng_c.Semantics.{map_fst, eval, exec}
use revng_c.Beautify.ShortCircuit.{has_side_effects, if_of, replace, not_a_and_not_b}
use revng_c.Beautify.ShortCircuit.Meaning.{IsStill}
use revng_c.Beautify.ShortCircuit.Exchanged.{not_a_and_not_b-exchanged}
use revng_c.Beautify.ShortCircuit.Trivial.{simplify_trivial_short_circuit, node_count}
use revng_c.Beautify.ShortCircuit.Repeated.{exec-simplify_trivial_short_circuit}
use revng_c.Tests.{counter}

-- conditions of the counter have no effect at all
counter-eval :
    (e : Expr) (emit : Bool) (s : ℕ) → eval counter emit e s ≡ ((eval counter true e s).0, s)
unfolding eval
counter-eval (compare (block_value bb) k c) emit s = refl
counter-eval (compare loop_state k c) emit s = refl
counter-eval (atomic bb) emit s = refl
counter-eval (negated e) emit s = ap (map_fst not) (counter-eval e emit s)
counter-eval (and_also a b) emit s =
    let v = (eval counter true a s).0 in
    ap (λ (r : Bool × ℕ). map_fst (λ x. r.0 && x) (eval counter emit b r.1)) (counter-eval a emit s)
    ∙ ap (map_fst (λ x. v && x)) (counter-eval b emit s)
    ∙ ap (λ u. (v && (eval counter true b u).0, s))
        (sym (ap (λ (r : Bool × ℕ). r.1) (counter-eval a true s)))
counter-eval (or_else a b) emit s =
    let v = (eval counter true a s).0 in
    ap (λ (r : Bool × ℕ). map_fst (λ x. r.0 || x) (eval counter emit b r.1)) (counter-eval a emit s)
    ∙ ap (map_fst (λ x. v || x)) (counter-eval b emit s)
    ∙ ap (λ u. (v || (eval counter true b u).0, s))
        (sym (ap (λ (r : Bool × ℕ). r.1) (counter-eval a true s)))

abbrev no_effects : ℕ → Bool
no_effects bb = false

counter-IsStill : IsStill counter no_effects
counter-IsStill = record { still = λ e emit s h. counter-eval e emit s }

abbrev test : ℕ → ℕ → RelatedCondition
test i bb = record { id = i; bb = some bb; cond_expr = atomic bb; is_weaved = false }

abbrev outer : RelatedCondition
outer = test 1 5

abbrev inner : RelatedCondition
inner = test 2 6

abbrev step : ℕ → Node
step i = code i (some 0) false

abbrev leave : Node
leave = break 4 false

abbrev cond : Option ℕ → Expr
cond none = atomic 0
cond (some bb) = atomic bb

abbrev neither : Node
neither = if_of (replace outer (and_also (negated (atomic 5)) (negated (atomic 6)))) (step 3) leave

not_a_and_not_b-exchanged_example :
    exec counter 1 neither 5 ≡ exec counter 1 (if_of outer leave (if_of inner leave (step 3))) 5
unfolding not_a_and_not_b has_side_effects is_equal is_null
not_a_and_not_b-exchanged_example =
    not_a_and_not_b-exchanged counter 1 no_effects outer inner (step 3) leave (step 7) neither 5
      refl refl refl counter-IsStill

-- while (1) { if (s == 5) { if (s == 6) { if (s == 5) break; } } }, where the `if`s become one
abbrev nested : Node
nested = scs 8 while_true (if_of outer (if_of inner (if_of (test 3 5) leave null) null) null)

abbrev joined : Node
joined =
    scs 8 while_true
      (if_of (replace outer (and_also (and_also (atomic 5) (atomic 6)) (atomic 5))) leave null)

joined_test : simplify_trivial_short_circuit no_effects 5 nested ≡ some joined
unfolding simplify_trivial_short_circuit has_side_effects is_null
joined_test = refl

exec-simplify_trivial_short_circuit_example :
    (n : Node) × (simplify_trivial_short_circuit no_effects 5 nested ≡ some n)
    × ((s : ℕ) → exec counter 9 n s ≡ exec counter 9 nested s)
unfolding Everywhere has_side_effects is_null node_count
exec-simplify_trivial_short_circuit_example =
    exec-simplify_trivial_short_circuit counter 9 no_effects 5 nested counter-IsStill (omega arith)
      refl
      (
        refl,
        (((false, refl), refl), (((false, refl), refl), (((false, refl), refl), tt, tt), tt), tt),
      )
