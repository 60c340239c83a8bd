-- ===== src/Tests/Implicit.antt =====
-- Implicit statements on small GHASTs.
use revng_c.Prelude.{ℕ, zero, suc, true, false, ◌≡◌, refl, some, none}
use revng_c.Ghast.Expr.{atomic}
use revng_c.Ghast.Node.{
  RelatedCondition, while_true, Node, code, continue, scs, sequence, nil, cons,
}
use revng_c.Ghast.Everywhere.{Everywhere}
use revng_c.Semantics.{return_void, normal, exec, eval}
use revng_c.Beautify.ImplicitStatement.{
  st_return, simplify_implicit_continue, simplify_implicit_return,
}
use revng_c.Beautify.ImplicitStatement.Steps.{IsQuiet, LoopOk}
use revng_c.Beautify.ImplicitStatement.Continue.{NestedLoopsOk, exec-simplify_implicit_continue}
use revng_c.Beautify.ImplicitStatement.Bugs.{nested_loop, simplify_implicit_continue-nested}
use revng_c.Beautify.ImplicitStatement.Return.{function_end, exec-simplify_implicit_return}
use revng_c.Tests.{last_of, effect, counter}

quiet_return : (bb : ℕ) (s : ℕ) → last_of bb ≡ return_void → effect bb s ≡ s
quiet_return zero s h = cc
quiet_return (suc zero) s h = refl
quiet_return (suc (suc bb)) s h = cc

counter-IsQuiet : IsQuiet counter
counter-IsQuiet = record {
  condition = λ emit bb s. refl;
  value = λ emit bb s. refl;
  return_block = quiet_return;
}

-- while (true) { block 0; continue; }
abbrev looping : Node
looping =
    scs 0 while_true (sequence 1 (cons (code 2 (some 0) false) (cons (continue 3 none false) nil)))

looping-NestedLoopsOk : Everywhere (NestedLoopsOk last_of) looping
unfolding Everywhere simplify_implicit_continue
looping-NestedLoopsOk = ((tt, (tt, (tt, tt))), (tt, (tt, (tt, tt))))

exec-simplify_implicit_continue_example :
    exec counter 9 (simplify_implicit_continue last_of looping) 4 ≡ exec counter 9 looping 4
exec-simplify_implicit_continue_example =
    exec-simplify_implicit_continue counter 9 looping 4 counter-IsQuiet looping-NestedLoopsOk

eval_five : eval counter true (atomic 5) 5 ≡ (true, 5)
unfolding eval
eval_five = refl

-- the condition of block 5, not weaved
abbrev five : RelatedCondition
five = record { id = 7; bb = none; cond_expr = atomic 5; is_weaved = false }

-- while (true) { if (s == 5) break; block 0; if (s == 5) continue; while (s == 5) { continue; } }
nested_loop_test :
    (exec counter 5 (nested_loop 5 0 5 five) 4 ≡ some (normal, 5))
    × (exec counter 3 (simplify_implicit_continue last_of (nested_loop 5 0 5 five)) 4 ≡ none)
nested_loop_test =
    simplify_implicit_continue-nested counter 5 0 5 3 five 4 5 refl refl refl refl refl eval_five

-- block 0; return;
abbrev returning : Node
returning = sequence 0 (cons (code 1 (some 0) false) (cons (code 2 (some 1) false) nil))

returning-LoopOk : Everywhere (LoopOk st_return last_of) returning
unfolding Everywhere
returning-LoopOk = (tt, (tt, (tt, tt)))

exec-simplify_implicit_return_example :
    function_end (exec counter 9 (simplify_implicit_return last_of returning) 4)
    ≡ function_end (exec counter 9 returning 4)
exec-simplify_implicit_return_example =
    exec-simplify_implicit_return counter 9 returning 4 counter-IsQuiet returning-LoopOk
