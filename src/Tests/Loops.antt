-- ===== src/Tests/Loops.antt =====
-- do { block 0; } while (s != 5); and while (s != 5) { block 0; }
use revng_c.Prelude.{false, ◌≡◌, refl, some, none}
use revng_c.Ghast.Expr.{atomic, negated}
use revng_c.Ghast.Node.{
  RelatedCondition, while_true, while, do_while, Node, null, code, break, continue, if_node, scs,
  sequence, nil, cons,
}
use revng_c.Ghast.Identity.{node_id}
use revng_c.Ghast.Children.{is_child, split_last, remove_node, DistinctChildren}
use revng_c.Ghast.Everywhere.{Everywhere}
use revng_c.Semantics.{normal, eval, loop, exec}
use revng_c.Beautify.DoWhile.{match_do_while}
use revng_c.Beautify.DoWhile.Shape.{NoContinue, NoContinueBefore}
use revng_c.Beautify.DoWhile.Preserves.{exec-match_do_while}
use revng_c.Beautify.While.{add_computation, match_while}
use revng_c.Beautify.While.Carried.{IsComputed}
use revng_c.Beautify.While.Computed.{match_while-IsComputed}
use revng_c.Tests.{counter}

abbrev step : Node
step = code 2 (some 0) false

abbrev related : RelatedCondition
related = record { id = 3; bb = none; cond_expr = negated (atomic 5); is_weaved = false }

abbrev ends : Node
ends = scs 0 while_true (
    sequence 1 (
      cons step
        (cons (if_node 3 none (atomic 5) false (break 4 false) (continue 5 none false)) nil)))

abbrev ends_promoted : Node
ends_promoted = scs 0 (do_while related) (sequence 1 (cons step nil))

exec-match_do_while_example : exec counter 3 ends_promoted 4 ≡ exec counter 3 ends 4
unfolding match_do_while split_last remove_node node_id Everywhere DistinctChildren is_child
    NoContinue NoContinueBefore
exec-match_do_while_example =
    exec-match_do_while counter 3 ends ends_promoted 4 refl
      (((refl, (refl, tt)), λ e. (tt, tt)), (tt, (tt, ((tt, tt, tt), tt))))

abbrev begins : Node
begins = scs 0 while_true (
    sequence 1 (
      cons (if_node 3 none (atomic 5) false (break 4 false) null)
        (cons step (cons (continue 5 none false) nil))))

abbrev begins_promoted : Node
begins_promoted =
    scs 0 (while related) (sequence 1 (cons step (cons (continue 5 (some 3) false) nil)))

match_while-IsComputed_example :
    Everywhere IsComputed begins_promoted
    × (exec counter 3 begins_promoted 4 ≡ exec counter 3 begins 4)
unfolding match_while add_computation remove_node node_id Everywhere DistinctChildren is_child
match_while-IsComputed_example =
    match_while-IsComputed counter 3 begins begins_promoted 4 refl
      (tt, (tt, ((tt, tt, tt), (tt, (tt, tt)))))
      ((refl, (refl, (refl, tt))), (tt, ((tt, tt, tt), (tt, (tt, tt)))))

-- while (true) { if (s == 7) { block 0; continue; } if (s == 8) continue; else break; }
abbrev other_continue : Node
other_continue = scs 0 while_true (
    sequence 1 (
      cons
        (if_node 2 none (atomic 7) false
          (sequence 6 (
            cons (code 7 (some 0) false)
              (cons (code 8 (some 0) false) (cons (continue 9 none false) nil))))
          null)
        (cons (if_node 3 none (atomic 9) false (break 4 false) (continue 5 none false)) nil)))

abbrev other_promoted : Node
other_promoted =
    scs 0
      (do_while (record { id = 3; bb = none; cond_expr = negated (atomic 9); is_weaved = false }))
      (sequence 1 (
        cons
          (if_node 2 none (atomic 7) false
            (sequence 6 (
              cons (code 7 (some 0) false)
                (cons (code 8 (some 0) false) (cons (continue 9 none false) nil))))
            null)
          nil))

-- the other `continue` goes round in the original and meets the condition of the `do while`: with one
-- round, the original is still in its loop and the promoted one has ended
other_promoted_test : match_do_while other_continue ≡ some other_promoted
unfolding match_do_while split_last remove_node node_id
other_promoted_test = refl

other_continue_test : exec counter 1 other_continue 7 ≡ none
unfolding exec eval loop
other_continue_test = refl

other_do_while_test : exec counter 1 other_promoted 7 ≡ some (normal, 9)
unfolding exec eval loop
other_do_while_test = refl

-- while (true) { if (s == 5) break; } alone: the promotion visits the body that it has taken away
empty_body_test :
    match_while (scs 0 while_true (if_node 3 none (atomic 5) false (break 4 false) null)) ≡ none
unfolding match_while add_computation
empty_body_test = refl
