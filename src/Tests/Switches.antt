-- ===== src/Tests/Switches.antt =====
-- Switches of at most two cases: a dispatcher with a standard switch in it, and small ones.
use revng_c.Prelude.{ℕ, ◌+◌, Bool, true, false, ◌==◌, ◌≡◌, refl, none, some, [], ◌∷◌, arith}
use revng_c.Ghast.Expr.{equal, block_value, loop_state, compare}
use revng_c.Ghast.Node.{
  SwitchFields, not_a_dispatcher, while_true, Node, null, code, break, if_node, scs, sequence,
  switch, switch_break, set, nil, cons, no_case, case, is_null, get_default,
}
use revng_c.Ghast.Everywhere.{Everywhere}
use revng_c.Semantics.{Machine, is_in, switch_value, exec}
use revng_c.Beautify.DualSwitch.{compute_switch_to_if_promotion, switch_to_if, simplify_dual_switch}
use revng_c.Beautify.DualSwitch.Promoted.{decides}
use revng_c.Beautify.DualSwitch.Preserves.{exec-simplify_dual_switch}
use revng_c.Tests.{last_of, effect}

abbrev standard : SwitchFields
standard = record {
  bb = some 7;
  condition = some 1;
  is_weaved = false;
  need_state_variable = false;
  need_loop_break_dispatcher = false;
  dispatcher_kind = not_a_dispatcher;
}

abbrev step : Node
step = code 2 (some 0) false

-- a machine whose loop state variable is 0 or 1
state_value : Bool → ℕ
state_value false = 0
state_value true = 1

abbrev two_states : Machine (Bool × ℕ)
two_states = record {
  last = last_of;
  run_block = λ bb s. (s.0, effect bb s.1);
  condition_of = λ emit bb s. (s.1 == bb, s);
  value_of = λ emit bb s. (s.1 + bb, s);
  loop_state_of = λ s. state_value s.0;
  set_loop_state = λ v s. (v == 1, s.1);
}

abbrev dispatcher : SwitchFields
dispatcher = record standard { bb = none; condition = none }

-- while (true) switch (state) { case 0: switch (s + 7) { case 8: block 0; default: } state = 1;
--   case 1: leave the loop; }
abbrev dispatched : Node
dispatched = scs 0 while_true (
    switch 1 dispatcher (
      case (0 ∷ [])
        (sequence 5 (
          cons (switch 6 standard (case (8 ∷ []) step (case [] (switch_break 7 (some 6)) no_case)))
            (cons (set 8 1 not_a_dispatcher) nil)))
        (case (1 ∷ []) (break 3 false) no_case)))

abbrev dispatched_tested : Node
dispatched_tested = scs 0 while_true (
    if_node 10 none (compare loop_state equal 0) false
      (sequence 5 (
        cons (if_node 9 (some 7) (compare (block_value 7) equal 8) false step null)
          (cons (set 8 1 not_a_dispatcher) nil)))
      (break 3 false))

apart : (v : ℕ) → is_in v (0 ∷ []) ≡ true → is_in v (1 ∷ []) ≡ false
apart v h = grind (arith, h)

covers : (s : Bool × ℕ) → decides (0 ∷ []) (1 ∷ []) (switch_value two_states dispatcher s).0 ≡ true
unfolding state_value
covers (false, s) = refl
covers (true, s) = refl

exec-simplify_dual_switch_example :
    exec two_states 3 dispatched_tested (false, 1) ≡ exec two_states 3 dispatched (false, 1)
unfolding simplify_dual_switch switch_to_if compute_switch_to_if_promotion is_null get_default
    Everywhere
exec-simplify_dual_switch_example =
    exec-simplify_dual_switch two_states 3 9 dispatched (dispatched_tested, 11) (false, 1) refl
      (λ x. x, (tt, ((((λ x. x), ((λ x. x), tt)), ((tt, (refl, (tt, tt))), (tt, tt))), (tt, tt))))
      (
        tt,
        (
          record { disjoint = apart; covered = λ h. covers; something = refl },
          (
            (
              tt,
              (
                (
                  record {
                    disjoint = λ v h. refl;
                    covered = λ h s. absurd (cc h);
                    something = refl;
                  },
                  (tt, (tt, tt)),
                ),
                (tt, tt),
              ),
            ),
            (tt, tt),
          ),
        ),
      )

-- a switch of one case, which is a switch break, goes away with its block
vanished_test :
    simplify_dual_switch 4 (switch 1 standard (case (8 ∷ []) (switch_break 2 (some 1)) no_case))
    ≡ some (null, 5)
unfolding simplify_dual_switch switch_to_if compute_switch_to_if_promotion is_null get_default
vanished_test = refl

-- a switch with nothing but a default leaves the switch break of the default
lone_default_test :
    simplify_dual_switch 4 (switch 1 standard (case [] (switch_break 2 (some 1)) no_case))
    ≡ some (switch_break 2 (some 1), 4)
unfolding simplify_dual_switch switch_to_if
lone_default_test = refl
