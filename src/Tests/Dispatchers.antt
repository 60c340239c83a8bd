-- ===== src/Tests/Dispatchers.antt =====
-- if (s == 5) { block 0; } on a machine whose state has the loop state variable besides a number
use revng_c.Prelude.{ℕ, ◌+◌, ◌==◌, false, true, ◌≡◌, ◌≢◌, refl, some, none}
use revng_c.Ghast.Expr.{atomic}
use revng_c.Ghast.Node.{not_a_dispatcher, Node, null, code, if_node, set}
use revng_c.Semantics.{Machine, normal, broke, continued, returned, eval, exec}
use revng_c.Beautify.Dispatcher.{contains_set, contains_continue_or_break}
use revng_c.Beautify.Dispatcher.Local.{contains_continue_or_break-stays}
use revng_c.Beautify.Dispatcher.LoopState.{contains_set-kept}
use revng_c.Tests.{last_of}

abbrev pair : Machine (ℕ × ℕ)
pair = record {
  last = last_of;
  run_block = λ bb s. (s.0 + 1, s.1);
  condition_of = λ emit bb s. (s.0 == bb, s);
  value_of = λ emit bb s. (s.0, s);
  loop_state_of = λ s. s.1;
  set_loop_state = λ v s. (s.0, v);
}

abbrev step : Node
step = if_node 1 none (atomic 5) false (code 2 (some 0) false) null

contains_set-kept_example : pair.loop_state_of (6, 3) ≡ pair.loop_state_of (5, 3)
unfolding contains_set exec eval
contains_set-kept_example =
    contains_set-kept pair 1 step (5, 3) (6, 3) normal refl
      (record { run = λ bb s. refl; condition = λ emit bb s. refl; value = λ emit bb s. refl }) refl

set_test :
    contains_set (if_node 1 none (atomic 5) false step (set 4 7 not_a_dispatcher)) ≡ some true
unfolding contains_set
set_test = refl

-- if (s == 5) { return; } else { block 0; }
abbrev leaving : Node
leaving = if_node 1 none (atomic 5) false (code 2 (some 2) false) (code 3 (some 0) false)

contains_continue_or_break-stays_example : (returned ≢ broke) × (returned ≢ continued)
unfolding contains_continue_or_break exec eval
contains_continue_or_break-stays_example =
    contains_continue_or_break-stays pair 1 leaving (5, 3) (6, 3) returned refl refl
