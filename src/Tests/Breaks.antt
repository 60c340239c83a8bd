-- ===== src/Tests/Breaks.antt =====
-- while (true) switch (s) { case 8: leave the loop; default: while (true) break; }
use revng_c.Prelude.{false, true, ◌≡◌, refl, some, none, [], ◌∷◌}
use revng_c.Ghast.Node.{
  SwitchFields, not_a_dispatcher, while_true, Node, null, break, scs, switch, no_case, case,
}
use revng_c.Semantics.{is_in}
use revng_c.Beautify.MatchSwitch.{match_switch}
use revng_c.Beautify.SwitchBreaks.{Flags, fix_breaks, set_flags, run_fixer}
use revng_c.Beautify.SwitchBreaks.Exact.{crosses, fix_breaks-dispatchers}

abbrev switch_fields : SwitchFields
switch_fields = record {
  bb = some 7;
  condition = some 1;
  is_weaved = false;
  need_state_variable = false;
  need_loop_break_dispatcher = false;
  dispatcher_kind = not_a_dispatcher;
}

abbrev whole : Node
whole = scs 0 while_true (
    switch 1 switch_fields
      (case (8 ∷ []) (break 2 false) (case [] (scs 3 while_true (break 4 false)) no_case)))

abbrev fixed : Node
fixed = scs 0 while_true (
    switch 1 switch_fields
      (case (8 ∷ []) (break 2 true) (case [] (scs 3 while_true (break 4 false)) no_case)))

abbrev flags : Flags
flags = record { state_variables = 1 ∷ []; dispatchers = 1 ∷ [] }

fix_breaks-dispatchers_example : is_in 1 flags.dispatchers ≡ crosses 1 false false whole
unfolding fix_breaks
fix_breaks-dispatchers_example = fix_breaks-dispatchers 1 whole (fixed, flags) refl

-- a break outside of any loop is refused
stray_test : run_fixer (break 0 false) ≡ none
unfolding run_fixer fix_breaks set_flags
stray_test = refl

match_switch_test : match_switch (scs 0 while_true null) ≡ none
unfolding match_switch
match_switch_test = refl
