-- ===== src/Beautify/Dispatcher.antt =====
-- lib/RestructureCFG/InlineDispatcherSwitch.cpp: `containsSet` and `containsContinueOrBreak`, the tests
-- on a case of a dispatcher. `none` is the visit of a null pointer.
-- `containsSet` is the test whether a case sets the loop state variable.
pub mod LoopState
pub mod Local
use revng_c.Prelude.{Bool, true, false, Option, none, some, ◌>>=◌}
use revng_c.Ghast.Node.{
  Node, null, code, break, continue, if_node, scs, sequence, switch, switch_break, set, Nodes, nil,
  cons, Cases, no_case, case,
}

-- a branch or a body, which may be absent
abbrev pub has_child : Node → Option Bool → Option Bool
has_child null r = some false
has_child n r = r

-- HasSet or the rest, which is not visited when HasSet is true
abbrev pub or_next : Bool → Option Bool → Option Bool
or_next true r = some true
or_next false r = r

unfoldable mutual
  pub contains_set : Node → Option Bool
  contains_set (sequence i ns) = nodes_contain_set ns
  contains_set (scs i t b) = has_child b (contains_set b)
  contains_set (if_node i bb c w t e) =
      let rest = has_child e (contains_set e) in
      has_child t (contains_set t) >>= λ v. or_next v rest
  contains_set (switch i f cs) = cases_contain_set cs
  contains_set (set i v k) = some true
  contains_set null = none
  contains_set n = some false

  pub nodes_contain_set : Nodes → Option Bool
  nodes_contain_set nil = some false
  nodes_contain_set (cons n ns) =
      let rest = nodes_contain_set ns in contains_set n >>= λ v. or_next v rest

  pub cases_contain_set : Cases → Option Bool
  cases_contain_set no_case = some false
  cases_contain_set (case l n cs) =
      let rest = cases_contain_set cs in contains_set n >>= λ v. or_next v rest

-- `containsContinueOrBreak`, the test whether control leaves a case for a loop around it. A loop counts
-- as if it did; the nodes of a sequence are visited from the last one.
unfoldable mutual
  pub contains_continue_or_break : Node → Option Bool
  contains_continue_or_break (sequence i ns) = nodes_contain_continue_or_break ns
  contains_continue_or_break (scs i t b) = some true
  contains_continue_or_break (if_node i bb c w t e) =
      let rest = has_child e (contains_continue_or_break e) in
      has_child t (contains_continue_or_break t) >>= λ v. or_next v rest
  contains_continue_or_break (switch i f cs) = cases_contain_continue_or_break cs
  contains_continue_or_break (continue i c w) = some true
  contains_continue_or_break (break i w) = some true
  contains_continue_or_break null = none
  contains_continue_or_break n = some false

  pub nodes_contain_continue_or_break : Nodes → Option Bool
  nodes_contain_continue_or_break nil = some false
  nodes_contain_continue_or_break (cons n ns) =
      let first = contains_continue_or_break n in
      nodes_contain_continue_or_break ns >>= λ v. or_next v first

  pub cases_contain_continue_or_break : Cases → Option Bool
  cases_contain_continue_or_break no_case = some false
  cases_contain_continue_or_break (case l n cs) =
      let rest = cases_contain_continue_or_break cs in
      contains_continue_or_break n >>= λ v. or_next v rest
