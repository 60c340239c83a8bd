-- ===== src/Beautify/SwitchBreaks.antt =====
-- lib/RestructureCFG/BeautifyGHAST.cpp: `SwitchBreaksFixer`, which finds the `break`s that leave a
-- loop from within a `switch`, and the switches that have to pass them on.
--
-- The flags that the source sets on the active switches, which are being visited, are collected by
-- the addresses of the switches and set at the end. `none` is a failed assertion.
pub mod Exact
pub mod Marks
use revng_c.Prelude.{ℕ, Bool, true, false, ◌||◌, Option, none, some, List, [], ◌∷◌, ◌++◌, ◌>>=◌}
use revng_c.Ghast.Node.{
  SwitchFields, Node, null, code, break, continue, if_node, scs, sequence, switch, switch_break,
  set, Nodes, nil, cons, Cases, no_case, case,
}
use revng_c.Semantics.{is_in}

-- LoopStackT, the innermost loop first, with its SwitchStackT, the innermost switch first
abbrev pub LoopStack : Type 0
LoopStack = List (ℕ × List ℕ)

pub record Flags : Type 0 where
  pub state_variables : List ℕ
  pub dispatchers : List ℕ

-- ActiveSwitches.front()
abbrev pub outermost : ℕ → List ℕ → ℕ
outermost s [] = s
outermost s (r ∷ rs) = outermost r rs

-- case NK_Break
abbrev pub fix_break : LoopStack → ℕ → Bool → Flags → Option (Node × Flags)
fix_break [] i w fl = none
fix_break ((l, []) ∷ ls) i w fl = some (break i w, fl)
fix_break ((l, s ∷ ss) ∷ ls) i w fl = some (
  break i true,
  record {
    state_variables = outermost s ss ∷ fl.state_variables;
    dispatchers = s ∷ ss ++ fl.dispatchers;
  },
)

-- LoopStack.back().second.push_back(Switch)
abbrev pub push_switch : ℕ → LoopStack → LoopStack
push_switch i [] = []
push_switch i ((l, ss) ∷ ls) = (l, i ∷ ss) ∷ ls

-- case NK_SwitchBreak
abbrev pub check_switch_break : LoopStack → Node → Flags → Option (Node × Flags)
check_switch_break [] n fl = some (n, fl)
check_switch_break ((l, []) ∷ ls) n fl = none
check_switch_break ((l, s ∷ ss) ∷ ls) n fl = some (n, fl)

unfoldable mutual
  -- SwitchBreaksFixer::exec
  pub fix_breaks : LoopStack → Node → Flags → Option (Node × Flags)
  fix_breaks ls (if_node i bb c w t e) fl =
      fix_breaks ls t fl >>= λ x. fix_breaks ls e x.1 >>= λ y. some (if_node i bb c w x.0 y.0, y.1)
  fix_breaks ls (scs i t b) fl = fix_breaks ((i, []) ∷ ls) b fl >>= λ x. some (scs i t x.0, x.1)
  fix_breaks ls (sequence i ns) fl = fix_in_nodes ls ns fl >>= λ x. some (sequence i x.0, x.1)
  fix_breaks ls (switch i f cs) fl =
      fix_in_cases (push_switch i ls) cs fl >>= λ x. some (switch i f x.0, x.1)
  fix_breaks ls (break i w) fl = fix_break ls i w fl
  fix_breaks ls (switch_break i p) fl = check_switch_break ls (switch_break i p) fl
  fix_breaks ls n fl = some (n, fl)

  pub fix_in_nodes : LoopStack → Nodes → Flags → Option (Nodes × Flags)
  fix_in_nodes ls nil fl = some (nil, fl)
  fix_in_nodes ls (cons n ns) fl =
      fix_breaks ls n fl >>= λ x. fix_in_nodes ls ns x.1 >>= λ y. some (cons x.0 y.0, y.1)

  pub fix_in_cases : LoopStack → Cases → Flags → Option (Cases × Flags)
  fix_in_cases ls no_case fl = some (no_case, fl)
  fix_in_cases ls (case l n cs) fl =
      fix_breaks ls n fl >>= λ x. fix_in_cases ls cs x.1 >>= λ y. some (case l x.0 y.0, y.1)

-- setNeedsStateVariable and setNeedsLoopBreakDispatcher
abbrev pub flag : Flags → ℕ → SwitchFields → SwitchFields
flag fl i f = record f {
  need_state_variable = f.need_state_variable || is_in i fl.state_variables;
  need_loop_break_dispatcher = f.need_loop_break_dispatcher || is_in i fl.dispatchers;
}

unfoldable mutual
  pub set_flags : Flags → Node → Node
  set_flags fl (if_node i bb c w t e) = if_node i bb c w (set_flags fl t) (set_flags fl e)
  set_flags fl (scs i t b) = scs i t (set_flags fl b)
  set_flags fl (sequence i ns) = sequence i (set_in_nodes fl ns)
  set_flags fl (switch i f cs) = switch i (flag fl i f) (set_in_cases fl cs)
  set_flags fl n = n

  pub set_in_nodes : Flags → Nodes → Nodes
  set_in_nodes fl nil = nil
  set_in_nodes fl (cons n ns) = cons (set_flags fl n) (set_in_nodes fl ns)

  pub set_in_cases : Flags → Cases → Cases
  set_in_cases fl no_case = no_case
  set_in_cases fl (case l n cs) = case l (set_flags fl n) (set_in_cases fl cs)

-- SwitchBreaksFixer::run
unfoldable pub run_fixer : Node → Option Node
unfolding fix_breaks set_flags
run_fixer root = fix_breaks [] root (record { state_variables = []; dispatchers = [] }) >>= λ x.
    some (set_flags x.1 x.0)
