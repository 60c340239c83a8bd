-- ===== src/Beautify/Dispatcher/Local.antt =====
-- `containsContinueOrBreak` (InlineDispatcherSwitch.cpp) against how a GHAST ends when it runs.
use revng_c.Prelude.{
  ℕ, Bool, true, false, not, ◌≡◌, ◌≢◌, subst, Option, none, some, [], ◌∷◌, Bool-cases, inl, inr,
}
use revng_c.Ghast.Node.{
  Node, null, code, break, continue, if_node, scs, sequence, switch, switch_break, set, Nodes, nil,
  cons, Cases, no_case, case,
}
use revng_c.Semantics.{
  Machine, Last, return_value, return_void, unreachable, branch, Signal, normal, broke, continued,
  switch_broke, returned, stopped, Outcome, and_then, after_switch, choose, finish, is_in, eval,
  block_signal, switch_value, exec, exec_nodes, exec_cases,
}
use revng_c.Beautify.Dispatcher.{
  has_child, contains_continue_or_break, nodes_contain_continue_or_break,
  cases_contain_continue_or_break,
}
use revng_c.Beautify.Dispatcher.LoopState.{next-false}

-- control does not go to a loop around
abbrev IsLocal : Signal → Type 0
IsLocal broke = ⊥
IsLocal continued = ⊥
IsLocal _ = Unit

local-apart : (g : Signal) → IsLocal g → (g ≢ broke) × (g ≢ continued)
local-apart normal h = (λ e. cc, λ e. cc)
local-apart switch_broke h = (λ e. cc, λ e. cc)
local-apart returned h = (λ e. cc, λ e. cc)
local-apart stopped h = (λ e. cc, λ e. cc)
local-apart broke h = absurd h
local-apart continued h = absurd h

block_signal-IsLocal : (l : Last) (w : Bool) → IsLocal (block_signal l w)
block_signal-IsLocal return_value true = tt
block_signal-IsLocal return_value false = tt
block_signal-IsLocal return_void true = tt
block_signal-IsLocal return_void false = tt
block_signal-IsLocal (unreachable p) w = tt
block_signal-IsLocal branch w = tt

module _ {S : Type 0} where
  abbrev Ends : Outcome S → Type 0
  Ends none = Unit
  Ends (some (g, s)) = IsLocal g

  and_then-Ends :
      (o : Outcome S) (k : S → Outcome S) → Ends o → ((s : S) → Ends (k s)) → Ends (and_then o k)
  and_then-Ends (some (normal, s)) k h hk = hk s
  and_then-Ends _ k h hk = h

  after_switch-Ends : (o : Outcome S) → Ends o → Ends (after_switch o)
  after_switch-Ends (some (switch_broke, s)) h = tt
  after_switch-Ends _ h = h

  choose-Ends :
      (r : Bool × S) (f g : S → Outcome S)
      → ((s : S) → Ends (f s))
      → ((s : S) → Ends (g s))
      → Ends (choose r f g)
  choose-Ends (true, s) f g hf hg = hf s
  choose-Ends (false, s) f g hf hg = hg s

module _ {S : Type 0} (m : Machine S) (fuel : ℕ) where
  child-Ends :
      (n : Node) (o : Option Bool)
      → has_child n o ≡ some false
      → (o ≡ some false → (s : S) → Ends (exec m fuel n s))
      → (s : S) → Ends (exec m fuel n s)
  unfolding exec
  child-Ends null o e k s = tt
  child-Ends n o e k s = k e s

  mutual
    unfolding contains_continue_or_break exec

    ends : (n : Node) → contains_continue_or_break n ≡ some false → (s : S) → Ends (exec m fuel n s)
    ends (sequence i ns) e s = ends-nodes ns e s
    ends (if_node i bb c w t f) e s =
        let (et, ef) = next-false (has_child t (contains_continue_or_break t)) _ e in
        choose-Ends (eval m (not w) c s) (exec m fuel t) (exec m fuel f)
          (child-Ends t (contains_continue_or_break t) et (ends t))
          (child-Ends f (contains_continue_or_break f) ef (ends f))
    ends (switch i g cs) e s =
        let r = switch_value m g s in
        after_switch-Ends (exec_cases m fuel cs finish r.0 r.1)
          (ends-cases cs e finish (λ u. tt) r.0 r.1)
    ends (code i none w) e s = tt
    ends (code i (some bb) w) e s = block_signal-IsLocal (m.last bb) w
    ends (switch_break i p) e s = tt
    ends (set i v k) e s = tt
    ends (scs i t b) e s = cc
    ends (break i w) e s = cc
    ends (continue i c w) e s = cc
    ends null e s = cc

    ends-nodes :
        (ns : Nodes)
        → nodes_contain_continue_or_break ns ≡ some false
        → (s : S) → Ends (exec_nodes m fuel ns s)
    ends-nodes nil e s = tt
    ends-nodes (cons n ns) e s =
        let (er, ef) = next-false (nodes_contain_continue_or_break ns) _ e in
        and_then-Ends (exec m fuel n s) (exec_nodes m fuel ns) (ends n ef s) (ends-nodes ns er)

    ends-cases :
        (cs : Cases)
        → cases_contain_continue_or_break cs ≡ some false
        → (d : S → Outcome S) → ((s : S) → Ends (d s))
        → (v : ℕ) (s : S) → Ends (exec_cases m fuel cs d v s)
    ends-cases no_case e d hd v s = hd s
    ends-cases (case [] n cs) e d hd v s =
        let (en, er) = next-false (contains_continue_or_break n) _ e in
        ends-cases cs er (exec m fuel n) (ends n en) v s
    ends-cases (case (l ∷ ls) n cs) e d hd v s =
        let (en, er) = next-false (contains_continue_or_break n) _ e in
        elim (Bool-cases (is_in v (l ∷ ls))) [
          | inl h ↦ rw h (ends n en s)
          | inr h ↦ rw h (ends-cases cs er d hd v s)
        ]

-- A GHAST in which `containsContinueOrBreak` finds nothing never ends in a `break` or a `continue` of a
-- loop around it, on any machine, with any fuel and from any state.
pub contains_continue_or_break-stays :
    {S : Type 0} (m : Machine S) (fuel : ℕ) (n : Node) (s s' : S) (g : Signal)
    → contains_continue_or_break n ≡ some false
    → exec m fuel n s ≡ some (g, s')
    → (g ≢ broke) × (g ≢ continued)
contains_continue_or_break-stays m fuel n s s' g h e =
    local-apart g (subst Ends e (ends m fuel n h s))
