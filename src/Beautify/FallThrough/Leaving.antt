-- ===== src/Beautify/FallThrough/Leaving.antt =====
-- Outcomes that leave a scope: by `break`, `continue`, `return`, or for good. And the shape of a
-- GHAST at the time of the analysis, in which no such outcome is hidden.
use revng_c.Prelude.{ℕ, zero, suc, Bool, true, false, ◌≡◌, refl, some, none}
use revng_c.Ghast.Node.{
  Node, null, code, break, continue, if_node, scs, sequence, switch, switch_break, set, Nodes, nil,
  cons,
}
use revng_c.Ghast.Everywhere.{Everywhere, EverywhereNodes}
use revng_c.Semantics.{
  Machine, normal, broke, continued, switch_broke, returned, stopped, Outcome, and_then, resume,
  after_switch, choose, finish, loop, exec, exec_nodes, Last, return_value, return_void,
  unreachable, branch, block_signal,
}

-- neither a normal end nor the end of a case
abbrev pub Leaving : {S : Type 0} → Outcome S → Type 0
Leaving (some (normal, s)) = ⊥
Leaving (some (switch_broke, s)) = ⊥
Leaving _ = Unit

abbrev pub NotSwitchBroke : {S : Type 0} → Outcome S → Type 0
NotSwitchBroke (some (switch_broke, s)) = ⊥
NotSwitchBroke _ = Unit

abbrev pub IsSwitchBreak : Node → Type 0
IsSwitchBreak (switch_break i p) = Unit
IsSwitchBreak _ = ⊥

abbrev pub NoSwitchBreakNodes : Nodes → Type 0
NoSwitchBreakNodes nil = Unit
NoSwitchBreakNodes (cons n ns) = (¬ IsSwitchBreak n) × NoSwitchBreakNodes ns

-- Nothing has been made implicit, and a switch break is the whole body of a case.
abbrev pub IsPlain : Node → Type 0
IsPlain (code i bb implicit) = implicit ≡ false
IsPlain (continue i c implicit) = implicit ≡ false
IsPlain (sequence i ns) = NoSwitchBreakNodes ns
IsPlain (if_node i bb c w t e) = (¬ IsSwitchBreak t) × (¬ IsSwitchBreak e)
IsPlain (scs i t b) = ¬ IsSwitchBreak b
IsPlain _ = Unit

module _ {S : Type 0} where
  pub and_then-Leaving :
      (o : Outcome S) (k : S → Outcome S)
      → NotSwitchBroke o
      → ((s : S) → Leaving (k s))
      → Leaving (and_then o k)
  and_then-Leaving none k h hk = tt
  and_then-Leaving (some (normal, s)) k h hk = hk s
  and_then-Leaving (some (broke, s)) k h hk = tt
  and_then-Leaving (some (continued, s)) k h hk = tt
  and_then-Leaving (some (switch_broke, s)) k h hk = h
  and_then-Leaving (some (returned, s)) k h hk = tt
  and_then-Leaving (some (stopped, s)) k h hk = tt

  pub and_then-NotSwitchBroke :
      (o : Outcome S) (k : S → Outcome S)
      → NotSwitchBroke o
      → ((s : S) → NotSwitchBroke (k s))
      → NotSwitchBroke (and_then o k)
  and_then-NotSwitchBroke (some (normal, s)) k h hk = hk s
  and_then-NotSwitchBroke _ k h hk = h

  -- what follows a leaving outcome is not run
  pub and_then-left : (o : Outcome S) (k : S → Outcome S) → Leaving o → and_then o k ≡ o
  and_then-left (some (normal, s)) k h = absurd h
  and_then-left _ k h = refl

  pub after_switch-Leaving : (o : Outcome S) → Leaving o → Leaving (after_switch o)
  after_switch-Leaving (some (switch_broke, s)) h = absurd h
  after_switch-Leaving _ h = h

  pub after_switch-NotSwitchBroke : (o : Outcome S) → NotSwitchBroke (after_switch o)
  after_switch-NotSwitchBroke none = tt
  after_switch-NotSwitchBroke (some (normal, s)) = tt
  after_switch-NotSwitchBroke (some (broke, s)) = tt
  after_switch-NotSwitchBroke (some (continued, s)) = tt
  after_switch-NotSwitchBroke (some (switch_broke, s)) = tt
  after_switch-NotSwitchBroke (some (returned, s)) = tt
  after_switch-NotSwitchBroke (some (stopped, s)) = tt

  pub choose-elim :
      (P : Outcome S → Type 0) (r : Bool × S) (f g : S → Outcome S)
      → ((s : S) → P (f s))
      → ((s : S) → P (g s))
      → P (choose r f g)
  choose-elim P (true, s) f g hf hg = hf s
  choose-elim P (false, s) f g hf hg = hg s

  resume-NotSwitchBroke :
      (o : Outcome S) (k : S → Outcome S)
      → NotSwitchBroke o
      → ((s : S) → NotSwitchBroke (k s))
      → NotSwitchBroke (resume o k)
  resume-NotSwitchBroke none k h hk = tt
  resume-NotSwitchBroke (some (normal, s)) k h hk = hk s
  resume-NotSwitchBroke (some (broke, s)) k h hk = tt
  resume-NotSwitchBroke (some (continued, s)) k h hk = hk s
  resume-NotSwitchBroke (some (switch_broke, s)) k h hk = h
  resume-NotSwitchBroke (some (returned, s)) k h hk = tt
  resume-NotSwitchBroke (some (stopped, s)) k h hk = tt

  loop-NotSwitchBroke :
      (before after : S → Bool × S) (f : S → Outcome S)
      → ((s : S) → NotSwitchBroke (f s))
      → (fuel : ℕ) (s : S) → NotSwitchBroke (loop before after f fuel s)
  unfolding loop
  loop-NotSwitchBroke before after f h zero s = tt
  loop-NotSwitchBroke before after f h (suc fuel) s =
      choose-elim NotSwitchBroke (before s) _ finish
        (λ s1. resume-NotSwitchBroke (f s1) _ (h s1) (λ s2.
          choose-elim NotSwitchBroke (after s2) _ finish (loop-NotSwitchBroke before after f h fuel)
            (λ _. tt)))
        (λ _. tt)

module _ {S : Type 0} (m : Machine S) (fuel : ℕ) where
  code-NotSwitchBroke : (l : Last) (b : Bool) (s : S) → NotSwitchBroke (some (block_signal l b, s))
  code-NotSwitchBroke return_value true s = tt
  code-NotSwitchBroke return_value false s = tt
  code-NotSwitchBroke return_void true s = tt
  code-NotSwitchBroke return_void false s = tt
  code-NotSwitchBroke (unreachable p) b s = tt
  code-NotSwitchBroke branch b s = tt

  mutual
    unfolding exec Everywhere

    exec-NotSwitchBroke :
        (n : Node)
        → Everywhere IsPlain n
        → ¬ IsSwitchBreak n
        → (s : S) → NotSwitchBroke (exec m fuel n s)
    exec-NotSwitchBroke null p h s = tt
    exec-NotSwitchBroke (code i none b) p h s = tt
    exec-NotSwitchBroke (code i (some bb) b) p h s = code-NotSwitchBroke (m.last bb) b _
    exec-NotSwitchBroke (break i w) p h s = tt
    exec-NotSwitchBroke (continue i c true) p h s = tt
    exec-NotSwitchBroke (continue i c false) p h s = tt
    exec-NotSwitchBroke (if_node i bb c w t e) p h s =
        choose-elim NotSwitchBroke _ _ _ (exec-NotSwitchBroke t p.1 p.0.0)
          (exec-NotSwitchBroke e p.2 p.0.1)
    exec-NotSwitchBroke (scs i t b) p h s =
        loop-NotSwitchBroke _ _ _ (exec-NotSwitchBroke b p.1 p.0) fuel s
    exec-NotSwitchBroke (sequence i ns) p h s = exec_nodes-NotSwitchBroke ns p.1 p.0 s
    exec-NotSwitchBroke (switch i f cs) p h s = after_switch-NotSwitchBroke _
    exec-NotSwitchBroke (switch_break i q) p h s = absurd (h tt)
    exec-NotSwitchBroke (set i v k) p h s = tt

    exec_nodes-NotSwitchBroke :
        (ns : Nodes)
        → EverywhereNodes IsPlain ns
        → NoSwitchBreakNodes ns
        → (s : S) → NotSwitchBroke (exec_nodes m fuel ns s)
    exec_nodes-NotSwitchBroke nil p h s = tt
    exec_nodes-NotSwitchBroke (cons n ns) p h s =
        and_then-NotSwitchBroke _ _ (exec-NotSwitchBroke n p.0 h.0 s)
          (exec_nodes-NotSwitchBroke ns p.1 h.1)

  pub node-NotSwitchBroke :
      (n : Node)
      → Everywhere IsPlain n
      → ¬ IsSwitchBreak n
      → (s : S) → NotSwitchBroke (exec m fuel n s)
  node-NotSwitchBroke n p h s = exec-NotSwitchBroke n p h s
