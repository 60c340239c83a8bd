-- ===== src/Beautify/DoWhile/Continues.antt =====
-- Nodes that leave no `continue` to an enclosing loop, when they run.
use revng_c.Prelude.{ℕ, zero, suc, Bool, true, false, none, some, [], ◌∷◌, Bool-cases, inl, inr}
use revng_c.Ghast.Node.{
  Node, null, code, break, continue, if_node, scs, sequence, switch, switch_break, set, Nodes, nil,
  cons, Cases, no_case, case,
}
use revng_c.Semantics.{
  Machine, Last, return_value, return_void, unreachable, branch, normal, broke, continued,
  switch_broke, returned, stopped, Outcome, and_then, resume, after_switch, choose, finish, loop,
  is_in, block_signal, exec, exec_nodes, exec_cases,
}
use revng_c.Beautify.DoWhile.Loop.{NotContinued}
use revng_c.Beautify.DoWhile.Shape.{NoContinue, NoContinueNodes, NoContinueCases}

module _ {S : Type 0} (m : Machine S) (fuel : ℕ) where
  code-NotContinued : (l : Last) (b : Bool) (s : S) → NotContinued (some (block_signal l b, s))
  code-NotContinued return_value true s = tt
  code-NotContinued return_value false s = tt
  code-NotContinued return_void true s = tt
  code-NotContinued return_void false s = tt
  code-NotContinued (unreachable p) b s = tt
  code-NotContinued branch b s = tt

  choose-NotContinued :
      (r : Bool × S) (f g : S → Outcome S)
      → ((s : S) → NotContinued (f s))
      → ((s : S) → NotContinued (g s))
      → NotContinued (choose r f g)
  choose-NotContinued (true, s) f g hf hg = hf s
  choose-NotContinued (false, s) f g hf hg = hg s

  and_then-NotContinued :
      (o : Outcome S) (k : S → Outcome S)
      → NotContinued o
      → ((s : S) → NotContinued (k s))
      → NotContinued (and_then o k)
  and_then-NotContinued (some (normal, s)) k h hk = hk s
  and_then-NotContinued _ k h hk = h

  after_switch-NotContinued : (o : Outcome S) → NotContinued o → NotContinued (after_switch o)
  after_switch-NotContinued (some (switch_broke, s)) h = tt
  after_switch-NotContinued _ h = h

  -- a loop keeps its `continue`s to itself
  resume-NotContinued :
      (o : Outcome S) (k : S → Outcome S)
      → ((s : S) → NotContinued (k s))
      → NotContinued (resume o k)
  resume-NotContinued none k hk = tt
  resume-NotContinued (some (normal, s)) k hk = hk s
  resume-NotContinued (some (broke, s)) k hk = tt
  resume-NotContinued (some (continued, s)) k hk = hk s
  resume-NotContinued (some (switch_broke, s)) k hk = tt
  resume-NotContinued (some (returned, s)) k hk = tt
  resume-NotContinued (some (stopped, s)) k hk = tt

  loop-NotContinued :
      (before after : S → Bool × S) (f : S → Outcome S) (n : ℕ) (s : S)
      → NotContinued (loop before after f n s)
  unfolding loop
  loop-NotContinued before after f zero s = tt
  loop-NotContinued before after f (suc n) s =
      choose-NotContinued (before s) _ finish
        (λ s1. resume-NotContinued (f s1) _ (λ s2.
          choose-NotContinued (after s2) _ finish (loop-NotContinued before after f n) (λ _. tt)))
        (λ _. tt)

  mutual
    unfolding exec NoContinue

    not_continued : (n : Node) → NoContinue n → (s : S) → NotContinued (exec m fuel n s)
    not_continued null h s = tt
    not_continued (code i none b) h s = tt
    not_continued (code i (some bb) b) h s = code-NotContinued (m.last bb) b _
    not_continued (break i w) h s = tt
    not_continued (continue i c x) h s = absurd h
    not_continued (if_node i bb c w t e) h s =
        choose-NotContinued _ _ _ (not_continued t h.0) (not_continued e h.1)
    not_continued (scs i t b) h s = loop-NotContinued _ _ _ fuel s
    not_continued (sequence i ns) h s = NotContinued-nodes ns h s
    not_continued (switch i f cs) h s =
        after_switch-NotContinued _ (NotContinued-cases cs h finish (λ _. tt) _ _)
    not_continued (switch_break i q) h s = tt
    not_continued (set i v k) h s = tt

    pub NotContinued-nodes :
        (ns : Nodes) → NoContinueNodes ns → (s : S) → NotContinued (exec_nodes m fuel ns s)
    NotContinued-nodes nil h s = tt
    NotContinued-nodes (cons n ns) h s =
        and_then-NotContinued _ _ (not_continued n h.0 s) (NotContinued-nodes ns h.1)

    NotContinued-cases :
        (cs : Cases)
        → NoContinueCases cs
        → (d : S → Outcome S) → ((s : S) → NotContinued (d s))
        → (v : ℕ) (s : S) → NotContinued (exec_cases m fuel cs d v s)
    NotContinued-cases no_case h d hd v s = hd s
    NotContinued-cases (case [] n cs) h d hd v s =
        NotContinued-cases cs h.1 (exec m fuel n) (not_continued n h.0) v s
    NotContinued-cases (case (l ∷ ls) n cs) h d hd v s = elim (Bool-cases (is_in v (l ∷ ls))) [
      | inl hit ↦ rw hit (not_continued n h.0 s)
      | inr miss ↦ rw miss (NotContinued-cases cs h.1 d hd v s)
    ]
