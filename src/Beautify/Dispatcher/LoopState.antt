-- ===== src/Beautify/Dispatcher/LoopState.antt =====
-- `containsSet` (InlineDispatcherSwitch.cpp) against the loop state variable when a GHAST runs.
use revng_c.Prelude.{
  ℕ, zero, suc, Bool, true, false, not, ◌≡◌, refl, ap, ◌∙◌, Option, none, some, [], ◌∷◌, ◌>>=◌,
  >>=-eq-some, Bool-cases, inl, inr, subst,
}
use revng_c.Ghast.Expr.{block_value, loop_state, Expr, compare, atomic, negated, and_also, or_else}
use revng_c.Ghast.Node.{
  LoopType, while_true, while, do_while, Node, null, code, break, continue, if_node, scs, sequence,
  switch, switch_break, set, Nodes, nil, cons, Cases, no_case, case,
}
use revng_c.Semantics.{
  Machine, Signal, normal, broke, continued, switch_broke, Outcome, and_then, resume, after_switch,
  choose, finish, loop, is_in, eval, loop_before, loop_after, block_value_at, exec, exec_nodes,
  exec_cases,
}
use revng_c.Beautify.Dispatcher.{
  has_child, or_next, contains_set, nodes_contain_set, cases_contain_set,
}

-- Blocks do not touch the loop state variable.
pub record BlocksKeep {S : Type 0} (m : Machine S) : Type 0 where
  pub run : (bb : ℕ) (s : S) → m.loop_state_of (m.run_block bb s) ≡ m.loop_state_of s
  pub condition :
      (emit : Bool) (bb : ℕ) (s : S)
      → m.loop_state_of (m.condition_of emit bb s).1 ≡ m.loop_state_of s
  pub value :
      (emit : Bool) (bb : ℕ) (s : S) → m.loop_state_of (m.value_of emit bb s).1 ≡ m.loop_state_of s

or_next-false :
    (v : Bool) (r : Option Bool) → or_next v r ≡ some false → (v ≡ false) × (r ≡ some false)
or_next-false false r h = (refl, h)
or_next-false true r h = absurd (cc h)

pub next-false :
    (o r : Option Bool)
    → (o >>= λ v. or_next v r) ≡ some false
    → (o ≡ some false) × (r ≡ some false)
next-false o r h =
    let (v, e, k) = >>=-eq-some o _ h in let (p, q) = or_next-false v r k in (e ∙ ap some p, q)

module _ {S : Type 0} (m : Machine S) (fuel : ℕ) (q : BlocksKeep m) (u : ℕ) where
  -- the outcome, if there is one, has `u` in the loop state variable
  abbrev Keeps : Outcome S → Type 0
  Keeps none = Unit
  Keeps (some (g, s)) = m.loop_state_of s ≡ u

  and_then-Keeps :
      (o : Outcome S) (k : S → Outcome S)
      → Keeps o
      → ((s : S) → m.loop_state_of s ≡ u → Keeps (k s))
      → Keeps (and_then o k)
  and_then-Keeps (some (normal, s)) k h hk = hk s h
  and_then-Keeps _ k h hk = h

  resume-Keeps :
      (o : Outcome S) (k : S → Outcome S)
      → Keeps o
      → ((s : S) → m.loop_state_of s ≡ u → Keeps (k s))
      → Keeps (resume o k)
  resume-Keeps (some (normal, s)) k h hk = hk s h
  resume-Keeps (some (continued, s)) k h hk = hk s h
  resume-Keeps (some (broke, s)) k h hk = h
  resume-Keeps _ k h hk = h

  after_switch-Keeps : (o : Outcome S) → Keeps o → Keeps (after_switch o)
  after_switch-Keeps (some (switch_broke, s)) h = h
  after_switch-Keeps _ h = h

  choose-Keeps :
      (r : Bool × S) (f g : S → Outcome S)
      → m.loop_state_of r.1 ≡ u
      → ((s : S) → m.loop_state_of s ≡ u → Keeps (f s))
      → ((s : S) → m.loop_state_of s ≡ u → Keeps (g s))
      → Keeps (choose r f g)
  choose-Keeps (true, s) f g h hf hg = hf s h
  choose-Keeps (false, s) f g h hf hg = hg s h

  eval-kept :
      (e : Expr) (emit : Bool) (s : S) → m.loop_state_of (eval m emit e s).1 ≡ m.loop_state_of s
  unfolding eval
  eval-kept (compare (block_value bb) k c) emit s = q.value emit bb s
  eval-kept (compare loop_state k c) emit s = refl
  eval-kept (atomic bb) emit s = q.condition emit bb s
  eval-kept (negated e) emit s = eval-kept e emit s
  eval-kept (and_also a b) emit s = eval-kept b emit (eval m emit a s).1 ∙ eval-kept a emit s
  eval-kept (or_else a b) emit s = eval-kept b emit (eval m emit a s).1 ∙ eval-kept a emit s

  before-kept : (t : LoopType) (s : S) → m.loop_state_of (loop_before m t s).1 ≡ m.loop_state_of s
  before-kept while_true s = refl
  before-kept (while c) s = eval-kept c.cond_expr (not c.is_weaved) s
  before-kept (do_while c) s = refl

  after-kept : (t : LoopType) (s : S) → m.loop_state_of (loop_after m t s).1 ≡ m.loop_state_of s
  after-kept while_true s = refl
  after-kept (while c) s = refl
  after-kept (do_while c) s = eval-kept c.cond_expr (not c.is_weaved) s

  loop-Keeps :
      (t : LoopType) (f : S → Outcome S)
      → ((s : S) → m.loop_state_of s ≡ u → Keeps (f s))
      → (n : ℕ) (s : S) → m.loop_state_of s ≡ u
      → Keeps (loop (loop_before m t) (loop_after m t) f n s)
  unfolding loop
  loop-Keeps t f hf zero s h = tt
  loop-Keeps t f hf (suc n) s h =
      choose-Keeps (loop_before m t s) _ finish (before-kept t s ∙ h)
        (λ s1 h1. resume-Keeps (f s1) _ (hf s1 h1) (λ s2 h2.
          choose-Keeps (loop_after m t s2) _ finish (after-kept t s2 ∙ h2) (loop-Keeps t f hf n)
            (λ s3 h3. h3)))
        (λ s1 h1. h1)

  value-kept :
      (bb : Option ℕ) (emit : Bool) (s : S)
      → m.loop_state_of (block_value_at m bb emit s).1 ≡ m.loop_state_of s
  value-kept none emit s = refl
  value-kept (some bb) emit s = q.value emit bb s

  child-Keeps :
      (n : Node) (o : Option Bool)
      → has_child n o ≡ some false
      → (o ≡ some false → (s : S) → m.loop_state_of s ≡ u → Keeps (exec m fuel n s))
      → (s : S) → m.loop_state_of s ≡ u
      → Keeps (exec m fuel n s)
  unfolding exec
  child-Keeps null o e k s h = h
  child-Keeps n o e k s h = k e s h

  mutual
    unfolding contains_set exec

    keeps :
        (n : Node)
        → contains_set n ≡ some false
        → (s : S) → m.loop_state_of s ≡ u
        → Keeps (exec m fuel n s)
    keeps (sequence i ns) e s h = Keeps-nodes ns e s h
    keeps (scs i t b) e s h =
        loop-Keeps t (exec m fuel b) (child-Keeps b (contains_set b) e (keeps b)) fuel s h
    keeps (if_node i bb c w t f) e s h =
        let (et, ef) = next-false (has_child t (contains_set t)) _ e in
        choose-Keeps (eval m (not w) c s) _ _ (eval-kept c (not w) s ∙ h)
          (child-Keeps t (contains_set t) et (keeps t))
          (child-Keeps f (contains_set f) ef (keeps f))
    keeps (switch i f cs) e s h =
        after_switch-Keeps _
          (Keeps-cases cs e finish (λ s1 h1. h1) _ _ (value-kept f.bb (not f.is_weaved) s ∙ h))
    keeps (set i v k) e s h = absurd (cc e)
    keeps null e s h = h
    keeps (code i none x) e s h = h
    keeps (code i (some bb) x) e s h = q.run bb s ∙ h
    keeps (break i x) e s h = h
    keeps (continue i c true) e s h = h
    keeps (continue i c false) e s h = h
    keeps (switch_break i x) e s h = h

    Keeps-nodes :
        (ns : Nodes)
        → nodes_contain_set ns ≡ some false
        → (s : S) → m.loop_state_of s ≡ u
        → Keeps (exec_nodes m fuel ns s)
    Keeps-nodes nil e s h = h
    Keeps-nodes (cons n ns) e s h =
        let (en, es) = next-false (contains_set n) _ e in
        and_then-Keeps (exec m fuel n s) _ (keeps n en s h) (Keeps-nodes ns es)

    Keeps-cases :
        (cs : Cases)
        → cases_contain_set cs ≡ some false
        → (d : S → Outcome S) → ((s : S) → m.loop_state_of s ≡ u → Keeps (d s))
        → (v : ℕ) (s : S) → m.loop_state_of s ≡ u
        → Keeps (exec_cases m fuel cs d v s)
    Keeps-cases no_case e d hd v s h = hd s h
    Keeps-cases (case [] n cs) e d hd v s h =
        let (en, es) = next-false (contains_set n) _ e in
        Keeps-cases cs es (exec m fuel n) (keeps n en) v s h
    Keeps-cases (case (l ∷ ls) n cs) e d hd v s h =
        let (en, es) = next-false (contains_set n) _ e in
        elim (Bool-cases (is_in v (l ∷ ls))) [
          | inl hit ↦ rw hit (keeps n en s h)
          | inr miss ↦ rw miss (Keeps-cases cs es d hd v s h)
        ]

-- A GHAST in which `containsSet` finds no `set` leaves the loop state variable as it was, whenever it
-- has an outcome, if the basic blocks do not touch the variable.
pub contains_set-kept :
    {S : Type 0} (m : Machine S) (fuel : ℕ) (n : Node) (s s' : S) (g : Signal)
    → contains_set n ≡ some false
    → BlocksKeep m
    → exec m fuel n s ≡ some (g, s')
    → m.loop_state_of s' ≡ m.loop_state_of s
contains_set-kept m fuel n s s' g e q h =
    subst (Keeps m fuel q (m.loop_state_of s)) h (keeps m fuel q (m.loop_state_of s) n e s refl)
