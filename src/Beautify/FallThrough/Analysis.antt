-- ===== src/Beautify/FallThrough/Analysis.antt =====
-- `fallThroughScopeImpl` (FallThroughScopeAnalysis.cpp): what its answer stands for.
use revng_c.Prelude.{
  ℕ, Bool, true, false, ◌≡◌, refl, ap, sym, ◌∙◌, ◌⊎◌, some, none, Option, [], ◌∷◌, >>=-eq-some,
  of_some, inl, inr, Bool-cases, arith,
}
use revng_c.Ghast.Node.{
  Node, null, code, break, continue, if_node, scs, sequence, switch, switch_break, set, Nodes, nil,
  cons, Cases, no_case, case, has_default,
}
use revng_c.Ghast.Identity.{node_id}
use revng_c.Ghast.Everywhere.{Everywhere, EverywhereNodes, EverywhereCases}
use revng_c.Semantics.{
  Machine, Outcome, finish, exec, exec_nodes, exec_cases, is_in, Last, return_value, return_void,
  unreachable, branch, block_signal,
}
use revng_c.Beautify.FallThrough.{
  ScopeType, fall_through, call_no_return, returns, Binary, ScopeMap, at, falls_through,
  combine_types, code_scope, note_code, child_scope, last_id, merge, switch_scope, scope,
  scope_nodes, scope_cases,
}
use revng_c.Beautify.FallThrough.Leaving.{
  Leaving, NoSwitchBreakNodes, IsPlain, and_then-Leaving, and_then-left, after_switch-Leaving,
  choose-elim, node-NotSwitchBroke,
}

pub combine_types-leaves :
    (a b : ScopeType)
    → falls_through (combine_types a b) ≡ false
    → (falls_through a ≡ false) × (falls_through b ≡ false)
unfolding combine_types
combine_types-leaves a b h = ground arith

pub note_code-type : (i : ℕ) (mp : ScopeMap) (t : ScopeType) → (note_code i mp t).0 ≡ t
unfolding note_code
note_code-type i mp returns = refl
note_code-type i mp call_no_return = refl
note_code-type i mp _ = refl

merge-leaves :
    (all : Option ScopeType) (t : ScopeType)
    → falls_through (merge all t) ≡ false
    → falls_through t ≡ false
merge-leaves none t h = h
merge-leaves (some a) t h = (combine_types-leaves a t h).1

code_scope-Leaving :
    {S : Type 0} (b : Binary) (l : Last) (t : ScopeType) (s : S)
    → code_scope b l ≡ some t
    → falls_through t ≡ false
    → Leaving (some (block_signal l false, s))
unfolding code_scope falls_through
code_scope-Leaving b return_value t s e h = tt
code_scope-Leaving b return_void t s e h = tt
code_scope-Leaving b (unreachable p) t s e h = tt
code_scope-Leaving b branch t s e h = cc (ap falls_through (of_some e))

child_scope-Leaving :
    {A : Type 0} (n : Node) (mp : ScopeMap) (x : Option (ScopeType × ScopeMap))
    (r : ScopeType × ScopeMap)
    → child_scope n mp x ≡ some r
    → falls_through r.0 ≡ false
    → ((r' : ScopeType × ScopeMap) → x ≡ some r' → falls_through r'.0 ≡ false → A)
    → A
unfolding child_scope falls_through
child_scope-Leaving null mp x r e h k = absurd (cc (ap (λ y. falls_through y.0) (of_some e)))
child_scope-Leaving n mp x r e h k =
    let (r', e', e'') = >>=-eq-some x _ e in k r' e' (ap (λ y. falls_through y.0) (of_some e'') ∙ h)

switch_scope-leaves :
    (has : Bool) (r : Option ScopeType × ScopeMap) (r' : ScopeType × ScopeMap)
    → switch_scope has r ≡ some r'
    → falls_through r'.0 ≡ false
    → (has ≡ true) × (t : ScopeType) × (r.0 ≡ some t) × (falls_through t ≡ false)
unfolding switch_scope falls_through
switch_scope-leaves true (t, mp) r' e h =
    let (x, e1, k1) = >>=-eq-some t _ e in
    (refl, x, e1, ap (λ y. falls_through y.0) (of_some k1) ∙ h)
switch_scope-leaves false (t, mp) r' e h = cc (ap (λ y. falls_through y.0) (of_some e))

module _ (b : Binary) (last : ℕ → Last) where
  -- the scope type of the cases only rises
  scope_cases-leaves :
      (cs : Cases) (a : ScopeType) (mp : ScopeMap) (r : Option ScopeType × ScopeMap) (t : ScopeType)
      → scope_cases b last cs (some a) mp ≡ some r
      → r.0 ≡ some t
      → falls_through t ≡ false
      → falls_through a ≡ false
  unfolding scope
  scope_cases-leaves no_case a mp r t e p h =
      ap falls_through (of_some (ap (λ y. y.0) (of_some e) ∙ p)) ∙ h
  scope_cases-leaves (case l n cs) a mp r t e p h =
      let (r', e', e'') = >>=-eq-some (scope b last n mp) _ e in
      (combine_types-leaves a r'.0 (scope_cases-leaves cs _ _ r t e'' p h)).0

not-fall_through :
    {mp : ScopeMap} (r : ScopeType × ScopeMap)
    → some (fall_through, mp) ≡ some r
    → falls_through r.0 ≡ false
    → ⊥
unfolding falls_through
not-fall_through r e h = cc (ap (λ y. falls_through y.0) (of_some e))

at-head : (i : ℕ) (t : ScopeType) (m : ScopeMap) → at ((i, t) ∷ m) i ≡ some t
unfolding at
at-head i t m = ground arith

-- the newest entry is that of the last child
last-leaves :
    (i l : ℕ) (r : ScopeType × ScopeMap) (mp : ScopeMap) (t : ScopeType)
    → (i, r.0) ∷ r.1 ≡ mp
    → i ≡ l
    → at mp l ≡ some t
    → falls_through t ≡ false
    → falls_through r.0 ≡ false
unfolding at
last-leaves i l r mp t e1 e2 e3 h =
    ap falls_through (of_some (sym (at-head i r.0 r.1) ∙ (λ k. at (e1 k) (e2 k)) ∙ e3)) ∙ h

module _ {S : Type 0} (b : Binary) (m : Machine S) (fuel : ℕ) where
  abbrev Leaves : Node → Type 0
  Leaves n = (s : S) → Leaving (exec m fuel n s)

  abbrev LeavesCases : Cases → Type 0
  LeavesCases no_case = Unit
  LeavesCases (case l n cs) = Leaves n × LeavesCases cs

  exec_cases-Leaving :
      (cs : Cases) (d : S → Outcome S) (v : ℕ) (s : S)
      → LeavesCases cs
      → (has_default cs ≡ true) ⊎ ((u : S) → Leaving (d u))
      → Leaving (exec_cases m fuel cs d v s)
  unfolding exec has_default
  exec_cases-Leaving no_case d v s h (inl e) = absurd (cc e)
  exec_cases-Leaving no_case d v s h (inr hd) = hd s
  exec_cases-Leaving (case [] n cs) d v s h o =
      exec_cases-Leaving cs (exec m fuel n) v s h.1 (inr h.0)
  exec_cases-Leaving (case (l ∷ ls) n cs) d v s h o = elim (Bool-cases (is_in v (l ∷ ls))) [
    | inl hit ↦ rw hit (h.0 s)
    | inr miss ↦ rw miss (exec_cases-Leaving cs d v s h.1 o)
  ]

  mutual
    unfolding exec Everywhere scope

    leaves :
        (n : Node) (mp : ScopeMap) (r : ScopeType × ScopeMap)
        → scope b m.last n mp ≡ some r
        → falls_through r.0 ≡ false
        → Everywhere IsPlain n
        → Leaves n
    leaves (sequence i ns) mp r e h p s =
        let (mp', e1, k1) = >>=-eq-some (scope_nodes b m.last ns mp) _ e in
        let (l, e2, k2) = >>=-eq-some (last_id ns) _ k1 in
        let (t, e3, k3) = >>=-eq-some (at mp' l) _ k2 in
        leaves_nodes ns mp mp' l t e1 e2 e3 (ap (λ y. falls_through y.0) (of_some k3) ∙ h) p.1 p.0 s
    leaves (if_node i bb c w t e) mp r q h p s =
        let (rt, e1, k1) = >>=-eq-some (child_scope t mp (scope b m.last t mp)) _ q in
        let (re, e2, k2) = >>=-eq-some (child_scope e rt.1 (scope b m.last e rt.1)) _ k1 in
        let both = combine_types-leaves rt.0 re.0 (ap (λ y. falls_through y.0) (of_some k2) ∙ h) in
        choose-elim Leaving _ _ _
          (child_scope-Leaving t mp _ rt e1 both.0 (λ r' x y. leaves t mp r' x y p.1))
          (child_scope-Leaving e rt.1 _ re e2 both.1 (λ r' x y. leaves e rt.1 r' x y p.2))
    leaves (switch i f cs) mp r e h p s =
        let (r', e1, k1) = >>=-eq-some (scope_cases b m.last cs none mp) _ e in
        let (hd, t, e2, h2) = switch_scope-leaves (has_default cs) r' r k1 h in
        after_switch-Leaving _
          (exec_cases-Leaving cs finish _ _ (leaves_cases cs none mp r' t e1 e2 h2 p.1) (inl hd))
    leaves (scs i t body) mp r e h p s =
        let (r', e1, k1) = >>=-eq-some (child_scope body mp (scope b m.last body mp)) _ e in
        absurd (not-fall_through r k1 h)
    leaves (code i none implicit) mp r e h p s = cc
    leaves (code i (some bb) implicit) mp r e h p s =
        let (t, e1, k1) = >>=-eq-some (code_scope b (m.last bb)) _ e in
        rw p (
          code_scope-Leaving b (m.last bb) t (m.run_block bb s) e1 (
            ap falls_through (sym (note_code-type i mp t))
            ∙ ap (λ y. falls_through y.0) (of_some k1)
            ∙ h))
    leaves (break i w) mp r e h p s = tt
    leaves (continue i c implicit) mp r e h p s = rw p tt
    leaves null mp r e h p s = cc
    leaves (switch_break i q) mp r e h p s = absurd (not-fall_through r e h)
    leaves (set i v k) mp r e h p s = absurd (not-fall_through r e h)

    leaves_nodes :
        (ns : Nodes) (mp mp' : ScopeMap) (l : ℕ) (t : ScopeType)
        → scope_nodes b m.last ns mp ≡ some mp'
        → last_id ns ≡ some l
        → at mp' l ≡ some t
        → falls_through t ≡ false
        → EverywhereNodes IsPlain ns
        → NoSwitchBreakNodes ns
        → (s : S) → Leaving (exec_nodes m fuel ns s)
    leaves_nodes nil mp mp' l t e1 e2 e3 h p q s = cc
    leaves_nodes (cons n nil) mp mp' l t e1 e2 e3 h p q s =
        let (r, e, k) = >>=-eq-some (scope b m.last n mp) _ e1 in
        let one =
          leaves n mp r e (last-leaves (node_id n) l r mp' t (of_some k) (of_some e2) e3 h) p.0 s in
        rw (and_then-left (exec m fuel n s) finish one) one
    leaves_nodes (cons n (cons k ns)) mp mp' l t e1 e2 e3 h p q s =
        let (r, e, rest) = >>=-eq-some (scope b m.last n mp) _ e1 in
        and_then-Leaving _ _ (node-NotSwitchBroke m fuel n p.0 q.0 s)
          (leaves_nodes (cons k ns) _ mp' l t rest e2 e3 h p.1 q.1)

    leaves_cases :
        (cs : Cases) (all : Option ScopeType) (mp : ScopeMap) (r : Option ScopeType × ScopeMap)
        (t : ScopeType)
        → scope_cases b m.last cs all mp ≡ some r
        → r.0 ≡ some t
        → falls_through t ≡ false
        → EverywhereCases IsPlain cs
        → LeavesCases cs
    leaves_cases no_case all mp r t e1 e2 h p = tt
    leaves_cases (case l n cs) all mp r t e1 e2 h p =
        let (r', e, rest) = >>=-eq-some (scope b m.last n mp) _ e1 in
        (
          leaves n mp r' e
              (merge-leaves all r'.0 (scope_cases-leaves b m.last cs _ _ r t rest e2 h)) p.0,
          leaves_cases cs _ _ r t rest e2 h p.1,
        )

  pub scope-Leaving :
      (n : Node) (mp : ScopeMap) (r : ScopeType × ScopeMap)
      → scope b m.last n mp ≡ some r
      → falls_through r.0 ≡ false
      → Everywhere IsPlain n
      → (s : S) → Leaving (exec m fuel n s)
  scope-Leaving n mp r e h p s = leaves n mp r e h p s

-- In a GHAST in which nothing is implicit and a switch break is a whole case: a node that the
-- analysis does not class as falling through never ends normally and never ends a `switch`, on any
-- machine, with any fuel and from any state.
pub scope-never-ends :
    {S : Type 0} (b : Binary) (m : Machine S) (fuel : ℕ) (n : Node) (mp : ScopeMap)
    (r : ScopeType × ScopeMap) (s : S)
    → scope b m.last n mp ≡ some r
    → falls_through r.0 ≡ false
    → Everywhere IsPlain n
    → Leaving (exec m fuel n s)
scope-never-ends b m fuel n mp r s e h p = scope-Leaving b m fuel n mp r e h p s
