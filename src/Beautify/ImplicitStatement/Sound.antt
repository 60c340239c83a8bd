-- ===== src/Beautify/ImplicitStatement/Sound.antt =====
-- A marked GHAST beside the original, by induction on the GHAST.
use revng_c.Prelude.{
  ℕ, Bool, true, false, and-eq-true, Bool-cases, ◌≡◌, refl, ap, ◌∙◌, inl, inr, some, [], ◌∷◌,
}
use revng_c.Ghast.Node.{
  LoopType, Node, code, continue, if_node, scs, sequence, switch, Nodes, nil, cons, Cases, no_case,
  case,
}
use revng_c.Ghast.Everywhere.{Everywhere, EverywhereNodes, EverywhereCases}
use revng_c.Semantics.{
  Machine, normal, Outcome, after_switch, finish, exec, exec_nodes, exec_cases, is_in,
}
use revng_c.Beautify.ImplicitStatement.{
  StatementType, st_continue, st_return, visit_case, simplify, simplify_nodes, simplify_cases,
}
use revng_c.Beautify.ImplicitStatement.Absorb.{Absorbs, after_switch-Absorbs}
use revng_c.Beautify.ImplicitStatement.Steps.{IsQuiet, LoopOk, eval-quiet, value-quiet}
use revng_c.Beautify.ImplicitStatement.Parts.{
  AbsorbsAt, EndsQuietly, choose-Absorbs, choose-quiet, visit_branch-Absorbs, visit_branch-quiet,
  visit_child-Absorbs, visit_child-quiet, simplify_continue-Absorbs, simplify_continue-quiet,
  simplify_code-Absorbs, simplify_code-quiet, scs-Absorbs, simplify_cases-false,
}

module _ {S : Type 0} (m : Machine S) (fuel : ℕ) where
  scs-step :
      (st : StatementType) (i : ℕ) (t : LoopType) (b : Node)
      → LoopOk st m.last (scs i t b)
      → AbsorbsAt st m fuel (simplify st m.last b true).0 b
      → AbsorbsAt st m fuel (scs i t (simplify st m.last b true).0) (scs i t b)
  scs-step st_continue i t b ok h s = inl (scs-Absorbs m fuel i t _ b h s)
  scs-step st_return i t b ok h s = absurd ok

  scs-loud :
      (st : StatementType) (i : ℕ) (t : LoopType) (b : Node)
      → LoopOk st m.last (scs i t b)
      → (simplify st m.last b true).1 ≡ true
      → ⊥
  scs-loud st_continue i t b ok h = cc
  scs-loud st_return i t b ok h = ok

  visit_case-Absorbs :
      (st : StatementType) (so_far : Bool) (n : Node) (r : Node × Bool)
      → AbsorbsAt st m fuel r.0 n
      → AbsorbsAt st m fuel (visit_case so_far n r).0 n
  unfolding visit_case
  visit_case-Absorbs st true n r h s = h s
  visit_case-Absorbs st false n r h s = inl refl

  visit_case-quiet :
      (st : StatementType) (so_far : Bool) (n : Node) (r : Node × Bool)
      → (r.1 ≡ true → EndsQuietly st m fuel r.0)
      → (visit_case so_far n r).1 ≡ true
      → EndsQuietly st m fuel (visit_case so_far n r).0
  unfolding visit_case
  visit_case-quiet st true n r h e s = h e s
  visit_case-quiet st false n r h e s = cc

  cases-true :
      (st : StatementType) (cs : Cases) (so_far : Bool)
      → (simplify_cases st m.last cs true so_far).1 ≡ true
      → so_far ≡ true
  cases-true st cs true h = refl
  cases-true st cs false h = cc (simplify_cases-false m fuel st cs)

module _ {S : Type 0} (st : StatementType) (m : Machine S) (fuel : ℕ) (q : IsQuiet m) where
  mutual
    unfolding simplify exec Everywhere

    quiet :
        (n : Node)
        → Everywhere (LoopOk st m.last) n
        → (simplify st m.last n true).1 ≡ true
        → EndsQuietly st m fuel (simplify st m.last n true).0
    quiet (sequence i ns) h e s = quiet_nodes ns h.1 e s
    quiet (scs i t b) h e s = absurd (scs-loud m fuel st i t b h.0 e)
    quiet (if_node i bb c w t e) h p s =
        let both = and-eq-true _ _ p in
        choose-quiet st m fuel _ _ _ s (eval-quiet m q _ c s)
          (visit_branch-quiet st m fuel t _ (quiet t h.1) both.1)
          (visit_branch-quiet st m fuel e _ (quiet e h.2) both.0)
    quiet (switch i f cs) h e s =
        ap after_switch (quiet_cases cs h.1 true e finish (λ u. refl) _ _)
        ∙ ap (λ u. some (normal, u)) (value-quiet m q f.bb _ s)
    quiet (continue i c b) h e s = simplify_continue-quiet m fuel st i c b e s
    quiet (code i bb b) h e s = simplify_code-quiet m fuel st i bb b q e s
    quiet _ h e s = cc

    quiet_nodes :
        (ns : Nodes)
        → EverywhereNodes (LoopOk st m.last) ns
        → (simplify_nodes st m.last ns true).1 ≡ true
        → (s : S) → exec_nodes m fuel (simplify_nodes st m.last ns true).0 s ≡ some (normal, s)
    quiet_nodes nil h e s = refl
    quiet_nodes (cons n ns) h e s =
        visit_child-quiet st m fuel n _ _ (quiet n h.0) (quiet_nodes ns h.1) e s

    quiet_cases :
        (cs : Cases)
        → EverywhereCases (LoopOk st m.last) cs
        → (so_far : Bool) → (simplify_cases st m.last cs true so_far).1 ≡ true
        → (d : S → Outcome S) → ((s : S) → d s ≡ some (normal, s))
        → (v : ℕ) (s : S)
        → exec_cases m fuel (simplify_cases st m.last cs true so_far).0 d v s ≡ some (normal, s)
    quiet_cases no_case h b e d hd v s = hd s
    quiet_cases (case [] n cs) h b e d hd v s =
        quiet_cases cs h.1 _ e _
          (visit_case-quiet m fuel st b n _ (quiet n h.0) (cases-true m fuel st cs _ e)) v s
    quiet_cases (case (l ∷ ls) n cs) h b e d hd v s = elim (Bool-cases (is_in v (l ∷ ls))) [
      | inl hit ↦
          rw hit (visit_case-quiet m fuel st b n _ (quiet n h.0) (cases-true m fuel st cs _ e) s)
      | inr miss ↦ rw miss (quiet_cases cs h.1 _ e d hd v s)
    ]

  mutual
    unfolding simplify exec Everywhere

    absorbs :
        (n : Node)
        → Everywhere (LoopOk st m.last) n
        → AbsorbsAt st m fuel (simplify st m.last n true).0 n
    absorbs (sequence i ns) h s = Absorbs-nodes ns h.1 s
    absorbs (scs i t b) h s = scs-step m fuel st i t b h.0 (absorbs b h.1) s
    absorbs (if_node i bb c w t e) h s =
        choose-Absorbs st m fuel _ _ _ _ _ (visit_branch-Absorbs st m fuel t _ (absorbs t h.1))
          (visit_branch-Absorbs st m fuel e _ (absorbs e h.2))
    absorbs (switch i f cs) h s =
        after_switch-Absorbs st _ _ (Absorbs-cases cs h.1 true finish finish (λ u. inl refl) _ _)
    absorbs (continue i c b) h s = simplify_continue-Absorbs m fuel st i c b s
    absorbs (code i bb b) h s = simplify_code-Absorbs m fuel st i bb b s
    absorbs _ h s = inl refl

    Absorbs-nodes :
        (ns : Nodes)
        → EverywhereNodes (LoopOk st m.last) ns
        → (s : S)
        → Absorbs st
            (exec_nodes m fuel (simplify_nodes st m.last ns true).0 s)
            (exec_nodes m fuel ns s)
    Absorbs-nodes nil h s = inl refl
    Absorbs-nodes (cons n ns) h s =
        visit_child-Absorbs st m fuel n _ ns _ (absorbs n h.0) (Absorbs-nodes ns h.1)
          (quiet_nodes ns h.1) s

    Absorbs-cases :
        (cs : Cases)
        → EverywhereCases (LoopOk st m.last) cs
        → (so_far : Bool) (d' d : S → Outcome S) → ((s : S) → Absorbs st (d' s) (d s))
        → (v : ℕ) (s : S)
        → Absorbs st
            (exec_cases m fuel (simplify_cases st m.last cs true so_far).0 d' v s)
            (exec_cases m fuel cs d v s)
    Absorbs-cases no_case h b d' d hd v s = hd s
    Absorbs-cases (case [] n cs) h b d' d hd v s =
        Absorbs-cases cs h.1 _ _ _ (visit_case-Absorbs m fuel st b n _ (absorbs n h.0)) v s
    Absorbs-cases (case (l ∷ ls) n cs) h b d' d hd v s = elim (Bool-cases (is_in v (l ∷ ls))) [
      | inl hit ↦ rw hit (visit_case-Absorbs m fuel st b n _ (absorbs n h.0) s)
      | inr miss ↦ rw miss (Absorbs-cases cs h.1 _ d' d hd v s)
    ]

  pub simplify-Absorbs :
      (n : Node)
      → Everywhere (LoopOk st m.last) n
      → (s : S) → Absorbs st (exec m fuel (simplify st m.last n true).0 s) (exec m fuel n s)
  simplify-Absorbs n h s = absorbs n h s
