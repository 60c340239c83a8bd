-- ===== src/Beautify/ImplicitStatement/Parts.antt =====
-- The parts of a visit, one at a time: what a marked part does beside the original.
use revng_c.Prelude.{
  ℕ, Bool, true, false, Bool-cases, ◌≡◌, refl, ap, ◌∙◌, inl, inr, some, none, Option,
}
use revng_c.Ghast.Node.{
  LoopType, Node, null, code, continue, scs, Nodes, cons, Cases, no_case, case,
}
use revng_c.Semantics.{Machine, Last, return_void, normal, Outcome, choose, exec, exec_nodes}
use revng_c.Beautify.ImplicitStatement.{
  StatementType, st_continue, st_return, is_return_void, simplify_continue, simplify_code,
  visit_branch, visit_child, simplify, simplify_cases,
}
use revng_c.Beautify.ImplicitStatement.Absorb.{
  Absorbs, and_then-Absorbs, and_then-Absorbs_right, resume-Absorbs,
}
use revng_c.Beautify.ImplicitStatement.Steps.{IsQuiet, loop-resume}

module _ {S : Type 0} (st : StatementType) (m : Machine S) (fuel : ℕ) where
  -- the marked node beside the original, from every state
  abbrev pub AbsorbsAt : Node → Node → Type 0
  AbsorbsAt n' n = (s : S) → Absorbs st (exec m fuel n' s) (exec m fuel n s)

  abbrev pub EndsQuietly : Node → Type 0
  EndsQuietly n = (s : S) → exec m fuel n s ≡ some (normal, s)

  pub choose-Absorbs :
      (r : Bool × S) (f' g' f g : S → Outcome S)
      → ((s : S) → Absorbs st (f' s) (f s))
      → ((s : S) → Absorbs st (g' s) (g s))
      → Absorbs st (choose r f' g') (choose r f g)
  choose-Absorbs (true, s) f' g' f g hf hg = hf s
  choose-Absorbs (false, s) f' g' f g hf hg = hg s

  pub choose-quiet :
      (r : Bool × S) (f g : S → Outcome S) (s : S)
      → r.1 ≡ s
      → ((t : S) → f t ≡ some (normal, t))
      → ((t : S) → g t ≡ some (normal, t))
      → choose r f g ≡ some (normal, s)
  choose-quiet (true, t) f g s e hf hg = hf t ∙ ap (λ u. some (normal, u)) e
  choose-quiet (false, t) f g s e hf hg = hg t ∙ ap (λ u. some (normal, u)) e

  pub visit_branch-Absorbs :
      (n : Node) (r : Node × Bool) → AbsorbsAt r.0 n → AbsorbsAt (visit_branch n r).0 n
  unfolding visit_branch
  visit_branch-Absorbs null r h s = inl refl
  visit_branch-Absorbs _ r h s = h s

  pub visit_branch-quiet :
      (n : Node) (r : Node × Bool)
      → (r.1 ≡ true → EndsQuietly r.0)
      → (visit_branch n r).1 ≡ true
      → EndsQuietly (visit_branch n r).0
  unfolding visit_branch exec
  visit_branch-quiet null r h e s = refl
  visit_branch-quiet _ r h e s = h e s

  pub visit_child-Absorbs :
      (n : Node) (r : Node × Bool) (ns : Nodes) (rs : Nodes × Bool)
      → AbsorbsAt r.0 n
      → ((s : S) → Absorbs st (exec_nodes m fuel rs.0 s) (exec_nodes m fuel ns s))
      → (rs.1 ≡ true → (s : S) → exec_nodes m fuel rs.0 s ≡ some (normal, s))
      → (s : S)
      → Absorbs st (exec_nodes m fuel (visit_child n r rs).0 s) (exec_nodes m fuel (cons n ns) s)
  unfolding visit_child exec
  visit_child-Absorbs n r ns (ns', true) hn hs quiet s =
      and_then-Absorbs st (exec m fuel r.0 s) (exec m fuel n s) (exec_nodes m fuel ns')
        (exec_nodes m fuel ns) (hn s) hs (quiet refl)
  visit_child-Absorbs n r ns (ns', false) hn hs quiet s =
      and_then-Absorbs_right st (exec m fuel n s) (exec_nodes m fuel ns') (exec_nodes m fuel ns) hs

  pub visit_child-quiet :
      (n : Node) (r : Node × Bool) (rs : Nodes × Bool)
      → (r.1 ≡ true → EndsQuietly r.0)
      → (rs.1 ≡ true → (s : S) → exec_nodes m fuel rs.0 s ≡ some (normal, s))
      → (visit_child n r rs).1 ≡ true
      → (s : S) → exec_nodes m fuel (visit_child n r rs).0 s ≡ some (normal, s)
  unfolding visit_child exec
  visit_child-quiet n r (ns, true) hn hs e s = rw (hn e) (hs refl s)
  visit_child-quiet n r (ns, false) hn hs e s = cc

is_return_void-eq : (l : Last) → is_return_void l ≡ true → l ≡ return_void
unfolding is_return_void
is_return_void-eq return_void h = refl
is_return_void-eq _ h = cc

module _ {S : Type 0} (m : Machine S) (fuel : ℕ) where
  pub simplify_continue-Absorbs :
      (st : StatementType) (i : ℕ) (c : Option ℕ) (b : Bool)
      → AbsorbsAt st m fuel (simplify_continue st i c b true).0 (continue i c b)
  unfolding exec simplify_continue
  simplify_continue-Absorbs st_continue i c true s = inl refl
  simplify_continue-Absorbs st_continue i c false s = inr (s, refl, refl)
  simplify_continue-Absorbs st_return i c b s = inl refl

  pub simplify_continue-quiet :
      (st : StatementType) (i : ℕ) (c : Option ℕ) (b : Bool)
      → (simplify_continue st i c b true).1 ≡ true
      → EndsQuietly st m fuel (simplify_continue st i c b true).0
  unfolding exec simplify_continue
  simplify_continue-quiet st_continue i c b h s = refl
  simplify_continue-quiet st_return i c b h s = cc

  code-Absorbs :
      (i bb : ℕ) (b : Bool)
      → m.last bb ≡ return_void
      → AbsorbsAt st_return m fuel (code i (some bb) true) (code i (some bb) b)
  unfolding exec
  code-Absorbs i bb true h s = inl refl
  code-Absorbs i bb false h s = rw h (inr (m.run_block bb s, refl, refl))

  pub simplify_code-Absorbs :
      (st : StatementType) (i : ℕ) (bb : Option ℕ) (b : Bool)
      → AbsorbsAt st m fuel (simplify_code st m.last i bb b true).0 (code i bb b)
  unfolding simplify_code
  simplify_code-Absorbs st_continue i bb b s = inl refl
  simplify_code-Absorbs st_return i none b s = inl refl
  simplify_code-Absorbs st_return i (some bb) b s = elim (Bool-cases (is_return_void (m.last bb))) [
    | inl e ↦ rw e (code-Absorbs i bb b (is_return_void-eq _ e) s)
    | inr e ↦ rw e (inl refl)
  ]

  code-quiet :
      (i bb : ℕ)
      → IsQuiet m
      → m.last bb ≡ return_void
      → EndsQuietly st_return m fuel (code i (some bb) true)
  unfolding exec
  code-quiet i bb q h s = rw (h, q.return_block bb s h)

  pub simplify_code-quiet :
      (st : StatementType) (i : ℕ) (bb : Option ℕ) (b : Bool)
      → IsQuiet m
      → (simplify_code st m.last i bb b true).1 ≡ true
      → EndsQuietly st m fuel (simplify_code st m.last i bb b true).0
  unfolding simplify_code
  simplify_code-quiet st_continue i bb b q h s = cc
  simplify_code-quiet st_return i none b q h s = cc
  simplify_code-quiet st_return i (some bb) b q h s =
      elim (Bool-cases (is_return_void (m.last bb))) [
        | inl e ↦ rw e (code-quiet i bb q (is_return_void-eq _ e) s)
        | inr e ↦ cc (rw e at h)
      ]

  pub scs-Absorbs :
      (i : ℕ) (t : LoopType) (b' b : Node)
      → AbsorbsAt st_continue m fuel b' b
      → (s : S) → exec m fuel (scs i t b') s ≡ exec m fuel (scs i t b) s
  unfolding exec
  scs-Absorbs i t b' b h s =
      loop-resume _ _ _ _ (λ u k. resume-Absorbs (exec m fuel b' u) (exec m fuel b u) k (h u)) fuel
        s

  pub simplify_cases-false :
      (st : StatementType) (cs : Cases) → (simplify_cases st m.last cs true false ≡ (cs, false))
  unfolding simplify
  simplify_cases-false st no_case = refl
  simplify_cases-false st (case l n cs) = rw (simplify_cases-false st cs)
