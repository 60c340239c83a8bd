-- ===== src/Beautify/AtomicSequence/Succeeds.antt =====
-- `simplifyAtomicSequence` (ASTNodeUtils.cpp): its assertion.
use revng_c.Prelude.{ℕ, Bool, false, ◌≡◌, refl, subst, some, >>=-eq-some, of_some, Succeeds, chain}
use revng_c.Ghast.Node.{
  Node, null, code, break, continue, if_node, scs, sequence, switch, switch_break, set, Nodes, nil,
  cons, Cases, no_case, case, is_null, has_default,
}
use revng_c.Ghast.Everywhere.{
  Everywhere, EverywhereNodes, EverywhereCases, NoNullNodes, NoNullCases, IsWellFormed,
}
use revng_c.Beautify.Sequences.Flat.{IsSequence, IsFlat}
use revng_c.Beautify.AtomicSequence.{
  all_null, assert_some_node, or_absent, keep_or_break, next_fresh, simplify_atomic_sequence,
  simplify_in_nodes, simplify_in_cases,
}

-- what is no sequence stays there
simplify-keeps :
    (fresh : ℕ) (n : Node) (r : Node × ℕ)
    → ¬ IsSequence n
    → simplify_atomic_sequence fresh n ≡ some r
    → is_null r.0 ≡ false
unfolding simplify_atomic_sequence is_null
simplify-keeps fresh null r h e = absurd (cc e)
simplify-keeps fresh (sequence i ns) r h e = absurd (h tt)
simplify-keeps fresh (if_node i bb c w t f) r h e =
    let (x, e1, k1) = >>=-eq-some (or_absent t fresh (simplify_atomic_sequence fresh t)) _ e in
    let (y, e2, k2) = >>=-eq-some (or_absent f x.1 (simplify_atomic_sequence x.1 f)) _ k1 in
    subst (λ u. is_null u.0 ≡ false) (of_some k2) refl
simplify-keeps fresh (scs i t b) r h e =
    let (x, e1, k1) = >>=-eq-some (or_absent b fresh (simplify_atomic_sequence fresh b)) _ e in
    subst (λ u. is_null u.0 ≡ false) (of_some k1) refl
simplify-keeps fresh (switch i f cs) r h e =
    let (x, e1, k1) = >>=-eq-some (simplify_in_cases (has_default cs) i fresh cs) _ e in
    subst (λ u. is_null u.0 ≡ false) (of_some k1) refl
simplify-keeps fresh n r h e = subst (λ u. is_null u.0 ≡ false) (of_some e) refl

assert-Succeeds :
    (x : Node) (ns : Nodes) (r : Node × ℕ)
    → is_null x ≡ false
    → Succeeds (assert_some_node (all_null (cons x ns)) r)
unfolding all_null
assert-Succeeds x ns r h = (r, rw h refl)

or_absent-Succeeds :
    (n : Node) (fresh : ℕ)
    → (is_null n ≡ false → Succeeds (simplify_atomic_sequence fresh n))
    → Succeeds (or_absent n fresh (simplify_atomic_sequence fresh n))
unfolding is_null
or_absent-Succeeds null fresh k = ((null, fresh), refl)
or_absent-Succeeds _ fresh k = k refl

mutual
  unfolding simplify_atomic_sequence Everywhere is_null

  node-Succeeds :
      (n : Node) (fresh : ℕ)
      → is_null n ≡ false
      → Everywhere IsFlat n
      → Everywhere IsWellFormed n
      → Succeeds (simplify_atomic_sequence fresh n)
  node-Succeeds (sequence i nil) fresh h p q = ((null, fresh), refl)
  node-Succeeds (sequence i (cons n nil)) fresh h p q = node-Succeeds n fresh q.0.0 p.1.0 q.1.0
  node-Succeeds (sequence i (cons n (cons k ns))) fresh h p q =
      chain _ _ (node-Succeeds n fresh q.0.0 p.1.0 q.1.0) (λ x ex.
        chain _ _ (node-Succeeds k x.1 q.0.1.0 p.1.1.0 q.1.1.0) (λ y _.
          chain _ _ (nodes-Succeeds ns y.1 q.0.1.1 p.1.1.1 q.1.1.1)
            (λ z _. assert-Succeeds x.0 (cons y.0 z.0) _ (simplify-keeps fresh n x p.0.0 ex))))
  node-Succeeds (if_node i bb c w t e) fresh h p q =
      chain _ _ (or_absent-Succeeds t fresh (λ k. node-Succeeds t fresh k p.1 q.1)) (λ x _.
        chain _ _ (or_absent-Succeeds e x.1 (λ k. node-Succeeds e x.1 k p.2 q.2))
          (λ y _. ((if_node i bb c w x.0 y.0, y.1), refl)))
  node-Succeeds (scs i t b) fresh h p q =
      chain _ _ (or_absent-Succeeds b fresh (λ k. node-Succeeds b fresh k p.1 q.1))
        (λ x _. ((scs i t x.0, x.1), refl))
  node-Succeeds (switch i f cs) fresh h p q =
      chain _ _ (cases-Succeeds cs (has_default cs) i fresh q.0 p.1 q.1)
        (λ x _. ((switch i f x.0, x.1), refl))
  node-Succeeds null fresh h p q = absurd (cc h)
  node-Succeeds (code i bb x) fresh h p q = ((code i bb x, fresh), refl)
  node-Succeeds (break i w) fresh h p q = ((break i w, fresh), refl)
  node-Succeeds (continue i c x) fresh h p q = ((continue i c x, fresh), refl)
  node-Succeeds (switch_break i x) fresh h p q = ((switch_break i x, fresh), refl)
  node-Succeeds (set i v k) fresh h p q = ((set i v k, fresh), refl)

  nodes-Succeeds :
      (ns : Nodes) (fresh : ℕ)
      → NoNullNodes ns
      → EverywhereNodes IsFlat ns
      → EverywhereNodes IsWellFormed ns
      → Succeeds (simplify_in_nodes fresh ns)
  nodes-Succeeds nil fresh h p q = ((nil, fresh), refl)
  nodes-Succeeds (cons n ns) fresh h p q =
      chain _ _ (node-Succeeds n fresh h.0 p.0 q.0)
        (λ x _. chain _ _ (nodes-Succeeds ns x.1 h.1 p.1 q.1) (λ y _. ((cons x.0 y.0, y.1), refl)))

  cases-Succeeds :
      (cs : Cases) (has : Bool) (parent fresh : ℕ)
      → NoNullCases cs
      → EverywhereCases IsFlat cs
      → EverywhereCases IsWellFormed cs
      → Succeeds (simplify_in_cases has parent fresh cs)
  cases-Succeeds no_case has parent fresh h p q = ((no_case, fresh), refl)
  cases-Succeeds (case l n cs) has parent fresh h p q =
      chain _ _ (node-Succeeds n fresh h.0 p.0 q.0) (λ x _.
        chain _ _ (cases-Succeeds cs has parent (next_fresh has x.0 x.1) h.1 p.1 q.1)
          (λ y _. ((keep_or_break has parent x.1 l x.0 y.0, y.1), refl)))

-- On a well-formed GHAST in which no sequence is a child of a sequence, as `collapse_sequences` leaves
-- it, `simplify_atomic_sequence` returns a GHAST: no sequence is left with nothing but null pointers.
pub simplify_atomic_sequence-succeeds :
    (n : Node) (fresh : ℕ)
    → is_null n ≡ false
    → Everywhere IsFlat n
    → Everywhere IsWellFormed n
    → (r : Node × ℕ) × (simplify_atomic_sequence fresh n ≡ some r)
simplify_atomic_sequence-succeeds n fresh h p q = node-Succeeds n fresh h p q
