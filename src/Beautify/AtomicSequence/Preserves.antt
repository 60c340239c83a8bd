-- ===== src/Beautify/AtomicSequence/Preserves.antt =====
-- `simplifyAtomicSequence` (ASTNodeUtils.cpp): the GHAST before and after it.
use revng_c.Prelude.{
  ℕ, Bool, true, false, ◌≡◌, refl, sym, subst, fun_ext, some, >>=-eq-some, of_some,
}
use revng_c.Ghast.Node.{
  Node, null, code, break, continue, if_node, scs, sequence, switch, switch_break, set, Nodes, nil,
  cons, Cases, no_case, case, is_null, has_default,
}
use revng_c.Ghast.Everywhere.{Everywhere, EverywhereNodes, EverywhereCases}
use revng_c.Semantics.{Machine, exec}
use revng_c.Semantics.Congruence.{
  and_then-finish, Same, SameNodes, SameExpr-refl, Same-refl, Same-trans, SameNodes-refl, Same-run,
  Same-if_node, Same-scs, Same-sequence, SameNodes-cons,
}
use revng_c.Beautify.AtomicSequence.{
  assert_some_node, or_absent, simplify_atomic_sequence, simplify_in_nodes, simplify_in_cases,
}
use revng_c.Beautify.AtomicSequence.Switches.{
  DisjointCases, HasDisjointLabels, NotNullCases, SameSwitch, no_case-SameSwitch, case-SameSwitch,
  switch-Same,
}

simplify-not_null :
    (fresh : ℕ) (n : Node) (r : Node × ℕ)
    → simplify_atomic_sequence fresh n ≡ some r
    → is_null n ≡ false
unfolding simplify_atomic_sequence is_null
simplify-not_null fresh null r e = cc
simplify-not_null fresh _ r e = refl

assert_some_node-same : (b : Bool) (r r' : Node × ℕ) → assert_some_node b r ≡ some r' → r ≡ r'
assert_some_node-same true r r' e = cc
assert_some_node-same false r r' e = of_some e

module _ {S : Type 0} (m : Machine S) (fuel : ℕ) where
  singleton-Same : (i : ℕ) (n : Node) → Same m fuel n (sequence i (cons n nil))
  unfolding exec
  singleton-Same i n = record { at = fun_ext λ s. sym (and_then-finish (exec m fuel n s)) }

  empty-Same : (i : ℕ) → Same m fuel null (sequence i nil)
  unfolding exec
  empty-Same i = record { at = fun_ext λ s. refl }

  or_absent-Same :
      (n : Node) (fresh : ℕ) (x : Node × ℕ)
      → or_absent n fresh (simplify_atomic_sequence fresh n) ≡ some x
      → (simplify_atomic_sequence fresh n ≡ some x → Same m fuel x.0 n)
      → Same m fuel x.0 n
  or_absent-Same null fresh x e k = subst (λ y. Same m fuel y.0 null) (of_some e) (Same-refl null)
  or_absent-Same n fresh x e k = k e

  not_null :
      (has : Bool) (parent : ℕ) (cs : Cases) (fresh : ℕ) (r : Cases × ℕ)
      → simplify_in_cases has parent fresh cs ≡ some r
      → NotNullCases cs
  unfolding simplify_atomic_sequence
  not_null has parent no_case fresh r e = tt
  not_null has parent (case l n cs) fresh r e =
      let (x, e1, k1) = >>=-eq-some (simplify_atomic_sequence fresh n) _ e in
      let (y, e2, k2) = >>=-eq-some (simplify_in_cases has parent _ cs) _ k1 in
      (simplify-not_null fresh n x e1, not_null has parent cs _ y e2)

  mutual
    unfolding simplify_atomic_sequence Everywhere

    same :
        (fresh : ℕ) (n : Node) (r : Node × ℕ)
        → simplify_atomic_sequence fresh n ≡ some r
        → Everywhere HasDisjointLabels n
        → Same m fuel r.0 n
    same fresh (sequence i nil) r e h =
        subst (λ x. Same m fuel x.0 (sequence i nil)) (of_some e) (empty-Same i)
    same fresh (sequence i (cons n nil)) r e h =
        Same-trans (same fresh n r e h.1.0) (singleton-Same i n)
    same fresh (sequence i (cons n (cons k ns))) r e h =
        let (x, e1, k1) = >>=-eq-some (simplify_atomic_sequence fresh n) _ e in
        let (y, e2, k2) = >>=-eq-some (simplify_atomic_sequence x.1 k) _ k1 in
        let (z, e3, k3) = >>=-eq-some (simplify_in_nodes y.1 ns) _ k2 in
        subst (λ u. Same m fuel u.0 (sequence i (cons n (cons k ns))))
          (assert_some_node-same _ _ r k3)
          (Same-sequence i (
            SameNodes-cons (same fresh n x e1 h.1.0)
              (SameNodes-cons (same x.1 k y e2 h.1.1.0) (same_nodes y.1 ns z e3 h.1.1.1))))
    same fresh (if_node i bb c w t f) r e h =
        let (x, e1, k1) = >>=-eq-some (or_absent t fresh (simplify_atomic_sequence fresh t)) _ e in
        let (y, e2, k2) = >>=-eq-some (or_absent f x.1 (simplify_atomic_sequence x.1 f)) _ k1 in
        subst (λ u. Same m fuel u.0 (if_node i bb c w t f)) (of_some k2)
          (Same-if_node i bb w (SameExpr-refl c)
            (or_absent-Same t fresh x e1 (λ p. same fresh t x p h.1))
            (or_absent-Same f x.1 y e2 (λ p. same x.1 f y p h.2)))
    same fresh (switch i f cs) r e h =
        let (x, e1, k1) = >>=-eq-some (simplify_in_cases (has_default cs) i fresh cs) _ e in
        subst (λ u. Same m fuel u.0 (switch i f cs)) (of_some k1)
          (switch-Same m fuel i f x.0 cs (same_cases (has_default cs) i fresh cs x e1 h.0 h.1))
    same fresh (scs i t b) r e h =
        let (x, e1, k1) = >>=-eq-some (or_absent b fresh (simplify_atomic_sequence fresh b)) _ e in
        subst (λ u. Same m fuel u.0 (scs i t b)) (of_some k1)
          (Same-scs i t (or_absent-Same b fresh x e1 (λ p. same fresh b x p h.1)))
    same fresh null r e h = absurd (cc e)
    same fresh (code i bb q) r e h =
        subst (λ x. Same m fuel x.0 (code i bb q)) (of_some e) (Same-refl (code i bb q))
    same fresh (break i q) r e h =
        subst (λ x. Same m fuel x.0 (break i q)) (of_some e) (Same-refl (break i q))
    same fresh (continue i c q) r e h =
        subst (λ x. Same m fuel x.0 (continue i c q)) (of_some e) (Same-refl (continue i c q))
    same fresh (switch_break i q) r e h =
        subst (λ x. Same m fuel x.0 (switch_break i q)) (of_some e) (Same-refl (switch_break i q))
    same fresh (set i v k) r e h =
        subst (λ x. Same m fuel x.0 (set i v k)) (of_some e) (Same-refl (set i v k))

    same_nodes :
        (fresh : ℕ) (ns : Nodes) (r : Nodes × ℕ)
        → simplify_in_nodes fresh ns ≡ some r
        → EverywhereNodes HasDisjointLabels ns
        → SameNodes m fuel r.0 ns
    same_nodes fresh nil r e h =
        subst (λ x. SameNodes m fuel x.0 nil) (of_some e) (SameNodes-refl nil)
    same_nodes fresh (cons n ns) r e h =
        let (x, e1, k1) = >>=-eq-some (simplify_atomic_sequence fresh n) _ e in
        let (y, e2, k2) = >>=-eq-some (simplify_in_nodes x.1 ns) _ k1 in
        subst (λ u. SameNodes m fuel u.0 (cons n ns)) (of_some k2)
          (SameNodes-cons (same fresh n x e1 h.0) (same_nodes x.1 ns y e2 h.1))

    same_cases :
        (has : Bool) (parent fresh : ℕ) (cs : Cases) (r : Cases × ℕ)
        → simplify_in_cases has parent fresh cs ≡ some r
        → DisjointCases cs
        → EverywhereCases HasDisjointLabels cs
        → SameSwitch m fuel has r.0 cs
    same_cases has parent fresh no_case r e q h =
        subst (λ x. SameSwitch m fuel has x.0 no_case) (of_some e) (no_case-SameSwitch m fuel has)
    same_cases has parent fresh (case l n cs) r e q h =
        let (x, e1, k1) = >>=-eq-some (simplify_atomic_sequence fresh n) _ e in
        let (y, e2, k2) = >>=-eq-some (simplify_in_cases has parent _ cs) _ k1 in
        subst (λ u. SameSwitch m fuel has u.0 (case l n cs)) (of_some k2)
          (case-SameSwitch m fuel has parent x.1 l n x.0 cs y.0 (same fresh n x e1 h.0)
            (simplify-not_null fresh n x e1) (not_null has parent cs _ y e2) q.0
            (same_cases has parent _ cs y e2 q.1 h.1))

  pub simplify-Same :
      (fresh : ℕ) (n : Node) (r : Node × ℕ)
      → simplify_atomic_sequence fresh n ≡ some r
      → Everywhere HasDisjointLabels n
      → Same m fuel r.0 n
  simplify-Same fresh n r e h = same fresh n r e h

-- Where no label stands at two cases of a `switch`, the GHAST that `simplify_atomic_sequence` returns,
-- with its cases erased and its new switch breaks, has the outcome of the GHAST that it was given, on
-- every machine, with any fuel and from any state.
pub exec-simplify_atomic_sequence :
    {S : Type 0} (m : Machine S) (fuel fresh : ℕ) (n : Node) (r : Node × ℕ) (s : S)
    → simplify_atomic_sequence fresh n ≡ some r
    → Everywhere HasDisjointLabels n
    → exec m fuel r.0 s ≡ exec m fuel n s
exec-simplify_atomic_sequence m fuel fresh n r s e h =
    Same-run (simplify-Same m fuel fresh n r e h) s
