-- ===== src/Beautify/While/Computation.antt =====
-- `addComputationToContinue` (BeautifyGHAST.cpp): what it keeps of a node.
use revng_c.Prelude.{ℕ, true, false, ◌≡◌, refl, subst, none, some, >>=-eq-some, of_some}
use revng_c.Ghast.Node.{
  Node, null, code, break, continue, if_node, scs, sequence, switch, switch_break, set, Nodes, nil,
  cons, Cases, no_case, case,
}
use revng_c.Semantics.{Machine, exec}
use revng_c.Semantics.Congruence.{
  Same, SameNodes, SameCases, SameNodes-refl, SameCases-refl, SameExpr-refl, Same-if_node,
  Same-sequence, Same-switch, SameNodes-cons, SameCases-case,
}
use revng_c.Beautify.DoWhile.{or_null}
use revng_c.Beautify.DoWhile.Promoted.{or_null-Same, leaf-Same}
use revng_c.Beautify.While.{add_computation, add_in_nodes, add_in_cases}

module _ {S : Type 0} (m : Machine S) (fuel : ℕ) where
  mutual
    unfolding add_computation exec

    add_computation-Same : (k : ℕ) (n n' : Node) → add_computation k n ≡ some n' → Same m fuel n' n
    add_computation-Same k (sequence i ns) n' e =
        let (r, e1, k1) = >>=-eq-some (add_in_nodes k ns) _ e in
        subst (λ x. Same m fuel x (sequence i ns)) (of_some k1)
          (Same-sequence i (add_in_nodes-Same k ns r e1))
    add_computation-Same k (if_node i bb c w t f) n' e =
        let (t', e1, k1) = >>=-eq-some (or_null t (add_computation k t)) _ e in
        let (f', e2, k2) = >>=-eq-some (or_null f (add_computation k f)) _ k1 in
        subst (λ x. Same m fuel x (if_node i bb c w t f)) (of_some k2)
          (Same-if_node i bb w (SameExpr-refl c)
            (or_null-Same m fuel t t' _ e1 (add_computation-Same k t t'))
            (or_null-Same m fuel f f' _ e2 (add_computation-Same k f f')))
    add_computation-Same k (switch i f cs) n' e =
        let (r, e1, k1) = >>=-eq-some (add_in_cases k cs) _ e in
        subst (λ x. Same m fuel x (switch i f cs)) (of_some k1)
          (Same-switch i f (add_in_cases-Same k cs r e1))
    add_computation-Same k (continue i none true) n' e =
        subst (λ x. Same m fuel x (continue i none true)) (of_some e) (record { at = refl })
    add_computation-Same k (continue i none false) n' e =
        subst (λ x. Same m fuel x (continue i none false)) (of_some e) (record { at = refl })
    add_computation-Same k (continue i (some j) x) n' e = absurd (cc e)
    add_computation-Same k null n' e = absurd (cc e)
    add_computation-Same k (scs i t b) n' e = leaf-Same m fuel (scs i t b) n' e
    add_computation-Same k (code i bb x) n' e = leaf-Same m fuel (code i bb x) n' e
    add_computation-Same k (break i x) n' e = leaf-Same m fuel (break i x) n' e
    add_computation-Same k (switch_break i x) n' e = leaf-Same m fuel (switch_break i x) n' e
    add_computation-Same k (set i v d) n' e = leaf-Same m fuel (set i v d) n' e

    add_in_nodes-Same : (k : ℕ) (ns r : Nodes) → add_in_nodes k ns ≡ some r → SameNodes m fuel r ns
    add_in_nodes-Same k nil r e =
        subst (λ x. SameNodes m fuel x nil) (of_some e) (SameNodes-refl nil)
    add_in_nodes-Same k (cons n ns) r e =
        let (n', e1, k1) = >>=-eq-some (add_computation k n) _ e in
        let (r', e2, k2) = >>=-eq-some (add_in_nodes k ns) _ k1 in
        subst (λ x. SameNodes m fuel x (cons n ns)) (of_some k2)
          (SameNodes-cons (add_computation-Same k n n' e1) (add_in_nodes-Same k ns r' e2))

    add_in_cases-Same : (k : ℕ) (cs r : Cases) → add_in_cases k cs ≡ some r → SameCases m fuel r cs
    add_in_cases-Same k no_case r e =
        subst (λ x. SameCases m fuel x no_case) (of_some e) (SameCases-refl no_case)
    add_in_cases-Same k (case l n cs) r e =
        let (n', e1, k1) = >>=-eq-some (add_computation k n) _ e in
        let (r', e2, k2) = >>=-eq-some (add_in_cases k cs) _ k1 in
        subst (λ x. SameCases m fuel x (case l n cs)) (of_some k2)
          (SameCases-case l (add_computation-Same k n n' e1) (add_in_cases-Same k cs r' e2))

  pub computed-Same : (k : ℕ) (n n' : Node) → add_computation k n ≡ some n' → Same m fuel n' n
  computed-Same = add_computation-Same
