-- ===== src/Beautify/DoWhile/Preserves.antt =====
-- `matchDoWhile` (BeautifyGHAST.cpp): the GHAST before and after it.
use revng_c.Prelude.{ℕ, ◌≡◌, subst, some, >>=-eq-some, of_some}
use revng_c.Ghast.Node.{
  LoopType, Node, null, code, break, continue, if_node, scs, sequence, switch, switch_break, set,
  Nodes, nil, cons, Cases, no_case, case,
}
use revng_c.Ghast.Everywhere.{Everywhere, EverywhereNodes, EverywhereCases}
use revng_c.Semantics.{Machine, exec}
use revng_c.Semantics.Congruence.{
  Same, SameNodes, SameCases, SameNodes-refl, SameCases-refl, SameExpr-refl, Same-run, Same-if_node,
  Same-sequence, Same-switch, SameNodes-cons, SameCases-case,
}
use revng_c.Beautify.DoWhile.{or_null, match_do_while, do_while_in_nodes, do_while_in_cases}
use revng_c.Beautify.DoWhile.Shape.{IsDoWhileBody, distinct-match, match_loop-elim}
use revng_c.Beautify.DoWhile.Last.{init-NoContinue}
use revng_c.Beautify.DoWhile.Promoted.{BodyOk, loop-Same, or_null-Same, leaf-Same}

module _ {S : Type 0} (m : Machine S) (fuel : ℕ) where
  -- the body of a loop, once it is processed
  processed-BodyOk :
      (i : ℕ) (t : LoopType) (b b' : Node)
      → match_do_while b ≡ some b'
      → IsDoWhileBody (scs i t b)
      → BodyOk b'
  unfolding match_do_while
  processed-BodyOk i t (sequence j ns) b' e h =
      let (r, e1, k1) = >>=-eq-some (do_while_in_nodes ns) _ e in
      subst BodyOk (of_some k1)
        (distinct-match ns r e1 h.0, λ x p c. init-NoContinue ns r x e1 p c h.1)
  processed-BodyOk i t (if_node j bb c w th el) b' e h =
      let (t', e1, k1) = >>=-eq-some (or_null th (match_do_while th)) _ e in
      let (f', e2, k2) = >>=-eq-some (or_null el (match_do_while el)) _ k1 in
      subst BodyOk (of_some k2) tt
  processed-BodyOk i t (switch j f cs) b' e h =
      let (r, e1, k1) = >>=-eq-some (do_while_in_cases cs) _ e in subst BodyOk (of_some k1) tt
  processed-BodyOk i t (scs j t' b) b' e h =
      match_loop-elim BodyOk j (λ t'' b''. tt) t' b (match_do_while b) b' e
  processed-BodyOk i t null b' e h = absurd (cc e)
  processed-BodyOk i t (code j bb x) b' e h = subst BodyOk (of_some e) tt
  processed-BodyOk i t (break j x) b' e h = subst BodyOk (of_some e) tt
  processed-BodyOk i t (continue j c x) b' e h = subst BodyOk (of_some e) tt
  processed-BodyOk i t (switch_break j x) b' e h = subst BodyOk (of_some e) tt
  processed-BodyOk i t (set j v k) b' e h = subst BodyOk (of_some e) tt

  mutual
    unfolding match_do_while Everywhere

    same :
        (n n' : Node) → match_do_while n ≡ some n' → Everywhere IsDoWhileBody n → Same m fuel n' n
    same (sequence i ns) n' e h =
        let (r, e1, k1) = >>=-eq-some (do_while_in_nodes ns) _ e in
        subst (λ x. Same m fuel x (sequence i ns)) (of_some k1)
          (Same-sequence i (same_nodes ns r e1 h.1))
    same (if_node i bb c w t f) n' e h =
        let (t', e1, k1) = >>=-eq-some (or_null t (match_do_while t)) _ e in
        let (f', e2, k2) = >>=-eq-some (or_null f (match_do_while f)) _ k1 in
        subst (λ x. Same m fuel x (if_node i bb c w t f)) (of_some k2)
          (Same-if_node i bb w (SameExpr-refl c)
            (or_null-Same m fuel t t' _ e1 (λ x. same t t' x h.1))
            (or_null-Same m fuel f f' _ e2 (λ x. same f f' x h.2)))
    same (switch i f cs) n' e h =
        let (r, e1, k1) = >>=-eq-some (do_while_in_cases cs) _ e in
        subst (λ x. Same m fuel x (switch i f cs)) (of_some k1)
          (Same-switch i f (same_cases cs r e1 h.1))
    same (scs i t b) n' e h =
        loop-Same m fuel i t b (match_do_while b) n' e
          (λ b' x. (same b b' x h.1, processed-BodyOk i t b b' x h.0))
    same null n' e h = absurd (cc e)
    same (code i bb x) n' e h = leaf-Same m fuel (code i bb x) n' e
    same (break i x) n' e h = leaf-Same m fuel (break i x) n' e
    same (continue i c x) n' e h = leaf-Same m fuel (continue i c x) n' e
    same (switch_break i x) n' e h = leaf-Same m fuel (switch_break i x) n' e
    same (set i v k) n' e h = leaf-Same m fuel (set i v k) n' e

    same_nodes :
        (ns r : Nodes)
        → do_while_in_nodes ns ≡ some r
        → EverywhereNodes IsDoWhileBody ns
        → SameNodes m fuel r ns
    same_nodes nil r e h = subst (λ x. SameNodes m fuel x nil) (of_some e) (SameNodes-refl nil)
    same_nodes (cons n ns) r e h =
        let (n', e1, k1) = >>=-eq-some (match_do_while n) _ e in
        let (r', e2, k2) = >>=-eq-some (do_while_in_nodes ns) _ k1 in
        subst (λ x. SameNodes m fuel x (cons n ns)) (of_some k2)
          (SameNodes-cons (same n n' e1 h.0) (same_nodes ns r' e2 h.1))

    same_cases :
        (cs r : Cases)
        → do_while_in_cases cs ≡ some r
        → EverywhereCases IsDoWhileBody cs
        → SameCases m fuel r cs
    same_cases no_case r e h =
        subst (λ x. SameCases m fuel x no_case) (of_some e) (SameCases-refl no_case)
    same_cases (case l n cs) r e h =
        let (n', e1, k1) = >>=-eq-some (match_do_while n) _ e in
        let (r', e2, k2) = >>=-eq-some (do_while_in_cases cs) _ k1 in
        subst (λ x. SameCases m fuel x (case l n cs)) (of_some k2)
          (SameCases-case l (same n n' e1 h.0) (same_cases cs r' e2 h.1))

-- Where no node stands twice in the body of a loop, and a body that ends in an `if` between `break`
-- and `continue` has no other `continue`, the GHAST after `matchDoWhile` has the outcome of the one
-- before it, from any state and with the same fuel.
pub exec-match_do_while :
    {S : Type 0} (m : Machine S) (fuel : ℕ) (n n' : Node) (s : S)
    → match_do_while n ≡ some n'
    → Everywhere IsDoWhileBody n
    → exec m fuel n' s ≡ exec m fuel n s
exec-match_do_while m fuel n n' s e h = Same-run (same m fuel n n' e h) s
