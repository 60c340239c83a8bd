-- ===== src/Beautify/DualSwitch/Preserves.antt =====
-- `simplifyDualSwitch` (SimplifyDualSwitch.cpp): the GHAST before and after it.
use revng_c.Prelude.{
  ℕ, true, ◌≡◌, ap, sym, ◌∙◌, subst, fun_ext, Option, some, List, [], ◌∷◌, >>=-eq-some, of_some,
}
use revng_c.Ghast.Node.{
  SwitchFields, Node, null, code, break, continue, if_node, scs, sequence, switch, switch_break,
  set, Nodes, nil, cons, Cases, no_case, case,
}
use revng_c.Ghast.Everywhere.{Everywhere, EverywhereNodes, EverywhereCases}
use revng_c.Semantics.{Machine, exec}
use revng_c.Semantics.Congruence.{
  Same, SameNodes, SameCases, Same-refl, SameNodes-refl, SameCases-refl, SameExpr-refl, Same-run,
  Same-trans, SameNodes-trans, Same-if_node, Same-scs, Same-sequence, Same-switch, SameNodes-cons,
  SameCases-case,
}
use revng_c.Beautify.FallThrough.Leaving.{
  NotSwitchBroke, IsPlain, IsSwitchBreak, node-NotSwitchBroke,
}
use revng_c.Beautify.AtomicSequence.{or_absent}
use revng_c.Beautify.DualSwitch.{
  is_present, switch_to_if, remove_null, simplify_dual_switch, dual_in_nodes, dual_in_cases,
}
use revng_c.Beautify.DualSwitch.Promoted.{is_switch_break, CaseOk}
use revng_c.Beautify.DualSwitch.Switches.{IsDecided, IsDual, one-Same, two-Same, more-Same}
use revng_c.Beautify.DualSwitch.Visited.{
  switch_to_if-other, two-not_lone, two-IsDecided, fewer, still, one-visited, two-visited,
  more-visited, IsLoneDefault,
}

module _ {S : Type 0} (m : Machine S) (fuel : ℕ) where
  remove_null-Same : (ns : Nodes) → SameNodes m fuel (remove_null ns) ns
  unfolding remove_null exec
  remove_null-Same nil = SameNodes-refl nil
  remove_null-Same (cons null ns) = record {
    at = fun_ext λ s. ap (λ f. f s) (remove_null-Same ns).at;
  }
  remove_null-Same (cons n ns) = SameNodes-cons (Same-refl n) (remove_null-Same ns)

  CaseOk-of : (n : Node) → ((s : S) → NotSwitchBroke (exec m fuel n s)) → CaseOk m fuel n
  CaseOk-of (switch_break i p) h = tt
  CaseOk-of n h = h

  record Done (n n' : Node) : Type 0 where
    same : Same m fuel n' n
    ok : CaseOk m fuel n'
    breaks : is_switch_break n' ≡ true → is_switch_break n ≡ true

  Done-other :
      (n n' : Node)
      → Everywhere IsPlain n
      → ¬ IsSwitchBreak n
      → Same m fuel n' n
      → (is_switch_break n' ≡ true → is_switch_break n ≡ true)
      → Done n n'
  Done-other n n' p nb h b = record {
    same = h;
    ok =
        CaseOk-of n'
          (λ s. subst NotSwitchBroke (sym (Same-run h s)) (node-NotSwitchBroke m fuel n p nb s));
    breaks = b;
  }

  leaf-Done :
      (n : Node) (fresh : ℕ) (r : Node × ℕ)
      → some (n, fresh) ≡ some r
      → CaseOk m fuel n
      → Done n r.0
  leaf-Done n fresh r e h =
      subst (λ (x : Node × ℕ). Done n x.0) (of_some e)
        (record { same = Same-refl n; ok = h; breaks = λ b. b })

  absent-Same :
      (n : Node) (fresh : ℕ) (o : Option (Node × ℕ)) (r : Node × ℕ)
      → or_absent n fresh o ≡ some r
      → (o ≡ some r → Done n r.0)
      → Same m fuel r.0 n
  absent-Same null fresh o r e k =
      subst (λ (x : Node × ℕ). Same m fuel x.0 null) (of_some e) (Same-refl null)
  absent-Same n fresh o r e k = (k e).same

  -- a switch in the place of a switch whose cases are visited
  switch-Done :
      (i fresh : ℕ) (f : SwitchFields) (cs cs' : Cases) (r : Node × ℕ)
      → switch_to_if i fresh f cs' ≡ some r
      → ¬ IsLoneDefault cs'
      → Everywhere IsPlain (switch i f cs)
      → Same m fuel r.0 (switch i f cs')
      → SameCases m fuel cs' cs
      → Done (switch i f cs) r.0
  switch-Done i fresh f cs cs' r e lone p h hc =
      Done-other (switch i f cs) r.0 p (λ x. x) (Same-trans h (Same-switch i f hc))
        (λ b. absurd (cc (b, switch_to_if-other i fresh f cs' r e lone)))

  one-Done :
      (i a fresh : ℕ) (l : List ℕ) (f : SwitchFields) (n : Node) (x : Cases × ℕ) (r : Node × ℕ)
      → dual_in_cases fresh (case (a ∷ l) n no_case) ≡ some x
      → switch_to_if i x.1 f x.0 ≡ some r
      → ((y : Node × ℕ) → simplify_dual_switch fresh n ≡ some y → Done n y.0)
      → IsDual m (switch i f (case (a ∷ l) n no_case))
      → Everywhere IsPlain (switch i f (case (a ∷ l) n no_case))
      → Done (switch i f (case (a ∷ l) n no_case)) r.0
  one-Done i a fresh l f n x r e q k d p =
      let (y, ey, shape) = one-visited fresh (a ∷ l) n x e in
      let h = k y ey in
      let q' = ap (λ (u : Cases × ℕ). switch_to_if i u.1 f u.0) shape ∙ q in
      switch-Done i y.1 f (case (a ∷ l) n no_case) (case (a ∷ l) y.0 no_case) r q' (λ z. z) p
        (one-Same m fuel i y.1 a l f y.0 r q'
          (still (is_present f.condition) (is_switch_break n) (is_switch_break y.0) h.breaks d)
          h.ok)
        (SameCases-case (a ∷ l) h.same (SameCases-refl no_case))

  two-Done :
      (i fresh : ℕ) (l o : List ℕ) (f : SwitchFields) (n j : Node) (x : Cases × ℕ) (r : Node × ℕ)
      → dual_in_cases fresh (case l n (case o j no_case)) ≡ some x
      → switch_to_if i x.1 f x.0 ≡ some r
      → ((y : Node × ℕ) → simplify_dual_switch fresh n ≡ some y → Done n y.0)
      → ((y : Node × ℕ) (g : ℕ) → simplify_dual_switch g j ≡ some y → Done j y.0)
      → IsDecided m f l o n j
      → Everywhere IsPlain (switch i f (case l n (case o j no_case)))
      → Done (switch i f (case l n (case o j no_case))) r.0
  two-Done i fresh l o f n j x r e q k kj d p =
      let (y, z, ey, ez, shape) = two-visited fresh l o n j x e in
      let h = k y ey in
      let g = kj z y.1 ez in
      let q' = ap (λ (u : Cases × ℕ). switch_to_if i u.1 f u.0) shape ∙ q in
      switch-Done i z.1 f (case l n (case o j no_case)) (case l y.0 (case o z.0 no_case)) r q'
        (two-not_lone l o y.0 z.0 no_case) p
        (two-Same m fuel i z.1 l o f y.0 z.0 r q'
          (record {
            disjoint = d.disjoint;
            covered = d.covered;
            something =
                fewer (is_present f.condition) (is_switch_break n) (is_switch_break j)
                  (is_switch_break y.0) (is_switch_break z.0) h.breaks g.breaks d.something;
          })
          h.ok g.ok)
        (SameCases-case l h.same (SameCases-case o g.same (SameCases-refl no_case)))

  more-Done :
      (i fresh : ℕ) (l o u : List ℕ) (f : SwitchFields) (n j b : Node) (cs : Cases) (x : Cases × ℕ)
      (r : Node × ℕ)
      → dual_in_cases fresh (case l n (case o j (case u b cs))) ≡ some x
      → switch_to_if i x.1 f x.0 ≡ some r
      → SameCases m fuel x.0 (case l n (case o j (case u b cs)))
      → Everywhere IsPlain (switch i f (case l n (case o j (case u b cs))))
      → Done (switch i f (case l n (case o j (case u b cs)))) r.0
  more-Done i fresh l o u f n j b cs x r e q hc p =
      let (y, z, v, w, shape) = more-visited fresh l o u n j b cs x e in
      let q' = ap (switch_to_if i x.1 f) shape ∙ q in
      switch-Done i x.1 f (case l n (case o j (case u b cs))) (case l y (case o z (case u v w))) r
        q' (two-not_lone l o y z (case u v w)) p (more-Same m fuel i x.1 l o u f y z v w r q')
        (subst (λ t. SameCases m fuel t (case l n (case o j (case u b cs)))) (sym shape) hc)

  mutual
    unfolding simplify_dual_switch Everywhere

    done :
        (n : Node) (fresh : ℕ) (r : Node × ℕ)
        → simplify_dual_switch fresh n ≡ some r
        → Everywhere IsPlain n
        → Everywhere (IsDual m) n
        → Done n r.0
    done (sequence i ns) fresh r e p d =
        let (x, e1, k1) = >>=-eq-some (dual_in_nodes fresh ns) _ e in
        subst (λ (y : Node × ℕ). Done (sequence i ns) y.0) (of_some k1)
          (Done-other (sequence i ns) (sequence i (remove_null x.0)) p (λ z. z)
            (Same-sequence i
              (SameNodes-trans (remove_null-Same x.0) (nodes-Same ns fresh x e1 p.1 d.1)))
            (λ b. cc b))
    done (scs i t b) fresh r e p d =
        let (x, e1, k1) = >>=-eq-some (or_absent b fresh (simplify_dual_switch fresh b)) _ e in
        subst (λ (y : Node × ℕ). Done (scs i t b) y.0) (of_some k1)
          (Done-other (scs i t b) (scs i t x.0) p (λ z. z)
            (Same-scs i t (absent-Same b fresh _ x e1 (λ z. done b fresh x z p.1 d.1))) (λ z. cc z))
    done (if_node i bb c w t e) fresh r eq p d =
        let (x, e1, k1) = >>=-eq-some (or_absent t fresh (simplify_dual_switch fresh t)) _ eq in
        let (y, e2, k2) = >>=-eq-some (or_absent e x.1 (simplify_dual_switch x.1 e)) _ k1 in
        subst (λ (z : Node × ℕ). Done (if_node i bb c w t e) z.0) (of_some k2)
          (Done-other (if_node i bb c w t e) (if_node i bb c w x.0 y.0) p (λ z. z)
            (Same-if_node i bb w (SameExpr-refl c)
              (absent-Same t fresh _ x e1 (λ z. done t fresh x z p.1 d.1))
              (absent-Same e x.1 _ y e2 (λ z. done e x.1 y z p.2 d.2)))
            (λ z. cc z))
    done (switch i f no_case) fresh r e p d = absurd (cc e)
    done (switch i f (case [] n no_case)) fresh r e p d = absurd d.0
    done (switch i f (case (a ∷ l) n no_case)) fresh r e p d =
        let (x, e1, k1) = >>=-eq-some (dual_in_cases fresh (case (a ∷ l) n no_case)) _ e in
        one-Done i a fresh l f n x r e1 k1 (λ y z. done n fresh y z p.1.0 d.1.0) d.0 p
    done (switch i f (case l n (case o j no_case))) fresh r e p d =
        let (x, e1, k1) = >>=-eq-some (dual_in_cases fresh (case l n (case o j no_case))) _ e in
        two-Done i fresh l o f n j x r e1 k1 (λ y z. done n fresh y z p.1.0 d.1.0)
          (λ y g z. done j g y z p.1.1.0 d.1.1.0) (two-IsDecided m i f l o n j d.0) p
    done (switch i f (case l n (case o j (case u b cs)))) fresh r e p d =
        let (x, e1, k1) =
          >>=-eq-some (dual_in_cases fresh (case l n (case o j (case u b cs)))) _ e in
        more-Done i fresh l o u f n j b cs x r e1 k1
          (cases-Same (case l n (case o j (case u b cs))) fresh x e1 p.1 d.1) p
    done null fresh r e p d = absurd (cc e)
    done (code i bb x) fresh r e p d =
        leaf-Done (code i bb x) fresh r e (node-NotSwitchBroke m fuel (code i bb x) p (λ z. z))
    done (break i x) fresh r e p d =
        leaf-Done (break i x) fresh r e (node-NotSwitchBroke m fuel (break i x) p (λ z. z))
    done (continue i c x) fresh r e p d =
        leaf-Done (continue i c x) fresh r e
          (node-NotSwitchBroke m fuel (continue i c x) p (λ z. z))
    done (switch_break i x) fresh r e p d = leaf-Done (switch_break i x) fresh r e tt
    done (set i v k) fresh r e p d =
        leaf-Done (set i v k) fresh r e (node-NotSwitchBroke m fuel (set i v k) p (λ z. z))

    nodes-Same :
        (ns : Nodes) (fresh : ℕ) (r : Nodes × ℕ)
        → dual_in_nodes fresh ns ≡ some r
        → EverywhereNodes IsPlain ns
        → EverywhereNodes (IsDual m) ns
        → SameNodes m fuel r.0 ns
    nodes-Same nil fresh r e p d =
        subst (λ (y : Nodes × ℕ). SameNodes m fuel y.0 nil) (of_some e) (SameNodes-refl nil)
    nodes-Same (cons n ns) fresh r e p d =
        let (x, e1, k1) = >>=-eq-some (simplify_dual_switch fresh n) _ e in
        let (y, e2, k2) = >>=-eq-some (dual_in_nodes x.1 ns) _ k1 in
        subst (λ (z : Nodes × ℕ). SameNodes m fuel z.0 (cons n ns)) (of_some k2)
          (SameNodes-cons (done n fresh x e1 p.0 d.0).same (nodes-Same ns x.1 y e2 p.1 d.1))

    cases-Same :
        (cs : Cases) (fresh : ℕ) (r : Cases × ℕ)
        → dual_in_cases fresh cs ≡ some r
        → EverywhereCases IsPlain cs
        → EverywhereCases (IsDual m) cs
        → SameCases m fuel r.0 cs
    cases-Same no_case fresh r e p d =
        subst (λ (y : Cases × ℕ). SameCases m fuel y.0 no_case) (of_some e) (SameCases-refl no_case)
    cases-Same (case l n cs) fresh r e p d =
        let (x, e1, k1) = >>=-eq-some (simplify_dual_switch fresh n) _ e in
        let (y, e2, k2) = >>=-eq-some (dual_in_cases x.1 cs) _ k1 in
        subst (λ (z : Cases × ℕ). SameCases m fuel z.0 (case l n cs)) (of_some k2)
          (SameCases-case l (done n fresh x e1 p.0 d.0).same (cases-Same cs x.1 y e2 p.1 d.1))

-- Where nothing is implicit, a switch break is a whole case, no switch has just a default, the labels
-- of two cases are disjoint, a dispatcher of two labelled cases has a case for its value in every state
-- of the machine, and not all cases of a standard switch of at most two are switch breaks: the GHAST
-- after `simplifyDualSwitch` has the outcome of the one before it, from any state and with the same
-- fuel.
pub exec-simplify_dual_switch :
    {S : Type 0} (m : Machine S) (fuel fresh : ℕ) (n : Node) (r : Node × ℕ) (s : S)
    → simplify_dual_switch fresh n ≡ some r
    → Everywhere IsPlain n
    → Everywhere (IsDual m) n
    → exec m fuel r.0 s ≡ exec m fuel n s
exec-simplify_dual_switch m fuel fresh n r s e p d = Same-run (done m fuel n fresh r e p d).same s
