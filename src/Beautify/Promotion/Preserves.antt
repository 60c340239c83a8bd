-- ===== src/Beautify/Promotion/Preserves.antt =====
-- `promoteNoFallthrough` and `promoteNoFallthroughIf` (BeautifyGHAST.cpp): the GHAST before and after.
use revng_c.Prelude.{
  ℕ, ◌<◌, true, false, ◌≡◌, refl, ap, sym, ◌∙◌, subst, Option, some, [], ◌>>=◌, >>=-eq-some,
  of_some, arith,
}
use revng_c.Ghast.Node.{
  Node, null, code, break, continue, if_node, scs, sequence, switch, switch_break, set, Nodes, nil,
  cons, Cases, no_case, case, is_null,
}
use revng_c.Ghast.Identity.{node_id}
use revng_c.Ghast.Everywhere.{Everywhere}
use revng_c.Semantics.{Machine, exec}
use revng_c.Semantics.Congruence.{Same, Same-refl, Same-run}
use revng_c.Beautify.FallThrough.{ScopeMap, at}
use revng_c.Beautify.FallThrough.Leaving.{Leaving}
use revng_c.Beautify.FallThrough.Map.{IsFiled, IsSound}
use revng_c.Beautify.Promotion.{State, promote_child, promote_no_fall_through}
use revng_c.Ghast.Everywhere.{EverywhereNodes, EverywhereCases}
use revng_c.Semantics.Congruence.{
  SameNodes, SameCases, SameNodes-refl, SameCases-refl, SameExpr-refl, Same-trans, Same-if_node,
  Same-scs, Same-sequence, Same-switch, SameNodes-cons, SameCases-case,
}
use revng_c.Beautify.FallThrough.{Binary, compute_fall_through_scope}
use revng_c.Beautify.FallThrough.Leaving.{IsPlain}
use revng_c.Beautify.FallThrough.Map.{compute_fall_through_scope-IsSound, here}
use revng_c.Beautify.Weight.{Blocks, cumulative_weight}
use revng_c.Beautify.Sequences.{collapse_sequences}
use revng_c.Beautify.Sequences.Preserves.{FitsUnsigned, exec-collapse_sequences}
use revng_c.Beautify.Promotion.{
  promote_nodes, promote_cases, promote_root, promote_no_fall_through_if,
}
use revng_c.Beautify.Promotion.Step.{
  Good, Advances, Advances-refl, Advances-trans, Good-Advances, Step, LeavesIn, promote_if-Step,
}

-- The addresses are among those below `bound`.
abbrev pub IsBelow : ℕ → Node → Type 0
IsBelow bound null = Unit
IsBelow bound n = node_id n < bound

module _ {S : Type 0} (m : Machine S) (fuel : ℕ) (who : ℕ → Node) (scopes : ScopeMap)
    (bound : ℕ) where
  -- what a branch or a body becomes
  record ChildStep (n : Node) (s : State) (r : Node × State) : Type 0 where
    same : Same m fuel r.0 n
    leaves : LeavesIn m fuel scopes bound r.1 r.0
    below : is_null r.0 ≡ false → node_id r.0 < r.1.fresh
    advances : Advances s r.1

  -- what is known of a branch is still known once the other one is visited
  later-LeavesIn :
      (n : Node) (s s' : State)
      → LeavesIn m fuel scopes bound s n
      → (is_null n ≡ false → node_id n < s.fresh)
      → Advances s s'
      → LeavesIn m fuel scopes bound s' n
  later-LeavesIn n s s' h b a nn t e f u = h nn t (sym (a.keeps (node_id n) (b nn)) ∙ e) f u

  module _ (sound : IsSound m fuel who scopes) where
    step-LeavesIn :
        (n : Node) (s : State) (r : Node × State)
        → Step m fuel scopes bound n s r
        → who (node_id n) ≡ n
        → LeavesIn m fuel scopes bound r.1 r.0
    step-LeavesIn n s r h f nn t e ft u = subst Leaving (sym (Same-run h.same u)) (
        subst (λ x. Leaving (exec m fuel x u)) f
          (sound.leaving (node_id n) t (sym h.entry ∙ e) ft u))

    ChildStep-of :
        (n : Node) (s : State) (r : Node × State)
        → Step m fuel scopes bound n s r
        → who (node_id n) ≡ n
        → ChildStep n s r
    ChildStep-of n s r h f = record {
      same = h.same;
      leaves = step-LeavesIn n s r h f;
      below = λ nn. h.below;
      advances = h.advances;
    }

    child-Step :
        (n : Node) (s : State) (o : Option (Node × State)) (r : Node × State)
        → promote_child n s o ≡ some r
        → Everywhere (IsFiled who) n
        → (o ≡ some r → Step m fuel scopes bound n s r)
        → ChildStep n s r
    unfolding is_null
    child-Step null s o r e w k = subst (ChildStep null s) (of_some e) (record {
      same = Same-refl null;
      leaves = λ nn. cc nn;
      below = λ nn. cc nn;
      advances = Advances-refl s;
    })
    child-Step n s o r e w k = ChildStep-of n s r (k e) (here (IsFiled who) n w)

    leaf-Step :
        (n : Node) (s : State) (r : Node × State)
        → some (n, s) ≡ some r
        → Good scopes bound s
        → node_id n < bound
        → Step m fuel scopes bound n s r
    leaf-Step n s r e g b = subst (Step m fuel scopes bound n s) (of_some e) (record {
      same = Same-refl n;
      entry = g.older (node_id n) b;
      below = let reach = g.reach in omega (arith, reach, b);
      advances = Advances-refl s;
    })

    -- a node whose children are exchanged
    around-Step :
        (n n' : Node) (s s' : State) (r : Node × State)
        → some (n', s') ≡ some r
        → Good scopes bound s
        → node_id n < bound
        → node_id n' ≡ node_id n
        → Same m fuel n' n
        → Advances s s'
        → Step m fuel scopes bound n s r
    around-Step n n' s s' r e g b p h a =
        let g' = Good-Advances g a in
        let reach = g'.reach in
        subst (Step m fuel scopes bound n s) (of_some e) (record {
          same = h;
          entry = ap (at s'.fall_through_scope_map) p ∙ g'.older (node_id n) b;
          below = omega (arith, reach, b, p);
          advances = a;
        })

    mutual
      unfolding promote_no_fall_through Everywhere node_id exec

      step :
          (n : Node) (s : State) (r : Node × State)
          → promote_no_fall_through n s ≡ some r
          → Everywhere (IsFiled who) n
          → Everywhere (IsBelow bound) n
          → Good scopes bound s
          → Step m fuel scopes bound n s r
      step (sequence i ns) s r e w b g =
          let (x, e1, k1) = >>=-eq-some (promote_nodes ns s) _ e in
          let h = steps ns s x e1 w.1 b.1 g in
          around-Step (sequence i ns) (sequence i x.0) s x.1 r k1 g b.0 refl (Same-sequence i h.0)
            h.1
      step (scs i t body) s r e w b g =
          let (x, e1, k1) =
            >>=-eq-some (promote_child body s (promote_no_fall_through body s)) _ e in
          let h = child-Step body s _ x e1 w.1 (λ y. step body s x y w.1 b.1 g) in
          around-Step (scs i t body) (scs i t x.0) s x.1 r k1 g b.0 refl (Same-scs i t h.same)
            h.advances
      step (switch i f cs) s r e w b g =
          let (x, e1, k1) = >>=-eq-some (promote_cases cs s) _ e in
          let h = Step-cases cs s x e1 w.1 b.1 g in
          around-Step (switch i f cs) (switch i f x.0) s x.1 r k1 g b.0 refl (Same-switch i f h.0)
            h.1
      step (if_node i bb c q t e) s r eq w b g =
          let (rt, e1, k1) = >>=-eq-some (promote_child t s (promote_no_fall_through t s)) _ eq in
          let (re, e2, k2) =
            >>=-eq-some (promote_child e rt.1 (promote_no_fall_through e rt.1)) _ k1 in
          let ht = child-Step t s _ rt e1 w.1 (λ y. step t s rt y w.1 b.1 g) in
          let g1 = Good-Advances g ht.advances in
          let he = child-Step e rt.1 _ re e2 w.2 (λ y. step e rt.1 re y w.2 b.2 g1) in
          let p =
            promote_if-Step m fuel scopes bound i bb c q rt.0 re.0 re.1 r k2
              (Good-Advances g1 he.advances) b.0
              (later-LeavesIn rt.0 rt.1 re.1 ht.leaves ht.below he.advances) he.leaves in
          record {
            same = Same-trans p.same (Same-if_node i bb q (SameExpr-refl c) ht.same he.same);
            entry = p.entry;
            below = p.below;
            advances = Advances-trans (Advances-trans ht.advances he.advances) p.advances;
          }
      step (continue i c true) s r e w b g = absurd (cc e)
      step (continue i c false) s r e w b g = leaf-Step (continue i c false) s r e g b
      step null s r e w b g = absurd (cc e)
      step (code i bb x) s r e w b g = leaf-Step (code i bb x) s r e g b
      step (break i x) s r e w b g = leaf-Step (break i x) s r e g b
      step (switch_break i x) s r e w b g = leaf-Step (switch_break i x) s r e g b
      step (set i v k) s r e w b g = leaf-Step (set i v k) s r e g b

      steps :
          (ns : Nodes) (s : State) (r : Nodes × State)
          → promote_nodes ns s ≡ some r
          → EverywhereNodes (IsFiled who) ns
          → EverywhereNodes (IsBelow bound) ns
          → Good scopes bound s
          → SameNodes m fuel r.0 ns × Advances s r.1
      steps nil s r e w b g =
          subst (λ (x : Nodes × State). SameNodes m fuel x.0 nil × Advances s x.1) (of_some e)
            (SameNodes-refl nil, Advances-refl s)
      steps (cons n ns) s r e w b g =
          let (x, e1, k1) = >>=-eq-some (promote_no_fall_through n s) _ e in
          let (y, e2, k2) = >>=-eq-some (promote_nodes ns x.1) _ k1 in
          let h = step n s x e1 w.0 b.0 g in
          let hs = steps ns x.1 y e2 w.1 b.1 (Good-Advances g h.advances) in
          subst (λ (z : Nodes × State). SameNodes m fuel z.0 (cons n ns) × Advances s z.1)
            (of_some k2) (SameNodes-cons h.same hs.0, Advances-trans h.advances hs.1)

      Step-cases :
          (cs : Cases) (s : State) (r : Cases × State)
          → promote_cases cs s ≡ some r
          → EverywhereCases (IsFiled who) cs
          → EverywhereCases (IsBelow bound) cs
          → Good scopes bound s
          → SameCases m fuel r.0 cs × Advances s r.1
      Step-cases no_case s r e w b g =
          subst (λ (x : Cases × State). SameCases m fuel x.0 no_case × Advances s x.1) (of_some e)
            (SameCases-refl no_case, Advances-refl s)
      Step-cases (case l n cs) s r e w b g =
          let (x, e1, k1) = >>=-eq-some (promote_no_fall_through n s) _ e in
          let (y, e2, k2) = >>=-eq-some (promote_cases cs x.1) _ k1 in
          let h = step n s x e1 w.0 b.0 g in
          let hs = Step-cases cs x.1 y e2 w.1 b.1 (Good-Advances g h.advances) in
          subst (λ (z : Cases × State). SameCases m fuel z.0 (case l n cs) × Advances s z.1)
            (of_some k2) (SameCases-case l h.same hs.0, Advances-trans h.advances hs.1)

promote_root-Same :
    {S : Type 0} (b : Binary) (blocks : Blocks) (m : Machine S) (fuel : ℕ) (who : ℕ → Node)
    (root : Node) (fresh : ℕ) (r : Node × State)
    → promote_root b blocks m.last root fresh ≡ some r
    → Everywhere IsPlain root
    → Everywhere (IsFiled who) root
    → Everywhere (IsBelow fresh) root
    → Same m fuel r.0 root
unfolding promote_root
promote_root-Same b blocks m fuel who root fresh r e p w l =
    let (scopes, e1, k1) = >>=-eq-some (compute_fall_through_scope b m.last root) _ e in
    let (x, e2, k2) = >>=-eq-some (cumulative_weight blocks root []) _ k1 in
    let sound = compute_fall_through_scope-IsSound b m fuel who root scopes e1 p w in
    let done =
      step m fuel who scopes fresh sound root _ r k2 w l
        (record { older = λ j h. refl; reach = omega arith }) in
    done.same

-- Where nothing is implicit, a switch break is a whole case, an identity belongs to one node and is
-- smaller than `fresh`, and the children of each sequence fit when the sequences are collapsed, the
-- GHAST after `promoteNoFallthroughIf` has the outcome of the one before it, from any state and with
-- the same fuel.
pub exec-promote_no_fall_through_if :
    {S : Type 0} (b : Binary) (blocks : Blocks) (m : Machine S) (fuel : ℕ) (who : ℕ → Node)
    (root : Node) (fresh : ℕ) (r : Node × State) (n' : Node) (s : S)
    → promote_no_fall_through_if b blocks m.last root fresh ≡ some n'
    → promote_root b blocks m.last root fresh ≡ some r
    → Everywhere FitsUnsigned r.0
    → Everywhere IsPlain root
    → Everywhere (IsFiled who) root
    → Everywhere (IsBelow fresh) root
    → exec m fuel n' s ≡ exec m fuel root s
unfolding promote_no_fall_through_if
exec-promote_no_fall_through_if b blocks m fuel who root fresh r n' s e q u p w l =
    let made : collapse_sequences r.0 ≡ n' =
      of_some (ap (λ o. o >>= (λ x. some (collapse_sequences x.0))) (sym q) ∙ e) in
    ap (λ x. exec m fuel x s) (sym made)
    ∙ exec-collapse_sequences m fuel r.0 s u
    ∙ Same-run (promote_root-Same b blocks m fuel who root fresh r q p w l) s
