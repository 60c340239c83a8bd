-- ===== src/Beautify/CallNoReturn/Preserves.antt =====
-- `promoteCallNoReturn` (PromoteCallNoReturn.cpp): the GHAST before and after it.
use revng_c.Prelude.{ℕ, ◌≡◌, refl, ap, sym, ◌∙◌, subst, Option, some, ◌>>=◌, >>=-eq-some, of_some}
use revng_c.Ghast.Node.{
  Node, null, code, break, continue, if_node, scs, sequence, switch, switch_break, set, Nodes, nil,
  cons, Cases, no_case, case,
}
use revng_c.Ghast.Identity.{node_id}
use revng_c.Ghast.Children.{is_child, DistinctChildren}
use revng_c.Ghast.Everywhere.{Everywhere, EverywhereNodes, EverywhereCases}
use revng_c.Semantics.{Machine, exec}
use revng_c.Semantics.Congruence.{
  Same, SameNodes, SameCases, Same-refl, SameNodes-refl, SameCases-refl, SameExpr-refl, Same-run,
  SameNodes-trans, Same-if_node, Same-scs, Same-sequence, Same-switch, SameNodes-cons,
  SameCases-case,
}
use revng_c.Beautify.FallThrough.{at, ScopeMap, Binary, compute_fall_through_scope}
use revng_c.Beautify.FallThrough.Leaving.{Leaving, IsPlain}
use revng_c.Beautify.FallThrough.Map.{IsFiled, IsSound, compute_fall_through_scope-IsSound}
use revng_c.Beautify.Sequences.Preserves.{FitsUnsigned}
use revng_c.Beautify.EmptyThen.{flip_empty_then}
use revng_c.Beautify.AtomicSequence.{or_absent}
use revng_c.Beautify.AtomicSequence.Switches.{HasDisjointLabels}
use revng_c.Beautify.Canonical.{canonicalize}
use revng_c.Beautify.Canonical.Preserves.{exec-canonicalize}
use revng_c.Beautify.CallNoReturn.{
  child_id, promote_tail, promote_call, call_in_nodes, call_in_cases, promote_calls,
  promote_call_no_return,
}
use revng_c.Beautify.CallNoReturn.Find.{
  then_id, ThensElsewhere, Leaves, ThenLeaves, AllLeave, own_id, promote_tail-Same,
}

-- No child stands twice in a sequence, and the `then` of none of them is a child.
abbrev pub HasDistinctParts : Node → Type 0
HasDistinctParts (sequence i ns) = DistinctChildren ns × ThensElsewhere ns ns
HasDistinctParts _ = Unit

node_id-of : (n : Node) (j : ℕ) → child_id n ≡ some j → node_id n ≡ j
unfolding child_id
node_id-of null j h = cc
node_id-of n j h = of_some h

module _ {S : Type 0} (m : Machine S) (fuel : ℕ) (who : ℕ → Node) (mp : ScopeMap)
    (sound : IsSound m fuel who mp) where
  -- what a branch or a body becomes
  record ChildDone (n n' : Node) : Type 0 where
    same : Same m fuel n' n
    address : child_id n' ≡ child_id n
    leaves : Leaves m fuel mp n'

  record Done (n n' : Node) : Type 0 where
    child : ChildDone n n'
    address : child_id n' ≡ some (node_id n)
    branch : then_id n' ≡ then_id n
    branch_leaves : ThenLeaves m fuel mp n'

  record NodesDone (ns ns' : Nodes) : Type 0 where
    same : SameNodes m fuel ns' ns
    children : (j : ℕ) → is_child j ns' ≡ is_child j ns
    distinct : DistinctChildren ns → DistinctChildren ns'
    elsewhere :
        (all all' : Nodes)
        → ((j : ℕ) → is_child j all' ≡ is_child j all)
        → ThensElsewhere all ns
        → ThensElsewhere all' ns'
    leave : AllLeave m fuel mp ns'

  Leaves-of :
      (n n' : Node)
      → who (node_id n) ≡ n
      → child_id n' ≡ some (node_id n)
      → Same m fuel n' n
      → Leaves m fuel mp n'
  Leaves-of n n' f a h j t e l ft s = subst Leaving (sym (Same-run h s)) (
      subst (λ x. Leaving (exec m fuel x s)) f
        (sound.leaving (node_id n) t (ap (at mp) (of_some (sym a ∙ e)) ∙ l) ft s))

  Done-of :
      (n n' : Node)
      → child_id n ≡ some (node_id n)
      → Everywhere (IsFiled who) n
      → who (node_id n) ≡ n
      → Same m fuel n' n
      → child_id n' ≡ child_id n
      → then_id n' ≡ then_id n
      → ThenLeaves m fuel mp n'
      → Done n n'
  Done-of n n' o w f h a b l = record {
    child = record { same = h; address = a; leaves = Leaves-of n n' f (a ∙ o) h };
    address = a ∙ o;
    branch = b;
    branch_leaves = l;
  }

  absent-Done :
      (n : Node) (fresh : ℕ) (o : Option (Node × ℕ)) (r : Node × ℕ)
      → or_absent n fresh o ≡ some r
      → (o ≡ some r → Done n r.0)
      → ChildDone n r.0
  unfolding child_id
  absent-Done null fresh o r e k =
      subst (λ (x : Node × ℕ). ChildDone null x.0) (of_some e)
        (record { same = Same-refl null; address = refl; leaves = λ j t x. absurd (cc x) })
  absent-Done n fresh o r e k = (k e).child

  leaf-Done :
      (n : Node) (fresh : ℕ) (r : Node × ℕ)
      → some (n, fresh) ≡ some r
      → child_id n ≡ some (node_id n)
      → who (node_id n) ≡ n
      → ThenLeaves m fuel mp n
      → Done n r.0
  leaf-Done n fresh r e o f l =
      subst (λ (x : Node × ℕ). Done n x.0) (of_some e)
        (record {
          child = record {
            same = Same-refl n;
            address = refl;
            leaves = Leaves-of n n f o (Same-refl n);
          };
          address = o;
          branch = refl;
          branch_leaves = l;
        })

  nil-Done : NodesDone nil nil
  unfolding DistinctChildren ThensElsewhere AllLeave
  nil-Done = record {
    same = SameNodes-refl nil;
    children = λ j. refl;
    distinct = λ h. tt;
    elsewhere = λ all all' h o. tt;
    leave = tt;
  }

  cons-Done :
      (n n' : Node) (ns ns' : Nodes)
      → Done n n'
      → NodesDone ns ns'
      → NodesDone (cons n ns) (cons n' ns')
  unfolding DistinctChildren ThensElsewhere AllLeave is_child
  cons-Done n n' ns ns' h hs =
      let id = node_id-of n' (node_id n) h.address in
      record {
        same = SameNodes-cons h.child.same hs.same;
        children = λ j. rw (id, hs.children j);
        distinct = λ d. (rw id (hs.children (node_id n) ∙ d.0), hs.distinct d.1);
        elsewhere =
            λ all all' p o. (λ j x. p j ∙ o.0 j (sym h.branch ∙ x), hs.elsewhere all all' p o.1);
        leave = (own_id n' (node_id n) h.address, (h.child.leaves, h.branch_leaves), hs.leave);
      }

  mutual
    unfolding promote_call Everywhere child_id node_id then_id

    done :
        (n : Node) (fresh : ℕ) (r : Node × ℕ)
        → promote_call mp fresh n ≡ some r
        → Everywhere (IsFiled who) n
        → Everywhere HasDistinctParts n
        → Done n r.0
    done (sequence i ns) fresh r e w d =
        let (x, e1, k1) = >>=-eq-some (call_in_nodes mp fresh ns) _ e in
        let (y, e2, k2) = >>=-eq-some (promote_tail mp x.1 x.0) _ k1 in
        let h = nodes-Done ns fresh x e1 w.1 d.1 in
        let tail =
          promote_tail-Same m fuel mp x.1 x.0 y e2 h.leave (h.distinct d.0.0)
            (h.elsewhere ns x.0 h.children d.0.1) in
        subst (λ (z : Node × ℕ). Done (sequence i ns) z.0) (of_some k2)
          (Done-of (sequence i ns) (sequence i y.0) refl w w.0
            (Same-sequence i (SameNodes-trans tail h.same)) refl refl tt)
    done (if_node i bb c q t e) fresh r eq w d =
        let (x, e1, k1) = >>=-eq-some (or_absent t fresh (promote_call mp fresh t)) _ eq in
        let (y, e2, k2) = >>=-eq-some (or_absent e x.1 (promote_call mp x.1 e)) _ k1 in
        let ht = absent-Done t fresh _ x e1 (λ z. done t fresh x z w.1 d.1) in
        let he = absent-Done e x.1 _ y e2 (λ z. done e x.1 y z w.2 d.2) in
        subst (λ (z : Node × ℕ). Done (if_node i bb c q t e) z.0) (of_some k2)
          (Done-of (if_node i bb c q t e) (if_node i bb c q x.0 y.0) refl w w.0
            (Same-if_node i bb q (SameExpr-refl c) ht.same he.same) refl ht.address ht.leaves)
    done (switch i f cs) fresh r e w d =
        let (x, e1, k1) = >>=-eq-some (call_in_cases mp fresh cs) _ e in
        subst (λ (z : Node × ℕ). Done (switch i f cs) z.0) (of_some k1)
          (Done-of (switch i f cs) (switch i f x.0) refl w w.0
            (Same-switch i f (cases-Same cs fresh x e1 w.1 d.1)) refl refl tt)
    done (scs i t b) fresh r e w d =
        let (x, e1, k1) = >>=-eq-some (or_absent b fresh (promote_call mp fresh b)) _ e in
        let hb = absent-Done b fresh _ x e1 (λ z. done b fresh x z w.1 d.1) in
        subst (λ (z : Node × ℕ). Done (scs i t b) z.0) (of_some k1)
          (Done-of (scs i t b) (scs i t x.0) refl w w.0 (Same-scs i t hb.same) refl refl tt)
    done null fresh r e w d = absurd (cc e)
    done (code i bb x) fresh r e w d = leaf-Done (code i bb x) fresh r e refl w tt
    done (break i x) fresh r e w d = leaf-Done (break i x) fresh r e refl w tt
    done (continue i c x) fresh r e w d = leaf-Done (continue i c x) fresh r e refl w tt
    done (switch_break i x) fresh r e w d = leaf-Done (switch_break i x) fresh r e refl w tt
    done (set i v k) fresh r e w d = leaf-Done (set i v k) fresh r e refl w tt

    nodes-Done :
        (ns : Nodes) (fresh : ℕ) (r : Nodes × ℕ)
        → call_in_nodes mp fresh ns ≡ some r
        → EverywhereNodes (IsFiled who) ns
        → EverywhereNodes HasDistinctParts ns
        → NodesDone ns r.0
    nodes-Done nil fresh r e w d = subst (λ (z : Nodes × ℕ). NodesDone nil z.0) (of_some e) nil-Done
    nodes-Done (cons n ns) fresh r e w d =
        let (x, e1, k1) = >>=-eq-some (promote_call mp fresh n) _ e in
        let (y, e2, k2) = >>=-eq-some (call_in_nodes mp x.1 ns) _ k1 in
        subst (λ (z : Nodes × ℕ). NodesDone (cons n ns) z.0) (of_some k2)
          (cons-Done n x.0 ns y.0 (done n fresh x e1 w.0 d.0) (nodes-Done ns x.1 y e2 w.1 d.1))

    cases-Same :
        (cs : Cases) (fresh : ℕ) (r : Cases × ℕ)
        → call_in_cases mp fresh cs ≡ some r
        → EverywhereCases (IsFiled who) cs
        → EverywhereCases HasDistinctParts cs
        → SameCases m fuel r.0 cs
    cases-Same no_case fresh r e w d =
        subst (λ (z : Cases × ℕ). SameCases m fuel z.0 no_case) (of_some e) (SameCases-refl no_case)
    cases-Same (case l n cs) fresh r e w d =
        let (x, e1, k1) = >>=-eq-some (promote_call mp fresh n) _ e in
        let (y, e2, k2) = >>=-eq-some (call_in_cases mp x.1 cs) _ k1 in
        subst (λ (z : Cases × ℕ). SameCases m fuel z.0 (case l n cs)) (of_some k2)
          (SameCases-case l (done n fresh x e1 w.0 d.0).child.same (cases-Same cs x.1 y e2 w.1 d.1))

promote_calls-Same :
    {S : Type 0} (b : Binary) (m : Machine S) (fuel : ℕ) (who : ℕ → Node) (fresh : ℕ) (n : Node)
    (r : Node × ℕ)
    → promote_calls b m.last fresh n ≡ some r
    → Everywhere IsPlain n
    → Everywhere (IsFiled who) n
    → Everywhere HasDistinctParts n
    → Same m fuel r.0 n
unfolding promote_calls
promote_calls-Same b m fuel who fresh n r e p w d =
    let (mp, e1, k1) = >>=-eq-some (compute_fall_through_scope b m.last n) _ e in
    let sound = compute_fall_through_scope-IsSound b m fuel who n mp e1 p w in
    (done m fuel who mp sound n fresh r k1 w d).child.same

-- Where nothing is implicit, a switch break is a whole case, an identity belongs to one node, and the
-- children of each sequence and their `then` branches are distinct, and where `canonicalize` keeps
-- what the exchange has made (its labels are disjoint and its sequences fit), the GHAST after
-- `promoteCallNoReturn` has the outcome of the one before it, from any state and with the same fuel.
pub exec-promote_call_no_return :
    {S : Type 0} (b : Binary) (m : Machine S) (fuel : ℕ) (who : ℕ → Node) (fresh : ℕ) (n : Node)
    (x r : Node × ℕ) (s : S)
    → promote_call_no_return b m.last fresh n ≡ some r
    → promote_calls b m.last fresh n ≡ some x
    → Everywhere HasDisjointLabels x.0
    → Everywhere FitsUnsigned (flip_empty_then x.0)
    → Everywhere IsPlain n
    → Everywhere (IsFiled who) n
    → Everywhere HasDistinctParts n
    → exec m fuel r.0 s ≡ exec m fuel n s
unfolding promote_call_no_return
exec-promote_call_no_return b m fuel who fresh n x r s e q l u p w d =
    let made : canonicalize x.1 x.0 ≡ some r =
      ap (λ o. o >>= (λ y. canonicalize y.1 y.0)) (sym q) ∙ e in
    exec-canonicalize m fuel x.1 x.0 r s made l u
    ∙ Same-run (promote_calls-Same b m fuel who fresh n x q p w d) s
