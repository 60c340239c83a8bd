-- ===== src/Beautify/ShortCircuit/Repeated.antt =====
-- `simplifyTrivialShortCircuit` (BeautifyGHAST.cpp): the GHAST before and after it, and the fuel.
use revng_c.Prelude.{
  ℕ, zero, suc, ◌≤◌, Bool, false, ◌&&◌, ◌≡◌, refl, ◌∙◌, Option, none, some, arith,
}
use revng_c.Ghast.Node.{
  Node, null, if_node, scs, sequence, switch, Nodes, nil, cons, Cases, no_case, case, is_null,
}
use revng_c.Ghast.Everywhere.{
  Everywhere, EverywhereNodes, EverywhereCases, NoNullNodes, NoNullCases,
}
use revng_c.Semantics.{Machine, exec}
use revng_c.Semantics.Congruence.{
  SameExpr-refl, SameNodes-refl, SameCases-refl, Same-run, Same-if_node, Same-scs, Same-sequence,
  Same-switch, SameNodes-cons, SameCases-case,
}
use revng_c.Beautify.ShortCircuit.Meaning.{IsStill}
use revng_c.Beautify.ShortCircuit.Trivial.{
  when_there, again, visit_branches, visit_nodes, visit_cases, visit_node,
  simplify_trivial_short_circuit, node_count, nodes_count, cases_count,
}
use revng_c.Beautify.ShortCircuit.Reduced.{
  Readable, node_count-positive, Visited, VisitedNodes, VisitedCases, Visited-refl, Visited-trans,
  Reduced, reduce_trivial-Decided,
}

module _ {S : Type 0} (m : Machine S) (fuel : ℕ) (fx : ℕ → Bool) (st : IsStill m fx) where
  abbrev Into : Option Node → Node → Type 0
  Into o n = (n' : Node) × (o ≡ some n') × Visited m fuel fx st n n'

  -- a function that visits every readable GHAST of at most `k` nodes
  abbrev Visits : (Node → Option Node) → ℕ → Type 0
  Visits visit k =
      (n : Node)
      → node_count n ≤ k
      → is_null n ≡ false
      → Everywhere (Readable fx) n
      → Into (visit n) n

  module _ (visit : Node → Option Node) (k : ℕ) (h : Visits visit k) where
    when_there-Into :
        (n : Node) → node_count n ≤ k → Everywhere (Readable fx) n → Into (when_there n (visit n)) n
    unfolding is_null
    when_there-Into null l r = (null, refl, Visited-refl m fuel fx st null r)
    when_there-Into n l r = h n l refl r

    again-Into :
        (o : Option Node) (n : Node)
        → ((n' : Node) → o ≡ some n' → Reduced m fuel fx st n n')
        → node_count n ≤ suc k
        → is_null n ≡ false
        → Everywhere (Readable fx) n
        → Into (again visit o n) n
    again-Into none n d l t r = (n, refl, Visited-refl m fuel fx st n r)
    again-Into (some n') n d l t r =
        let (v, less) = d n' refl in
        let (n1, e, w) = h n' (omega (arith, less, l)) (v.there ∙ t) v.readable in
        (n1, e, Visited-trans m fuel fx st v w)

    visit_branches-Into :
        (n : Node)
        → node_count n ≤ suc k
        → Everywhere (Readable fx) n
        → Into (visit_branches visit n) n
    unfolding Everywhere node_count is_null
    visit_branches-Into (if_node i bb c w t e) l ((hc, full), rt, re) =
        let (t', p, vt) = when_there-Into t (omega (arith, l)) rt in
        let (e', q, ve) = when_there-Into e (omega (arith, l)) re in
        let full' : (is_null t' && is_null e') ≡ false = rw (vt.there, ve.there) full in
        (
          if_node i bb c w t' e',
          rw (p, q),
          record {
            readable = ((hc, full'), vt.readable, ve.readable);
            smaller = omega (arith, vt.smaller, ve.smaller);
            same = Same-if_node i bb w (SameExpr-refl c) vt.same ve.same;
            there = refl;
          },
        )
    visit_branches-Into n l r = (n, refl, Visited-refl m fuel fx st n r)

    visit_nodes-Into :
        (ns : Nodes)
        → nodes_count ns ≤ k
        → NoNullNodes ns
        → EverywhereNodes (Readable fx) ns
        → (ms : Nodes) × (visit_nodes visit ns ≡ some ms) × VisitedNodes m fuel fx st ns ms
    unfolding visit_nodes Everywhere node_count
    visit_nodes-Into nil l t r = (
      nil,
      refl,
      record { readable = tt; smaller = omega arith; same = SameNodes-refl nil; there = tt },
    )
    visit_nodes-Into (cons n ns) l (t, ts) (r, rs) =
        let (n', p, v) = h n (omega (arith, l)) t r in
        let (ms, q, vs) = visit_nodes-Into ns (omega (arith, l)) ts rs in
        (
          cons n' ms,
          rw (p, q),
          record {
            readable = (v.readable, vs.readable);
            smaller = omega (arith, v.smaller, vs.smaller);
            same = SameNodes-cons v.same vs.same;
            there = (v.there ∙ t, vs.there);
          },
        )

    visit_cases-Into :
        (cs : Cases)
        → cases_count cs ≤ k
        → NoNullCases cs
        → EverywhereCases (Readable fx) cs
        → (ds : Cases) × (visit_cases visit cs ≡ some ds) × VisitedCases m fuel fx st cs ds
    unfolding visit_cases Everywhere node_count
    visit_cases-Into no_case l t r = (
      no_case,
      refl,
      record { readable = tt; smaller = omega arith; same = SameCases-refl no_case; there = tt },
    )
    visit_cases-Into (case ls n cs) l (t, ts) (r, rs) =
        let (n', p, v) = h n (omega (arith, l)) t r in
        let (ds, q, vs) = visit_cases-Into cs (omega (arith, l)) ts rs in
        (
          case ls n' ds,
          rw (p, q),
          record {
            readable = (v.readable, vs.readable);
            smaller = omega (arith, v.smaller, vs.smaller);
            same = SameCases-case ls v.same vs.same;
            there = (v.there ∙ t, vs.there);
          },
        )

    visit_node-Visits : Visits (visit_node fx visit) (suc k)
    unfolding visit_node Everywhere node_count is_null
    visit_node-Visits null l t r = cc
    visit_node-Visits (sequence i ns) l t (rn, rs) =
        let (ms, p, v) = visit_nodes-Into ns (omega (arith, l)) rn rs in
        (
          sequence i ms,
          rw p,
          record {
            readable = (v.there, v.readable);
            smaller = omega (arith, v.smaller);
            same = Same-sequence i v.same;
            there = refl;
          },
        )
    visit_node-Visits (scs i c b) l t (rb, r) =
        let (b', p, v) = h b (omega (arith, l)) rb r in
        (
          scs i c b',
          rw p,
          record {
            readable = (v.there ∙ rb, v.readable);
            smaller = omega (arith, v.smaller);
            same = Same-scs i c v.same;
            there = refl;
          },
        )
    visit_node-Visits (switch i g cs) l t (rn, rs) =
        let (ds, p, v) = visit_cases-Into cs (omega (arith, l)) rn rs in
        (
          switch i g ds,
          rw p,
          record {
            readable = (v.there, v.readable);
            smaller = omega (arith, v.smaller);
            same = Same-switch i g v.same;
            there = refl;
          },
        )
    visit_node-Visits (if_node i bb c w t e) l u r =
        let (o, p, d) =
          reduce_trivial-Decided m fuel fx st
            (record { id = i; bb = bb; cond_expr = c; is_weaved = w }) t e r in
        let (n1, q, v) = again-Into o (if_node i bb c w t e) d l u r in
        let (n2, z, v') = visit_branches-Into n1 (omega (arith, l, v.smaller)) v.readable in
        (n2, rw (p, q, z), Visited-trans m fuel fx st v v')
    visit_node-Visits n l t r = (n, refl, Visited-refl m fuel fx st n r)

  simplify-Visits : (k : ℕ) → Visits (simplify_trivial_short_circuit fx k) k
  unfolding simplify_trivial_short_circuit
  simplify-Visits zero n l t r = absurd (omega (arith, l, node_count-positive n t))
  simplify-Visits (suc k) n l t r =
      visit_node-Visits (simplify_trivial_short_circuit fx k) k (simplify-Visits k) n l t r

-- With as much fuel as the GHAST has nodes the pass returns a GHAST with the same outcome, with any
-- fuel of the machine and from any state, if no null pointer is read, no condition of an `if` has a
-- comparison and conditions without side effects leave the state alone.
pub exec-simplify_trivial_short_circuit :
    {S : Type 0} (m : Machine S) (fuel : ℕ) (fx : ℕ → Bool) (k : ℕ) (n : Node)
    → IsStill m fx
    → node_count n ≤ k
    → is_null n ≡ false
    → Everywhere (Readable fx) n
    → (n' : Node) × (simplify_trivial_short_circuit fx k n ≡ some n')
      × ((s : S) → exec m fuel n' s ≡ exec m fuel n s)
exec-simplify_trivial_short_circuit m fuel fx k n st l t r =
    let (n', e, v) = simplify-Visits m fuel fx st k n l t r in (n', e, λ s. Same-run v.same s)
