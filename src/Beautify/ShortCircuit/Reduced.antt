-- ===== src/Beautify/ShortCircuit/Reduced.antt =====
-- `simplifyTrivialShortCircuit` (BeautifyGHAST.cpp): the reduction at one `if`, with what a visit keeps.
use revng_c.Prelude.{
  ℕ, ◌≤◌, ◌<◌, Bool, true, false, ◌&&◌, ◌≡◌, refl, sym, ap, ◌∙◌, subst, fun_ext, Option, none, some,
  Succeeds, of_some, arith, Bool-cases, inl, inr,
}
use revng_c.Ghast.Expr.{Expr, and_also}
use revng_c.Ghast.Node.{
  RelatedCondition, Node, null, if_node, scs, sequence, switch, Nodes, Cases, is_null,
}
use revng_c.Ghast.Everywhere.{
  Everywhere, EverywhereNodes, EverywhereCases, NoNullNodes, NoNullCases,
}
use revng_c.Semantics.{Machine, exec}
use revng_c.Semantics.Congruence.{Same, SameNodes, SameCases, Same-refl, Same-trans}
use revng_c.Beautify.ShortCircuit.{has_side_effects, if_of, replace}
use revng_c.Beautify.ShortCircuit.Meaning.{IsStill, a_and_b-run}
use revng_c.Beautify.ShortCircuit.Trivial.{
  reduce_inner, reduce_trivial, node_count, nodes_count, cases_count,
}

-- No null pointer is read, and no condition of an `if` has a comparison.
abbrev pub Readable : (ℕ → Bool) → Node → Type 0
Readable fx (if_node i bb c w t e) =
    Succeeds (has_side_effects fx c) × ((is_null t && is_null e) ≡ false)
Readable fx (scs i t b) = is_null b ≡ false
Readable fx (sequence i ns) = NoNullNodes ns
Readable fx (switch i g cs) = NoNullCases cs
Readable fx _ = Unit

is_null-null : (n : Node) → is_null n ≡ true → n ≡ null
unfolding is_null
is_null-null null h = refl
is_null-null _ h = cc

pub node_count-positive : (n : Node) → is_null n ≡ false → 1 ≤ node_count n
unfolding is_null node_count
node_count-positive null h = cc
node_count-positive _ h = omega arith

and_also-Succeeds :
    (fx : ℕ → Bool) (a b : Expr)
    → Succeeds (has_side_effects fx a)
    → Succeeds (has_side_effects fx b)
    → Succeeds (has_side_effects fx (and_also a b))
unfolding has_side_effects
and_also-Succeeds fx a b (true, p) (y, q) = (true, rw p)
and_also-Succeeds fx a b (false, p) (y, q) = (y, rw (p, q))

module _ {S : Type 0} (m : Machine S) (fuel : ℕ) (fx : ℕ → Bool) (st : IsStill m fx) where
  pub record Visited (n n' : Node) : Type 0 where
    pub readable : Everywhere (Readable fx) n'
    pub smaller : node_count n' ≤ node_count n
    pub same : Same m fuel n' n
    pub there : is_null n' ≡ is_null n

  pub record VisitedNodes (ns ns' : Nodes) : Type 0 where
    pub readable : EverywhereNodes (Readable fx) ns'
    pub smaller : nodes_count ns' ≤ nodes_count ns
    pub same : SameNodes m fuel ns' ns
    pub there : NoNullNodes ns'

  pub record VisitedCases (cs cs' : Cases) : Type 0 where
    pub readable : EverywhereCases (Readable fx) cs'
    pub smaller : cases_count cs' ≤ cases_count cs
    pub same : SameCases m fuel cs' cs
    pub there : NoNullCases cs'

  pub Visited-refl : (n : Node) → Everywhere (Readable fx) n → Visited n n
  Visited-refl n r = record {
    readable = r;
    smaller = omega arith;
    same = Same-refl n;
    there = refl;
  }

  pub Visited-trans : {a b c : Node} → Visited a b → Visited b c → Visited a c
  Visited-trans v w = record {
    readable = w.readable;
    smaller = omega (arith, v.smaller, w.smaller);
    same = Same-trans w.same v.same;
    there = w.there ∙ v.there;
  }

  -- what a reduction does to the `if`
  abbrev pub Reduced : Node → Node → Type 0
  Reduced n n' = Visited n n' × (node_count n' < node_count n)

  merge-Visited :
      (q r : RelatedCondition) (t e' e : Node)
      → Everywhere (Readable fx) (if_of q (if_of r t e') e)
      → is_null e ≡ true
      → is_null e' ≡ true
      → has_side_effects fx r.cond_expr ≡ some false
      → Reduced
          (if_of q (if_of r t e') e)
          (if_of (replace q (and_also q.cond_expr r.cond_expr)) t e)
  unfolding Everywhere node_count is_null
  merge-Visited q r t e' e ((hq, _), ((hr, full), rt, re'), re) p p' free =
      let both : e' ≡ e = is_null-null e' p' ∙ sym (is_null-null e p) in
      let t_there : is_null t ≡ false = ground (arith, full, p') in
      let new_full : (is_null t && is_null e) ≡ false = rw t_there in
      (
        record {
          readable = ((and_also-Succeeds fx q.cond_expr r.cond_expr hq hr, new_full), rt, re);
          smaller = omega arith;
          same = record {
            at = fun_ext λ s.
                ap (λ x. exec m fuel (if_of (replace q (and_also q.cond_expr r.cond_expr)) t x) s)
                  (sym both)
                ∙ a_and_b-run m fuel fx st q r free t e' e
                    (λ u. ap (λ x. exec m fuel x u) (sym both)) s;
          };
          there = refl;
        },
        omega arith,
      )

  -- a decision on the `if`, and what it becomes
  abbrev pub Decided : Option (Option Node) → Node → Type 0
  Decided d n = (o : Option Node) × (d ≡ some o) × ((n' : Node) → o ≡ some n' → Reduced n n')

  no_reduction : (n : Node) → Decided (some none) n
  no_reduction n = (none, refl, λ n' h. cc)

  reduce_inner-Decided :
      (q : RelatedCondition) (t e : Node)
      → Everywhere (Readable fx) (if_of q t e)
      → is_null e ≡ true
      → Decided (reduce_inner fx q t e) (if_of q t e)
  unfolding Everywhere reduce_inner is_null
  reduce_inner-Decided q null e ((_, full), _, _) p = absurd (impossible (sym p ∙ full))
    where
      impossible : true ≡ false → ⊥
      impossible h = cc
  reduce_inner-Decided q (if_node j bb c w t e') e (hq, (((v, h), full), r, r1), r') p =
      elim (Bool-cases (is_null e')) [
        | inr f ↦ rw f (no_reduction (if_of q (if_node j bb c w t e') e))
        | inl g ↦ effects v h g
      ]
    where
      effects :
          (v : Bool)
          → has_side_effects fx c ≡ some v
          → is_null e' ≡ true
          → Decided
              (reduce_inner fx q (if_node j bb c w t e') e)
              (if_of q (if_node j bb c w t e') e)
      effects true h g = rw (g, h) (no_reduction (if_of q (if_node j bb c w t e') e))
      effects false h' g = (
        _,
        rw (g, h'),
        λ n k. subst (Reduced (if_of q (if_node j bb c w t e') e)) (of_some k) (
            merge-Visited q (record { id = j; bb = bb; cond_expr = c; is_weaved = w }) t e' e
              (hq, (((_, h'), full), r, r1), r') p g h'),
      )
  reduce_inner-Decided q _ e a p = no_reduction (if_of q _ e)

  pub reduce_trivial-Decided :
      (q : RelatedCondition) (t e : Node)
      → Everywhere (Readable fx) (if_of q t e)
      → Decided (reduce_trivial fx q t e) (if_of q t e)
  unfolding reduce_trivial
  reduce_trivial-Decided q t e r = elim (Bool-cases (is_null e)) [
    | inl g ↦ rw g (reduce_inner-Decided q t e r g)
    | inr f ↦ rw f (no_reduction (if_of q t e))
  ]
