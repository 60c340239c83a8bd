-- ===== src/Beautify/While/Carried.antt =====
-- `matchWhile` and `addComputationToContinue` (BeautifyGHAST.cpp): the computations of `continue`s.
--
-- The decompiled text computes the condition of a `while` once before the loop, and again only at a
-- `continue` that carries the `if` of the condition (DecompileFunction.cpp), so a `continue` of the
-- loop without it would test a stale condition.
use revng_c.Prelude.{ℕ, ◌≡◌, refl, subst, Option, none, some, >>=-eq-some, of_some}
use revng_c.Ghast.Node.{
  while, Node, null, code, break, continue, if_node, scs, sequence, switch, switch_break, set,
  Nodes, nil, cons, Cases, no_case, case,
}
use revng_c.Ghast.Everywhere.{Everywhere, EverywhereNodes, EverywhereCases}
use revng_c.Beautify.DoWhile.{or_null}
use revng_c.Beautify.While.{add_computation, add_in_nodes, add_in_cases}

-- Every `continue` of a body, those of nested loops apart, carries the computation `k`.
unfoldable mutual
  pub Carries : ℕ → Node → Type 0
  Carries k (continue i c x) = c ≡ some k
  Carries k (if_node i bb c w t e) = Carries k t × Carries k e
  Carries k (sequence i ns) = NodesCarry k ns
  Carries k (switch i f cs) = CasesCarry k cs
  Carries k _ = Unit

  pub NodesCarry : ℕ → Nodes → Type 0
  NodesCarry k nil = Unit
  NodesCarry k (cons n ns) = Carries k n × NodesCarry k ns

  pub CasesCarry : ℕ → Cases → Type 0
  CasesCarry k no_case = Unit
  CasesCarry k (case l n cs) = Carries k n × CasesCarry k cs

-- The `continue`s of a `while` carry the `if` of its condition.
unfoldable pub IsComputed : Node → Type 0
IsComputed (scs i (while q) b) = Carries q.id b
IsComputed _ = Unit

-- A loop is not a `while` yet.
abbrev pub NotWhile : Node → Type 0
NotWhile (scs i (while q) b) = ⊥
NotWhile _ = Unit

pub or_null-elim :
    (P : Node → Type 0) (n : Node) (r : Option Node) (n' : Node)
    → or_null n r ≡ some n'
    → P null
    → (r ≡ some n' → P n')
    → P n'
or_null-elim P null r n' e h f = subst P (of_some e) h
or_null-elim P n r n' e h f = f e

mutual
  unfolding add_computation Carries

  pub added : (k : ℕ) (n n' : Node) → add_computation k n ≡ some n' → Carries k n'
  added k (sequence i ns) n' e =
      let (r, e1, k1) = >>=-eq-some (add_in_nodes k ns) _ e in
      subst (Carries k) (of_some k1) (added_nodes k ns r e1)
  added k (if_node i bb c w t f) n' e =
      let (t', e1, k1) = >>=-eq-some (or_null t (add_computation k t)) _ e in
      let (f', e2, k2) = >>=-eq-some (or_null f (add_computation k f)) _ k1 in
      subst (Carries k) (of_some k2) (
        or_null-elim (Carries k) t _ t' e1 tt (added k t t'),
        or_null-elim (Carries k) f _ f' e2 tt (added k f f'),
      )
  added k (switch i f cs) n' e =
      let (r, e1, k1) = >>=-eq-some (add_in_cases k cs) _ e in
      subst (Carries k) (of_some k1) (added_cases k cs r e1)
  added k (continue i none x) n' e = subst (Carries k) (of_some e) refl
  added k (continue i (some j) x) n' e = absurd (cc e)
  added k null n' e = absurd (cc e)
  added k (scs i t b) n' e = subst (Carries k) (of_some e) tt
  added k (code i bb x) n' e = subst (Carries k) (of_some e) tt
  added k (break i x) n' e = subst (Carries k) (of_some e) tt
  added k (switch_break i x) n' e = subst (Carries k) (of_some e) tt
  added k (set i v d) n' e = subst (Carries k) (of_some e) tt

  added_nodes : (k : ℕ) (ns r : Nodes) → add_in_nodes k ns ≡ some r → NodesCarry k r
  added_nodes k nil r e = subst (NodesCarry k) (of_some e) tt
  added_nodes k (cons n ns) r e =
      let (n', e1, k1) = >>=-eq-some (add_computation k n) _ e in
      let (r', e2, k2) = >>=-eq-some (add_in_nodes k ns) _ k1 in
      subst (NodesCarry k) (of_some k2) (added k n n' e1, added_nodes k ns r' e2)

  added_cases : (k : ℕ) (cs r : Cases) → add_in_cases k cs ≡ some r → CasesCarry k r
  added_cases k no_case r e = subst (CasesCarry k) (of_some e) tt
  added_cases k (case l n cs) r e =
      let (n', e1, k1) = >>=-eq-some (add_computation k n) _ e in
      let (r', e2, k2) = >>=-eq-some (add_in_cases k cs) _ k1 in
      subst (CasesCarry k) (of_some k2) (added k n n' e1, added_cases k cs r' e2)

abbrev pub Computed : Node → Type 0
Computed = Everywhere IsComputed

abbrev pub ComputedNodes : Nodes → Type 0
ComputedNodes = EverywhereNodes IsComputed

abbrev pub ComputedCases : Cases → Type 0
ComputedCases = EverywhereCases IsComputed

-- what is computed stays so when a loop around it gets its computation
mutual
  unfolding add_computation Everywhere IsComputed

  pub kept : (k : ℕ) (n n' : Node) → add_computation k n ≡ some n' → Computed n → Computed n'
  kept k (sequence i ns) n' e h =
      let (r, e1, k1) = >>=-eq-some (add_in_nodes k ns) _ e in
      subst Computed (of_some k1) (tt, kept_nodes k ns r e1 h.1)
  kept k (if_node i bb c w t f) n' e h =
      let (t', e1, k1) = >>=-eq-some (or_null t (add_computation k t)) _ e in
      let (f', e2, k2) = >>=-eq-some (or_null f (add_computation k f)) _ k1 in
      subst Computed (of_some k2) (
        tt,
        or_null-elim Computed t _ t' e1 tt (λ x. kept k t t' x h.1),
        or_null-elim Computed f _ f' e2 tt (λ x. kept k f f' x h.2),
      )
  kept k (switch i f cs) n' e h =
      let (r, e1, k1) = >>=-eq-some (add_in_cases k cs) _ e in
      subst Computed (of_some k1) (tt, kept_cases k cs r e1 h.1)
  kept k (continue i none x) n' e h = subst Computed (of_some e) tt
  kept k (continue i (some j) x) n' e h = absurd (cc e)
  kept k null n' e h = absurd (cc e)
  kept k (scs i t b) n' e h = subst Computed (of_some e) h
  kept k (code i bb x) n' e h = subst Computed (of_some e) h
  kept k (break i x) n' e h = subst Computed (of_some e) h
  kept k (switch_break i x) n' e h = subst Computed (of_some e) h
  kept k (set i v d) n' e h = subst Computed (of_some e) h

  kept_nodes :
      (k : ℕ) (ns r : Nodes) → add_in_nodes k ns ≡ some r → ComputedNodes ns → ComputedNodes r
  kept_nodes k nil r e h = subst ComputedNodes (of_some e) tt
  kept_nodes k (cons n ns) r e h =
      let (n', e1, k1) = >>=-eq-some (add_computation k n) _ e in
      let (r', e2, k2) = >>=-eq-some (add_in_nodes k ns) _ k1 in
      subst ComputedNodes (of_some k2) (kept k n n' e1 h.0, kept_nodes k ns r' e2 h.1)

  kept_cases :
      (k : ℕ) (cs r : Cases) → add_in_cases k cs ≡ some r → ComputedCases cs → ComputedCases r
  kept_cases k no_case r e h = subst ComputedCases (of_some e) tt
  kept_cases k (case l n cs) r e h =
      let (n', e1, k1) = >>=-eq-some (add_computation k n) _ e in
      let (r', e2, k2) = >>=-eq-some (add_in_cases k cs) _ k1 in
      subst ComputedCases (of_some k2) (kept k n n' e1 h.0, kept_cases k cs r' e2 h.1)
