-- ===== src/Beautify/Promotion/Step.antt =====
-- `promoteNoFallthrough` (BeautifyGHAST.cpp): what one `if` becomes, and how the maps grow.
use revng_c.Prelude.{
  ℕ, ◌≤◌, ◌<◌, Bool, true, false, not, ◌≡◌, refl, ap, sym, ◌∙◌, subst, fun_ext, Option, some, ◌∷◌,
  ◌>>=◌, >>=-eq-some, of_some, arith,
}
use revng_c.Ghast.Expr.{Expr}
use revng_c.Ghast.Node.{Node, null, if_node, sequence, Nodes, is_null}
use revng_c.Ghast.Identity.{node_id}
use revng_c.Semantics.{Machine, Outcome, and_then, choose, finish, eval, exec}
use revng_c.Semantics.Congruence.{and_then-finish, Same, Same-refl}
use revng_c.Beautify.FallThrough.{ScopeType, ScopeMap, at, falls_through}
use revng_c.Beautify.FallThrough.Leaving.{Leaving, and_then-left}
use revng_c.Beautify.Promotion.{
  State, Promotion, keep_branches, promote_then, promote_else, by_scopes, choose_promotion,
  add_sequence, promote_branch, promote_if,
}

by_scopes-else :
    (a b : Bool) (wt we : Option ℕ) → by_scopes a b wt we ≡ some promote_else → a ≡ false
by_scopes-else false b wt we h = refl
by_scopes-else true false wt we h = cc
by_scopes-else true true wt we h = cc

by_scopes-then :
    (a b : Bool) (wt we : Option ℕ) → by_scopes a b wt we ≡ some promote_then → b ≡ false
by_scopes-then a false wt we h = refl
by_scopes-then false true wt we h = cc
by_scopes-then true true wt we h = cc

-- The entries below `bound` are those of `scopes`.
pub record Good (scopes : ScopeMap) (bound : ℕ) (s : State) : Type 0 where
  pub older : (j : ℕ) → j < bound → at s.fall_through_scope_map j ≡ at scopes j
  pub reach : bound ≤ s.fresh

pub record Advances (s s' : State) : Type 0 where
  pub keeps : (j : ℕ) → j < s.fresh → at s'.fall_through_scope_map j ≡ at s.fall_through_scope_map j
  pub grows : s.fresh ≤ s'.fresh

pub Advances-refl : (s : State) → Advances s s
Advances-refl s = record { keeps = λ j h. refl; grows = omega arith }

pub Advances-trans : {a b c : State} → Advances a b → Advances b c → Advances a c
Advances-trans {a} {b} {c} p q = record {
  keeps = λ j h. let g = p.grows in q.keeps j (omega (arith, g, h)) ∙ p.keeps j h;
  grows = let g = p.grows in let g' = q.grows in omega (arith, g, g');
}

pub Good-Advances :
    {scopes : ScopeMap} {bound : ℕ} {s s' : State}
    → Good scopes bound s
    → Advances s s'
    → Good scopes bound s'
Good-Advances h a = record {
  older = λ j b. let r = h.reach in a.keeps j (omega (arith, r, b)) ∙ h.older j b;
  reach = let r = h.reach in let g = a.grows in omega (arith, r, g);
}

at-fresh : (j k : ℕ) (t : ScopeType) (mp : ScopeMap) → j < k → at ((k, t) ∷ mp) j ≡ at mp j
unfolding at
at-fresh j k t mp h = ground (arith, h)

at-own : (k : ℕ) (t : ScopeType) (mp : ScopeMap) → at ((k, t) ∷ mp) k ≡ some t
unfolding at
at-own k t mp = ground arith

module _ {S : Type 0} where
  left-then :
      (r : Bool × S) (f g : S → Outcome S)
      → ((s : S) → Leaving (f s))
      → and_then (choose r f finish) (λ s. and_then (g s) finish) ≡ choose r f g
  left-then (true, s) f g h = and_then-left (f s) _ (h s)
  left-then (false, s) f g h = and_then-finish (g s)

  left-else :
      (r : Bool × S) (f g : S → Outcome S)
      → ((s : S) → Leaving (g s))
      → and_then (choose r finish g) (λ s. and_then (f s) finish) ≡ choose r f g
  left-else (true, s) f g h = and_then-finish (f s)
  left-else (false, s) f g h = and_then-left (g s) _ (h s)

module _ {S : Type 0} (m : Machine S) (fuel : ℕ) (scopes : ScopeMap) (bound : ℕ) where
  pub record Step (n : Node) (s : State) (r : Node × State) : Type 0 where
    pub same : Same m fuel r.0 n
    pub entry : at r.1.fall_through_scope_map (node_id r.0) ≡ at scopes (node_id n)
    pub below : node_id r.0 < r.1.fresh
    pub advances : Advances s r.1

  -- no entry of the state but that of a fall-through is wrong about the node
  abbrev pub LeavesIn : State → Node → Type 0
  LeavesIn st n =
      is_null n ≡ false
      → (t : ScopeType) → at st.fall_through_scope_map (node_id n) ≡ some t
      → falls_through t ≡ false
      → (s : S) → Leaving (exec m fuel n s)

  Step-refl :
      (n : Node) (s : State)
      → at s.fall_through_scope_map (node_id n) ≡ at scopes (node_id n)
      → node_id n < s.fresh
      → Step n s (n, s)
  Step-refl n s e b = record {
    same = Same-refl n;
    entry = e;
    below = b;
    advances = Advances-refl s;
  }

  add_sequence-Step :
      (n : Node) (s : State) (i : ℕ) (ns : Nodes) (r : Node × State)
      → add_sequence s i ns ≡ some r
      → Good scopes bound s
      → node_id n ≡ i
      → i < bound
      → ((k : ℕ) → Same m fuel (sequence k ns) n)
      → Step n s r
  unfolding node_id
  add_sequence-Step n s i ns r e g p b h =
      let (t, e1, k1) = >>=-eq-some (at s.fall_through_scope_map i) _ e in
      subst (Step n s) (of_some k1) (record {
        same = h s.fresh;
        entry =
            at-own s.fresh t s.fall_through_scope_map
            ∙ sym e1
            ∙ g.older i b
            ∙ ap (at scopes) (sym p);
        below = omega arith;
        advances = record {
          keeps = λ j x. at-fresh j s.fresh t s.fall_through_scope_map x;
          grows = omega arith;
        };
      })

  module _ (i : ℕ) (bb : Option ℕ) (c : Expr) (w : Bool) (t e : Node) where
    promote_branch-Step :
        (s : State) (p : Promotion) (r : Node × State)
        → promote_branch i bb c w t e s p ≡ some r
        → Good scopes bound s
        → i < bound
        → (p ≡ promote_else → (u : S) → Leaving (exec m fuel t u))
        → (p ≡ promote_then → (u : S) → Leaving (exec m fuel e u))
        → Step (if_node i bb c w t e) s r
    unfolding exec node_id
    promote_branch-Step s keep_branches r q g b ht he =
        subst (Step (if_node i bb c w t e) s) (of_some q) (
          Step-refl (if_node i bb c w t e) s (g.older i b)
            (let reach = g.reach in omega (arith, reach, b)))
    promote_branch-Step s promote_else r q g b ht he =
        add_sequence-Step (if_node i bb c w t e) s i _ r q g refl b (λ k. record {
          at =
              fun_ext λ u. left-then (eval m (not w) c u) (exec m fuel t) (exec m fuel e) (ht refl);
        })
    promote_branch-Step s promote_then r q g b ht he =
        add_sequence-Step (if_node i bb c w t e) s i _ r q g refl b (λ k. record {
          at =
              fun_ext λ u. left-else (eval m (not w) c u) (exec m fuel t) (exec m fuel e) (he refl);
        })

    both-Step :
        (s : State) (r : Node × State)
        → choose_promotion s (node_id t) (node_id e) >>= (λ p. promote_branch i bb c w t e s p)
          ≡ some r
        → Good scopes bound s
        → i < bound
        → is_null t ≡ false
        → is_null e ≡ false
        → LeavesIn s t
        → LeavesIn s e
        → Step (if_node i bb c w t e) s r
    both-Step s r q g b nt ne lt le =
        let (p, e1, k1) = >>=-eq-some (choose_promotion s (node_id t) (node_id e)) _ q in
        let (x, e2, k2) = >>=-eq-some (at s.fall_through_scope_map (node_id t)) _ e1 in
        let (y, e3, k3) = >>=-eq-some (at s.fall_through_scope_map (node_id e)) _ k2 in
        promote_branch-Step s p r k1 g b (λ z. lt nt x e2 (by_scopes-else _ _ _ _ (k3 ∙ ap some z)))
          (λ z. le ne y e3 (by_scopes-then (falls_through x) _ _ _ (k3 ∙ ap some z)))

  pub promote_if-Step :
      (i : ℕ) (bb : Option ℕ) (c : Expr) (w : Bool) (t e : Node) (s : State) (r : Node × State)
      → promote_if i bb c w t e s ≡ some r
      → Good scopes bound s
      → i < bound
      → LeavesIn s t
      → LeavesIn s e
      → Step (if_node i bb c w t e) s r
  unfolding is_null node_id
  promote_if-Step i bb c w null e s r q g b lt le =
      promote_branch-Step i bb c w null e s keep_branches r q g b (λ z. cc z) (λ z. cc z)
  promote_if-Step i bb c w t null s r q g b lt le =
      promote_branch-Step i bb c w t null s keep_branches r q g b (λ z. cc z) (λ z. cc z)
  promote_if-Step i bb c w t e s r q g b lt le = both-Step i bb c w t e s r q g b refl refl lt le
