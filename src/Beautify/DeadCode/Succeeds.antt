-- ===== src/Beautify/DeadCode/Succeeds.antt =====
-- `removeDeadCode` (RemoveDeadCode.cpp): its look-ups and its assertion.
use revng_c.Prelude.{
  ℕ, Bool, true, false, ◌≡◌, refl, sym, ◌∙◌, subst, Option, none, some, >>=-eq-some, of_some,
  Succeeds, chain,
}
use revng_c.Ghast.Node.{
  Node, null, code, break, continue, if_node, scs, sequence, switch, switch_break, set, Nodes, nil,
  cons, Cases, no_case, case, has_default,
}
use revng_c.Ghast.Identity.{node_id}
use revng_c.Semantics.{Last}
use revng_c.Beautify.FallThrough.{
  ScopeType, Binary, ScopeMap, at, falls_through, child_scope, switch_scope, last_id, scope,
  scope_nodes, scope_cases, compute_fall_through_scope,
}
use revng_c.Beautify.FallThrough.Keys.{
  Grows, Grows-trans, Grows-note, key-note, Grows-child_scope, Grows-nodes, Grows-cases,
}
use revng_c.Beautify.DeadCode.{
  assert_not_empty, keep_after, if_present, keep_case, remove_dead_code_impl, remove_in_nodes,
  remove_in_cases, remove_dead_code,
}
use revng_c.Beautify.DeadCode.Preserves.{remove-node_id}

keep_after-Succeeds : (x : Bool) (o : Option Nodes) → Succeeds o → Succeeds (keep_after x o)
keep_after-Succeeds true o h = h
keep_after-Succeeds false o h = (nil, refl)

module _ (b : Binary) (last : ℕ → Last) where
  Child : Node → Type 0
  unfolding remove_dead_code_impl
  Child n =
      (mp : ScopeMap) (r : ScopeType × ScopeMap) (mp' : ScopeMap)
      → scope b last n mp ≡ some r
      → Grows r.1 mp'
      → Succeeds (remove_dead_code_impl mp' n)

  Child-Succeeds :
      (n : Node) (mp : ScopeMap) (r : ScopeType × ScopeMap) (mp' : ScopeMap)
      → child_scope n mp (scope b last n mp) ≡ some r
      → Grows r.1 mp'
      → Child n
      → Succeeds (if_present n (remove_dead_code_impl mp' n))
  unfolding child_scope Child
  Child-Succeeds null mp r mp' e g k = (null, refl)
  Child-Succeeds n mp r mp' e g k =
      let (r', e1, k1) = >>=-eq-some (scope b last n mp) _ e in
      k mp r' mp' e1 (
        Grows-trans (Grows-note (node_id n) r'.0 r'.1)
          (subst (λ x. Grows x.1 mp') (sym (of_some k1)) g))

  switch_scope-map :
      (has : Bool) (x : Option ScopeType × ScopeMap) (r : ScopeType × ScopeMap) (mp : ScopeMap)
      → switch_scope has x ≡ some r
      → Grows r.1 mp
      → Grows x.1 mp
  unfolding switch_scope
  switch_scope-map true (t, m) r mp e g =
      let (t', e', e'') = >>=-eq-some t _ e in subst (λ x. Grows x.1 mp) (sym (of_some e'')) g
  switch_scope-map false (t, m) r mp e g = subst (λ x. Grows x.1 mp) (sym (of_some e)) g

  -- a sequence keeps its first child
  not_empty :
      (ns : Nodes) (l : ℕ) (mp : ScopeMap) (r : Nodes)
      → last_id ns ≡ some l
      → remove_in_nodes mp ns ≡ some r
      → Succeeds (assert_not_empty r)
  unfolding remove_dead_code_impl last_id
  not_empty nil l mp r e h = absurd (cc e)
  not_empty (cons n ns) l mp r e h =
      let (n', e1, k1) = >>=-eq-some (remove_dead_code_impl mp n) _ h in
      let (t, e2, k2) = >>=-eq-some (at mp (node_id n')) _ k1 in
      let (ns', e3, k3) = >>=-eq-some (keep_after (falls_through t) (remove_in_nodes mp ns)) _ k2 in
      subst (λ x. Succeeds (assert_not_empty x)) (of_some k3) (cons n' ns', refl)

  mutual
    unfolding scope remove_dead_code_impl Child

    removes : (n : Node) → Child n
    removes (sequence i ns) mp r mp' e g =
        let (mp1, e1, k1) = >>=-eq-some (scope_nodes b last ns mp) _ e in
        let (l, e2, k2) = >>=-eq-some (last_id ns) _ k1 in
        let (t, e3, k3) = >>=-eq-some (at mp1 l) _ k2 in
        let g1 = subst (λ x. Grows x.1 mp') (sym (of_some k3)) g in
        chain _ _
          (chain _ _ (removes_nodes ns mp mp1 mp' e1 g1) (λ r' e'. not_empty ns l mp' r' e2 e'))
          (λ r' e'. (sequence i r', refl))
    removes (if_node i bb c q t f) mp r mp' e g =
        let (rt, e1, k1) = >>=-eq-some (child_scope t mp (scope b last t mp)) _ e in
        let (rf, e2, k2) = >>=-eq-some (child_scope f rt.1 (scope b last f rt.1)) _ k1 in
        let g2 = subst (λ x. Grows x.1 mp') (sym (of_some k2)) g in
        let g1 = Grows-trans (Grows-child_scope b last f rt.1 rf e2) g2 in
        chain _ _ (Child-Succeeds t mp rt mp' e1 g1 (removes t)) (λ t' _.
          chain _ _ (Child-Succeeds f rt.1 rf mp' e2 g2 (removes f))
            (λ f' _. (if_node i bb c q t' f', refl)))
    removes (switch i f cs) mp r mp' e g =
        let (r', e1, k1) = >>=-eq-some (scope_cases b last cs none mp) _ e in
        chain _ _
          (removes_cases cs none mp r' mp' e1 (switch_scope-map (has_default cs) r' r mp' k1 g))
          (λ cs' _. (switch i f cs', refl))
    removes (scs i t body) mp r mp' e g =
        let (r', e1, k1) = >>=-eq-some (child_scope body mp (scope b last body mp)) _ e in
        chain _ _
          (Child-Succeeds body mp r' mp' e1 (subst (λ x. Grows x.1 mp') (sym (of_some k1)) g)
            (removes body))
          (λ b' _. (scs i t b', refl))
    removes null mp r mp' e g = absurd (cc e)
    removes (code i bb q) mp r mp' e g = (code i bb q, refl)
    removes (break i q) mp r mp' e g = (break i q, refl)
    removes (continue i c q) mp r mp' e g = (continue i c q, refl)
    removes (switch_break i q) mp r mp' e g = (switch_break i q, refl)
    removes (set i v k) mp r mp' e g = (set i v k, refl)

    removes_nodes :
        (ns : Nodes) (mp mp1 mp' : ScopeMap)
        → scope_nodes b last ns mp ≡ some mp1
        → Grows mp1 mp'
        → Succeeds (remove_in_nodes mp' ns)
    removes_nodes nil mp mp1 mp' e g = (nil, refl)
    removes_nodes (cons n ns) mp mp1 mp' e g =
        let (r, e1, k1) = >>=-eq-some (scope b last n mp) _ e in
        let g1 = Grows-trans (Grows-nodes b last ns _ mp1 k1) g in
        chain _ _ (removes n mp r mp' e1 (Grows-trans (Grows-note (node_id n) r.0 r.1) g1))
          (λ n' e'.
            chain _ _
              (subst (λ x. Succeeds (at mp' x)) (sym (remove-node_id mp' n n' e').0)
                (key-note (node_id n) r.0 r.1 mp' g1))
              (λ t _.
                chain _ _
                  (keep_after-Succeeds (falls_through t) _ (removes_nodes ns _ mp1 mp' k1 g))
                  (λ r' _. (cons n' r', refl))))

    removes_cases :
        (cs : Cases) (all : Option ScopeType) (mp : ScopeMap) (r : Option ScopeType × ScopeMap)
        (mp' : ScopeMap)
        → scope_cases b last cs all mp ≡ some r
        → Grows r.1 mp'
        → Succeeds (remove_in_cases mp' cs)
    removes_cases no_case all mp r mp' e g = (no_case, refl)
    removes_cases (case l n cs) all mp r mp' e g =
        let (r', e1, k1) = >>=-eq-some (scope b last n mp) _ e in
        let g1 = Grows-trans (Grows-cases b last cs _ _ r k1) g in
        chain _ _ (removes n mp r' mp' e1 (Grows-trans (Grows-note (node_id n) r'.0 r'.1) g1))
          (λ n' _.
            chain _ _ (removes_cases cs _ _ r mp' k1 g) (λ cs' _. (keep_case l n' cs', refl)))

-- Once the analysis has computed a map, `removeDeadCode` returns a GHAST: every look-up of a child
-- finds an entry, and no sequence is left empty.
pub remove_dead_code-succeeds :
    (b : Binary) (last : ℕ → Last) (root : Node) (mp : ScopeMap)
    → compute_fall_through_scope b last root ≡ some mp
    → (n : Node) × (remove_dead_code b last root ≡ some n)
unfolding compute_fall_through_scope remove_dead_code Child
remove_dead_code-succeeds b last root mp e =
    let (r, e1, k1) = >>=-eq-some (scope b last root _) _ e in
    chain _ _ (mp, e)
      (λ mp' e'. removes b last root _ r mp' e1 (
        subst (λ x. Grows r.1 x) (of_some k1 ∙ of_some (sym e ∙ e'))
          (Grows-note (node_id root) r.0 r.1)))
