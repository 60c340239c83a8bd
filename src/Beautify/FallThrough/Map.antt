-- ===== src/Beautify/FallThrough/Map.antt =====
-- What the map of the analysis says of every node that it has an entry for.
-- The address of a node determines the node: `who` gives the node of an identity.
use revng_c.Prelude.{
  ℕ, Bool, true, false, ◌≡◌, ap, sym, ◌∙◌, subst, some, none, Option, [], ◌∷◌, ◌==◌, ==_iff,
  >>=-eq-some, of_some, Bool-cases, ◌⊎◌, inl, inr, if◌then◌else◌,
}
use revng_c.Ghast.Node.{
  Node, null, code, break, continue, if_node, scs, sequence, switch, switch_break, set, Nodes, nil,
  cons, Cases, no_case, case, has_default, is_null,
}
use revng_c.Ghast.Identity.{node_id}
use revng_c.Ghast.Everywhere.{Everywhere, EverywhereNodes, EverywhereCases}
use revng_c.Semantics.{Machine, exec}
use revng_c.Beautify.FallThrough.{
  ScopeType, call_no_return, returns, Binary, ScopeMap, at, falls_through, note_code, note, last_id,
  code_scope, child_scope, switch_scope, scope, scope_nodes, scope_cases,
  compute_fall_through_scope,
}
use revng_c.Beautify.FallThrough.Leaving.{Leaving, IsPlain}
use revng_c.Beautify.FallThrough.Analysis.{scope-Leaving, note_code-type}

abbrev pub IsFiled : (ℕ → Node) → Node → Type 0
IsFiled who null = Unit
IsFiled who n = who (node_id n) ≡ n

-- No entry but that of a fall-through is wrong.
pub record IsSound {S : Type 0} (m : Machine S) (fuel : ℕ) (who : ℕ → Node) (mp : ScopeMap)
    : Type 0 where
  pub leaving :
      (j : ℕ) (t : ScopeType)
      → at mp j ≡ some t
      → falls_through t ≡ false
      → (s : S) → Leaving (exec m fuel (who j) s)

at-cons :
    (i j : ℕ) (t u : ScopeType) (mp : ScopeMap)
    → at ((i, t) ∷ mp) j ≡ some u
    → ((i ≡ j) × (t ≡ u)) ⊎ (at mp j ≡ some u)
unfolding at
at-cons i j t u mp h = elim (Bool-cases (j == i)) [
  | inl e ↦
      inl (sym ((==_iff j i).0 e), of_some (sym (ap (λ x. if x then some t else at mp j) e) ∙ h))
  | inr e ↦ inr (sym (ap (λ x. if x then some t else at mp j) e) ∙ h)
]

pub here : (P : Node → Type 0) (n : Node) → Everywhere P n → P n
unfolding Everywhere
here P (if_node i bb c w t e) h = h.0
here P (scs i t body) h = h.0
here P (sequence i ns) h = h.0
here P (switch i f cs) h = h.0
here P _ h = h

pub filed_node :
    (who : ℕ → Node) (n : Node)
    → is_null n ≡ false
    → Everywhere (IsFiled who) n
    → who (node_id n) ≡ n
unfolding is_null
filed_node who null h w = cc
filed_node who n h w = here (IsFiled who) n w

module _ {S : Type 0} (b : Binary) (m : Machine S) (fuel : ℕ) (who : ℕ → Node) where
  Sound-note :
      (i : ℕ) (t : ScopeType) (mp : ScopeMap)
      → IsSound m fuel who mp
      → (falls_through t ≡ false → (s : S) → Leaving (exec m fuel (who i) s))
      → IsSound m fuel who ((i, t) ∷ mp)
  Sound-note i t mp h k = record {
    leaving = λ j u e f s. elim (at-cons i j t u mp e) [
      | inl (p, q) ↦ subst (λ x. Leaving (exec m fuel (who x) s)) p (k (ap falls_through q ∙ f) s)
      | inr e' ↦ h.leaving j u e' f s
    ];
  }

  Sound-note_code :
      (i : ℕ) (mp : ScopeMap) (t : ScopeType)
      → IsSound m fuel who mp
      → (falls_through t ≡ false → (s : S) → Leaving (exec m fuel (who i) s))
      → IsSound m fuel who (note_code i mp t).1
  unfolding note_code
  Sound-note_code i mp returns h k = Sound-note i returns mp h k
  Sound-note_code i mp call_no_return h k = Sound-note i call_no_return mp h k
  Sound-note_code i mp _ h k = h

  filed :
      (n : Node) (mp : ScopeMap) (r : ScopeType × ScopeMap)
      → scope b m.last n mp ≡ some r
      → Everywhere (IsFiled who) n
      → who (node_id n) ≡ n
  unfolding scope
  filed null mp r e w = absurd (cc e)
  filed n mp r e w = here (IsFiled who) n w

  Sound-node :
      (n : Node) (mp : ScopeMap) (r : ScopeType × ScopeMap)
      → scope b m.last n mp ≡ some r
      → Everywhere IsPlain n
      → Everywhere (IsFiled who) n
      → IsSound m fuel who r.1
      → IsSound m fuel who (note (node_id n) r).1
  Sound-node n mp r e p w h =
      Sound-note (node_id n) r.0 r.1 h
        (λ f s. rw (filed n mp r e w) (scope-Leaving b m fuel n mp r e f p s))

  Sound-child :
      (n : Node) (mp : ScopeMap) (r : ScopeType × ScopeMap)
      → child_scope n mp (scope b m.last n mp) ≡ some r
      → Everywhere IsPlain n
      → Everywhere (IsFiled who) n
      → IsSound m fuel who mp
      → ((r' : ScopeType × ScopeMap) → scope b m.last n mp ≡ some r' → IsSound m fuel who r'.1)
      → IsSound m fuel who r.1
  unfolding child_scope
  Sound-child null mp r e p w h k = subst (λ x. IsSound m fuel who x.1) (of_some e) h
  Sound-child n mp r e p w h k =
      let (r', e', e'') = >>=-eq-some (scope b m.last n mp) _ e in
      subst (λ x. IsSound m fuel who x.1) (of_some e'') (Sound-node n mp r' e' p w (k r' e'))

  Sound-switch :
      (has : Bool) (x : Option ScopeType × ScopeMap) (r : ScopeType × ScopeMap)
      → switch_scope has x ≡ some r
      → IsSound m fuel who x.1
      → IsSound m fuel who r.1
  unfolding switch_scope
  Sound-switch true (t, mp) r e h =
      let (t', e', e'') = >>=-eq-some t _ e in subst (λ x. IsSound m fuel who x.1) (of_some e'') h
  Sound-switch false (t, mp) r e h = subst (λ x. IsSound m fuel who x.1) (of_some e) h

  mutual
    unfolding scope Everywhere

    sound :
        (n : Node) (mp : ScopeMap) (r : ScopeType × ScopeMap)
        → scope b m.last n mp ≡ some r
        → Everywhere IsPlain n
        → Everywhere (IsFiled who) n
        → IsSound m fuel who mp
        → IsSound m fuel who r.1
    sound (sequence i ns) mp r e p w h =
        let (mp', e1, k1) = >>=-eq-some (scope_nodes b m.last ns mp) _ e in
        let (l, e2, k2) = >>=-eq-some (last_id ns) _ k1 in
        let (t, e3, k3) = >>=-eq-some (at mp' l) _ k2 in
        subst (λ x. IsSound m fuel who x.1) (of_some k3) (IsSound-nodes ns mp mp' e1 p.1 w.1 h)
    sound (if_node i bb c q t e) mp r eq p w h =
        let (rt, e1, k1) = >>=-eq-some (child_scope t mp (scope b m.last t mp)) _ eq in
        let (re, e2, k2) = >>=-eq-some (child_scope e rt.1 (scope b m.last e rt.1)) _ k1 in
        let ht = Sound-child t mp rt e1 p.1 w.1 h (λ r' x. sound t mp r' x p.1 w.1 h) in
        subst (λ x. IsSound m fuel who x.1) (of_some k2)
          (Sound-child e rt.1 re e2 p.2 w.2 ht (λ r' x. sound e rt.1 r' x p.2 w.2 ht))
    sound (switch i f cs) mp r e p w h =
        let (r', e1, k1) = >>=-eq-some (scope_cases b m.last cs none mp) _ e in
        Sound-switch (has_default cs) r' r k1 (IsSound-cases cs none mp r' e1 p.1 w.1 h)
    sound (scs i t body) mp r e p w h =
        let (r', e1, k1) = >>=-eq-some (child_scope body mp (scope b m.last body mp)) _ e in
        subst (λ x. IsSound m fuel who x.1) (of_some k1)
          (Sound-child body mp r' e1 p.1 w.1 h (λ x y. sound body mp x y p.1 w.1 h))
    sound (code i none implicit) mp r e p w h = absurd (cc e)
    sound (code i (some bb) implicit) mp r e p w h =
        let (t, e1, k1) = >>=-eq-some (code_scope b (m.last bb)) _ e in
        subst (λ x. IsSound m fuel who x.1) (of_some k1)
          (Sound-note_code i mp t h (λ f s. rw w (
            scope-Leaving b m fuel (code i (some bb) implicit) mp r e
              (ap (λ x. falls_through x.0) (sym (of_some k1))
                ∙ ap falls_through (note_code-type i mp t)
                ∙ f)
              p s)))
    sound null mp r e p w h = absurd (cc e)
    sound (break i q) mp r e p w h = subst (λ x. IsSound m fuel who x.1) (of_some e) h
    sound (continue i c q) mp r e p w h = subst (λ x. IsSound m fuel who x.1) (of_some e) h
    sound (switch_break i q) mp r e p w h = subst (λ x. IsSound m fuel who x.1) (of_some e) h
    sound (set i v k) mp r e p w h = subst (λ x. IsSound m fuel who x.1) (of_some e) h

    IsSound-nodes :
        (ns : Nodes) (mp mp' : ScopeMap)
        → scope_nodes b m.last ns mp ≡ some mp'
        → EverywhereNodes IsPlain ns
        → EverywhereNodes (IsFiled who) ns
        → IsSound m fuel who mp
        → IsSound m fuel who mp'
    IsSound-nodes nil mp mp' e p w h = subst (λ x. IsSound m fuel who x) (of_some e) h
    IsSound-nodes (cons n ns) mp mp' e p w h =
        let (r, e1, k1) = >>=-eq-some (scope b m.last n mp) _ e in
        IsSound-nodes ns _ mp' k1 p.1 w.1 (Sound-node n mp r e1 p.0 w.0 (sound n mp r e1 p.0 w.0 h))

    IsSound-cases :
        (cs : Cases) (all : Option ScopeType) (mp : ScopeMap) (r : Option ScopeType × ScopeMap)
        → scope_cases b m.last cs all mp ≡ some r
        → EverywhereCases IsPlain cs
        → EverywhereCases (IsFiled who) cs
        → IsSound m fuel who mp
        → IsSound m fuel who r.1
    IsSound-cases no_case all mp r e p w h = subst (λ x. IsSound m fuel who x.1) (of_some e) h
    IsSound-cases (case l n cs) all mp r e p w h =
        let (r', e1, k1) = >>=-eq-some (scope b m.last n mp) _ e in
        IsSound-cases cs _ _ r k1 p.1 w.1
          (Sound-node n mp r' e1 p.0 w.0 (sound n mp r' e1 p.0 w.0 h))

-- In a GHAST in which nothing is implicit, a switch break is a whole case, and an identity belongs
-- to one node: every entry of the computed map that is not a fall-through belongs to a node that
-- never ends normally and never ends a `switch`, on any machine, with any fuel.
pub compute_fall_through_scope-IsSound :
    {S : Type 0} (b : Binary) (m : Machine S) (fuel : ℕ) (who : ℕ → Node) (root : Node)
    (mp : ScopeMap)
    → compute_fall_through_scope b m.last root ≡ some mp
    → Everywhere IsPlain root
    → Everywhere (IsFiled who) root
    → IsSound m fuel who mp
unfolding compute_fall_through_scope at
compute_fall_through_scope-IsSound b m fuel who root mp e p w =
    let (r, e1, k1) = >>=-eq-some (scope b m.last root []) _ e in
    let empty : IsSound m fuel who [] = record { leaving = λ j t x f s. absurd (cc x) } in
    subst (λ x. IsSound m fuel who x) (of_some k1)
      (Sound-node b m fuel who root [] r e1 p w (sound b m fuel who root [] r e1 p w empty))
