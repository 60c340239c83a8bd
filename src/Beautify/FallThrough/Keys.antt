-- ===== src/Beautify/FallThrough/Keys.antt =====
-- `fallThroughScopeImpl` (FallThroughScopeAnalysis.cpp): the entries of the map as it grows.
use revng_c.Prelude.{
  ℕ, Bool, true, false, ◌≡◌, refl, subst, Option, none, some, ◌∷◌, ◌==◌, is_none, if◌then◌else◌,
  >>=-eq-some, of_some, arith,
}
use revng_c.Ghast.Node.{
  Node, null, code, break, continue, if_node, scs, sequence, switch, switch_break, set, Nodes, nil,
  cons, Cases, no_case, case, has_default,
}
use revng_c.Ghast.Identity.{node_id}
use revng_c.Semantics.{Last}
use revng_c.Beautify.FallThrough.{
  ScopeType, call_no_return, returns, Binary, ScopeMap, at, note_code, child_scope, switch_scope,
  code_scope, last_id, scope, scope_nodes, scope_cases,
}

pub record Grows (mp mp' : ScopeMap) : Type 0 where
  pub keeps : (j : ℕ) → is_none (at mp j) ≡ false → is_none (at mp' j) ≡ false

pub Grows-refl : (mp : ScopeMap) → Grows mp mp
Grows-refl mp = record { keeps = λ j h. h }

pub Grows-trans : {a b c : ScopeMap} → Grows a b → Grows b c → Grows a c
Grows-trans p q = record { keeps = λ j h. q.keeps j (p.keeps j h) }

is_none-if :
    {A : Type 0} (c : Bool) (a : A) (o : Option A)
    → is_none o ≡ false
    → is_none (if c then some a else o) ≡ false
is_none-if true a o h = refl
is_none-if false a o h = h

pub Grows-note : (i : ℕ) (t : ScopeType) (mp : ScopeMap) → Grows mp ((i, t) ∷ mp)
unfolding at
Grows-note i t mp = record { keeps = λ j h. is_none-if (j == i) t (at mp j) h }

own_key : (i : ℕ) (t : ScopeType) (mp : ScopeMap) → is_none (at ((i, t) ∷ mp) i) ≡ false
unfolding at
own_key i t mp = ground arith

present : {A : Type 0} (o : Option A) → is_none o ≡ false → (u : A) × (o ≡ some u)
present (some u) h = (u, refl)
present none h = cc

-- a fresh entry is found in every later map
pub key-note :
    (i : ℕ) (t : ScopeType) (mp mp' : ScopeMap)
    → Grows ((i, t) ∷ mp) mp'
    → (u : ScopeType) × (at mp' i ≡ some u)
key-note i t mp mp' g = present (at mp' i) (g.keeps i (own_key i t mp))

Grows-note_code : (i : ℕ) (mp : ScopeMap) (t : ScopeType) → Grows mp (note_code i mp t).1
unfolding note_code
Grows-note_code i mp returns = Grows-note i returns mp
Grows-note_code i mp call_no_return = Grows-note i call_no_return mp
Grows-note_code i mp _ = Grows-refl mp

module _ (b : Binary) (last : ℕ → Last) where
  Grows-child :
      (n : Node) (mp : ScopeMap) (r : ScopeType × ScopeMap)
      → child_scope n mp (scope b last n mp) ≡ some r
      → ((r' : ScopeType × ScopeMap) → scope b last n mp ≡ some r' → Grows mp r'.1)
      → Grows mp r.1
  unfolding child_scope
  Grows-child null mp r e k = subst (λ x. Grows mp x.1) (of_some e) (Grows-refl mp)
  Grows-child n mp r e k =
      let (r', e1, k1) = >>=-eq-some (scope b last n mp) _ e in
      subst (λ x. Grows mp x.1) (of_some k1)
        (Grows-trans (k r' e1) (Grows-note (node_id n) r'.0 r'.1))

  Grows-switch :
      (has : Bool) (mp : ScopeMap) (x : Option ScopeType × ScopeMap) (r : ScopeType × ScopeMap)
      → switch_scope has x ≡ some r
      → Grows mp x.1
      → Grows mp r.1
  unfolding switch_scope
  Grows-switch true mp (t, mp') r e h =
      let (t', e', e'') = >>=-eq-some t _ e in subst (λ x. Grows mp x.1) (of_some e'') h
  Grows-switch false mp (t, mp') r e h = subst (λ x. Grows mp x.1) (of_some e) h

  mutual
    unfolding scope

    grows :
        (n : Node) (mp : ScopeMap) (r : ScopeType × ScopeMap)
        → scope b last n mp ≡ some r
        → Grows mp r.1
    grows (sequence i ns) mp r e =
        let (mp', e1, k1) = >>=-eq-some (scope_nodes b last ns mp) _ e in
        let (l, e2, k2) = >>=-eq-some (last_id ns) _ k1 in
        let (t, e3, k3) = >>=-eq-some (at mp' l) _ k2 in
        subst (λ x. Grows mp x.1) (of_some k3) (scope_nodes-Grows ns mp mp' e1)
    grows (if_node i bb c q t e) mp r eq =
        let (rt, e1, k1) = >>=-eq-some (child_scope t mp (scope b last t mp)) _ eq in
        let (re, e2, k2) = >>=-eq-some (child_scope e rt.1 (scope b last e rt.1)) _ k1 in
        subst (λ x. Grows mp x.1) (of_some k2)
          (Grows-trans (Grows-child t mp rt e1 (λ r' x. grows t mp r' x))
            (Grows-child e rt.1 re e2 (λ r' x. grows e rt.1 r' x)))
    grows (switch i f cs) mp r e =
        let (r', e1, k1) = >>=-eq-some (scope_cases b last cs none mp) _ e in
        Grows-switch (has_default cs) mp r' r k1 (scope_cases-Grows cs none mp r' e1)
    grows (scs i t body) mp r e =
        let (r', e1, k1) = >>=-eq-some (child_scope body mp (scope b last body mp)) _ e in
        subst (λ x. Grows mp x.1) (of_some k1)
          (Grows-child body mp r' e1 (λ x y. grows body mp x y))
    grows (code i none implicit) mp r e = absurd (cc e)
    grows (code i (some bb) implicit) mp r e =
        let (t, e1, k1) = >>=-eq-some (code_scope b (last bb)) _ e in
        subst (λ x. Grows mp x.1) (of_some k1) (Grows-note_code i mp t)
    grows null mp r e = absurd (cc e)
    grows (break i q) mp r e = subst (λ x. Grows mp x.1) (of_some e) (Grows-refl mp)
    grows (continue i c q) mp r e = subst (λ x. Grows mp x.1) (of_some e) (Grows-refl mp)
    grows (switch_break i q) mp r e = subst (λ x. Grows mp x.1) (of_some e) (Grows-refl mp)
    grows (set i v k) mp r e = subst (λ x. Grows mp x.1) (of_some e) (Grows-refl mp)

    scope_nodes-Grows :
        (ns : Nodes) (mp mp' : ScopeMap) → scope_nodes b last ns mp ≡ some mp' → Grows mp mp'
    scope_nodes-Grows nil mp mp' e = subst (λ x. Grows mp x) (of_some e) (Grows-refl mp)
    scope_nodes-Grows (cons n ns) mp mp' e =
        let (r, e1, k1) = >>=-eq-some (scope b last n mp) _ e in
        Grows-trans (grows n mp r e1)
          (Grows-trans (Grows-note (node_id n) r.0 r.1) (scope_nodes-Grows ns _ mp' k1))

    scope_cases-Grows :
        (cs : Cases) (all : Option ScopeType) (mp : ScopeMap) (r : Option ScopeType × ScopeMap)
        → scope_cases b last cs all mp ≡ some r
        → Grows mp r.1
    scope_cases-Grows no_case all mp r e = subst (λ x. Grows mp x.1) (of_some e) (Grows-refl mp)
    scope_cases-Grows (case l n cs) all mp r e =
        let (r', e1, k1) = >>=-eq-some (scope b last n mp) _ e in
        Grows-trans (grows n mp r' e1)
          (Grows-trans (Grows-note (node_id n) r'.0 r'.1) (scope_cases-Grows cs _ _ r k1))

  pub Grows-child_scope :
      (n : Node) (mp : ScopeMap) (r : ScopeType × ScopeMap)
      → child_scope n mp (scope b last n mp) ≡ some r
      → Grows mp r.1
  Grows-child_scope n mp r e = Grows-child n mp r e (λ r' x. grows n mp r' x)

  pub Grows-nodes :
      (ns : Nodes) (mp mp' : ScopeMap) → scope_nodes b last ns mp ≡ some mp' → Grows mp mp'
  Grows-nodes ns mp mp' e = scope_nodes-Grows ns mp mp' e

  pub Grows-cases :
      (cs : Cases) (all : Option ScopeType) (mp : ScopeMap) (r : Option ScopeType × ScopeMap)
      → scope_cases b last cs all mp ≡ some r
      → Grows mp r.1
  Grows-cases cs all mp r e = scope_cases-Grows cs all mp r e
