-- ===== src/Beautify/While/Preserves.antt =====
-- `matchWhile` (BeautifyGHAST.cpp): the GHAST before and after it.
use revng_c.Prelude.{
  ℕ, Bool, true, false, ◌≡◌, refl, ap, sym, ◌∙◌, subst, Option, none, some, >>=-eq-some, of_some,
}
use revng_c.Ghast.Node.{
  RelatedCondition, LoopType, Node, null, code, break, continue, if_node, scs, sequence, switch,
  switch_break, set, Nodes, nil, cons, Cases, no_case, case,
}
use revng_c.Ghast.Identity.{node_id}
use revng_c.Ghast.Children.{is_child, DistinctChildren}
use revng_c.Ghast.Everywhere.{Everywhere, EverywhereNodes, EverywhereCases}
use revng_c.Semantics.{Machine, exec}
use revng_c.Semantics.Congruence.{
  Same, SameNodes, SameCases, SameNodes-refl, SameCases-refl, SameExpr-refl, Same-run, Same-if_node,
  Same-sequence, Same-switch, SameNodes-cons, SameCases-case,
}
use revng_c.Beautify.DoWhile.{or_null}
use revng_c.Beautify.DoWhile.Promoted.{or_null-Same, leaf-Same}
use revng_c.Beautify.While.{
  add_computation, set_while, is_do_while, stays_inside, enter_as, promote_while, match_entry,
  unless_do_while, while_of_loop, match_while, while_in_nodes, while_in_cases,
}
use revng_c.Beautify.While.Entry.{HasDistinctChildren, while_of_loop-Same}

-- whatever the verdict, the result is a loop
module _ (P : Node → Type 0) (i : ℕ) (every : (t : LoopType) (b : Node) → P (scs i t b)) where
  enter_as-elim :
      (t : LoopType) (b : Node) (q : RelatedCondition) (put : Node → Node)
      (v : Option (Bool × Node)) (r : Node)
      → enter_as i t b q put v ≡ some r
      → P r
  enter_as-elim t b q put none r e = subst P (of_some e) (every t b)
  enter_as-elim t b q put (some v) r e =
      let (t', e1, k1) = >>=-eq-some (set_while t _) _ e in
      let (b', e2, k2) = >>=-eq-some (add_computation q.id (put v.1)) _ k1 in
      subst P (of_some k2) (every t' b')

  promote_while-elim :
      (t : LoopType) (b l : Node) (put : Node → Node) (r : Node)
      → promote_while i t b l put ≡ some r
      → P r
  promote_while-elim t b (if_node j bb c w th el) put r e =
      enter_as-elim t b _ put (stays_inside th el) r e
  promote_while-elim t b null put r e = cc
  promote_while-elim t b _ put r e = subst P (of_some e) (every t b)

  match_entry-elim : (t : LoopType) (b r : Node) → match_entry i t b ≡ some r → P r
  match_entry-elim t (sequence j nil) r e = cc
  match_entry-elim t (sequence j (cons n ns)) r e =
      promote_while-elim t (sequence j (cons n ns)) n _ r e
  match_entry-elim t b r e = promote_while-elim t b b (λ x. x) r e

  unless_do_while-elim :
      (t : LoopType) (b r : Node) (v : Bool) → unless_do_while i t b v ≡ some r → P r
  unless_do_while-elim t b r true e = subst P (of_some e) (every t b)
  unless_do_while-elim t b r false e = match_entry-elim t b r e

  while_of_loop-elim :
      (t : LoopType) (b : Node) (o : Option Node) (r : Node) → while_of_loop i t b o ≡ some r → P r
  while_of_loop-elim t null o r e = subst P (of_some e) (every t null)
  while_of_loop-elim t b o r e =
      let (b', e1, k1) = >>=-eq-some o _ e in unless_do_while-elim t b' r (is_do_while t) k1

match_while-id : (n n' : Node) → match_while n ≡ some n' → node_id n' ≡ node_id n
unfolding match_while node_id
match_while-id (sequence i ns) n' e =
    let (r, e1, k1) = >>=-eq-some (while_in_nodes ns) _ e in ap node_id (sym (of_some k1))
match_while-id (if_node i bb c w t f) n' e =
    let (t', e1, k1) = >>=-eq-some (or_null t (match_while t)) _ e in
    let (f', e2, k2) = >>=-eq-some (or_null f (match_while f)) _ k1 in ap node_id (sym (of_some k2))
match_while-id (switch i f cs) n' e =
    let (r, e1, k1) = >>=-eq-some (while_in_cases cs) _ e in ap node_id (sym (of_some k1))
match_while-id (scs i t b) n' e =
    while_of_loop-elim (λ x. node_id x ≡ i) i (λ t' b'. refl) t b (match_while b) n' e
match_while-id null n' e = cc
match_while-id n n' e = ap node_id (sym (of_some e))

is_child-while : (j : ℕ) (ns r : Nodes) → while_in_nodes ns ≡ some r → is_child j r ≡ is_child j ns
unfolding match_while is_child
is_child-while j nil r e = ap (is_child j) (sym (of_some e))
is_child-while j (cons n ns) r e =
    let (n', e1, k1) = >>=-eq-some (match_while n) _ e in
    let (r', e2, k2) = >>=-eq-some (while_in_nodes ns) _ k1 in
    ap (is_child j) (sym (of_some k2)) ∙ rw (match_while-id n n' e1, is_child-while j ns r' e2)

distinct-while :
    (ns r : Nodes) → while_in_nodes ns ≡ some r → DistinctChildren ns → DistinctChildren r
unfolding match_while DistinctChildren
distinct-while nil r e h = subst DistinctChildren (of_some e) tt
distinct-while (cons n ns) r e h =
    let (n', e1, k1) = >>=-eq-some (match_while n) _ e in
    let (r', e2, k2) = >>=-eq-some (while_in_nodes ns) _ k1 in
    subst DistinctChildren (of_some k2) (
      rw (match_while-id n n' e1) (is_child-while (node_id n) ns r' e2 ∙ h.0),
      distinct-while ns r' e2 h.1,
    )

-- No node stands twice in the body of a loop.
abbrev pub HasDistinctBody : Node → Type 0
HasDistinctBody (scs i t b) = HasDistinctChildren b
HasDistinctBody _ = Unit

processed-HasDistinctChildren :
    (b b' : Node) → match_while b ≡ some b' → HasDistinctChildren b → HasDistinctChildren b'
unfolding match_while
processed-HasDistinctChildren (sequence j ns) b' e h =
    let (r, e1, k1) = >>=-eq-some (while_in_nodes ns) _ e in
    subst HasDistinctChildren (of_some k1) (distinct-while ns r e1 h)
processed-HasDistinctChildren (if_node j bb c w th el) b' e h =
    let (t', e1, k1) = >>=-eq-some (or_null th (match_while th)) _ e in
    let (f', e2, k2) = >>=-eq-some (or_null el (match_while el)) _ k1 in
    subst HasDistinctChildren (of_some k2) tt
processed-HasDistinctChildren (switch j f cs) b' e h =
    let (r, e1, k1) = >>=-eq-some (while_in_cases cs) _ e in
    subst HasDistinctChildren (of_some k1) tt
processed-HasDistinctChildren (scs j t b) b' e h =
    while_of_loop-elim HasDistinctChildren j (λ t' b''. tt) t b (match_while b) b' e
processed-HasDistinctChildren null b' e h = absurd (cc e)
processed-HasDistinctChildren (code j bb x) b' e h = subst HasDistinctChildren (of_some e) tt
processed-HasDistinctChildren (break j x) b' e h = subst HasDistinctChildren (of_some e) tt
processed-HasDistinctChildren (continue j c x) b' e h = subst HasDistinctChildren (of_some e) tt
processed-HasDistinctChildren (switch_break j x) b' e h = subst HasDistinctChildren (of_some e) tt
processed-HasDistinctChildren (set j v k) b' e h = subst HasDistinctChildren (of_some e) tt

module _ {S : Type 0} (m : Machine S) (fuel : ℕ) where
  mutual
    unfolding match_while Everywhere

    same : (n n' : Node) → match_while n ≡ some n' → Everywhere HasDistinctBody n → Same m fuel n' n
    same (sequence i ns) n' e h =
        let (r, e1, k1) = >>=-eq-some (while_in_nodes ns) _ e in
        subst (λ x. Same m fuel x (sequence i ns)) (of_some k1)
          (Same-sequence i (same_nodes ns r e1 h.1))
    same (if_node i bb c w t f) n' e h =
        let (t', e1, k1) = >>=-eq-some (or_null t (match_while t)) _ e in
        let (f', e2, k2) = >>=-eq-some (or_null f (match_while f)) _ k1 in
        subst (λ x. Same m fuel x (if_node i bb c w t f)) (of_some k2)
          (Same-if_node i bb w (SameExpr-refl c)
            (or_null-Same m fuel t t' _ e1 (λ x. same t t' x h.1))
            (or_null-Same m fuel f f' _ e2 (λ x. same f f' x h.2)))
    same (switch i f cs) n' e h =
        let (r, e1, k1) = >>=-eq-some (while_in_cases cs) _ e in
        subst (λ x. Same m fuel x (switch i f cs)) (of_some k1)
          (Same-switch i f (same_cases cs r e1 h.1))
    same (scs i t b) n' e h =
        while_of_loop-Same m fuel i t b (match_while b) n' e
          (λ b' x. (same b b' x h.1, processed-HasDistinctChildren b b' x h.0))
    same null n' e h = absurd (cc e)
    same (code i bb x) n' e h = leaf-Same m fuel (code i bb x) n' e
    same (break i x) n' e h = leaf-Same m fuel (break i x) n' e
    same (continue i c x) n' e h = leaf-Same m fuel (continue i c x) n' e
    same (switch_break i x) n' e h = leaf-Same m fuel (switch_break i x) n' e
    same (set i v k) n' e h = leaf-Same m fuel (set i v k) n' e

    same_nodes :
        (ns r : Nodes)
        → while_in_nodes ns ≡ some r
        → EverywhereNodes HasDistinctBody ns
        → SameNodes m fuel r ns
    same_nodes nil r e h = subst (λ x. SameNodes m fuel x nil) (of_some e) (SameNodes-refl nil)
    same_nodes (cons n ns) r e h =
        let (n', e1, k1) = >>=-eq-some (match_while n) _ e in
        let (r', e2, k2) = >>=-eq-some (while_in_nodes ns) _ k1 in
        subst (λ x. SameNodes m fuel x (cons n ns)) (of_some k2)
          (SameNodes-cons (same n n' e1 h.0) (same_nodes ns r' e2 h.1))

    same_cases :
        (cs r : Cases)
        → while_in_cases cs ≡ some r
        → EverywhereCases HasDistinctBody cs
        → SameCases m fuel r cs
    same_cases no_case r e h =
        subst (λ x. SameCases m fuel x no_case) (of_some e) (SameCases-refl no_case)
    same_cases (case l n cs) r e h =
        let (n', e1, k1) = >>=-eq-some (match_while n) _ e in
        let (r', e2, k2) = >>=-eq-some (while_in_cases cs) _ k1 in
        subst (λ x. SameCases m fuel x (case l n cs)) (of_some k2)
          (SameCases-case l (same n n' e1 h.0) (same_cases cs r' e2 h.1))

pub exec-match_while :
    {S : Type 0} (m : Machine S) (fuel : ℕ) (n n' : Node) (s : S)
    → match_while n ≡ some n'
    → Everywhere HasDistinctBody n
    → exec m fuel n' s ≡ exec m fuel n s
exec-match_while m fuel n n' s e h = Same-run (same m fuel n n' e h) s
