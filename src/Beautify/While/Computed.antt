-- ===== src/Beautify/While/Computed.antt =====
-- `matchWhile` (BeautifyGHAST.cpp): every `while` it makes is computed at its `continue`s.
use revng_c.Prelude.{
  ℕ, Bool, ◌≡◌, ◌==◌, refl, subst, Option, none, some, >>=-eq-some, of_some, Bool-cases, inl, inr,
}
use revng_c.Ghast.Node.{
  RelatedCondition, LoopType, while_true, while, do_while, Node, null, code, break, continue,
  if_node, scs, sequence, switch, switch_break, set, Nodes, nil, cons, Cases, no_case, case,
}
use revng_c.Ghast.Identity.{node_id}
use revng_c.Ghast.Children.{remove_node}
use revng_c.Ghast.Everywhere.{Everywhere, EverywhereNodes, EverywhereCases}
use revng_c.Semantics.{Machine, exec}
use revng_c.Beautify.DoWhile.{or_null}
use revng_c.Beautify.While.{
  add_computation, stays_inside, insert_front, enter_as, promote_while, match_entry, while_of_loop,
  match_while, while_in_nodes, while_in_cases,
}
use revng_c.Beautify.While.Carried.{
  IsComputed, NotWhile, or_null-elim, added, Computed, ComputedNodes, ComputedCases, kept,
}
use revng_c.Beautify.While.Preserves.{HasDistinctBody, exec-match_while}

remove_node-Computed : (j : ℕ) (ns : Nodes) → ComputedNodes ns → ComputedNodes (remove_node j ns)
unfolding remove_node Everywhere
remove_node-Computed j nil h = tt
remove_node-Computed j (cons n ns) h = elim (Bool-cases (j == node_id n)) [
  | inl e ↦ rw e (remove_node-Computed j ns h.1)
  | inr e ↦ rw e (h.0, remove_node-Computed j ns h.1)
]

insert_front-Computed :
    (n : Node) (ns : Nodes) → Computed n → ComputedNodes ns → ComputedNodes (insert_front n ns)
unfolding Everywhere
insert_front-Computed null ns h k = k
insert_front-Computed n ns h k = (h, k)

stays_inside-Computed :
    (t e : Node) (v : Bool × Node)
    → stays_inside t e ≡ some v
    → Computed t
    → Computed e
    → Computed v.1
stays_inside-Computed t (break i w) v h ht he = subst (λ x. Computed x.1) (of_some h) ht
stays_inside-Computed (break i w) e v h ht he = subst (λ x. Computed x.1) (of_some h) he
stays_inside-Computed _ _ v h ht he = absurd (cc h)

entered :
    (i : ℕ) (t : LoopType) (b : Node) (q : RelatedCondition) (put : Node → Node)
    (v : Option (Bool × Node)) (r : Node)
    → enter_as i t b q put v ≡ some r
    → Computed (scs i t b)
    → ((x : Bool × Node) → v ≡ some x → Computed (put x.1))
    → Computed r
unfolding Everywhere IsComputed
entered i t b q put none r e h f = subst Computed (of_some e) h
entered i while_true b q put (some v) r e h f =
    let (b', e1, k1) = >>=-eq-some (add_computation q.id (put v.1)) _ e in
    subst Computed (of_some k1) (added q.id _ b' e1, kept q.id _ b' e1 (f v refl))
entered i (while x) b q put (some v) r e h f = absurd (cc e)
entered i (do_while x) b q put (some v) r e h f = absurd (cc e)

promoted :
    (i : ℕ) (t : LoopType) (b l : Node) (put : Node → Node) (r : Node)
    → promote_while i t b l put ≡ some r
    → Computed (scs i t b)
    → Computed l
    → ((x : Node) → Computed x → Computed (put x))
    → Computed r
unfolding Everywhere
promoted i t b (if_node j bb c w th el) put r e h hl f =
    entered i t b _ put (stays_inside th el) r e h
      (λ x k. f x.1 (stays_inside-Computed th el x k hl.1 hl.2))
promoted i t b null put r e h hl f = absurd (cc e)
promoted i t b _ put r e h hl f = subst Computed (of_some e) h

at_entry :
    (i : ℕ) (t : LoopType) (b r : Node)
    → match_entry i t b ≡ some r
    → Computed (scs i t b)
    → Computed b
    → Computed r
unfolding Everywhere IsComputed
at_entry i t (sequence j nil) r e h k = absurd (cc e)
at_entry i t (sequence j (cons n ns)) r e h k =
    promoted i t (sequence j (cons n ns)) n _ r e h k.1.0
      (λ x g. (tt, insert_front-Computed x _ g (remove_node-Computed (node_id n) (cons n ns) k.1)))
at_entry i t b r e h k = promoted i t b b (λ x. x) r e h k (λ x g. g)

looped :
    (i : ℕ) (t : LoopType) (b : Node) (o : Option Node) (r : Node)
    → while_of_loop i t b o ≡ some r
    → NotWhile (scs i t b)
    → ((b' : Node) → o ≡ some b' → Computed b')
    → Computed r
unfolding Everywhere IsComputed
looped i (while q) b o r e h f = absurd h
looped i while_true null o r e h f = subst Computed (of_some e) (tt, tt)
looped i (do_while q) null o r e h f = subst Computed (of_some e) (tt, tt)
looped i while_true b o r e h f =
    let (b', e1, k1) = >>=-eq-some o _ e in at_entry i while_true b' r k1 (tt, f b' e1) (f b' e1)
looped i (do_while q) b o r e h f =
    let (b', e1, k1) = >>=-eq-some o _ e in subst Computed (of_some k1) (tt, f b' e1)

mutual
  unfolding match_while Everywhere IsComputed

  computed : (n n' : Node) → match_while n ≡ some n' → Everywhere NotWhile n → Computed n'
  computed (sequence i ns) n' e h =
      let (r, e1, k1) = >>=-eq-some (while_in_nodes ns) _ e in
      subst Computed (of_some k1) (tt, computed_nodes ns r e1 h.1)
  computed (if_node i bb c w t f) n' e h =
      let (t', e1, k1) = >>=-eq-some (or_null t (match_while t)) _ e in
      let (f', e2, k2) = >>=-eq-some (or_null f (match_while f)) _ k1 in
      subst Computed (of_some k2) (
        tt,
        or_null-elim Computed t _ t' e1 tt (λ x. computed t t' x h.1),
        or_null-elim Computed f _ f' e2 tt (λ x. computed f f' x h.2),
      )
  computed (switch i f cs) n' e h =
      let (r, e1, k1) = >>=-eq-some (while_in_cases cs) _ e in
      subst Computed (of_some k1) (tt, computed_cases cs r e1 h.1)
  computed (scs i t b) n' e h = looped i t b (match_while b) n' e h.0 (λ b' x. computed b b' x h.1)
  computed null n' e h = absurd (cc e)
  computed (code i bb x) n' e h = subst Computed (of_some e) tt
  computed (break i x) n' e h = subst Computed (of_some e) tt
  computed (continue i c x) n' e h = subst Computed (of_some e) tt
  computed (switch_break i x) n' e h = subst Computed (of_some e) tt
  computed (set i v k) n' e h = subst Computed (of_some e) tt

  computed_nodes :
      (ns r : Nodes) → while_in_nodes ns ≡ some r → EverywhereNodes NotWhile ns → ComputedNodes r
  computed_nodes nil r e h = subst ComputedNodes (of_some e) tt
  computed_nodes (cons n ns) r e h =
      let (n', e1, k1) = >>=-eq-some (match_while n) _ e in
      let (r', e2, k2) = >>=-eq-some (while_in_nodes ns) _ k1 in
      subst ComputedNodes (of_some k2) (computed n n' e1 h.0, computed_nodes ns r' e2 h.1)

  computed_cases :
      (cs r : Cases) → while_in_cases cs ≡ some r → EverywhereCases NotWhile cs → ComputedCases r
  computed_cases no_case r e h = subst ComputedCases (of_some e) tt
  computed_cases (case l n cs) r e h =
      let (n', e1, k1) = >>=-eq-some (match_while n) _ e in
      let (r', e2, k2) = >>=-eq-some (while_in_cases cs) _ k1 in
      subst ComputedCases (of_some k2) (computed n n' e1 h.0, computed_cases cs r' e2 h.1)

-- Where no loop is a `while` yet and no node stands twice in the body of a loop, after `matchWhile`
-- every `continue` of a `while`, those of loops nested in it apart, carries the `if` of the `while`'s
-- condition, and the GHAST has the outcome of the one before on every machine, with any fuel and from
-- any state, where a `while` computes its condition before each of its rounds.
pub match_while-IsComputed :
    {S : Type 0} (m : Machine S) (fuel : ℕ) (n n' : Node) (s : S)
    → match_while n ≡ some n'
    → Everywhere NotWhile n
    → Everywhere HasDistinctBody n
    → Everywhere IsComputed n' × (exec m fuel n' s ≡ exec m fuel n s)
match_while-IsComputed m fuel n n' s e h d = (computed n n' e h, exec-match_while m fuel n n' s e d)
