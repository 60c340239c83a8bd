-- ===== src/Beautify/DoWhile/Shape.antt =====
-- `matchDoWhile` (BeautifyGHAST.cpp): what it leaves of a node, and the loops that it is right about.
use revng_c.Prelude.{
  ℕ, Bool, true, false, ◌≡◌, refl, ap, sym, ◌∙◌, subst, ◌&&◌, ◌||◌, Option, none, some, >>=-eq-some,
  of_some,
}
use revng_c.Ghast.Expr.{Expr}
use revng_c.Ghast.Node.{
  RelatedCondition, LoopType, Node, null, break, continue, if_node, scs, sequence, switch, Nodes,
  nil, cons, Cases, no_case, case,
}
use revng_c.Ghast.Identity.{node_id}
use revng_c.Ghast.Children.{is_child, split_last, DistinctChildren}
use revng_c.Beautify.DoWhile.{
  handled_cases, set_do_while, is_while, promote_as, promote_do_while, unless_while, match_loop,
  match_body, or_null, match_do_while, do_while_in_nodes, do_while_in_cases,
}

abbrev pub is_break : Node → Bool
is_break (break i w) = true
is_break _ = false

abbrev pub is_continue : Node → Bool
is_continue (continue i c x) = true
is_continue _ = false

-- an `if` between `break` and `continue`
abbrev pub is_choice : Node → Bool
is_choice (if_node i bb c w t e) = is_break t && is_continue e || is_continue t && is_break e
is_choice _ = false

abbrev pub ends_in_choice : Nodes → Bool
ends_in_choice nil = false
ends_in_choice (cons n nil) = is_choice n
ends_in_choice (cons n (cons k ns)) = ends_in_choice (cons k ns)

unfoldable mutual
  -- no `continue` of an enclosing loop
  pub NoContinue : Node → Type 0
  NoContinue (continue i c x) = ⊥
  NoContinue (if_node i bb c w t e) = NoContinue t × NoContinue e
  NoContinue (sequence i ns) = NoContinueNodes ns
  NoContinue (switch i f cs) = NoContinueCases cs
  NoContinue _ = Unit

  pub NoContinueNodes : Nodes → Type 0
  NoContinueNodes nil = Unit
  NoContinueNodes (cons n ns) = NoContinue n × NoContinueNodes ns

  pub NoContinueCases : Cases → Type 0
  NoContinueCases no_case = Unit
  NoContinueCases (case l n cs) = NoContinue n × NoContinueCases cs

unfoldable pub NoContinueBefore : Nodes → Type 0
unfolding NoContinue
NoContinueBefore nil = Unit
NoContinueBefore (cons n nil) = Unit
NoContinueBefore (cons n (cons k ns)) = NoContinue n × NoContinueBefore (cons k ns)

-- Where the body of a loop ends in a choice between `break` and `continue`, it has no other
-- `continue`; and no node stands twice in it.
abbrev pub IsDoWhileBody : Node → Type 0
IsDoWhileBody (scs i t (sequence j ns)) =
    DistinctChildren ns × (ends_in_choice ns ≡ true → NoContinueBefore ns)
IsDoWhileBody _ = Unit

-- what the pass keeps of a node
pub record Kept (n n' : Node) : Type 0 where
  pub id : node_id n' ≡ node_id n
  pub breaks : is_break n' ≡ is_break n
  pub continues : is_continue n' ≡ is_continue n
  pub choice : is_choice n' ≡ is_choice n

Kept-refl : (n : Node) → Kept n n
Kept-refl n = record { id = refl; breaks = refl; continues = refl; choice = refl }

-- whatever the verdict, the result is a loop
module _ (P : Node → Type 0) (i : ℕ) (every : (t : LoopType) (b : Node) → P (scs i t b)) where
  promote_as-elim :
      (t : LoopType) (b rest : Node) (q : RelatedCondition) (v : Option Bool) (r : Node)
      → promote_as i t b q rest v ≡ some r
      → P r
  promote_as-elim t b rest q none r e = subst P (of_some e) (every t b)
  promote_as-elim t b rest q (some inverted) r e =
      let (t', e1, k1) = >>=-eq-some (set_do_while t _) _ e in subst P (of_some k1) (every t' rest)

  promote-elim : (t : LoopType) (b l rest r : Node) → promote_do_while i t b l rest ≡ some r → P r
  promote-elim t b (if_node j bb c w th el) rest r e =
      promote_as-elim t b rest _ (handled_cases th el) r e
  promote-elim t b null rest r e = cc
  promote-elim t b _ rest r e = subst P (of_some e) (every t b)

  match_body-elim : (t : LoopType) (b r : Node) → match_body i t b ≡ some r → P r
  match_body-elim t (sequence j ns) r e =
      let (x, e1, k1) = >>=-eq-some (split_last ns) _ e in promote-elim t (sequence j ns) x.1 _ r k1
  match_body-elim t b r e = promote-elim t b b null r e

  unless_while-elim : (t : LoopType) (b r : Node) (v : Bool) → unless_while i t b v ≡ some r → P r
  unless_while-elim t b r true e = subst P (of_some e) (every t b)
  unless_while-elim t b r false e = match_body-elim t b r e

  pub match_loop-elim :
      (t : LoopType) (b : Node) (o : Option Node) (r : Node) → match_loop i t b o ≡ some r → P r
  match_loop-elim t null o r e = subst P (of_some e) (every t null)
  match_loop-elim t b o r e =
      let (b', e1, k1) = >>=-eq-some o _ e in unless_while-elim t b' r (is_while t) k1

Kept-scs : (i : ℕ) (t t' : LoopType) (b b' : Node) → Kept (scs i t b) (scs i t' b')
unfolding node_id
Kept-scs i t t' b b' = record { id = refl; breaks = refl; continues = refl; choice = refl }

abbrev SameLeaf : Node → Node → Type 0
SameLeaf n n' = (is_break n' ≡ is_break n) × (is_continue n' ≡ is_continue n)

or_null-leaf :
    (n n' : Node) (o : Option Node)
    → or_null n o ≡ some n'
    → (o ≡ some n' → Kept n n')
    → SameLeaf n n'
or_null-leaf null n' o e k = (ap is_break (sym (of_some e)), ap is_continue (sym (of_some e)))
or_null-leaf n n' o e k = ((k e).breaks, (k e).continues)

Kept-if_node :
    (i : ℕ) (bb : Option ℕ) (c : Expr) (w : Bool) (t t' f f' : Node)
    → SameLeaf t t'
    → SameLeaf f f'
    → Kept (if_node i bb c w t f) (if_node i bb c w t' f')
unfolding node_id
Kept-if_node i bb c w t t' f f' p q = record {
  id = refl;
  breaks = refl;
  continues = refl;
  choice = rw (p.0, p.1, q.0, q.1);
}

pub match_do_while-Kept : (n n' : Node) → match_do_while n ≡ some n' → Kept n n'
unfolding match_do_while node_id
match_do_while-Kept (sequence i ns) n' e =
    let (r, e1, k1) = >>=-eq-some (do_while_in_nodes ns) _ e in
    subst (Kept (sequence i ns)) (of_some k1)
      (record { id = refl; breaks = refl; continues = refl; choice = refl })
match_do_while-Kept (if_node i bb c w t f) n' e =
    let (t', e1, k1) = >>=-eq-some (or_null t (match_do_while t)) _ e in
    let (f', e2, k2) = >>=-eq-some (or_null f (match_do_while f)) _ k1 in
    subst (Kept (if_node i bb c w t f)) (of_some k2) (
      Kept-if_node i bb c w t t' f f' (or_null-leaf t t' _ e1 (match_do_while-Kept t t'))
        (or_null-leaf f f' _ e2 (match_do_while-Kept f f')))
match_do_while-Kept (switch i f cs) n' e =
    let (r, e1, k1) = >>=-eq-some (do_while_in_cases cs) _ e in
    subst (Kept (switch i f cs)) (of_some k1)
      (record { id = refl; breaks = refl; continues = refl; choice = refl })
match_do_while-Kept (scs i t b) n' e =
    match_loop-elim (Kept (scs i t b)) i (λ t' b'. Kept-scs i t t' b b') t b (match_do_while b) n' e
match_do_while-Kept null n' e = cc
match_do_while-Kept n n' e = subst (Kept n) (of_some e) (Kept-refl n)

pub handled-choice :
    (t e : Node) (v : Bool)
    → handled_cases t e ≡ some v
    → (is_break t && is_continue e || is_continue t && is_break e) ≡ true
handled-choice (break j w) (continue k c x) v h = refl
handled-choice (continue k c x) (break j w) v h = refl
handled-choice _ _ v h = cc

pub is_child-match :
    (j : ℕ) (ns r : Nodes) → do_while_in_nodes ns ≡ some r → is_child j r ≡ is_child j ns
unfolding match_do_while is_child
is_child-match j nil r e = ap (is_child j) (sym (of_some e))
is_child-match j (cons n ns) r e =
    let (n', e1, k1) = >>=-eq-some (match_do_while n) _ e in
    let (r', e2, k2) = >>=-eq-some (do_while_in_nodes ns) _ k1 in
    ap (is_child j) (sym (of_some k2))
    ∙ rw ((match_do_while-Kept n n' e1).id, is_child-match j ns r' e2)

pub distinct-match :
    (ns r : Nodes) → do_while_in_nodes ns ≡ some r → DistinctChildren ns → DistinctChildren r
unfolding match_do_while DistinctChildren
distinct-match nil r e h = subst DistinctChildren (of_some e) tt
distinct-match (cons n ns) r e h =
    let (n', e1, k1) = >>=-eq-some (match_do_while n) _ e in
    let (r', e2, k2) = >>=-eq-some (do_while_in_nodes ns) _ k1 in
    subst DistinctChildren (of_some k2) (
      rw ((match_do_while-Kept n n' e1).id) (is_child-match (node_id n) ns r' e2 ∙ h.0),
      distinct-match ns r' e2 h.1,
    )
