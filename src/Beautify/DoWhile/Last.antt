-- ===== src/Beautify/DoWhile/Last.antt =====
-- `matchDoWhile` (BeautifyGHAST.cpp): the last child of a body, and the children before it.
use revng_c.Prelude.{
  true, ◌≡◌, refl, ap, sym, ◌∙◌, subst, Option, some, ◌>>=◌, >>=-eq-some, of_some,
}
use revng_c.Ghast.Node.{
  Node, null, code, break, continue, if_node, scs, sequence, switch, switch_break, set, Nodes, nil,
  cons, Cases, no_case, case,
}
use revng_c.Ghast.Children.{split_last}
use revng_c.Beautify.DoWhile.{or_null, match_do_while, do_while_in_nodes, do_while_in_cases}
use revng_c.Beautify.DoWhile.Shape.{
  is_choice, ends_in_choice, NoContinue, NoContinueNodes, NoContinueCases, NoContinueBefore,
  match_loop-elim, match_do_while-Kept,
}

do_while-cons :
    (n n' : Node) (ns r : Nodes)
    → match_do_while n ≡ some n'
    → do_while_in_nodes ns ≡ some r
    → do_while_in_nodes (cons n ns) ≡ some (cons n' r)
unfolding match_do_while
do_while-cons n n' ns r e f = rw (e, f) refl

-- the last child of the result is what the last child becomes
pub split-match :
    (ns r : Nodes) (x : Nodes × Node)
    → do_while_in_nodes ns ≡ some r
    → split_last r ≡ some x
    → (y : Nodes × Node) × (split_last ns ≡ some y)
      × (do_while_in_nodes y.0 ≡ some x.0)
      × (match_do_while y.1 ≡ some x.1)
unfolding match_do_while split_last
split-match nil r x e h = absurd (cc (ap split_last (of_some e) ∙ h))
split-match (cons n nil) r x e h =
    let (n', e1, k1) = >>=-eq-some (match_do_while n) _ e in
    let h' = of_some (ap split_last (of_some k1) ∙ h) in
    ((nil, n), refl, ap (λ z. some z.0) h', e1 ∙ ap (λ z. some z.1) h')
split-match (cons n (cons k ns)) r x e h =
    let (n', e1, k1) = >>=-eq-some (match_do_while n) _ e in
    let (r', e2, k2) = >>=-eq-some (do_while_in_nodes (cons k ns)) _ k1 in
    let (k', e3, k3) = >>=-eq-some (match_do_while k) _ e2 in
    let (r'', e4, k4) = >>=-eq-some (do_while_in_nodes ns) _ k3 in
    let shape : cons n' (cons k' r'') ≡ r = ap (cons n') (of_some k4) ∙ of_some k2 in
    let (z, ez, kz) = >>=-eq-some (split_last (cons k' r'')) _ (ap split_last shape ∙ h) in
    let (y, p, q, u) =
      split-match (cons k ns) (cons k' r'') z (e2 ∙ ap some (sym (of_some k4))) ez in
    (
      (cons n y.0, y.1),
      ap (λ o. o >>= λ v. some (cons n v.0, v.1)) p,
      do_while-cons n n' y.0 z.0 e1 q ∙ ap (λ v. some v.0) (of_some kz),
      u ∙ ap (λ v. some v.1) (of_some kz),
    )

-- what comes before the last child has no `continue`
pub before-last :
    (ns : Nodes) (y : Nodes × Node)
    → split_last ns ≡ some y
    → NoContinueBefore ns
    → NoContinueNodes y.0
unfolding split_last NoContinueBefore NoContinue
before-last nil y e h = cc
before-last (cons n nil) y e h = subst (λ v. NoContinueNodes v.0) (of_some e) tt
before-last (cons n (cons k ns)) y e h =
    let (z, e1, k1) = >>=-eq-some (split_last (cons k ns)) _ e in
    subst (λ v. NoContinueNodes v.0) (of_some k1) (h.0, before-last (cons k ns) z e1 h.1)

pub choice-last :
    (ns : Nodes) (y : Nodes × Node)
    → split_last ns ≡ some y
    → is_choice y.1 ≡ true
    → ends_in_choice ns ≡ true
unfolding split_last
choice-last nil y e h = cc
choice-last (cons n nil) y e h = ap (λ v. is_choice v.1) (of_some e) ∙ h
choice-last (cons n (cons k ns)) y e h =
    let (z, e1, k1) = >>=-eq-some (split_last (cons k ns)) _ e in
    choice-last (cons k ns) z e1 (ap (λ v. is_choice v.1) (of_some k1) ∙ h)

mutual
  unfolding match_do_while NoContinue

  match-NoContinue : (n n' : Node) → match_do_while n ≡ some n' → NoContinue n → NoContinue n'
  match-NoContinue (sequence i ns) n' e h =
      let (r, e1, k1) = >>=-eq-some (do_while_in_nodes ns) _ e in
      subst NoContinue (of_some k1) (match-NoContinueNodes ns r e1 h)
  match-NoContinue (if_node i bb c w t f) n' e h =
      let (t', e1, k1) = >>=-eq-some (or_null t (match_do_while t)) _ e in
      let (f', e2, k2) = >>=-eq-some (or_null f (match_do_while f)) _ k1 in
      subst NoContinue (of_some k2) (
        or_null-NoContinue t t' _ e1 h.0 (λ x. match-NoContinue t t' x h.0),
        or_null-NoContinue f f' _ e2 h.1 (λ x. match-NoContinue f f' x h.1),
      )
  match-NoContinue (switch i f cs) n' e h =
      let (r, e1, k1) = >>=-eq-some (do_while_in_cases cs) _ e in
      subst NoContinue (of_some k1) (match-NoContinueCases cs r e1 h)
  match-NoContinue (scs i t b) n' e h =
      match_loop-elim NoContinue i (λ t' b'. tt) t b (match_do_while b) n' e
  match-NoContinue null n' e h = absurd (cc e)
  match-NoContinue (code i bb x) n' e h = subst NoContinue (of_some e) h
  match-NoContinue (break i x) n' e h = subst NoContinue (of_some e) h
  match-NoContinue (continue i c x) n' e h = absurd h
  match-NoContinue (switch_break i x) n' e h = subst NoContinue (of_some e) h
  match-NoContinue (set i v k) n' e h = subst NoContinue (of_some e) h

  or_null-NoContinue :
      (n n' : Node) (o : Option Node)
      → or_null n o ≡ some n'
      → NoContinue n
      → (o ≡ some n' → NoContinue n')
      → NoContinue n'
  or_null-NoContinue null n' o e h k = subst NoContinue (of_some e) h
  or_null-NoContinue n n' o e h k = k e

  match-NoContinueNodes :
      (ns r : Nodes) → do_while_in_nodes ns ≡ some r → NoContinueNodes ns → NoContinueNodes r
  match-NoContinueNodes nil r e h = subst NoContinueNodes (of_some e) h
  match-NoContinueNodes (cons n ns) r e h =
      let (n', e1, k1) = >>=-eq-some (match_do_while n) _ e in
      let (r', e2, k2) = >>=-eq-some (do_while_in_nodes ns) _ k1 in
      subst NoContinueNodes (of_some k2)
        (match-NoContinue n n' e1 h.0, match-NoContinueNodes ns r' e2 h.1)

  match-NoContinueCases :
      (cs r : Cases) → do_while_in_cases cs ≡ some r → NoContinueCases cs → NoContinueCases r
  match-NoContinueCases no_case r e h = subst NoContinueCases (of_some e) h
  match-NoContinueCases (case l n cs) r e h =
      let (n', e1, k1) = >>=-eq-some (match_do_while n) _ e in
      let (r', e2, k2) = >>=-eq-some (do_while_in_cases cs) _ k1 in
      subst NoContinueCases (of_some k2)
        (match-NoContinue n n' e1 h.0, match-NoContinueCases cs r' e2 h.1)

pub NoContinueNodes-match :
    (ns r : Nodes) → do_while_in_nodes ns ≡ some r → NoContinueNodes ns → NoContinueNodes r
NoContinueNodes-match ns r e h = match-NoContinueNodes ns r e h

-- the children before a choice at the end of a processed body
pub init-NoContinue :
    (ns r : Nodes) (x : Nodes × Node)
    → do_while_in_nodes ns ≡ some r
    → split_last r ≡ some x
    → is_choice x.1 ≡ true
    → (ends_in_choice ns ≡ true → NoContinueBefore ns)
    → NoContinueNodes x.0
init-NoContinue ns r x e f c h =
    let (y, p, q, u) = split-match ns r x e f in
    let ends = choice-last ns y p (sym (match_do_while-Kept y.1 x.1 u).choice ∙ c) in
    NoContinueNodes-match y.0 x.0 q (before-last ns y p (h ends))
