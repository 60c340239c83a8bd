-- ===== src/Beautify/DoWhile/Promoted.antt =====
-- `matchDoWhile` (BeautifyGHAST.cpp): one loop before and after its promotion.
use revng_c.Prelude.{
  ℕ, Bool, true, false, not, ◌≡◌, refl, ap, sym, ◌∙◌, subst, fun_ext, Option, none, some,
  >>=-eq-some, of_some,
}
use revng_c.Ghast.Expr.{Expr}
use revng_c.Ghast.Node.{
  RelatedCondition, LoopType, while_true, while, do_while, Node, null, break, continue, if_node,
  scs, sequence, Nodes, nil, cons, append_nodes,
}
use revng_c.Ghast.Children.{split_last, DistinctChildren, split_last-append, remove-last}
use revng_c.Semantics.{
  Machine, normal, Outcome, and_then, resume, choose, finish, map_fst, eval, exec, exec_nodes,
}
use revng_c.Semantics.Congruence.{Same, Same-refl, Same-trans, Same-scs}
use revng_c.Beautify.Sequences.Preserves.{exec_nodes-append}
use revng_c.Beautify.DoWhile.{
  or_null, handled_cases, negate_if, is_while, promote_as, promote_do_while, unless_while,
  match_loop, match_body,
}
use revng_c.Beautify.DoWhile.Loop.{resume-and_then, loop-body}
use revng_c.Beautify.DoWhile.Shape.{is_choice, NoContinueNodes, handled-choice}
use revng_c.Beautify.DoWhile.Continues.{NotContinued-nodes}

-- what is known of a processed body that is a sequence
abbrev pub BodyOk : Node → Type 0
BodyOk (sequence j ns) =
    DistinctChildren ns
    × ((x : Nodes × Node) → split_last ns ≡ some x → is_choice x.1 ≡ true → NoContinueNodes x.0)
BodyOk _ = Unit

module _ {S : Type 0} (m : Machine S) (fuel : ℕ) where
  -- the end of the body decides what the condition of the loop decides
  leave-go :
      (i j : ℕ) (v x : Bool) (d : Option ℕ) (r : Bool × S) (k : S → Outcome S)
      → resume (choose r (exec m fuel (break i v)) (exec m fuel (continue j d x))) k
        ≡ choose (map_fst not r) k finish
  unfolding exec
  leave-go i j v x d (true, s) k = refl
  leave-go i j v true d (false, s) k = refl
  leave-go i j v false d (false, s) k = refl

  go-leave :
      (i j : ℕ) (v x : Bool) (d : Option ℕ) (r : Bool × S) (k : S → Outcome S)
      → resume (choose r (exec m fuel (continue j d x)) (exec m fuel (break i v))) k
        ≡ choose r k finish
  unfolding exec
  go-leave i j v true d (true, s) k = refl
  go-leave i j v false d (true, s) k = refl
  go-leave i j v x d (false, s) k = refl

  resume-handled :
      (c : Expr) (w : Bool) (t e : Node) (inverted : Bool) (s : S) (k : S → Outcome S)
      → handled_cases t e ≡ some inverted
      → resume (choose (eval m w c s) (exec m fuel t) (exec m fuel e)) k
        ≡ choose (eval m w (negate_if inverted c) s) k finish
  unfolding eval
  resume-handled c w (break i v) (continue j d x) true s k h = leave-go i j v x d (eval m w c s) k
  resume-handled c w (continue j d x) (break i v) false s k h = go-leave i j v x d (eval m w c s) k
  resume-handled c w (break i v) (continue j d x) false s k h = cc
  resume-handled c w (continue j d x) (break i v) true s k h = cc
  resume-handled c w _ _ v s k h = cc

  resume-finish : (o : Outcome S) (k : S → Outcome S) → resume (and_then o finish) k ≡ resume o k
  resume-finish (some (normal, s)) k = refl
  resume-finish _ k = refl

  -- a body that ends in the choice, and the same body without it
  abbrev EndsBy : Node → Node → Bool → Expr → Type 0
  EndsBy body rest w c =
      (s : S) (k : S → Outcome S)
      → resume (exec m fuel body s) k
        ≡ resume (exec m fuel rest s) (λ u. choose (eval m (not w) c u) k finish)

  EndsBy-sequence :
      (j : ℕ) (ns init : Nodes) (i : ℕ) (bb : Option ℕ) (c : Expr) (w : Bool) (t e : Node)
      (inverted : Bool)
      → append_nodes init (cons (if_node i bb c w t e) nil) ≡ ns
      → NoContinueNodes init
      → handled_cases t e ≡ some inverted
      → EndsBy (sequence j ns) (sequence j init) w (negate_if inverted c)
  unfolding exec
  EndsBy-sequence j ns init i bb c w t e inverted p q h s k =
      let last = if_node i bb c w t e in
      ap (λ x. resume (exec_nodes m fuel x s) k) (sym p)
      ∙ ap (λ o. resume o k) (exec_nodes-append m fuel init (cons last nil) s)
      ∙ resume-and_then (exec_nodes m fuel init s) (exec_nodes m fuel (cons last nil)) k
          (NotContinued-nodes m fuel init q s)
      ∙ ap (resume (exec_nodes m fuel init s)) (
          fun_ext
            λ u. resume-finish (exec m fuel last u) k ∙ resume-handled c (not w) t e inverted u k h)

  EndsBy-alone :
      (i : ℕ) (bb : Option ℕ) (c : Expr) (w : Bool) (t e : Node) (inverted : Bool)
      → handled_cases t e ≡ some inverted
      → EndsBy (if_node i bb c w t e) null w (negate_if inverted c)
  unfolding exec
  EndsBy-alone i bb c w t e inverted h s k = resume-handled c (not w) t e inverted s k h

  promoted-Same :
      (i : ℕ) (t : LoopType) (body rest : Node) (q : RelatedCondition) (v : Option Bool) (r : Node)
      → promote_as i t body q rest v ≡ some r
      → ((inverted : Bool)
          → v ≡ some inverted
          → EndsBy body rest q.is_weaved (negate_if inverted q.cond_expr))
      → Same m fuel r (scs i t body)
  unfolding exec
  promoted-Same i t body rest q none r e h =
      subst (λ x. Same m fuel x (scs i t body)) (of_some e) (Same-refl _)
  promoted-Same i while_true body rest q (some inverted) r e h =
      subst (λ x. Same m fuel x (scs i while_true body)) (of_some e)
        (record {
          at = fun_ext λ s.
              loop-body (eval m (not q.is_weaved) (negate_if inverted q.cond_expr))
                (exec m fuel body) (exec m fuel rest) (h inverted refl) fuel s;
        })
  promoted-Same i (while x) body rest q (some inverted) r e h = absurd (cc e)
  promoted-Same i (do_while x) body rest q (some inverted) r e h = absurd (cc e)

  -- the `if` that ends the body
  promote-Same :
      (i : ℕ) (t : LoopType) (body l rest r : Node)
      → promote_do_while i t body l rest ≡ some r
      → ((j : ℕ) (bb : Option ℕ) (c : Expr) (w : Bool) (th el : Node) (inverted : Bool)
          → if_node j bb c w th el ≡ l
          → handled_cases th el ≡ some inverted
          → EndsBy body rest w (negate_if inverted c))
      → Same m fuel r (scs i t body)
  promote-Same i t body (if_node j bb c w th el) rest r e h =
      promoted-Same i t body rest _ (handled_cases th el) r e (λ v p. h j bb c w th el v refl p)
  promote-Same i t body null rest r e h = absurd (cc e)
  promote-Same i t body _ rest r e h =
      subst (λ x. Same m fuel x (scs i t body)) (of_some e) (Same-refl _)

  alone-Same :
      (i : ℕ) (t : LoopType) (b r : Node)
      → promote_do_while i t b b null ≡ some r
      → Same m fuel r (scs i t b)
  alone-Same i t b r e = promote-Same i t b b null r e (λ j bb c w th el v p q.
      subst (λ x. EndsBy x null w (negate_if v c)) p (EndsBy-alone j bb c w th el v q))

  body-Same :
      (i : ℕ) (t : LoopType) (b r : Node)
      → match_body i t b ≡ some r
      → BodyOk b
      → Same m fuel r (scs i t b)
  body-Same i t (sequence j ns) r e h =
      let (x, e1, k1) = >>=-eq-some (split_last ns) _ e in
      let rest = remove-last ns x e1 h.0 in
      promote-Same i t (sequence j ns) x.1 _ r k1 (λ k bb c w th el v p q.
        subst (λ y. EndsBy (sequence j ns) (sequence j y) w (negate_if v c)) (sym rest)
          (EndsBy-sequence j ns x.0 k bb c w th el v
            (ap (λ y. append_nodes x.0 (cons y nil)) p ∙ split_last-append ns x e1)
            (h.1 x e1 (sym (ap is_choice p) ∙ handled-choice th el v q)) q))
  body-Same i t b r e h = alone-Same i t b r e

  unless_while-Same :
      (i : ℕ) (t : LoopType) (b r : Node) (v : Bool)
      → unless_while i t b v ≡ some r
      → BodyOk b
      → Same m fuel r (scs i t b)
  unless_while-Same i t b r true e h =
      subst (λ x. Same m fuel x (scs i t b)) (of_some e) (Same-refl _)
  unless_while-Same i t b r false e h = body-Same i t b r e h

  pub loop-Same :
      (i : ℕ) (t : LoopType) (b : Node) (o : Option Node) (r : Node)
      → match_loop i t b o ≡ some r
      → ((b' : Node) → o ≡ some b' → Same m fuel b' b × BodyOk b')
      → Same m fuel r (scs i t b)
  loop-Same i t null o r e h = subst (λ x. Same m fuel x (scs i t null)) (of_some e) (Same-refl _)
  loop-Same i t b o r e h =
      let (b', e1, k1) = >>=-eq-some o _ e in
      let (same, ok) = h b' e1 in
      Same-trans (unless_while-Same i t b' r (is_while t) k1 ok) (Same-scs i t same)

  pub or_null-Same :
      (n n' : Node) (o : Option Node)
      → or_null n o ≡ some n'
      → (o ≡ some n' → Same m fuel n' n)
      → Same m fuel n' n
  or_null-Same null n' o e h = subst (λ x. Same m fuel x null) (of_some e) (Same-refl _)
  or_null-Same n n' o e h = h e

  pub leaf-Same : (n n' : Node) → some n ≡ some n' → Same m fuel n' n
  leaf-Same n n' e = subst (λ x. Same m fuel x n) (of_some e) (Same-refl n)
