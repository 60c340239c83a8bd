-- ===== src/Beautify/While/Entry.antt =====
-- `matchWhile` (BeautifyGHAST.cpp): one loop before and after its promotion.
use revng_c.Prelude.{
  ℕ, zero, suc, Bool, true, false, not, ◌≡◌, refl, ap, sym, ◌∙◌, subst, fun_ext, Option, none, some,
  >>=-eq-some, of_some,
}
use revng_c.Ghast.Expr.{Expr}
use revng_c.Ghast.Node.{
  RelatedCondition, LoopType, while_true, while, do_while, Node, null, break, if_node, scs,
  sequence, Nodes, nil, cons,
}
use revng_c.Ghast.Children.{DistinctChildren, remove-first}
use revng_c.Semantics.{
  Machine, Outcome, and_then, resume, choose, finish, loop, always, map_fst, eval, exec, exec_nodes,
}
use revng_c.Semantics.Congruence.{and_then-finish, Same, Same-refl, Same-trans, Same-scs}
use revng_c.Beautify.DoWhile.{negate_if}
use revng_c.Beautify.DoWhile.Promoted.{leaf-Same}
use revng_c.Beautify.While.{
  add_computation, is_do_while, stays_inside, insert_front, enter_as, promote_while, match_entry,
  unless_do_while, while_of_loop,
}
use revng_c.Beautify.While.Computation.{computed-Same}

-- `body` decides first whether to go on, and then is like `stay`
loop-entry :
    {S : Type 0} (before : S → Bool × S) (body stay : S → Outcome S)
    → ((s : S) (k : S → Outcome S)
        → resume (body s) k ≡ choose (before s) (λ u. resume (stay u) k) finish)
    → (fuel : ℕ) (s : S) → loop before always stay fuel s ≡ loop always always body fuel s
unfolding loop
loop-entry before body stay h zero s = refl
loop-entry before body stay h (suc fuel) s =
    ap (λ k. choose (before s) (λ u. resume (stay u) k) finish)
      (fun_ext λ u. loop-entry before body stay h fuel u)
    ∙ sym (h s (loop always always body fuel))

-- A body that is a sequence has distinct children.
abbrev pub HasDistinctChildren : Node → Type 0
HasDistinctChildren (sequence j ns) = DistinctChildren ns
HasDistinctChildren _ = Unit

module _ {S : Type 0} (m : Machine S) (fuel : ℕ) where
  enter-else :
      (i : ℕ) (v : Bool) (r : Bool × S) (f k' k : S → Outcome S)
      → resume (and_then (choose r f (exec m fuel (break i v))) k') k
        ≡ choose r (λ u. resume (and_then (f u) k') k) finish
  unfolding exec
  enter-else i v (true, s) f k' k = refl
  enter-else i v (false, s) f k' k = refl

  enter-then :
      (i : ℕ) (v : Bool) (r : Bool × S) (f k' k : S → Outcome S)
      → resume (and_then (choose r (exec m fuel (break i v)) f) k') k
        ≡ choose (map_fst not r) (λ u. resume (and_then (f u) k') k) finish
  unfolding exec
  enter-then i v (true, s) f k' k = refl
  enter-then i v (false, s) f k' k = refl

  resume-stays :
      (c : Expr) (w : Bool) (t e : Node) (v : Bool × Node) (s : S) (k' k : S → Outcome S)
      → stays_inside t e ≡ some v
      → resume (and_then (choose (eval m w c s) (exec m fuel t) (exec m fuel e)) k') k
        ≡ choose
            (eval m w (negate_if v.0 c) s)
            (λ u. resume (and_then (exec m fuel v.1 u) k') k)
            finish
  unfolding eval
  resume-stays c w t (break i b) v s k' k h =
      enter-else i b (eval m w c s) (exec m fuel t) k' k
      ∙ ap
          (λ (z : Bool × Node).
            choose (eval m w (negate_if z.0 c) s) (λ u. resume (and_then (exec m fuel z.1 u) k') k)
              finish)
          (of_some h)
  resume-stays c w (break i b) e v s k' k h =
      enter-then i b (eval m w c s) (exec m fuel e) k' k
      ∙ ap
          (λ (z : Bool × Node).
            choose (eval m w (negate_if z.0 c) s) (λ u. resume (and_then (exec m fuel z.1 u) k') k)
              finish)
          (of_some h)
  resume-stays c w _ _ v s k' k h = cc

  insert_front-run :
      (n : Node) (ns : Nodes) (s : S)
      → exec_nodes m fuel (insert_front n ns) s ≡ and_then (exec m fuel n s) (exec_nodes m fuel ns)
  unfolding exec
  insert_front-run null ns s = refl
  insert_front-run n ns s = refl

  -- a body, and what it is after its choice
  abbrev EntersBy : Node → Node → Bool → Expr → Type 0
  EntersBy body stay w c =
      (s : S) (k : S → Outcome S)
      → resume (exec m fuel body s) k
        ≡ choose (eval m (not w) c s) (λ u. resume (exec m fuel stay u) k) finish

  EntersBy-sequence :
      (j : ℕ) (ns : Nodes) (i : ℕ) (bb : Option ℕ) (c : Expr) (w : Bool) (t e : Node)
      (v : Bool × Node)
      → stays_inside t e ≡ some v
      → EntersBy
          (sequence j (cons (if_node i bb c w t e) ns))
          (sequence j (insert_front v.1 ns))
          w
          (negate_if v.0 c)
  unfolding exec
  EntersBy-sequence j ns i bb c w t e v h s k =
      resume-stays c (not w) t e v s (exec_nodes m fuel ns) k h
      ∙ ap (λ (g : S → Outcome S). choose (eval m (not w) (negate_if v.0 c) s) g finish)
          (fun_ext λ u. ap (λ o. resume o k) (sym (insert_front-run v.1 ns u)))

  EntersBy-alone :
      (i : ℕ) (bb : Option ℕ) (c : Expr) (w : Bool) (t e : Node) (v : Bool × Node)
      → stays_inside t e ≡ some v
      → EntersBy (if_node i bb c w t e) v.1 w (negate_if v.0 c)
  unfolding exec
  EntersBy-alone i bb c w t e v h s k =
      ap (λ o. resume o k)
        (sym (and_then-finish (choose (eval m (not w) c s) (exec m fuel t) (exec m fuel e))))
      ∙ resume-stays c (not w) t e v s finish k h
      ∙ ap (λ (g : S → Outcome S). choose (eval m (not w) (negate_if v.0 c) s) g finish)
          (fun_ext λ u. ap (λ o. resume o k) (and_then-finish (exec m fuel v.1 u)))

  entered-Same :
      (i : ℕ) (t : LoopType) (body : Node) (q : RelatedCondition) (put : Node → Node)
      (v : Option (Bool × Node)) (r : Node)
      → enter_as i t body q put v ≡ some r
      → ((x : Bool × Node)
          → v ≡ some x
          → EntersBy body (put x.1) q.is_weaved (negate_if x.0 q.cond_expr))
      → Same m fuel r (scs i t body)
  unfolding exec
  entered-Same i t body q put none r e h = leaf-Same m fuel (scs i t body) r e
  entered-Same i while_true body q put (some v) r e h =
      let (b, e1, k1) = >>=-eq-some (add_computation q.id (put v.1)) _ e in
      subst (λ x. Same m fuel x (scs i while_true body)) (of_some k1)
        (Same-trans (Same-scs i _ (computed-Same m fuel q.id (put v.1) b e1)) (record {
          at = fun_ext λ s.
              loop-entry (eval m (not q.is_weaved) (negate_if v.0 q.cond_expr)) (exec m fuel body)
                (exec m fuel (put v.1)) (h v refl) fuel s;
        }))
  entered-Same i (while x) body q put (some v) r e h = absurd (cc e)
  entered-Same i (do_while x) body q put (some v) r e h = absurd (cc e)

  -- the `if` that begins the body
  enter-Same :
      (i : ℕ) (t : LoopType) (body l : Node) (put : Node → Node) (r : Node)
      → promote_while i t body l put ≡ some r
      → ((j : ℕ) (bb : Option ℕ) (c : Expr) (w : Bool) (th el : Node) (v : Bool × Node)
          → if_node j bb c w th el ≡ l
          → stays_inside th el ≡ some v
          → EntersBy body (put v.1) w (negate_if v.0 c))
      → Same m fuel r (scs i t body)
  enter-Same i t body (if_node j bb c w th el) put r e h =
      entered-Same i t body _ put (stays_inside th el) r e (λ v p. h j bb c w th el v refl p)
  enter-Same i t body null put r e h = absurd (cc e)
  enter-Same i t body _ put r e h =
      subst (λ x. Same m fuel x (scs i t body)) (of_some e) (Same-refl _)

  alone-Same :
      (i : ℕ) (t : LoopType) (b r : Node)
      → promote_while i t b b (λ x. x) ≡ some r
      → Same m fuel r (scs i t b)
  alone-Same i t b r e =
      enter-Same i t b b (λ x. x) r e
        (λ j bb c w th el v p q.
          subst (λ x. EntersBy x v.1 w (negate_if v.0 c)) p (EntersBy-alone j bb c w th el v q))

  entry-Same :
      (i : ℕ) (t : LoopType) (b r : Node)
      → match_entry i t b ≡ some r
      → HasDistinctChildren b
      → Same m fuel r (scs i t b)
  entry-Same i t (sequence j nil) r e h = absurd (cc e)
  entry-Same i t (sequence j (cons n ns)) r e h =
      enter-Same i t (sequence j (cons n ns)) n _ r e (λ k bb c w th el v p q.
        subst
          (λ y.
            EntersBy (sequence j (cons n ns)) (sequence j (insert_front v.1 y)) w (negate_if v.0 c))
          (sym (remove-first n ns h))
          (subst
            (λ x.
              EntersBy (sequence j (cons x ns)) (sequence j (insert_front v.1 ns)) w
                (negate_if v.0 c))
            p (EntersBy-sequence j ns k bb c w th el v q)))
  entry-Same i t b r e h = alone-Same i t b r e

  unless-Same :
      (i : ℕ) (t : LoopType) (b r : Node) (v : Bool)
      → unless_do_while i t b v ≡ some r
      → HasDistinctChildren b
      → Same m fuel r (scs i t b)
  unless-Same i t b r true e h = leaf-Same m fuel (scs i t b) r e
  unless-Same i t b r false e h = entry-Same i t b r e h

  pub while_of_loop-Same :
      (i : ℕ) (t : LoopType) (b : Node) (o : Option Node) (r : Node)
      → while_of_loop i t b o ≡ some r
      → ((b' : Node) → o ≡ some b' → Same m fuel b' b × HasDistinctChildren b')
      → Same m fuel r (scs i t b)
  while_of_loop-Same i t null o r e h = leaf-Same m fuel (scs i t null) r e
  while_of_loop-Same i t b o r e h =
      let (b', e1, k1) = >>=-eq-some o _ e in
      let (same, ok) = h b' e1 in
      Same-trans (unless-Same i t b' r (is_do_while t) k1 ok) (Same-scs i t same)
