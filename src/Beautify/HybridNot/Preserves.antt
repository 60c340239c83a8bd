-- ===== src/Beautify/HybridNot/Preserves.antt =====
-- `simplifyHybridNot` (SimplifyHybridNot.cpp): the GHAST over its blocks, before and after it.
use revng_c.Prelude.{
  ℕ, Bool, true, false, not, Option, some, none, [], ◌∷◌, >>=-eq-some, ◌≡◌, refl, sym, ap, ◌∙◌,
  fun_ext, of_some, Bool-cases, inl, inr,
}
use revng_c.Ghast.Expr.{block_value, loop_state, Expr, compare, atomic, negated, and_also, or_else}
use revng_c.Ghast.Node.{
  LoopType, while_true, while, do_while, Node, null, code, break, continue, if_node, scs, sequence,
  switch, switch_break, set, Nodes, nil, cons, Cases, no_case, case,
}
use revng_c.Semantics.{
  Machine, map_fst, block_value_at, after_switch, finish, loop_before, loop_after, eval, exec,
  exec_nodes, exec_cases,
}
use revng_c.Beautify.HybridNot.{
  Ir, populate_associated_expr_map, compute_consensus, blocks_of, flip_all, agrees, flip_expr,
  flip_related, flip_loop, flip_node, flip_nodes, flip_cases, simplify_hybrid_not,
}
use revng_c.Beautify.HybridNot.Branches.{Reading, truth_at, laid_over, NoSharing, flipped}
use revng_c.Beautify.HybridNot.Agreed.{flip_all-blocks_of}

twice : (p x : Bool) → flipped p (flipped p x) ≡ x
twice true true = refl
twice true false = refl
twice false x = refl

module _ {S : Type 0} (m : Machine S) (r : Reading S) (ir ir' : Ir) (p : ℕ → Bool)
    (h : (c : ℕ) (s : S) → truth_at r ir' c s ≡ flipped (p c) (truth_at r ir c s)) where
  held : (bb : ℕ) (s : S) → p bb ≡ true → truth_at r ir' bb s ≡ not (truth_at r ir bb s)
  held bb s e = h bb s ∙ ap (λ x. flipped x (truth_at r ir bb s)) e

  left : (bb : ℕ) (s : S) → p bb ≡ false → truth_at r ir' bb s ≡ truth_at r ir bb s
  left bb s e = h bb s ∙ ap (λ x. flipped x (truth_at r ir bb s)) e

  atom :
      (emit : Bool) (bb : ℕ) (s : S)
      → eval (laid_over m r ir') emit (flip_expr p (atomic bb)) s
        ≡ eval (laid_over m r ir) emit (atomic bb) s
  unfolding eval flip_expr
  atom emit bb s =
      let s' = r.settle emit bb s in
      elim (Bool-cases (p bb)) [
        | inl e ↦
            rw e (ap (λ x. (x, s')) (ap not (held bb s' e) ∙ twice true (truth_at r ir bb s')))
        | inr e ↦ rw e (ap (λ x. (x, s')) (left bb s' e))
      ]

  negated_atom :
      (emit : Bool) (bb : ℕ) (s : S)
      → eval (laid_over m r ir') emit (flip_expr p (negated (atomic bb))) s
        ≡ eval (laid_over m r ir) emit (negated (atomic bb)) s
  unfolding eval flip_expr
  negated_atom emit bb s =
      let s' = r.settle emit bb s in
      elim (Bool-cases (p bb)) [
        | inl e ↦ rw e (ap (λ x. (x, s')) (held bb s' e))
        | inr e ↦ rw e (ap (λ x. (not x, s')) (left bb s' e))
      ]

  eval-flip_expr :
      (emit : Bool) (e : Expr) (s : S)
      → eval (laid_over m r ir') emit (flip_expr p e) s ≡ eval (laid_over m r ir) emit e s
  unfolding eval flip_expr
  eval-flip_expr emit (compare (block_value b) k c) s = refl
  eval-flip_expr emit (compare loop_state k c) s = refl
  eval-flip_expr emit (atomic bb) s = atom emit bb s
  eval-flip_expr emit (negated (atomic bb)) s = negated_atom emit bb s
  eval-flip_expr emit (negated (compare l k c)) s =
      ap (map_fst not) (eval-flip_expr emit (compare l k c) s)
  eval-flip_expr emit (negated (negated e)) s = ap (map_fst not) (eval-flip_expr emit (negated e) s)
  eval-flip_expr emit (negated (and_also a b)) s =
      ap (map_fst not) (eval-flip_expr emit (and_also a b) s)
  eval-flip_expr emit (negated (or_else a b)) s =
      ap (map_fst not) (eval-flip_expr emit (or_else a b) s)
  eval-flip_expr emit (and_also a b) s = rw (eval-flip_expr emit a s, eval-flip_expr emit b)
  eval-flip_expr emit (or_else a b) s = rw (eval-flip_expr emit a s, eval-flip_expr emit b)

  before :
      (t : LoopType)
      → loop_before (laid_over m r ir') (flip_loop p t) ≡ loop_before (laid_over m r ir) t
  unfolding flip_loop flip_related
  before while_true = refl
  before (while c) = fun_ext λ s. eval-flip_expr (not c.is_weaved) c.cond_expr s
  before (do_while c) = refl

  after :
      (t : LoopType)
      → loop_after (laid_over m r ir') (flip_loop p t) ≡ loop_after (laid_over m r ir) t
  unfolding flip_loop flip_related
  after while_true = refl
  after (while c) = refl
  after (do_while c) = fun_ext λ s. eval-flip_expr (not c.is_weaved) c.cond_expr s

  value :
      (bb : Option ℕ) (emit : Bool) (s : S)
      → block_value_at (laid_over m r ir') bb emit s ≡ block_value_at (laid_over m r ir) bb emit s
  value none emit s = refl
  value (some bb) emit s = refl

  module _ (fuel : ℕ) where
    mutual
      unfolding exec flip_node

      exec-flip_node :
          (n : Node)
          → exec (laid_over m r ir') fuel (flip_node p n) ≡ exec (laid_over m r ir) fuel n
      exec-flip_node null = refl
      exec-flip_node (code i none w) = refl
      exec-flip_node (code i (some bb) w) = refl
      exec-flip_node (break i w) = refl
      exec-flip_node (continue i c true) = refl
      exec-flip_node (continue i c false) = refl
      exec-flip_node (switch_break i q) = refl
      exec-flip_node (set i v k) = refl
      exec-flip_node (if_node i bb c w t e) =
          fun_ext λ s. rw (eval-flip_expr (not w) c s, exec-flip_node t, exec-flip_node e)
      exec-flip_node (scs i t b) = fun_ext λ s. rw (before t, after t, exec-flip_node b)
      exec-flip_node (sequence i ns) = exec_nodes-flip_nodes ns
      exec-flip_node (switch i f cs) = fun_ext λ s. λ i.
          let v = value f.bb (not f.is_weaved) s i in
          after_switch (exec_cases-flip_cases cs i finish v.0 v.1)

      exec_nodes-flip_nodes :
          (ns : Nodes)
          → exec_nodes (laid_over m r ir') fuel (flip_nodes p ns)
            ≡ exec_nodes (laid_over m r ir) fuel ns
      exec_nodes-flip_nodes nil = refl
      exec_nodes-flip_nodes (cons n ns) =
          fun_ext λ s. rw (exec-flip_node n, exec_nodes-flip_nodes ns)

      exec_cases-flip_cases :
          (cs : Cases)
          → exec_cases (laid_over m r ir') fuel (flip_cases p cs)
            ≡ exec_cases (laid_over m r ir) fuel cs
      exec_cases-flip_cases no_case = refl
      exec_cases-flip_cases (case [] n cs) =
          λ i o v s. exec_cases-flip_cases cs i (exec-flip_node n i) v s
      exec_cases-flip_cases (case (l ∷ ls) n cs) =
          fun_ext λ o. fun_ext λ v. fun_ext λ s. rw (exec-flip_node n, exec_cases-flip_cases cs)

-- Where no comparison is the condition of two branches, the GHAST that the pass returns does over the
-- branches that it leaves what the GHAST did over the branches that it found, with any fuel and from
-- any state.
pub exec-simplify_hybrid_not :
    {S : Type 0} (m : Machine S) (r : Reading S) (ir ir' : Ir) (n n' : Node) (fuel : ℕ) (s : S)
    → simplify_hybrid_not ir n ≡ some (ir', n')
    → NoSharing ir
    → exec (laid_over m r ir') fuel n' s ≡ exec (laid_over m r ir) fuel n s
unfolding simplify_hybrid_not
exec-simplify_hybrid_not m r ir ir' n n' fuel s h alone =
    let (os, a, h1) = >>=-eq-some (populate_associated_expr_map n) _ h in
    let (ks, b, h2) = >>=-eq-some (compute_consensus ir os (blocks_of os)) _ h1 in
    let (ir1, c, h3) = >>=-eq-some (flip_all ks ir) _ h2 in
    let e : (ir1, flip_node (agrees ks) n) ≡ (ir', n') = of_some h3 in
    ap (λ x. exec (laid_over m r x.0) fuel x.1 s) (sym e)
    ∙ ap (λ f. f s)
        (exec-flip_node m r ir ir1 (agrees ks) (flip_all-blocks_of r ir ir1 os ks alone b c) fuel n)
