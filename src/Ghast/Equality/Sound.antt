-- ===== src/Ghast/Equality/Sound.antt =====
-- `ASTNode::isEqual` (ASTNode.cpp): what its answer stands for.
use revng_c.Prelude.{
  ℕ, Bool, true, false, not, ◌≡◌, refl, ap, sym, ◌∙◌, subst, fun_ext, ◌||◌, ◌==◌, ==_iff,
  and-eq-true, Bool-cases, inl, inr, Option, none, some, List, [], ◌∷◌, arith,
}
use revng_c.Ghast.Expr.{Expr}
use revng_c.Ghast.Node.{
  while_true, Node, null, code, break, continue, if_node, scs, sequence, switch, switch_break, set,
  Nodes, nil, cons, Cases, no_case, case, is_null, length_nodes,
}
use revng_c.Ghast.Everywhere.{Everywhere, EverywhereNodes, EverywhereCases}
use revng_c.Semantics.{Machine, normal, eval, is_in, exec, exec_nodes, exec_cases}
use revng_c.Ghast.Equality.{
  same_block, block_eq, all_in, labels_eq, length_cases, comparison_state, is_equal, nodes_equal,
  cases_equal,
}

-- The GHAST that the comparison is right about: nothing is implicit, loops are not promoted, no
-- `continue` has a computation, no `switch` or `if` is weaved, an `if` has a `then` branch and no `else` branch, and its block determines its condition.
abbrev pub IsComparable : (Option ℕ → Expr) → Node → Type 0
IsComparable cond (code i bb implicit) = implicit ≡ false
IsComparable cond (continue i c implicit) = (implicit ≡ false) × (c ≡ none)
IsComparable cond (if_node i bb c w t e) =
    (is_null t ≡ false) × (e ≡ null) × (c ≡ cond bb) × (w ≡ false)
IsComparable cond (scs i t b) = t ≡ while_true
IsComparable cond (switch i f cs) = f.is_weaved ≡ false
IsComparable cond _ = Unit

same_block-eq : (x y : Option ℕ) → same_block x y ≡ true → x ≡ y
same_block-eq (some a) (some b) h = ap some ((==_iff a b).0 h)
same_block-eq none _ h = cc
same_block-eq (some a) none h = cc

block_eq-eq : (x y : Option ℕ) → block_eq x y ≡ true → x ≡ y
block_eq-eq none none h = refl
block_eq-eq (some a) (some b) h = ap some ((==_iff a b).0 h)
block_eq-eq none (some b) h = cc
block_eq-eq (some a) none h = cc

all_in-member :
    (ls ks : List ℕ) (v : ℕ) → all_in ls ks ≡ true → is_in v ls ≡ true → is_in v ks ≡ true
all_in-member [] ks v h m = cc
all_in-member (l ∷ ls) ks v h m =
    let (h0, h1) = and-eq-true (is_in l ks) (all_in ls ks) h in
    elim (Bool-cases (v == l)) [
      | inl e ↦ subst (λ x. is_in x ks ≡ true) (sym ((==_iff v l).0 e)) h0
      | inr e ↦ all_in-member ls ks v h1 (sym (ap (λ x. x || is_in v ls) e) ∙ m)
    ]

labels_eq-member : (ls ks : List ℕ) (v : ℕ) → labels_eq ls ks ≡ true → is_in v ls ≡ is_in v ks
labels_eq-member ls ks v h =
    let (h0, h1) = and-eq-true (all_in ls ks) (all_in ks ls) h in
    elim (Bool-cases (is_in v ls)) [
      | inl e ↦ e ∙ sym (all_in-member ls ks v h0 e)
      | inr e ↦ elim (Bool-cases (is_in v ks)) [
        | inl e' ↦ absurd (cc (e, all_in-member ks ls v h1 e'))
        | inr e' ↦ e ∙ sym e'
      ]
    ]

state-then :
    (nt ne te ee : Bool) → nt ≡ false → ne ≡ true → comparison_state nt ne te ee ≡ true → te ≡ true
state-then nt ne te ee h1 h2 h = ground arith

module _ {S : Type 0} (m : Machine S) (fuel : ℕ) (cond : Option ℕ → Expr) where
  if-Same :
      (c c' : Expr) (w w' : Bool) (i j : ℕ) (bb bb' : Option ℕ) (t t' e e' : Node)
      → c ≡ c'
      → w ≡ w'
      → e ≡ e'
      → exec m fuel t ≡ exec m fuel t'
      → exec m fuel (if_node i bb c w t e) ≡ exec m fuel (if_node j bb' c' w' t' e')
  unfolding exec
  if-Same c c' w w' i j bb bb' t t' e e' hc hw he ht = fun_ext λ s. rw (hc, hw, he, ht)

  mutual
    unfolding exec is_equal Everywhere is_null length_nodes

    equal :
        (a b : Node)
        → is_equal a b ≡ true
        → Everywhere (IsComparable cond) a
        → Everywhere (IsComparable cond) b
        → exec m fuel a ≡ exec m fuel b
    equal (code i bb x) (code j bb' y) h p q = fun_ext λ s. rw (p, q, same_block-eq bb bb' h)
    equal (break i w) (break j w') h p q = fun_ext λ s. refl
    equal (continue i c x) (continue j c' y) h p q = fun_ext λ s. rw (p.0, q.0)
    equal (switch_break i x) (switch_break j y) h p q = fun_ext λ s. refl
    equal (set i v k) (set j v' k') h p q = fun_ext λ s. rw ((==_iff v v').0 h)
    equal (scs i t b) (scs j t' b') h p q = fun_ext λ s. rw (p.0, q.0, equal b b' h p.1 q.1)
    equal (sequence i ns) (sequence j ms) h p q =
        let (h0, h1) = and-eq-true (length_nodes ns == length_nodes ms) _ h in
        fun_ext λ s. rw (equal_nodes ns ms ((==_iff _ _).0 h0) h1 p.1 q.1)
    equal (if_node i bb c w t e) (if_node j bb' c' w' t' e') h p q =
        let (h0, h1) = and-eq-true (same_block bb bb') _ h in
        let ht =
          state-then (is_null t) (is_null e) (is_equal t t') (is_equal e e') p.0.0
            (ap is_null p.0.1) h1 in
        if-Same c c' w w' i j bb bb' t t' e e'
          (p.0.2 ∙ ap cond (same_block-eq bb bb' h0) ∙ sym q.0.2) (p.0.3 ∙ sym q.0.3)
          (p.0.1 ∙ sym q.0.1) (equal t t' ht p.1 q.1)
    equal (switch i f cs) (switch j g ds) h p q =
        let (hb, h1) = and-eq-true (block_eq f.bb g.bb) _ h in
        let (hl, hc) = and-eq-true (length_cases cs == length_cases ds) _ h1 in
        fun_ext λ s.
          rw (p.0, q.0, block_eq-eq f.bb g.bb hb, equal_cases cs ds ((==_iff _ _).0 hl) hc p.1 q.1)
    equal _ _ h p q = absurd (cc h)

    equal_nodes :
        (ns ms : Nodes)
        → length_nodes ns ≡ length_nodes ms
        → nodes_equal ns ms ≡ true
        → EverywhereNodes (IsComparable cond) ns
        → EverywhereNodes (IsComparable cond) ms
        → exec_nodes m fuel ns ≡ exec_nodes m fuel ms
    equal_nodes nil nil l h p q = refl
    equal_nodes nil (cons k ms) l h p q = absurd (omega (arith, l))
    equal_nodes (cons n ns) nil l h p q = absurd (cc h)
    equal_nodes (cons n ns) (cons k ms) l h p q =
        let (h0, h1) = and-eq-true (is_equal n k) _ h in
        fun_ext λ s. rw (equal n k h0 p.0 q.0, equal_nodes ns ms (omega (arith, l)) h1 p.1 q.1)

    equal_cases :
        (cs ds : Cases)
        → length_cases cs ≡ length_cases ds
        → cases_equal cs ds ≡ true
        → EverywhereCases (IsComparable cond) cs
        → EverywhereCases (IsComparable cond) ds
        → exec_cases m fuel cs ≡ exec_cases m fuel ds
    equal_cases no_case no_case l h p q = refl
    equal_cases no_case (case k d ds) l h p q = absurd (omega (arith, l))
    equal_cases (case k n cs) no_case l h p q = absurd (cc h)
    equal_cases (case [] n cs) (case [] d ds) l h p q =
        let (h0, h1) = and-eq-true (is_equal n d) _ h in
        let hn = equal n d h0 p.0 q.0 in
        let hs = equal_cases cs ds (omega (arith, l)) h1 p.1 q.1 in λ i o v s. hs i (hn i) v s
    equal_cases (case [] n cs) (case (k ∷ ks) d ds) l h p q = absurd (cc h)
    equal_cases (case (k ∷ ks) n cs) (case [] d ds) l h p q = absurd (cc h)
    equal_cases (case (k ∷ ks) n cs) (case (k' ∷ ks') d ds) l h p q =
        let (hl, h') = and-eq-true (labels_eq (k ∷ ks) (k' ∷ ks')) _ h in
        let (h0, h1) = and-eq-true (is_equal n d) _ h' in
        let hn = equal n d h0 p.0 q.0 in
        let hs = equal_cases cs ds (omega (arith, l)) h1 p.1 q.1 in
        fun_ext
          λ o. fun_ext λ v. fun_ext λ s. rw (labels_eq-member (k ∷ ks) (k' ∷ ks') v hl, hn, hs)

-- Two GHASTs that compare equal have the same outcome, on every machine, with any fuel and from any
-- state, if nothing is implicit in them, their loops are not promoted, no `continue` has a
-- computation, no `switch` or `if` is weaved, every `if` has just a `then` branch, and the block of
-- an `if` determines its condition.
pub is_equal-exec :
    {S : Type 0} (m : Machine S) (fuel : ℕ) (cond : Option ℕ → Expr) (a b : Node) (s : S)
    → is_equal a b ≡ true
    → Everywhere (IsComparable cond) a
    → Everywhere (IsComparable cond) b
    → exec m fuel a s ≡ exec m fuel b s
is_equal-exec m fuel cond a b s h p q = ap (λ f. f s) (equal m fuel cond a b h p q)

-- Two `if`s of one block and one condition, with the same `else` branch, which compares equal to
-- itself, compare equal whatever their `then` branches are; where the condition holds, the one runs
-- its `then` branch and the other runs its own.
pub is_equal-then_ignored :
    {S : Type 0} (m : Machine S) (fuel i j bb : ℕ) (c : Expr) (w : Bool) (t t' e : Node) (s u : S)
    → is_null e ≡ false
    → is_equal e e ≡ true
    → eval m (not w) c s ≡ (true, u)
    → (is_equal (if_node i (some bb) c w t e) (if_node j (some bb) c w t' e) ≡ true)
      × (exec m fuel (if_node i (some bb) c w t e) s ≡ exec m fuel t u)
      × (exec m fuel (if_node j (some bb) c w t' e) s ≡ exec m fuel t' u)
unfolding is_equal exec
is_equal-then_ignored m fuel i j bb c w t t' e s u h he hc =
    (rw (h, he) (ground arith), rw hc, rw hc)

-- Two `if`s of one block with any two conditions, no `else` branches, and a `then` branch that compares
-- equal to itself compare equal; where the one condition holds and the other does not, the one runs the
-- `then` branch and the other runs nothing.
pub is_equal-condition_ignored :
    {S : Type 0} (m : Machine S) (fuel i j bb : ℕ) (c c' : Expr) (w w' : Bool) (t : Node)
    (s u u' : S)
    → is_null t ≡ false
    → is_equal t t ≡ true
    → eval m (not w) c s ≡ (true, u)
    → eval m (not w') c' s ≡ (false, u')
    → (is_equal (if_node i (some bb) c w t null) (if_node j (some bb) c' w' t null) ≡ true)
      × (exec m fuel (if_node i (some bb) c w t null) s ≡ exec m fuel t u)
      × (exec m fuel (if_node j (some bb) c' w' t null) s ≡ some (normal, u'))
unfolding is_equal exec is_null
is_equal-condition_ignored m fuel i j bb c c' w w' t s u u' ht h hc hc' =
    (rw (ht, h) (ground arith), rw hc, rw hc')

equal-null : (e : Node) → is_equal e null ≡ false
unfolding is_equal
equal-null null = refl
equal-null (code _ _ _) = refl
equal-null (break _ _) = refl
equal-null (continue _ _ _) = refl
equal-null (if_node _ _ _ _ _ _) = refl
equal-null (scs _ _ _) = refl
equal-null (sequence _ _) = refl
equal-null (switch _ _ _) = refl
equal-null (switch_break _ _) = refl
equal-null (set _ _ _) = refl

-- An `if` with just a `then` branch, which compares equal to itself, compares equal to the `if` of the
-- same block with the same `then` branch and any `else` branch; the other way round they differ.
pub is_equal-asymmetric :
    (i j bb : ℕ) (c c' : Expr) (w w' : Bool) (t e : Node)
    → is_null t ≡ false
    → is_null e ≡ false
    → is_equal t t ≡ true
    → (is_equal (if_node i (some bb) c w t null) (if_node j (some bb) c' w' t e) ≡ true)
      × (is_equal (if_node j (some bb) c' w' t e) (if_node i (some bb) c w t null) ≡ false)
unfolding is_equal is_null
is_equal-asymmetric i j bb c c' w w' t e ht he h = rw (equal-null e, ht, he, h) (ground arith)
