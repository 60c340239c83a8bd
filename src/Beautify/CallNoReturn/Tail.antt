-- ===== src/Beautify/CallNoReturn/Tail.antt =====
-- `promoteCallNoReturnImpl` (PromoteCallNoReturn.cpp): the exchange of a `then` and the children that
-- follow, and the removal of these children by their addresses.
use revng_c.Prelude.{
  ℕ, Bool, true, false, not, ◌≡◌, refl, ap, sym, ◌∙◌, fun_ext, ◌||◌, Option, none, some, ◌==◌,
  or-eq-false, Bool-cases, inl, inr, arith,
}
use revng_c.Ghast.Expr.{Expr}
use revng_c.Ghast.Node.{Node, null, if_node, sequence, Nodes, nil, cons, append_nodes}
use revng_c.Ghast.Identity.{node_id}
use revng_c.Ghast.Children.{
  is_child, remove_node, DistinctChildren, remove_node-absent, remove_node-append, is_child-append,
}
use revng_c.Semantics.{
  Machine, normal, broke, continued, switch_broke, returned, stopped, Outcome, and_then, choose,
  finish, eval, exec, exec_nodes,
}
use revng_c.Semantics.Congruence.{SameNodes, and_then-finish}
use revng_c.Beautify.Sequences.Preserves.{exec_nodes-append}
use revng_c.Beautify.FallThrough.Leaving.{Leaving}
use revng_c.Beautify.CallNoReturn.{remove_all}

-- The outcome is not a normal end.
abbrev pub Stops : {S : Type 0} → Outcome S → Type 0
Stops (some (normal, s)) = ⊥
Stops _ = Unit

module _ {S : Type 0} where
  pub Leaving-Stops : (o : Outcome S) → Leaving o → Stops o
  Leaving-Stops (some (normal, s)) h = h
  Leaving-Stops _ h = tt

  pub and_then-stopped : (o : Outcome S) (k : S → Outcome S) → Stops o → and_then o k ≡ o
  and_then-stopped (some (normal, s)) k h = absurd h
  and_then-stopped _ k h = refl

  pub and_then-Stops :
      (o : Outcome S) (k : S → Outcome S) → ((s : S) → Stops (k s)) → Stops (and_then o k)
  and_then-Stops none k h = tt
  and_then-Stops (some (normal, s)) k h = h s
  and_then-Stops (some (broke, s)) k h = tt
  and_then-Stops (some (continued, s)) k h = tt
  and_then-Stops (some (switch_broke, s)) k h = tt
  and_then-Stops (some (returned, s)) k h = tt
  and_then-Stops (some (stopped, s)) k h = tt

  -- where both ways stop, either may come last
  exchanged :
      (r : Bool × S) (f g : S → Outcome S)
      → ((s : S) → Stops (f s))
      → ((s : S) → Stops (g s))
      → and_then (choose r finish g) (λ s. and_then (f s) finish) ≡ and_then (choose r f finish) g
  exchanged (true, s) f g hf hg = and_then-finish (f s) ∙ sym (and_then-stopped (f s) g (hf s))
  exchanged (false, s) f g hf hg = and_then-stopped (g s) _ (hg s)

module _ {S : Type 0} (m : Machine S) (fuel : ℕ) where
  pub exchanged-Same :
      (before following : Nodes) (i k : ℕ) (bb : Option ℕ) (c : Expr) (w : Bool) (t : Node)
      → ((s : S) → Stops (exec m fuel t s))
      → ((s : S) → Stops (exec_nodes m fuel following s))
      → SameNodes m fuel
          (append_nodes before (cons (if_node i bb c w null (sequence k following)) (cons t nil)))
          (append_nodes before (cons (if_node i bb c w t null) following))
  unfolding exec
  exchanged-Same before following i k bb c w t ht hf = record {
    at = fun_ext λ s.
        exec_nodes-append m fuel before _ s
        ∙ ap (and_then (exec_nodes m fuel before s)) (
            fun_ext λ u.
              exchanged (eval m (not w) c u) (exec m fuel t) (exec_nodes m fuel following) ht hf)
        ∙ sym (exec_nodes-append m fuel before _ s);
  }

-- no address of the first nodes is one of the second
unfoldable pub Apart : Nodes → Nodes → Type 0
unfolding is_child node_id
Apart nil ys = Unit
Apart (cons x xs) ys = (is_child (node_id x) ys ≡ false) × Apart xs ys

remove_all-Apart : (xs ys : Nodes) → Apart xs ys → remove_all xs ys ≡ ys
unfolding remove_all Apart
remove_all-Apart nil ys h = refl
remove_all-Apart (cons x xs) ys h =
    ap (remove_node (node_id x)) (remove_all-Apart xs ys h.1)
    ∙ remove_node-absent (node_id x) ys h.0

remove_all-append :
    (xs ys zs : Nodes)
    → remove_all xs (append_nodes ys zs) ≡ append_nodes (remove_all xs ys) (remove_all xs zs)
unfolding remove_all
remove_all-append nil ys zs = refl
remove_all-append (cons x xs) ys zs =
    ap (remove_node (node_id x)) (remove_all-append xs ys zs)
    ∙ remove_node-append (node_id x) (remove_all xs ys) (remove_all xs zs)

remove_node_swap :
    (a b : ℕ) (ns : Nodes) → remove_node a (remove_node b ns) ≡ remove_node b (remove_node a ns)
unfolding remove_node
remove_node_swap a b nil = refl
remove_node_swap a b (cons n ns) = elim (Bool-cases (a == node_id n)) [
  | inl p ↦ elim (Bool-cases (b == node_id n)) [
    | inl q ↦ rw (p, q) (remove_node_swap a b ns)
    | inr q ↦ rw (p, q, p) (remove_node_swap a b ns)
  ]
  | inr p ↦ elim (Bool-cases (b == node_id n)) [
    | inl q ↦ rw (p, q) (remove_node_swap a b ns)
    | inr q ↦ rw (p, q, p) (ap (cons n) (remove_node_swap a b ns))
  ]
]

-- a child is gone, whatever is removed besides
remove_all-first :
    (x : Node) (xs ys : Nodes)
    → remove_node (node_id x) (remove_all xs (cons x ys))
      ≡ remove_node (node_id x) (remove_all xs ys)
unfolding remove_all remove_node
remove_all-first x nil ys = ground arith
remove_all-first x (cons y xs) ys =
    remove_node_swap (node_id x) (node_id y) (remove_all xs (cons x ys))
    ∙ ap (remove_node (node_id y)) (remove_all-first x xs ys)
    ∙ remove_node_swap (node_id y) (node_id x) (remove_all xs ys)

remove_all_self : (xs : Nodes) → remove_all xs xs ≡ nil
unfolding remove_all remove_node
remove_all_self nil = refl
remove_all_self (cons x xs) =
    remove_all-first x xs xs ∙ ap (remove_node (node_id x)) (remove_all_self xs)

Apart-nil : (xs : Nodes) → Apart xs nil
unfolding Apart is_child
Apart-nil nil = tt
Apart-nil (cons x xs) = (refl, Apart-nil xs)

pub Apart-cons :
    (y : Node) (xs ys : Nodes)
    → is_child (node_id y) xs ≡ false
    → Apart xs ys
    → Apart xs (cons y ys)
unfolding Apart is_child
Apart-cons y nil ys h a = tt
Apart-cons y (cons x xs) ys h a =
    let (h0, h1) = or-eq-false (node_id y == node_id x) (is_child (node_id y) xs) h in
    let first = a.0 in (ground (arith, h0, first), Apart-cons y xs ys h1 a.1)

pub Apart-one : (y : Node) (xs : Nodes) → is_child (node_id y) xs ≡ false → Apart xs (cons y nil)
Apart-one y xs h = Apart-cons y xs nil h (Apart-nil xs)

-- what follows a child is apart from it and from what comes before it
pub Apart-distinct :
    (before : Nodes) (n : Node) (following : Nodes)
    → DistinctChildren (append_nodes before (cons n following))
    → Apart following before × (is_child (node_id n) following ≡ false)
unfolding append_nodes DistinctChildren is_child
Apart-distinct nil n following h = (Apart-nil following, h.0)
Apart-distinct (cons b before) n following h =
    let (a, l) = Apart-distinct before n following h.1 in
    let split : (is_child (node_id b) before || is_child (node_id b) (cons n following)) ≡ false =
      sym (is_child-append (node_id b) before (cons n following)) ∙ h.0 in
    let (h0, h1) = or-eq-false (is_child (node_id b) before) _ split in
    let (h2, h3) = or-eq-false (node_id b == node_id n) (is_child (node_id b) following) h1 in
    (Apart-cons b following before h3 a, l)

pub removed :
    (before following : Nodes) (n t : Node)
    → Apart following before
    → Apart following (cons n nil)
    → Apart following (cons t nil)
    → remove_all following (append_nodes before (cons n (append_nodes following (cons t nil))))
      ≡ append_nodes before (cons n (cons t nil))
unfolding append_nodes
removed before following n t p q r =
    let tail = append_nodes following (cons t nil) in
    remove_all-append following before (cons n tail)
    ∙ ap (λ x. append_nodes x (remove_all following (cons n tail)))
        (remove_all-Apart following before p)
    ∙ ap (append_nodes before) (
        remove_all-append following (cons n nil) tail
        ∙ ap (λ x. append_nodes x (remove_all following tail))
            (remove_all-Apart following (cons n nil) q)
        ∙ ap (cons n) (
            remove_all-append following following (cons t nil)
            ∙ ap (λ x. append_nodes x (remove_all following (cons t nil)))
                (remove_all_self following)
            ∙ remove_all-Apart following (cons t nil) r))
