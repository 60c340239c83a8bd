-- ===== src/Ghast/Children.antt =====
-- include/revng-c/RestructureCFG/ASTNode.h: the children of a SequenceNode, by their addresses.
use revng_c.Prelude.{
  ℕ, Bool, false, ◌≡◌, refl, ap, sym, ◌∙◌, ◌==◌, ◌||◌, Option, none, some, ◌>>=◌, >>=-eq-some,
  of_some, if◌then◌else◌, or-eq-false, subst, Bool-cases, inl, inr, arith,
}
use revng_c.Ghast.Node.{Node, Nodes, nil, cons, append_nodes}
use revng_c.Ghast.Identity.{node_id}

-- whether a child has the address
unfoldable pub is_child : ℕ → Nodes → Bool
is_child j nil = false
is_child j (cons n ns) = j == node_id n || is_child j ns

-- SequenceNode::removeNode
unfoldable pub remove_node : ℕ → Nodes → Nodes
remove_node j nil = nil
remove_node j (cons n ns) = if j == node_id n then remove_node j ns else cons n (remove_node j ns)

-- the children before the last, and the last
unfoldable pub split_last : Nodes → Option (Nodes × Node)
split_last nil = none
split_last (cons n nil) = some (nil, n)
split_last (cons n (cons k ns)) = split_last (cons k ns) >>= λ r. some (cons n r.0, r.1)

-- No address stands twice.
unfoldable pub DistinctChildren : Nodes → Type 0
unfolding is_child
DistinctChildren nil = Unit
DistinctChildren (cons n ns) = (is_child (node_id n) ns ≡ false) × DistinctChildren ns

pub append_nodes-nil : (xs : Nodes) → append_nodes xs nil ≡ xs
unfolding append_nodes
append_nodes-nil nil = refl
append_nodes-nil (cons x xs) = ap (cons x) (append_nodes-nil xs)

pub split_last-append :
    (ns : Nodes) (r : Nodes × Node) → split_last ns ≡ some r → append_nodes r.0 (cons r.1 nil) ≡ ns
unfolding split_last append_nodes
split_last-append nil r e = cc
split_last-append (cons n nil) r e = ap (λ x. append_nodes x.0 (cons x.1 nil)) (sym (of_some e))
split_last-append (cons n (cons k ns)) r e =
    let (r', e1, k1) = >>=-eq-some (split_last (cons k ns)) _ e in
    ap (λ x. append_nodes x.0 (cons x.1 nil)) (sym (of_some k1))
    ∙ ap (cons n) (split_last-append (cons k ns) r' e1)

pub remove_node-absent : (j : ℕ) (ns : Nodes) → is_child j ns ≡ false → remove_node j ns ≡ ns
unfolding remove_node is_child
remove_node-absent j nil h = refl
remove_node-absent j (cons n ns) h =
    let (h0, h1) = or-eq-false (j == node_id n) (is_child j ns) h in
    rw h0 (ap (cons n) (remove_node-absent j ns h1))

pub remove_node-append :
    (j : ℕ) (xs ys : Nodes)
    → remove_node j (append_nodes xs ys) ≡ append_nodes (remove_node j xs) (remove_node j ys)
unfolding remove_node append_nodes
remove_node-append j nil ys = refl
remove_node-append j (cons x xs) ys = elim (Bool-cases (j == node_id x)) [
  | inl e ↦ rw e (remove_node-append j xs ys)
  | inr e ↦ rw e (ap (cons x) (remove_node-append j xs ys))
]

pub remove_node_self : (n : Node) → remove_node (node_id n) (cons n nil) ≡ nil
unfolding remove_node
remove_node_self n = ground arith

pub is_child-append :
    (j : ℕ) (xs ys : Nodes) → is_child j (append_nodes xs ys) ≡ (is_child j xs || is_child j ys)
unfolding is_child append_nodes
is_child-append j nil ys = refl
is_child-append j (cons x xs) ys = ground (arith, is_child-append j xs ys)

distinct-last :
    (xs : Nodes) (l : Node)
    → DistinctChildren (append_nodes xs (cons l nil))
    → is_child (node_id l) xs ≡ false
unfolding is_child append_nodes DistinctChildren
distinct-last nil l h = refl
distinct-last (cons x xs) l h =
    ground (arith, is_child-append (node_id x) xs (cons l nil), distinct-last xs l h.1)

-- where the addresses are distinct, removing the last child leaves the others
pub remove-last :
    (ns : Nodes) (r : Nodes × Node)
    → split_last ns ≡ some r
    → DistinctChildren ns
    → remove_node (node_id r.1) ns ≡ r.0
remove-last ns (init, l) e h =
    let p = split_last-append ns (init, l) e in
    let absent = distinct-last init l (subst DistinctChildren (sym p) h) in
    ap (remove_node (node_id l)) (sym p)
    ∙ remove_node-append (node_id l) init (cons l nil)
    ∙ rw (remove_node_self, remove_node-absent (node_id l) init absent) (append_nodes-nil init)

-- where the addresses are distinct, removing the first child leaves the others
pub remove-first :
    (n : Node) (ns : Nodes)
    → DistinctChildren (cons n ns)
    → remove_node (node_id n) (cons n ns) ≡ ns
unfolding remove_node DistinctChildren
remove-first n ns h = ground (arith, remove_node-absent (node_id n) ns h.0)
