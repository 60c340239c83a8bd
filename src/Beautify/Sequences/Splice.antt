-- ===== src/Beautify/Sequences/Splice.antt =====
-- `collapseSequences` (ASTNodeUtils.cpp): the index arithmetic, beside a plain flattening.
use Prim.Native.Nat.{◌%◌, ◌-◌}
use revng_c.Prelude.{ℕ, ◌+◌, ◌<◌, ◌≡◌, refl, ap, ◌∙◌, sym, arith}
use revng_c.Ghast.Node.{Node, sequence, Nodes, nil, cons, append_nodes, length_nodes}
use revng_c.Beautify.Sequences.{
  unsigned_mod, replacements, splice_at, splice_all, collapse_children,
}

-- The reference: each child that is a sequence is replaced by its children.
unfoldable pub flatten : Nodes → Nodes
flatten nil = nil
flatten (cons (sequence j ms) ns) = append_nodes ms (flatten ns)
flatten (cons n ns) = cons n (flatten ns)

pub append_nodes_assoc :
    (xs ys zs : Nodes) → append_nodes (append_nodes xs ys) zs ≡ append_nodes xs (append_nodes ys zs)
unfolding append_nodes
append_nodes_assoc nil ys zs = refl
append_nodes_assoc (cons x xs) ys zs = ap (cons x) (append_nodes_assoc xs ys zs)

pub length-append_nodes :
    (xs ys : Nodes) → length_nodes (append_nodes xs ys) ≡ length_nodes xs + length_nodes ys
unfolding append_nodes length_nodes
length-append_nodes nil ys = omega arith
length-append_nodes (cons x xs) ys = omega (arith, length-append_nodes xs ys)

splice_at-append :
    (pre : Nodes) (j : ℕ) (ms ns : Nodes)
    → splice_at (length_nodes pre) (append_nodes pre (cons (sequence j ms) ns))
      ≡ append_nodes pre (append_nodes ms ns)
unfolding splice_at append_nodes length_nodes
splice_at-append nil j ms ns = refl
splice_at-append (cons x pre) j ms ns = ap (cons x) (splice_at-append pre j ms ns)

-- the same at an index that wraps around to the length
splice_at-index :
    (pre : Nodes) (k j : ℕ) (ms ns : Nodes)
    → length_nodes pre ≡ k % unsigned_mod
    → splice_at (k % unsigned_mod) (append_nodes pre (cons (sequence j ms) ns))
      ≡ append_nodes (append_nodes pre ms) ns
splice_at-index pre k j ms ns h = rw (← h, append_nodes_assoc) (splice_at-append pre j ms ns)

-- one more child is done
append_nodes-snoc :
    (pre : Nodes) (n : Node) (ns : Nodes)
    → append_nodes (append_nodes pre (cons n nil)) ns ≡ append_nodes pre (cons n ns)
unfolding append_nodes
append_nodes-snoc pre n ns = append_nodes_assoc pre (cons n nil) ns

length_nodes-snoc :
    (pre : Nodes) (n : Node) → length_nodes (append_nodes pre (cons n nil)) ≡ length_nodes pre + 1
unfolding length_nodes
length_nodes-snoc pre n = omega (arith, length-append_nodes pre (cons n nil))

-- `pre` is the part of the vector that is done; `p` counts the children that it came from.
splice_all-append :
    (ns pre : Nodes) (p offset : ℕ)
    → length_nodes pre + length_nodes (flatten ns) < unsigned_mod
    → length_nodes pre ≡ (p + offset) % unsigned_mod
    → splice_all (replacements p ns) offset (append_nodes pre ns) ≡ append_nodes pre (flatten ns)
unfolding splice_all replacements flatten length_nodes
splice_all-append nil pre p offset lt h = refl
splice_all-append (cons (sequence j ms) ns) pre p offset lt h =
    let len = length-append_nodes pre ms in
    let all = length-append_nodes ms (flatten ns) in
    let offset' = (offset + (length_nodes ms + unsigned_mod - 1)) % unsigned_mod in
    ap (splice_all (replacements (p + 1) ns) offset') (splice_at-index pre (p + offset) j ms ns h)
    ∙ splice_all-append ns (append_nodes pre ms) (p + 1) offset' (omega arith) (omega arith)
    ∙ append_nodes_assoc pre ms (flatten ns)
splice_all-append (cons n ns) pre p offset lt h =
    let len = length_nodes-snoc pre n in
    ap (splice_all (replacements (p + 1) ns) offset) (sym (append_nodes-snoc pre n ns))
    ∙ splice_all-append ns (append_nodes pre (cons n nil)) (p + 1) offset (omega arith)
        (omega arith)
    ∙ append_nodes-snoc pre n (flatten ns)

-- The index loop computes the flattening, if the result's length is a value of `unsigned`.
pub collapse_children-eq-flatten :
    (ns : Nodes) → length_nodes (flatten ns) < unsigned_mod → collapse_children ns ≡ flatten ns
unfolding collapse_children append_nodes length_nodes
collapse_children-eq-flatten ns lt = splice_all-append ns nil 0 0 (omega arith) (omega arith)
