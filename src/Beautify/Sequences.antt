-- ===== src/Beautify/Sequences.antt =====
-- lib/RestructureCFG/ASTNodeUtils.cpp: `collapseSequences`, which puts the children of a nested
-- sequence in the place of the sequence.
--
-- The source first notes, for each child that is a sequence, its index and its length, and then
-- replaces these children in the vector from left to right, with an `unsigned` offset that follows
-- the growth of the vector. The offset's wrap-around at 2 ^ 32 is written out.
pub mod Splice
pub mod Preserves
pub mod Flat
use Prim.Native.Nat.{◌%◌, ◌^◌, ◌-◌}
use revng_c.Prelude.{ℕ, zero, suc, ◌+◌, List, [], ◌∷◌}
use revng_c.Ghast.Node.{
  Node, null, if_node, scs, sequence, switch, Nodes, nil, cons, Cases, no_case, case, append_nodes,
  length_nodes,
}

-- the values of an `unsigned`
abbrev pub unsigned_mod : ℕ
unsigned_mod = 2 ^ 32

-- ReplacementVector: the index and the length of each child that is a sequence
pub replacements : ℕ → Nodes → List (ℕ × ℕ)
replacements i nil = []
replacements i (cons (sequence j ms) ns) = (i, length_nodes ms) ∷ replacements (i + 1) ns
replacements i (cons n ns) = replacements (i + 1) ns

-- The child at an index is erased, and its nodes are inserted there. The source's cast fails on a
-- child that is no sequence; here it stays. An index out of bounds changes nothing.
pub splice_at : ℕ → Nodes → Nodes
splice_at i nil = nil
splice_at zero (cons (sequence j ms) ns) = append_nodes ms ns
splice_at zero (cons n ns) = cons n ns
splice_at (suc i) (cons n ns) = cons n (splice_at i ns)

-- the second loop
pub splice_all : List (ℕ × ℕ) → ℕ → Nodes → Nodes
splice_all [] offset ns = ns
splice_all ((i, len) ∷ rs) offset ns =
    splice_all rs ((offset + (len + unsigned_mod - 1)) % unsigned_mod)
      (splice_at ((i + offset) % unsigned_mod) ns)

-- both loops, on children that are collapsed
unfoldable pub collapse_children : Nodes → Nodes
unfolding replacements splice_all splice_at
collapse_children ns = splice_all (replacements 0 ns) 0 ns

unfoldable mutual
  pub collapse_sequences : Node → Node
  collapse_sequences (sequence i ns) = sequence i (collapse_children (collapse_nodes ns))
  collapse_sequences (scs i t b) = scs i t (collapse_sequences b)
  collapse_sequences (if_node i bb c w t e) =
      if_node i bb c w (collapse_sequences t) (collapse_sequences e)
  collapse_sequences (switch i f cs) = switch i f (collapse_cases cs)
  collapse_sequences n = n

  pub collapse_nodes : Nodes → Nodes
  collapse_nodes nil = nil
  collapse_nodes (cons n ns) = cons (collapse_sequences n) (collapse_nodes ns)

  pub collapse_cases : Cases → Cases
  collapse_cases no_case = no_case
  collapse_cases (case l n cs) = case l (collapse_sequences n) (collapse_cases cs)
