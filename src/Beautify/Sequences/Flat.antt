-- ===== src/Beautify/Sequences/Flat.antt =====
-- `collapseSequences` (ASTNodeUtils.cpp): the shape of its result.
use revng_c.Prelude.{sym, subst}
use revng_c.Ghast.Node.{
  Node, if_node, scs, sequence, switch, Nodes, nil, cons, Cases, no_case, case, append_nodes,
}
use revng_c.Ghast.Everywhere.{Everywhere, EverywhereNodes, EverywhereCases}
use revng_c.Beautify.Sequences.{collapse_sequences, collapse_nodes, collapse_cases}
use revng_c.Beautify.Sequences.Splice.{flatten, collapse_children-eq-flatten}
use revng_c.Beautify.Sequences.Preserves.{FitsUnsigned}

abbrev pub IsSequence : Node → Type 0
IsSequence (sequence i ns) = Unit
IsSequence _ = ⊥

abbrev pub NoSequence : Nodes → Type 0
NoSequence nil = Unit
NoSequence (cons n ns) = (¬ IsSequence n) × NoSequence ns

abbrev pub IsFlat : Node → Type 0
IsFlat (sequence i ns) = NoSequence ns
IsFlat _ = Unit

NoSequence-append :
    (xs ys : Nodes) → NoSequence xs → NoSequence ys → NoSequence (append_nodes xs ys)
unfolding append_nodes
NoSequence-append nil ys hx hy = hy
NoSequence-append (cons x xs) ys hx hy = (hx.0, NoSequence-append xs ys hx.1 hy)

pub EverywhereNodes-append :
    (P : Node → Type 0) (xs ys : Nodes)
    → EverywhereNodes P xs
    → EverywhereNodes P ys
    → EverywhereNodes P (append_nodes xs ys)
unfolding append_nodes Everywhere
EverywhereNodes-append P nil ys hx hy = hy
EverywhereNodes-append P (cons x xs) ys hx hy = (hx.0, EverywhereNodes-append P xs ys hx.1 hy)

NoSequence-flatten : (ns : Nodes) → EverywhereNodes IsFlat ns → NoSequence (flatten ns)
unfolding flatten Everywhere
NoSequence-flatten nil h = tt
NoSequence-flatten (cons (sequence j ms) ns) h =
    NoSequence-append ms (flatten ns) h.0.0 (NoSequence-flatten ns h.1)
NoSequence-flatten (cons n ns) h = (λ x. x, NoSequence-flatten ns h.1)

flatten-IsFlat : (ns : Nodes) → EverywhereNodes IsFlat ns → EverywhereNodes IsFlat (flatten ns)
unfolding flatten Everywhere
flatten-IsFlat nil h = tt
flatten-IsFlat (cons (sequence j ms) ns) h =
    EverywhereNodes-append IsFlat ms (flatten ns) h.0.1 (flatten-IsFlat ns h.1)
flatten-IsFlat (cons n ns) h = (h.0, flatten-IsFlat ns h.1)

mutual
  unfolding collapse_sequences Everywhere

  flat : (n : Node) → Everywhere FitsUnsigned n → Everywhere IsFlat (collapse_sequences n)
  flat (sequence i ns) h =
      subst (λ k. Everywhere IsFlat (sequence i k))
        (sym (collapse_children-eq-flatten (collapse_nodes ns) h.0))
        (NoSequence-flatten _ (IsFlat-nodes ns h.1), flatten-IsFlat _ (IsFlat-nodes ns h.1))
  flat (scs i t b) h = (tt, flat b h.1)
  flat (if_node i bb c w t e) h = (tt, flat t h.1, flat e h.2)
  flat (switch i f cs) h = (tt, IsFlat-cases cs h.1)
  flat _ h = tt

  IsFlat-nodes :
      (ns : Nodes) → EverywhereNodes FitsUnsigned ns → EverywhereNodes IsFlat (collapse_nodes ns)
  IsFlat-nodes nil h = tt
  IsFlat-nodes (cons n ns) h = (flat n h.0, IsFlat-nodes ns h.1)

  IsFlat-cases :
      (cs : Cases) → EverywhereCases FitsUnsigned cs → EverywhereCases IsFlat (collapse_cases cs)
  IsFlat-cases no_case h = tt
  IsFlat-cases (case l n cs) h = (flat n h.0, IsFlat-cases cs h.1)

-- Where the children of each flattened sequence are fewer than 2 ^ 32, no sequence of the collapsed
-- GHAST, at any depth, has a sequence among its children.
pub collapse_sequences-IsFlat :
    (n : Node) → Everywhere FitsUnsigned n → Everywhere IsFlat (collapse_sequences n)
collapse_sequences-IsFlat n h = flat n h
