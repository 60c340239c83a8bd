-- ===== src/Beautify/Canonical/Labels.antt =====
-- The labels of a `switch` in the first two passes of `canonicalize` (ASTNodeUtils.cpp).
use revng_c.Prelude.{ℕ, ◌≡◌, refl, ap, sym, ◌∙◌, subst, ◌||◌}
use revng_c.Ghast.Node.{
  Node, null, if_node, scs, sequence, switch, Nodes, nil, cons, Cases, no_case, case,
}
use revng_c.Ghast.Everywhere.{Everywhere, EverywhereNodes, EverywhereCases}
use revng_c.Semantics.{is_in}
use revng_c.Beautify.EmptyThen.{flip_empty_then, flip_nodes, flip_cases}
use revng_c.Beautify.Sequences.{collapse_sequences, collapse_nodes, collapse_cases}
use revng_c.Beautify.Sequences.Splice.{flatten, collapse_children-eq-flatten}
use revng_c.Beautify.Sequences.Preserves.{FitsUnsigned}
use revng_c.Beautify.Sequences.Flat.{EverywhereNodes-append}
use revng_c.Beautify.AtomicSequence.Switches.{is_label, DisjointCases, HasDisjointLabels}

label-flip : (v : ℕ) (cs : Cases) → is_label v (flip_cases cs) ≡ is_label v cs
unfolding flip_empty_then
label-flip v no_case = refl
label-flip v (case l n cs) = ap (λ x. is_in v l || x) (label-flip v cs)

disjoint-flip : (cs : Cases) → DisjointCases cs → DisjointCases (flip_cases cs)
unfolding flip_empty_then
disjoint-flip no_case h = tt
disjoint-flip (case l n cs) h = ((λ v m. label-flip v cs ∙ h.0 v m), disjoint-flip cs h.1)

mutual
  unfolding flip_empty_then Everywhere

  flip-Disjoint :
      (n : Node) → Everywhere HasDisjointLabels n → Everywhere HasDisjointLabels (flip_empty_then n)
  flip-Disjoint (sequence i ns) h = (tt, flip_nodes-Disjoint ns h.1)
  flip-Disjoint (scs i t b) h = (tt, flip-Disjoint b h.1)
  flip-Disjoint (if_node i bb c w null e) h = (tt, flip-Disjoint e h.2, tt)
  flip-Disjoint (if_node i bb c w t e) h = (tt, flip-Disjoint t h.1, flip-Disjoint e h.2)
  flip-Disjoint (switch i f cs) h = (disjoint-flip cs h.0, flip_cases-Disjoint cs h.1)
  flip-Disjoint _ h = h

  flip_nodes-Disjoint :
      (ns : Nodes)
      → EverywhereNodes HasDisjointLabels ns
      → EverywhereNodes HasDisjointLabels (flip_nodes ns)
  flip_nodes-Disjoint nil h = tt
  flip_nodes-Disjoint (cons n ns) h = (flip-Disjoint n h.0, flip_nodes-Disjoint ns h.1)

  flip_cases-Disjoint :
      (cs : Cases)
      → EverywhereCases HasDisjointLabels cs
      → EverywhereCases HasDisjointLabels (flip_cases cs)
  flip_cases-Disjoint no_case h = tt
  flip_cases-Disjoint (case l n cs) h = (flip-Disjoint n h.0, flip_cases-Disjoint cs h.1)

pub flip_empty_then-HasDisjointLabels :
    (n : Node) → Everywhere HasDisjointLabels n → Everywhere HasDisjointLabels (flip_empty_then n)
flip_empty_then-HasDisjointLabels n h = flip-Disjoint n h

everywhere-flatten :
    (ns : Nodes)
    → EverywhereNodes HasDisjointLabels ns
    → EverywhereNodes HasDisjointLabels (flatten ns)
unfolding flatten Everywhere
everywhere-flatten nil h = tt
everywhere-flatten (cons (sequence j ms) ns) h =
    EverywhereNodes-append HasDisjointLabels ms (flatten ns) h.0.1 (everywhere-flatten ns h.1)
everywhere-flatten (cons n ns) h = (h.0, everywhere-flatten ns h.1)

label-collapse : (v : ℕ) (cs : Cases) → is_label v (collapse_cases cs) ≡ is_label v cs
unfolding collapse_sequences
label-collapse v no_case = refl
label-collapse v (case l n cs) = ap (λ x. is_in v l || x) (label-collapse v cs)

disjoint-collapse : (cs : Cases) → DisjointCases cs → DisjointCases (collapse_cases cs)
unfolding collapse_sequences
disjoint-collapse no_case h = tt
disjoint-collapse (case l n cs) h =
    ((λ v m. label-collapse v cs ∙ h.0 v m), disjoint-collapse cs h.1)

mutual
  unfolding collapse_sequences Everywhere

  collapse-Disjoint :
      (n : Node)
      → Everywhere FitsUnsigned n
      → Everywhere HasDisjointLabels n
      → Everywhere HasDisjointLabels (collapse_sequences n)
  collapse-Disjoint (sequence i ns) f h = (
    tt,
    subst (EverywhereNodes HasDisjointLabels)
        (sym (collapse_children-eq-flatten (collapse_nodes ns) f.0))
        (everywhere-flatten (collapse_nodes ns) (collapse_nodes-Disjoint ns f.1 h.1)),
  )
  collapse-Disjoint (scs i t b) f h = (tt, collapse-Disjoint b f.1 h.1)
  collapse-Disjoint (if_node i bb c w t e) f h =
      (tt, collapse-Disjoint t f.1 h.1, collapse-Disjoint e f.2 h.2)
  collapse-Disjoint (switch i g cs) f h =
      (disjoint-collapse cs h.0, collapse_cases-Disjoint cs f.1 h.1)
  collapse-Disjoint _ f h = h

  collapse_nodes-Disjoint :
      (ns : Nodes)
      → EverywhereNodes FitsUnsigned ns
      → EverywhereNodes HasDisjointLabels ns
      → EverywhereNodes HasDisjointLabels (collapse_nodes ns)
  collapse_nodes-Disjoint nil f h = tt
  collapse_nodes-Disjoint (cons n ns) f h =
      (collapse-Disjoint n f.0 h.0, collapse_nodes-Disjoint ns f.1 h.1)

  collapse_cases-Disjoint :
      (cs : Cases)
      → EverywhereCases FitsUnsigned cs
      → EverywhereCases HasDisjointLabels cs
      → EverywhereCases HasDisjointLabels (collapse_cases cs)
  collapse_cases-Disjoint no_case f h = tt
  collapse_cases-Disjoint (case l n cs) f h =
      (collapse-Disjoint n f.0 h.0, collapse_cases-Disjoint cs f.1 h.1)

pub collapse_sequences-HasDisjointLabels :
    (n : Node)
    → Everywhere FitsUnsigned n
    → Everywhere HasDisjointLabels n
    → Everywhere HasDisjointLabels (collapse_sequences n)
collapse_sequences-HasDisjointLabels n f h = collapse-Disjoint n f h
