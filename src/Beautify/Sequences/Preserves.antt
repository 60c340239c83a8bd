-- ===== src/Beautify/Sequences/Preserves.antt =====
-- `collapseSequences` (ASTNodeUtils.cpp): the GHAST before and after it.
use revng_c.Prelude.{ℕ, ◌<◌, ◌≡◌, refl, ap, sym, fun_ext, ◌∙◌}
use revng_c.Ghast.Node.{
  Node, if_node, scs, sequence, switch, Nodes, nil, cons, Cases, no_case, case, append_nodes,
  length_nodes,
}
use revng_c.Ghast.Everywhere.{Everywhere, EverywhereNodes, EverywhereCases}
use revng_c.Semantics.{Machine, and_then, exec, exec_nodes}
use revng_c.Semantics.Congruence.{
  Same, SameNodes, SameCases, SameExpr-refl, Same-refl, SameNodes-refl, SameCases-refl,
  SameNodes-trans, Same-run, Same-if_node, Same-scs, Same-sequence, Same-switch, SameNodes-cons,
  SameCases-case, and_then_assoc,
}
use revng_c.Beautify.Sequences.{
  unsigned_mod, collapse_children, collapse_sequences, collapse_nodes, collapse_cases,
}
use revng_c.Beautify.Sequences.Splice.{flatten, collapse_children-eq-flatten}

-- The flattened children of a sequence are fewer than an `unsigned` can count.
abbrev pub FitsUnsigned : Node → Type 0
FitsUnsigned (sequence i ns) = length_nodes (flatten (collapse_nodes ns)) < unsigned_mod
FitsUnsigned _ = Unit

module _ {S : Type 0} (m : Machine S) (fuel : ℕ) where
  pub exec_nodes-append :
      (xs ys : Nodes) (s : S)
      → exec_nodes m fuel (append_nodes xs ys) s
        ≡ and_then (exec_nodes m fuel xs s) (exec_nodes m fuel ys)
  unfolding exec append_nodes
  exec_nodes-append nil ys s = refl
  exec_nodes-append (cons x xs) ys s =
      ap (and_then (exec m fuel x s)) (fun_ext λ s'. exec_nodes-append xs ys s')
      ∙ sym (and_then_assoc (exec m fuel x s) (exec_nodes m fuel xs) (exec_nodes m fuel ys))

  exec_nodes-flatten :
      (ns : Nodes) (s : S) → exec_nodes m fuel (flatten ns) s ≡ exec_nodes m fuel ns s
  unfolding exec flatten
  exec_nodes-flatten nil s = refl
  exec_nodes-flatten (cons (sequence j ms) ns) s =
      exec_nodes-append ms (flatten ns) s
      ∙ ap (and_then (exec_nodes m fuel ms s)) (fun_ext λ s'. exec_nodes-flatten ns s')
  exec_nodes-flatten (cons n ns) s =
      ap (and_then (exec m fuel n s)) (fun_ext λ s'. exec_nodes-flatten ns s')

collapse_children-SameNodes :
    {S : Type 0} {m : Machine S} {fuel : ℕ} (ns : Nodes)
    → length_nodes (flatten ns) < unsigned_mod
    → SameNodes m fuel (collapse_children ns) ns
collapse_children-SameNodes {m} {fuel} ns lt = record {
  at = rw (collapse_children-eq-flatten ns lt) (fun_ext λ s. exec_nodes-flatten m fuel ns s);
}

module _ {S : Type 0} (m : Machine S) (fuel : ℕ) where
  mutual
    unfolding collapse_sequences Everywhere

    collapse-Same : (n : Node) → Everywhere FitsUnsigned n → Same m fuel (collapse_sequences n) n
    collapse-Same (sequence i ns) h = Same-sequence i (
        SameNodes-trans (collapse_children-SameNodes (collapse_nodes ns) h.0)
          (collapse-SameNodes ns h.1))
    collapse-Same (scs i t b) h = Same-scs i t (collapse-Same b h.1)
    collapse-Same (if_node i bb c w t e) h =
        Same-if_node i bb w (SameExpr-refl c) (collapse-Same t h.1) (collapse-Same e h.2)
    collapse-Same (switch i f cs) h = Same-switch i f (collapse-SameCases cs h.1)
    collapse-Same _ h = Same-refl _

    collapse-SameNodes :
        (ns : Nodes) → EverywhereNodes FitsUnsigned ns → SameNodes m fuel (collapse_nodes ns) ns
    collapse-SameNodes nil h = SameNodes-refl nil
    collapse-SameNodes (cons n ns) h =
        SameNodes-cons (collapse-Same n h.0) (collapse-SameNodes ns h.1)

    collapse-SameCases :
        (cs : Cases) → EverywhereCases FitsUnsigned cs → SameCases m fuel (collapse_cases cs) cs
    collapse-SameCases no_case h = SameCases-refl no_case
    collapse-SameCases (case l n cs) h =
        SameCases-case l (collapse-Same n h.0) (collapse-SameCases cs h.1)

-- Where the children of each flattened sequence are fewer than 2 ^ 32, the collapsed GHAST has the
-- outcome of the GHAST that it came from, on every machine, with any fuel and from any state.
pub exec-collapse_sequences :
    {S : Type 0} (m : Machine S) (fuel : ℕ) (n : Node) (s : S)
    → Everywhere FitsUnsigned n
    → exec m fuel (collapse_sequences n) s ≡ exec m fuel n s
exec-collapse_sequences m fuel n s h = Same-run (collapse-Same m fuel n h) s
