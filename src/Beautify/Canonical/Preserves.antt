-- ===== src/Beautify/Canonical/Preserves.antt =====
-- `canonicalize` (ASTNodeUtils.cpp): the GHAST before and after it.
use revng_c.Prelude.{ℕ, ◌≡◌, ◌∙◌, some}
use revng_c.Ghast.Node.{Node}
use revng_c.Ghast.Everywhere.{Everywhere}
use revng_c.Semantics.{Machine, exec}
use revng_c.Beautify.EmptyThen.{flip_empty_then}
use revng_c.Beautify.EmptyThen.Preserves.{exec-flip_empty_then}
use revng_c.Beautify.Sequences.{collapse_sequences}
use revng_c.Beautify.Sequences.Preserves.{FitsUnsigned, exec-collapse_sequences}
use revng_c.Beautify.AtomicSequence.Switches.{HasDisjointLabels}
use revng_c.Beautify.AtomicSequence.Preserves.{exec-simplify_atomic_sequence}
use revng_c.Beautify.Canonical.{canonicalize}
use revng_c.Beautify.Canonical.Labels.{
  flip_empty_then-HasDisjointLabels, collapse_sequences-HasDisjointLabels,
}

-- Where no label stands at two cases of a `switch`, and the children of each flattened sequence of
-- the flipped GHAST are fewer than 2 ^ 32, the GHAST that `canonicalize` returns has the outcome of
-- the GHAST that it was given, on every machine, with any fuel and from any state.
pub exec-canonicalize :
    {S : Type 0} (m : Machine S) (fuel fresh : ℕ) (n : Node) (r : Node × ℕ) (s : S)
    → canonicalize fresh n ≡ some r
    → Everywhere HasDisjointLabels n
    → Everywhere FitsUnsigned (flip_empty_then n)
    → exec m fuel r.0 s ≡ exec m fuel n s
unfolding canonicalize
exec-canonicalize m fuel fresh n r s e h f =
    exec-simplify_atomic_sequence m fuel fresh (collapse_sequences (flip_empty_then n)) r s e (
      collapse_sequences-HasDisjointLabels (flip_empty_then n) f
        (flip_empty_then-HasDisjointLabels n h))
    ∙ exec-collapse_sequences m fuel (flip_empty_then n) s f
    ∙ exec-flip_empty_then m fuel n s
