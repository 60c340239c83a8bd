-- ===== src/Beautify/Canonical.antt =====
-- lib/RestructureCFG/ASTNodeUtils.cpp: `canonicalize`, the three passes that bring a GHAST into its
-- normal form.
pub mod Labels
pub mod Preserves
use revng_c.Prelude.{ℕ, Option}
use revng_c.Ghast.Node.{Node}
use revng_c.Beautify.EmptyThen.{flip_empty_then}
use revng_c.Beautify.Sequences.{collapse_sequences}
use revng_c.Beautify.AtomicSequence.{simplify_atomic_sequence}

unfoldable pub canonicalize : ℕ → Node → Option (Node × ℕ)
canonicalize fresh root = simplify_atomic_sequence fresh (collapse_sequences (flip_empty_then root))
