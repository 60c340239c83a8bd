-- ===== src/Ghast/Everywhere.antt =====
-- A predicate at a node and at every node below it, and the shape that the passes rely on.
use revng_c.Prelude.{false, ◌≡◌, ◌&&◌}
use revng_c.Ghast.Node.{
  Node, if_node, scs, sequence, switch, Nodes, nil, cons, Cases, no_case, case, is_null,
}

unfoldable mutual
  pub Everywhere : (Node → Type 0) → Node → Type 0
  Everywhere P (if_node i bb c w t e) = P (if_node i bb c w t e) × Everywhere P t × Everywhere P e
  Everywhere P (scs i t b) = P (scs i t b) × Everywhere P b
  Everywhere P (sequence i ns) = P (sequence i ns) × EverywhereNodes P ns
  Everywhere P (switch i f cs) = P (switch i f cs) × EverywhereCases P cs
  Everywhere P n = P n

  pub EverywhereNodes : (Node → Type 0) → Nodes → Type 0
  EverywhereNodes P nil = Unit
  EverywhereNodes P (cons n ns) = Everywhere P n × EverywhereNodes P ns

  pub EverywhereCases : (Node → Type 0) → Cases → Type 0
  EverywhereCases P no_case = Unit
  EverywhereCases P (case l n cs) = Everywhere P n × EverywhereCases P cs

abbrev pub NoNullNodes : Nodes → Type 0
NoNullNodes nil = Unit
NoNullNodes (cons n ns) = (is_null n ≡ false) × NoNullNodes ns

abbrev pub NoNullCases : Cases → Type 0
NoNullCases no_case = Unit
NoNullCases (case l n cs) = (is_null n ≡ false) × NoNullCases cs

-- Children of sequences and of switches are there, and an `if` has a branch.
abbrev pub IsWellFormed : Node → Type 0
IsWellFormed (if_node i bb c w t e) = (is_null t && is_null e) ≡ false
IsWellFormed (sequence i ns) = NoNullNodes ns
IsWellFormed (switch i f cs) = NoNullCases cs
IsWellFormed _ = Unit

-- An `if` has its `then` branch.
abbrev pub HasThen : Node → Type 0
HasThen (if_node i bb c w t e) = is_null t ≡ false
HasThen _ = Unit
