-- ===== src/Tests/Shape.antt =====
-- The passes of ASTNodeUtils.cpp and SimplifyCompareNode.cpp on small GHASTs.
use revng_c.Prelude.{ℕ, ◌<◌, false, ◌≡◌, refl, some, none, [], ◌∷◌, arith}
use revng_c.Ghast.Expr.{block_value, equal, compare, atomic, negated}
use revng_c.Ghast.Node.{
  SwitchFields, not_a_dispatcher, while_true, Node, null, code, if_node, scs, sequence, switch,
  switch_break, set, entry, Nodes, nil, cons, no_case, case, append_nodes, length_nodes, is_null,
  has_default, get_default,
}
use revng_c.Ghast.Everywhere.{Everywhere, IsWellFormed}
use revng_c.Semantics.{exec}
use revng_c.Beautify.Sequences.{unsigned_mod, collapse_children, collapse_sequences}
use revng_c.Beautify.Sequences.Splice.{flatten, collapse_children-eq-flatten}
use revng_c.Beautify.Sequences.Preserves.{FitsUnsigned}
use revng_c.Beautify.Sequences.Flat.{IsFlat, collapse_sequences-IsFlat}
use revng_c.Beautify.AtomicSequence.{simplify_atomic_sequence}
use revng_c.Beautify.AtomicSequence.Switches.{HasDisjointLabels}
use revng_c.Beautify.AtomicSequence.Preserves.{exec-simplify_atomic_sequence}
use revng_c.Beautify.EmptyThen.{flip_empty_then}
use revng_c.Beautify.CompareNode.{simplify_compare_node}
use revng_c.Beautify.CompareNode.Preserves.{exec-simplify_compare_node}
use revng_c.Beautify.AtomicSequence.Succeeds.{simplify_atomic_sequence-succeeds}
use revng_c.Beautify.Canonical.{canonicalize}
use revng_c.Beautify.Canonical.Preserves.{exec-canonicalize}
use revng_c.Tests.{counter}

abbrev pair : Nodes
pair = cons (code 2 (some 0) false) (cons (code 3 (some 0) false) nil)

-- { block 0; block 0; } block 1;
abbrev children : Nodes
children = cons (sequence 1 pair) (cons (code 4 (some 1) false) nil)

abbrev nested : Node
nested = sequence 0 children

children-fit : length_nodes (flatten children) < unsigned_mod
unfolding length_nodes flatten append_nodes
children-fit = omega arith

nested-FitsUnsigned : Everywhere FitsUnsigned nested
unfolding Everywhere length_nodes flatten append_nodes collapse_sequences collapse_children
nested-FitsUnsigned = (omega arith, ((omega arith, (tt, (tt, tt))), (tt, tt)))

collapse_children-eq-flatten_example : collapse_children children ≡ flatten children
collapse_children-eq-flatten_example = collapse_children-eq-flatten children children-fit

collapse_sequences-IsFlat_example : Everywhere IsFlat (collapse_sequences nested)
collapse_sequences-IsFlat_example = collapse_sequences-IsFlat nested nested-FitsUnsigned

abbrev fields : SwitchFields
fields = record {
  bb = some 0;
  condition = some 0;
  is_weaved = false;
  need_state_variable = false;
  need_loop_break_dispatcher = false;
  dispatcher_kind = not_a_dispatcher;
}

-- a case without statements, in a `switch` with a default
abbrev wrapped : Node
wrapped = switch 0 fields (
    case (1 ∷ []) (sequence 1 nil)
      (case [] (sequence 2 (cons (code 3 (some 0) false) nil)) no_case))

abbrev unwrapped : Node
unwrapped =
    switch 0 fields
      (case (1 ∷ []) (switch_break 100 (some 0)) (case [] (code 3 (some 0) false) no_case))

unwrapped-computed : simplify_atomic_sequence 100 wrapped ≡ some (unwrapped, 101)
unfolding simplify_atomic_sequence has_default get_default is_null
unwrapped-computed = refl

wrapped-HasDisjointLabels : Everywhere HasDisjointLabels wrapped
unfolding Everywhere
wrapped-HasDisjointLabels = (((λ v h. refl), ((λ v h. refl), tt)), ((tt, tt), ((tt, (tt, tt)), tt)))

exec-simplify_atomic_sequence_example : exec counter 9 unwrapped 1 ≡ exec counter 9 wrapped 1
exec-simplify_atomic_sequence_example =
    exec-simplify_atomic_sequence counter 9 100 wrapped (unwrapped, 101) 1 unwrapped-computed
      wrapped-HasDisjointLabels

-- if (s == 5) {} else block 0;
abbrev only_else : Node
only_else = if_node 0 none (atomic 5) false null (code 1 (some 0) false)

only_else-IsWellFormed : Everywhere IsWellFormed only_else
unfolding Everywhere is_null
only_else-IsWellFormed = (refl, tt, tt)

-- if (!(value == 0)) block 0;
abbrev compares : Node
compares =
    if_node 0 (some 3) (negated (compare (block_value 3) equal 0)) false (code 1 (some 0) false)
      null

exec-simplify_compare_node_example :
    exec counter 9 (simplify_compare_node compares) 4 ≡ exec counter 9 compares 4
exec-simplify_compare_node_example = exec-simplify_compare_node counter 9 compares 4

-- while (true) { state = 3; }
abbrev sets : Node
sets = scs 0 while_true (set 1 3 entry)

-- if (s == 5) {} else { { block 0; block 0; } }
abbrev untidy : Node
untidy = if_node 0 none (atomic 5) false null (sequence 5 (cons (sequence 1 pair) nil))

abbrev tidy : Node
tidy = if_node 0 none (negated (atomic 5)) false (sequence 5 pair) null

tidied : canonicalize 100 untidy ≡ some (tidy, 100)
unfolding canonicalize flip_empty_then collapse_sequences collapse_children simplify_atomic_sequence
    append_nodes length_nodes is_null
tidied = refl

untidy-HasDisjointLabels : Everywhere HasDisjointLabels untidy
unfolding Everywhere
untidy-HasDisjointLabels = (tt, tt, (tt, ((tt, (tt, (tt, tt))), tt)))

untidy-FitsUnsigned : Everywhere FitsUnsigned (flip_empty_then untidy)
unfolding Everywhere flip_empty_then collapse_sequences collapse_children flatten append_nodes
    length_nodes
untidy-FitsUnsigned = (tt, (omega arith, ((omega arith, (tt, (tt, tt))), tt)), tt)

exec-canonicalize_example : exec counter 9 tidy 4 ≡ exec counter 9 untidy 4
exec-canonicalize_example =
    exec-canonicalize counter 9 100 untidy (tidy, 100) 4 tidied untidy-HasDisjointLabels
      untidy-FitsUnsigned

wrapped-not_null : is_null wrapped ≡ false
unfolding is_null
wrapped-not_null = refl

wrapped-IsFlat : Everywhere IsFlat wrapped
unfolding Everywhere
wrapped-IsFlat = (tt, ((tt, tt), ((((λ x. x), tt), (tt, tt)), tt)))

wrapped-IsWellFormed : Everywhere IsWellFormed wrapped
unfolding Everywhere is_null
wrapped-IsWellFormed = ((refl, (refl, tt)), ((tt, tt), (((refl, tt), (tt, tt)), tt)))

simplify_atomic_sequence-succeeds_example :
    (r : Node × ℕ) × (simplify_atomic_sequence 100 wrapped ≡ some r)
simplify_atomic_sequence-succeeds_example =
    simplify_atomic_sequence-succeeds wrapped 100 wrapped-not_null wrapped-IsFlat
      wrapped-IsWellFormed
