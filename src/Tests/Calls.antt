-- ===== src/Tests/Calls.antt =====
-- if (s == 5) { block 1; } block 0; block 2; where block 1 returns and block 2 calls a function that
-- never returns
use revng_c.Prelude.{ℕ, zero, suc, false, true, ◌≡◌, refl, some, none, [], subst, of_some, arith}
use revng_c.Ghast.Expr.{atomic, negated}
use revng_c.Ghast.Node.{
  Node, null, code, if_node, sequence, nil, cons, append_nodes, length_nodes, is_null,
}
use revng_c.Ghast.Identity.{node_id}
use revng_c.Ghast.Children.{is_child, remove_node, DistinctChildren}
use revng_c.Ghast.Everywhere.{Everywhere}
use revng_c.Semantics.{Machine, Last, return_void, branch, unreachable, isolated_call, exec}
use revng_c.Beautify.FallThrough.{
  Binary, at, falls_through, scope_eq, combine_types, code_scope, note_code, child_scope, last_id,
  scope, compute_fall_through_scope,
}
use revng_c.Beautify.EmptyThen.{flip_empty_then}
use revng_c.Beautify.Sequences.{collapse_sequences, collapse_children}
use revng_c.Beautify.Sequences.Splice.{flatten}
use revng_c.Beautify.AtomicSequence.{simplify_atomic_sequence}
use revng_c.Beautify.Canonical.{canonicalize}
use revng_c.Beautify.CallNoReturn.{
  child_id, try_if, find_if, remove_all, swap, promote_tail, promote_call, promote_calls,
  promote_call_no_return,
}
use revng_c.Beautify.CallNoReturn.Find.{then_id, ThensElsewhere}
use revng_c.Beautify.CallNoReturn.Preserves.{exec-promote_call_no_return}
use revng_c.Tests.{counter}

abbrev ends_of : ℕ → Last
ends_of zero = branch
ends_of (suc zero) = return_void
ends_of _ = unreachable (isolated_call 0)

abbrev caller : Machine ℕ
caller = record counter { last = ends_of }

abbrev model : Binary
model = record { isolated_no_return = λ f. true; dynamic_functions = [] }

abbrev leave : Node
leave = code 2 (some 1) false

abbrev goes_on : Node
goes_on = code 3 (some 0) false

abbrev calls : Node
calls = code 4 (some 2) false

abbrev choice : Node
choice = if_node 1 none (atomic 5) false leave null

abbrev whole : Node
whole = sequence 0 (cons choice (cons goes_on (cons calls nil)))

abbrev rest : Node
rest = sequence 5 (cons goes_on (cons calls nil))

abbrev swapped : Node
swapped = sequence 0 (cons (if_node 1 none (atomic 5) false null rest) (cons leave nil))

abbrev flipped : Node
flipped = sequence 0 (cons (if_node 1 none (negated (atomic 5)) false rest null) (cons leave nil))

abbrev who : ℕ → Node
who zero = whole
who (suc zero) = choice
who (suc (suc zero)) = leave
who (suc (suc (suc zero))) = goes_on
who _ = calls

exec-promote_call_no_return_example : exec caller 1 flipped 5 ≡ exec caller 1 whole 5
unfolding promote_call_no_return promote_calls promote_call promote_tail swap find_if try_if
    remove_all child_id then_id ThensElsewhere compute_fall_through_scope scope combine_types
    scope_eq code_scope note_code child_scope last_id falls_through at node_id Everywhere
    DistinctChildren is_child remove_node flip_empty_then collapse_sequences collapse_children
    flatten length_nodes append_nodes is_null simplify_atomic_sequence canonicalize
exec-promote_call_no_return_example =
    exec-promote_call_no_return model caller 1 who 5 whole (swapped, 6) (flipped, 6) 5 refl refl
      (tt, ((tt, tt, (tt, (tt, (tt, tt)))), (tt, tt)))
      (omega arith, ((tt, (omega arith, (tt, (tt, tt))), tt), (tt, tt)))
      ((λ x. x, (λ x. x, (λ x. x, tt))), (((λ x. x, λ x. x), refl, tt), (refl, (refl, tt))))
      (refl, ((refl, refl, tt), (refl, (refl, tt))))
      (
        (
          (refl, (refl, (refl, tt))),
          (
            λ j e.
                subst (λ x. is_child x (cons choice (cons goes_on (cons calls nil))) ≡ false)
                  (of_some e) refl,
            (λ j e. cc e, (λ j e. cc e, tt)),
          ),
        ),
        ((tt, tt, tt), (tt, (tt, tt))),
      )
