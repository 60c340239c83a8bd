-- ===== src/Tests/Branches.antt =====
-- if (s == 5) { block 1; } else { block 0; }, where block 1 returns
use revng_c.Prelude.{ℕ, zero, suc, ◌+◌, false, ◌≡◌, refl, some, none, [], ◌∷◌, ◌%◌, ◌^◌, ◌<◌, arith}
use revng_c.Ghast.Expr.{atomic}
use revng_c.Ghast.Node.{Node, null, code, if_node, sequence, nil, cons, append_nodes, length_nodes}
use revng_c.Ghast.Identity.{node_id}
use revng_c.Ghast.Everywhere.{Everywhere}
use revng_c.Semantics.{exec}
use revng_c.Beautify.FallThrough.{
  fall_through, returns, at, falls_through, scope_eq, combine_types, code_scope, note_code,
  child_scope, scope, compute_fall_through_scope,
}
use revng_c.Beautify.Weight.{Blocks, weight_at, cumulative_weight}
use revng_c.Beautify.Weight.Points.{total, IsTotalled, cumulative_weight-total}
use revng_c.Beautify.Sequences.{collapse_sequences, collapse_children}
use revng_c.Beautify.Sequences.Splice.{flatten}
use revng_c.Beautify.Promotion.{
  State, promote_no_fall_through, promote_root, promote_no_fall_through_if,
}
use revng_c.Beautify.Promotion.Preserves.{exec-promote_no_fall_through_if}
use revng_c.Tests.{counter, no_model}

abbrev leave : Node
leave = code 2 (some 1) false

abbrev goes_on : Node
goes_on = code 3 (some 0) false

abbrev whole : Node
whole = if_node 1 none (atomic 5) false leave goes_on

abbrev blocks : Blocks
blocks = record { size = λ bb. bb + 2; original_bb = λ i. none }

abbrev who : ℕ → Node
who (suc zero) = whole
who (suc (suc zero)) = leave
who _ = goes_on

abbrev promoted : Node
promoted = sequence 4 (cons (if_node 1 none (atomic 5) false leave null) (cons goes_on nil))

abbrev state : State
state = record {
  fresh = 5;
  fall_through_scope_map =
      (4, fall_through) ∷ (1, fall_through) ∷ (3, fall_through) ∷ (2, returns) ∷ (2, returns) ∷ [];
  node_weight = (4, 6) ∷ (1, 6) ∷ (3, 2) ∷ (2, 3) ∷ [];
}

cumulative_weight-total_example :
    (6 ≡ total blocks whole % 2 ^ 32) × (6 < 2 ^ 32) × IsTotalled blocks who ((3, 2) ∷ (2, 3) ∷ [])
unfolding cumulative_weight node_id Everywhere
cumulative_weight-total_example =
    cumulative_weight-total blocks who whole 6 ((3, 2) ∷ (2, 3) ∷ []) refl (refl, refl, refl)

exec-promote_no_fall_through_if_example : exec counter 1 promoted 5 ≡ exec counter 1 whole 5
unfolding promote_no_fall_through_if promote_root promote_no_fall_through compute_fall_through_scope
    scope combine_types scope_eq code_scope note_code child_scope falls_through at weight_at
    cumulative_weight node_id Everywhere collapse_sequences collapse_children flatten length_nodes
    append_nodes
exec-promote_no_fall_through_if_example =
    exec-promote_no_fall_through_if no_model blocks counter 1 who whole 4 (promoted, state) promoted
      5 refl refl (omega arith, ((tt, tt, tt), (tt, tt))) ((λ x. x, λ x. x), refl, refl)
      (refl, refl, refl) (omega arith, omega arith, omega arith)
