-- ===== src/Tests/DeadCode.antt =====
-- if (s == 5) return; else break; block 0;
use revng_c.Prelude.{ℕ, zero, suc, false, ◌≡◌, refl, some, none, [], ◌∷◌}
use revng_c.Ghast.Expr.{atomic}
use revng_c.Ghast.Node.{Node, code, break, if_node, sequence, nil, cons}
use revng_c.Ghast.Identity.{node_id}
use revng_c.Ghast.Everywhere.{Everywhere}
use revng_c.Semantics.{exec}
use revng_c.Beautify.FallThrough.{
  ScopeMap, fall_through, mixed_no_fall_through, returns, loop_break, at, falls_through, scope_eq,
  combine_types, code_scope, note_code, child_scope, last_id, scope, compute_fall_through_scope,
}
use revng_c.Beautify.FallThrough.Leaving.{IsPlain}
use revng_c.Beautify.FallThrough.Map.{IsFiled, IsSound, compute_fall_through_scope-IsSound}
use revng_c.Beautify.DeadCode.{remove_dead_code_impl, remove_dead_code}
use revng_c.Beautify.DeadCode.Preserves.{exec-remove_dead_code}
use revng_c.Beautify.DeadCode.Succeeds.{remove_dead_code-succeeds}
use revng_c.Tests.{last_of, counter, no_model}

abbrev leave : Node
leave = if_node 1 none (atomic 5) false (code 2 (some 1) false) (break 3 false)

abbrev after : Node
after = code 4 (some 0) false

abbrev whole : Node
whole = sequence 0 (cons leave (cons after nil))

abbrev cut : Node
cut = sequence 0 (cons leave nil)

abbrev who : ℕ → Node
who zero = whole
who (suc zero) = leave
who (suc (suc zero)) = code 2 (some 1) false
who (suc (suc (suc zero))) = break 3 false
who _ = after

abbrev scopes : ScopeMap
scopes =
    (0, fall_through)
    ∷ (4, fall_through)
    ∷ (1, mixed_no_fall_through)
    ∷ (3, loop_break)
    ∷ (2, returns)
    ∷ (2, returns)
    ∷ []

whole-IsPlain : Everywhere IsPlain whole
unfolding Everywhere
whole-IsPlain = (((λ x. x), ((λ x. x), tt)), ((((λ x. x), (λ x. x)), refl, tt), (refl, tt)))

whole-IsFiled : Everywhere (IsFiled who) whole
unfolding Everywhere node_id
whole-IsFiled = (refl, ((refl, refl, refl), (refl, tt)))

scopes-computed : compute_fall_through_scope no_model last_of whole ≡ some scopes
unfolding compute_fall_through_scope scope node_id at falls_through scope_eq combine_types
    code_scope note_code child_scope last_id
scopes-computed = refl

removed : remove_dead_code no_model last_of whole ≡ some cut
unfolding remove_dead_code remove_dead_code_impl compute_fall_through_scope scope node_id at
    falls_through scope_eq combine_types code_scope note_code child_scope last_id
removed = refl

exec-remove_dead_code_example : exec counter 9 cut 4 ≡ exec counter 9 whole 4
exec-remove_dead_code_example =
    exec-remove_dead_code no_model counter 9 who whole cut 4 removed whole-IsPlain whole-IsFiled

compute_fall_through_scope-IsSound_example : IsSound counter 9 who scopes
compute_fall_through_scope-IsSound_example =
    compute_fall_through_scope-IsSound no_model counter 9 who whole scopes scopes-computed
      whole-IsPlain whole-IsFiled

remove_dead_code-succeeds_example : (n : Node) × (remove_dead_code no_model last_of whole ≡ some n)
remove_dead_code-succeeds_example =
    remove_dead_code-succeeds no_model last_of whole scopes scopes-computed

leave-scope :
    scope no_model last_of leave []
    ≡ some (mixed_no_fall_through, (3, loop_break) ∷ (2, returns) ∷ (2, returns) ∷ [])
unfolding scope node_id falls_through scope_eq combine_types code_scope note_code child_scope
leave-scope = refl

leave-leaves : falls_through mixed_no_fall_through ≡ false
unfolding falls_through
leave-leaves = refl

leave-IsPlain : Everywhere IsPlain leave
unfolding Everywhere
leave-IsPlain = (((λ x. x), (λ x. x)), refl, tt)
