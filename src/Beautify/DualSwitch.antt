-- ===== src/Beautify/DualSwitch.antt =====
-- lib/RestructureCFG/SimplifyDualSwitch.cpp: `simplifyDualSwitch`, which turns a `switch` of at most
-- two cases into an `if`.
--
-- The number that is passed along is the identity of the next node that the tree allocates. `none`
-- is a failed assertion or the visit of a null pointer.
pub mod Promoted
pub mod Switches
pub mod Visited
pub mod Preserves
use revng_c.Prelude.{
  ℕ, suc, Bool, true, false, ◌&&◌, ◌==◌, ltb, Option, none, some, List, [], ◌∷◌, ◌>>=◌,
}
use revng_c.Ghast.Expr.{equal, block_value, loop_state, Expr, compare}
use revng_c.Ghast.Node.{
  SwitchFields, Node, null, code, break, continue, if_node, scs, sequence, switch, switch_break,
  set, Nodes, nil, cons, Cases, no_case, case, is_null, get_default,
}
use revng_c.Beautify.AtomicSequence.{or_absent}

-- IfFields
pub record IfFields : Type 0 where
  pub then_node : Node
  pub else_node : Node
  pub case_index : ℕ

abbrev pub fields : Node → Node → ℕ → IfFields
fields t e v = record { then_node = t; else_node = e; case_index = v }

abbrev pub is_present : Option ℕ → Bool
is_present none = false
is_present (some v) = true

abbrev pub lower : Bool → IfFields → IfFields → IfFields
lower true x y = x
lower false x y = y

-- the case with one label, the lower one if both have one
abbrev pub elect : List ℕ → Node → List ℕ → Node → Option IfFields
elect (a ∷ []) n (b ∷ []) k = some (lower (ltb a b) (fields n k a) (fields k n b))
elect (a ∷ []) n l k = some (fields n k a)
elect l n (b ∷ []) k = some (fields k n b)
elect _ n _ k = none

abbrev pub elect_one : List ℕ → Node → Option IfFields
elect_one (a ∷ []) n = some (fields n null a)
elect_one _ n = none

abbrev pub unless : Bool → Option IfFields → Option IfFields
unless true o = none
unless false o = o

-- computeSwitchToIfPromotion; the outer `none` is the assertion on the number of cases
unfoldable pub compute_switch_to_if_promotion : SwitchFields → Cases → Option (Option IfFields)
unfolding is_null get_default
compute_switch_to_if_promotion f no_case = none
compute_switch_to_if_promotion f (case l n no_case) = some (elect_one l n)
compute_switch_to_if_promotion f (case l n (case p k no_case)) = some (
    unless (is_present f.condition && is_null (get_default (case l n (case p k no_case))))
      (elect l n p k))
compute_switch_to_if_promotion f _ = some none

abbrev pub own_break : Bool → Option Node
own_break true = some null
own_break false = none

-- a SwitchBreak that is a branch of the new `if`, of the switch `i`
abbrev pub drop_switch_break : ℕ → Node → Option Node
drop_switch_break i (switch_break j (some p)) = own_break (p == i)
drop_switch_break i (switch_break j none) = none
drop_switch_break i n = some n

-- the `if` is left out when both its branches are absent
abbrev pub unless_empty : ℕ → Option ℕ → Expr → Bool → Node → Node → Node
unless_empty j bb c w null null = null
unless_empty j bb c w t e = if_node j bb c w t e

abbrev pub assert_present : Node → Option Node
assert_present null = none
assert_present n = some n

abbrev pub make_if : ℕ → ℕ → Option ℕ → Expr → Bool → IfFields → Option (Node × ℕ)
make_if i fresh bb c w x = assert_present x.then_node >>= λ t0. drop_switch_break i t0 >>= λ t.
    drop_switch_break i x.else_node >>= λ e. some (unless_empty fresh bb c w t e, suc fresh)

-- the condition and the block of the switch: A) a dispatcher, B) a standard switch
abbrev pub if_of_switch : ℕ → ℕ → Bool → Bool → Option ℕ → Option ℕ → IfFields → Option (Node × ℕ)
if_of_switch i fresh true w none none x =
    make_if i fresh none (compare loop_state equal x.case_index) false x
if_of_switch i fresh no_default w (some v) (some bb) x =
    make_if i fresh (some bb) (compare (block_value bb) equal x.case_index) w x
if_of_switch i fresh no_default w _ _ x = none

abbrev pub or_switch : ℕ → ℕ → SwitchFields → Cases → Option IfFields → Option (Node × ℕ)
or_switch i fresh f cs none = some (switch i f cs, fresh)
or_switch i fresh f cs (some x) =
    if_of_switch i fresh (is_null (get_default cs)) f.is_weaved f.condition f.bb x

-- a switch whose cases are visited
unfoldable pub switch_to_if : ℕ → ℕ → SwitchFields → Cases → Option (Node × ℕ)
unfolding compute_switch_to_if_promotion is_null get_default
switch_to_if i fresh f (case [] n no_case) = some (n, fresh)
switch_to_if i fresh f cs = compute_switch_to_if_promotion f cs >>= λ x. or_switch i fresh f cs x

-- SequenceNode::removeNode(nullptr)
unfoldable pub remove_null : Nodes → Nodes
remove_null nil = nil
remove_null (cons null ns) = remove_null ns
remove_null (cons n ns) = cons n (remove_null ns)

unfoldable mutual
  unfolding switch_to_if remove_null

  pub simplify_dual_switch : ℕ → Node → Option (Node × ℕ)
  simplify_dual_switch fresh (sequence i ns) =
      dual_in_nodes fresh ns >>= λ x. some (sequence i (remove_null x.0), x.1)
  simplify_dual_switch fresh (scs i t b) =
      or_absent b fresh (simplify_dual_switch fresh b) >>= λ x. some (scs i t x.0, x.1)
  simplify_dual_switch fresh (if_node i bb c w t e) =
      or_absent t fresh (simplify_dual_switch fresh t) >>= λ x.
      or_absent e x.1 (simplify_dual_switch x.1 e) >>= λ y. some (if_node i bb c w x.0 y.0, y.1)
  simplify_dual_switch fresh (switch i f cs) =
      dual_in_cases fresh cs >>= λ x. switch_to_if i x.1 f x.0
  simplify_dual_switch fresh null = none
  simplify_dual_switch fresh n = some (n, fresh)

  pub dual_in_nodes : ℕ → Nodes → Option (Nodes × ℕ)
  dual_in_nodes fresh nil = some (nil, fresh)
  dual_in_nodes fresh (cons n ns) =
      simplify_dual_switch fresh n >>= λ x. dual_in_nodes x.1 ns >>= λ y. some (cons x.0 y.0, y.1)

  pub dual_in_cases : ℕ → Cases → Option (Cases × ℕ)
  dual_in_cases fresh no_case = some (no_case, fresh)
  dual_in_cases fresh (case l n cs) =
      simplify_dual_switch fresh n >>= λ x. dual_in_cases x.1 cs >>= λ y. some (case l x.0 y.0, y.1)
