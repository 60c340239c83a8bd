-- ===== src/Beautify/While.antt =====
-- lib/RestructureCFG/BeautifyGHAST.cpp: `matchWhile`, which promotes a loop whose body begins with an
-- `if` that has a `break`, and `addComputationToContinue`.
--
-- `none` is a failed assertion or the visit of a null pointer.
pub mod Carried
pub mod Computation
pub mod Computed
pub mod Entry
pub mod Preserves
use revng_c.Prelude.{ℕ, Bool, true, false, Option, none, some, ◌>>=◌}
use revng_c.Ghast.Node.{
  RelatedCondition, LoopType, while_true, while, do_while, Node, null, code, break, continue,
  if_node, scs, sequence, switch, switch_break, set, Nodes, nil, cons, Cases, no_case, case,
}
use revng_c.Ghast.Identity.{node_id}
use revng_c.Ghast.Children.{remove_node}
use revng_c.Beautify.DoWhile.{negate_if, or_null}

-- addComputationToContinue, with ContinueNode::addComputationIfNode; a nested loop keeps its own
unfoldable mutual
  pub add_computation : ℕ → Node → Option Node
  add_computation k (sequence i ns) = add_in_nodes k ns >>= λ r. some (sequence i r)
  add_computation k (if_node i bb c w t e) = or_null t (add_computation k t) >>= λ t'.
      or_null e (add_computation k e) >>= λ e'. some (if_node i bb c w t' e')
  add_computation k (switch i f cs) = add_in_cases k cs >>= λ r. some (switch i f r)
  add_computation k (continue i none x) = some (continue i (some k) x)
  add_computation k (continue i (some j) x) = none
  add_computation k null = none
  add_computation k n = some n

  pub add_in_nodes : ℕ → Nodes → Option Nodes
  add_in_nodes k nil = some nil
  add_in_nodes k (cons n ns) =
      add_computation k n >>= λ n'. add_in_nodes k ns >>= λ r. some (cons n' r)

  pub add_in_cases : ℕ → Cases → Option Cases
  add_in_cases k no_case = some no_case
  add_in_cases k (case l n cs) =
      add_computation k n >>= λ n'. add_in_cases k cs >>= λ r. some (case l n' r)

-- ScsNode::setWhile
abbrev pub set_while : LoopType → RelatedCondition → Option LoopType
set_while while_true c = some (while c)
set_while _ c = none

abbrev pub is_do_while : LoopType → Bool
is_do_while (do_while c) = true
is_do_while _ = false

-- BranchThatStaysInside, and whether the condition is to be negated
abbrev pub stays_inside : Node → Node → Option (Bool × Node)
stays_inside th (break i w) = some (false, th)
stays_inside (break i w) el = some (true, el)
stays_inside _ _ = none

abbrev pub insert_front : Node → Nodes → Nodes
insert_front null ns = ns
insert_front n ns = cons n ns

-- the loop, its condition, what becomes of the body, and the verdict of `stays_inside`
abbrev pub enter_as :
    ℕ → LoopType → Node → RelatedCondition → (Node → Node) → Option (Bool × Node) → Option Node
enter_as i t body q put none = some (scs i t body)
enter_as i t body q put (some v) =
    set_while t (record q { cond_expr = negate_if v.0 q.cond_expr }) >>= λ t'.
    add_computation q.id (put v.1) >>= λ b. some (scs i t' b)

-- the loop, its body, and the first node of the body
abbrev pub promote_while : ℕ → LoopType → Node → Node → (Node → Node) → Option Node
promote_while i t body (if_node j bb c w th el) put =
    enter_as i t body (record { id = j; bb = bb; cond_expr = c; is_weaved = w }) put
      (stays_inside th el)
promote_while i t body null put = none
promote_while i t body _ put = some (scs i t body)

abbrev pub match_entry : ℕ → LoopType → Node → Option Node
match_entry i t (sequence j nil) = none
match_entry i t (sequence j (cons n ns)) =
    promote_while i t (sequence j (cons n ns)) n
      (λ b. sequence j (insert_front b (remove_node (node_id n) (cons n ns))))
match_entry i t body = promote_while i t body body (λ b. b)

abbrev pub unless_do_while : ℕ → LoopType → Node → Bool → Option Node
unless_do_while i t b true = some (scs i t b)
unless_do_while i t b false = match_entry i t b

-- the body, and what it becomes; it may be absent
abbrev pub while_of_loop : ℕ → LoopType → Node → Option Node → Option Node
while_of_loop i t null r = some (scs i t null)
while_of_loop i t b r = r >>= λ b'. unless_do_while i t b' (is_do_while t)

unfoldable mutual
  pub match_while : Node → Option Node
  match_while (sequence i ns) = while_in_nodes ns >>= λ r. some (sequence i r)
  match_while (if_node i bb c w t e) = or_null t (match_while t) >>= λ t'.
      or_null e (match_while e) >>= λ e'. some (if_node i bb c w t' e')
  match_while (switch i f cs) = while_in_cases cs >>= λ r. some (switch i f r)
  match_while (scs i t b) = while_of_loop i t b (match_while b)
  match_while null = none
  match_while n = some n

  pub while_in_nodes : Nodes → Option Nodes
  while_in_nodes nil = some nil
  while_in_nodes (cons n ns) = match_while n >>= λ n'. while_in_nodes ns >>= λ r. some (cons n' r)

  pub while_in_cases : Cases → Option Cases
  while_in_cases no_case = some no_case
  while_in_cases (case l n cs) =
      match_while n >>= λ n'. while_in_cases cs >>= λ r. some (case l n' r)
