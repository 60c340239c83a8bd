-- ===== src/Beautify/DoWhile.antt =====
-- lib/RestructureCFG/BeautifyGHAST.cpp: `matchDoWhile`, which promotes a loop whose body ends in an
-- `if` between `break` and `continue`.
--
-- `none` is a failed assertion or the visit of a null pointer.
pub mod Loop
pub mod Shape
pub mod Last
pub mod Continues
pub mod Promoted
pub mod Preserves
use revng_c.Prelude.{ℕ, Bool, true, false, Option, none, some, ◌>>=◌, if◌then◌else◌}
use revng_c.Ghast.Expr.{Expr, negated}
use revng_c.Ghast.Node.{
  RelatedCondition, LoopType, while_true, while, do_while, Node, null, code, break, continue,
  if_node, scs, sequence, switch, switch_break, set, Nodes, nil, cons, Cases, no_case, case,
}
use revng_c.Ghast.Identity.{node_id}
use revng_c.Ghast.Children.{remove_node, split_last}

-- HandledCases, and whether the condition is to be negated
abbrev pub handled_cases : Node → Node → Option Bool
handled_cases (break i w) (continue j c x) = some true
handled_cases (continue i c x) (break j w) = some false
handled_cases _ _ = none

abbrev pub negate_if : Bool → Expr → Expr
negate_if true c = negated c
negate_if false c = c

-- ScsNode::setDoWhile
abbrev pub set_do_while : LoopType → RelatedCondition → Option LoopType
set_do_while while_true c = some (do_while c)
set_do_while _ c = none

abbrev pub is_while : LoopType → Bool
is_while (while c) = true
is_while _ = false

-- the `if`, what is left of the body, and the verdict of `handled_cases`
abbrev pub promote_as : ℕ → LoopType → Node → RelatedCondition → Node → Option Bool → Option Node
promote_as i t body q rest none = some (scs i t body)
promote_as i t body q rest (some inverted) =
    set_do_while t (record q { cond_expr = negate_if inverted q.cond_expr }) >>= λ t'.
    some (scs i t' rest)

-- the loop, its body, the last node of the body, and the body without it
abbrev pub promote_do_while : ℕ → LoopType → Node → Node → Node → Option Node
promote_do_while i t body (if_node j bb c w th el) rest =
    promote_as i t body (record { id = j; bb = bb; cond_expr = c; is_weaved = w }) rest
      (handled_cases th el)
promote_do_while i t body null rest = none
promote_do_while i t body _ rest = some (scs i t body)

abbrev pub match_body : ℕ → LoopType → Node → Option Node
match_body i t (sequence j ns) = split_last ns >>= λ r.
    promote_do_while i t (sequence j ns) r.1 (sequence j (remove_node (node_id r.1) ns))
match_body i t body = promote_do_while i t body body null

abbrev pub unless_while : ℕ → LoopType → Node → Bool → Option Node
unless_while i t b true = some (scs i t b)
unless_while i t b false = match_body i t b

-- the body, and what it becomes; it may be absent
abbrev pub match_loop : ℕ → LoopType → Node → Option Node → Option Node
match_loop i t null r = some (scs i t null)
match_loop i t b r = r >>= λ b'. unless_while i t b' (is_while t)

-- a branch, which may be absent
abbrev pub or_null : Node → Option Node → Option Node
or_null null r = some null
or_null n r = r

unfoldable mutual
  pub match_do_while : Node → Option Node
  match_do_while (sequence i ns) = do_while_in_nodes ns >>= λ r. some (sequence i r)
  match_do_while (if_node i bb c w t e) = or_null t (match_do_while t) >>= λ t'.
      or_null e (match_do_while e) >>= λ e'. some (if_node i bb c w t' e')
  match_do_while (switch i f cs) = do_while_in_cases cs >>= λ r. some (switch i f r)
  match_do_while (scs i t b) = match_loop i t b (match_do_while b)
  match_do_while null = none
  match_do_while n = some n

  pub do_while_in_nodes : Nodes → Option Nodes
  do_while_in_nodes nil = some nil
  do_while_in_nodes (cons n ns) =
      match_do_while n >>= λ n'. do_while_in_nodes ns >>= λ r. some (cons n' r)

  pub do_while_in_cases : Cases → Option Cases
  do_while_in_cases no_case = some no_case
  do_while_in_cases (case l n cs) =
      match_do_while n >>= λ n'. do_while_in_cases cs >>= λ r. some (case l n' r)
