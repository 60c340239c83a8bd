-- ===== src/Beautify/CallNoReturn.antt =====
-- lib/RestructureCFG/PromoteCallNoReturn.cpp: `promoteCallNoReturn`, which moves a `return`, `break`
-- or `continue` in an `if` behind the call at the end of the sequence that never returns.
--
-- The number that is passed along is the identity of the next node that the tree allocates. `none`
-- is a missing key of the map or the visit of a null pointer.
pub mod Tail
pub mod Find
pub mod Preserves
use revng_c.Prelude.{ℕ, suc, Bool, true, false, Option, none, some, List, ◌>>=◌}
use revng_c.Ghast.Expr.{Expr}
use revng_c.Ghast.Node.{
  Node, null, code, break, continue, if_node, scs, sequence, switch, switch_break, set, Nodes, nil,
  cons, Cases, no_case, case, append_nodes,
}
use revng_c.Ghast.Identity.{node_id}
use revng_c.Ghast.Children.{remove_node}
use revng_c.Semantics.{Last}
use revng_c.Beautify.FallThrough.{
  ScopeType, call_no_return, returns, continues, loop_break, Binary, ScopeMap, at, last_id,
  compute_fall_through_scope,
}
use revng_c.Beautify.AtomicSequence.{or_absent}
use revng_c.Beautify.Canonical.{canonicalize}

-- isPreferredAsFallThrough
abbrev pub is_preferred_as_fall_through : ScopeType → Bool
is_preferred_as_fall_through returns = true
is_preferred_as_fall_through continues = true
is_preferred_as_fall_through loop_break = true
is_preferred_as_fall_through _ = false

abbrev pub is_call_no_return : ScopeType → Bool
is_call_no_return call_no_return = true
is_call_no_return _ = false

-- the address of a branch, if it is there
unfoldable pub child_id : Node → Option ℕ
unfolding node_id
child_id null = none
child_id n = some (node_id n)

-- The `if` without an `else` that is found in a sequence: the children before it, its fields and its
-- `then`, and the children that follow.
pub data Found : Type 0 where
  nothing : Found
  found_if : Nodes → ℕ → Option ℕ → Expr → Bool → Node → Nodes → Found

abbrev pub if_preferred : Bool → ℕ → Option ℕ → Expr → Bool → Node → Nodes → Found
if_preferred true i bb c w t following = found_if nil i bb c w t following
if_preferred false i bb c w t following = nothing

-- one step of the search: a child and the children that follow it
unfoldable pub try_if : ScopeMap → Node → Nodes → Option Found
unfolding child_id at
try_if mp (if_node i bb c w t null) following = child_id t >>= λ j.
    at mp j >>= λ s. some (if_preferred (is_preferred_as_fall_through s) i bb c w t following)
try_if mp _ following = some nothing

abbrev pub or_try : ScopeMap → Node → Nodes → Found → Option Found
or_try mp n following nothing = try_if mp n following
or_try mp n following (found_if b i bb c w t f) = some (found_if (cons n b) i bb c w t f)

-- from the last child but one backwards
unfoldable pub find_if : ScopeMap → Nodes → Option Found
unfolding try_if
find_if mp nil = some nothing
find_if mp (cons n nil) = some nothing
find_if mp (cons n (cons k ns)) = find_if mp (cons k ns) >>= λ r. or_try mp n (cons k ns) r

-- the removal of ToRemove, in reverse order
unfoldable pub remove_all : Nodes → Nodes → Nodes
unfolding remove_node node_id
remove_all nil v = v
remove_all (cons n ns) v = remove_node (node_id n) (remove_all ns v)

-- the children of the sequence after the search
unfoldable pub swap : ℕ → Nodes → Found → Nodes × ℕ
unfolding remove_all append_nodes
swap fresh ns nothing = (ns, fresh)
swap fresh ns (found_if before i bb c w t following) = (
  remove_all following (
      append_nodes before (
        cons (if_node i bb c w null (sequence fresh following))
          (append_nodes following (cons t nil)))),
  suc fresh,
)

abbrev pub when_call : ScopeMap → ℕ → Nodes → Bool → Option (Nodes × ℕ)
when_call mp fresh ns false = some (ns, fresh)
when_call mp fresh ns true = find_if mp ns >>= λ r. some (swap fresh ns r)

-- a sequence whose children are visited
unfoldable pub promote_tail : ScopeMap → ℕ → Nodes → Option (Nodes × ℕ)
unfolding last_id at
promote_tail mp fresh nil = some (nil, fresh)
promote_tail mp fresh (cons n nil) = some (cons n nil, fresh)
promote_tail mp fresh (cons n (cons k ns)) = last_id (cons n (cons k ns)) >>= λ l.
    at mp l >>= λ t. when_call mp fresh (cons n (cons k ns)) (is_call_no_return t)

unfoldable mutual
  unfolding promote_tail

  -- `promoteCallNoReturnImpl`
  pub promote_call : ScopeMap → ℕ → Node → Option (Node × ℕ)
  promote_call mp fresh (sequence i ns) =
      call_in_nodes mp fresh ns >>= λ x. promote_tail mp x.1 x.0 >>= λ y. some (sequence i y.0, y.1)
  promote_call mp fresh (scs i t b) =
      or_absent b fresh (promote_call mp fresh b) >>= λ x. some (scs i t x.0, x.1)
  promote_call mp fresh (if_node i bb c w t e) =
      or_absent t fresh (promote_call mp fresh t) >>= λ x.
      or_absent e x.1 (promote_call mp x.1 e) >>= λ y. some (if_node i bb c w x.0 y.0, y.1)
  promote_call mp fresh (switch i f cs) =
      call_in_cases mp fresh cs >>= λ x. some (switch i f x.0, x.1)
  promote_call mp fresh null = none
  promote_call mp fresh n = some (n, fresh)

  pub call_in_nodes : ScopeMap → ℕ → Nodes → Option (Nodes × ℕ)
  call_in_nodes mp fresh nil = some (nil, fresh)
  call_in_nodes mp fresh (cons n ns) =
      promote_call mp fresh n >>= λ x. call_in_nodes mp x.1 ns >>= λ y. some (cons x.0 y.0, y.1)

  pub call_in_cases : ScopeMap → ℕ → Cases → Option (Cases × ℕ)
  call_in_cases mp fresh no_case = some (no_case, fresh)
  call_in_cases mp fresh (case l n cs) =
      promote_call mp fresh n >>= λ x. call_in_cases mp x.1 cs >>= λ y. some (case l x.0 y.0, y.1)

-- the analysis, and the promotion from its result
unfoldable pub promote_calls : Binary → (ℕ → Last) → ℕ → Node → Option (Node × ℕ)
unfolding promote_call compute_fall_through_scope
promote_calls b last fresh root =
    compute_fall_through_scope b last root >>= λ mp. promote_call mp fresh root

-- `promoteCallNoReturn`
unfoldable pub promote_call_no_return : Binary → (ℕ → Last) → ℕ → Node → Option (Node × ℕ)
unfolding promote_calls canonicalize
promote_call_no_return b last fresh root =
    promote_calls b last fresh root >>= λ r. canonicalize r.1 r.0
