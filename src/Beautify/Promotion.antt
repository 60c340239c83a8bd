-- ===== src/Beautify/Promotion.antt =====
-- lib/RestructureCFG/BeautifyGHAST.cpp: `promoteNoFallthrough` and `promoteNoFallthroughIf`, which
-- move a branch behind an `if` whose other branch is never left through its end.
--
-- The nodes that the pass adds to the ASTTree have the addresses from `fresh` on. `none` is a failed
-- assertion, a missing key, or the visit of a null pointer.
pub mod Step
pub mod Preserves
use revng_c.Prelude.{ℕ, suc, Bool, true, false, Option, none, some, List, [], ◌∷◌, ◌>>=◌, not, ltb}
use revng_c.Ghast.Expr.{Expr}
use revng_c.Ghast.Node.{
  Node, null, code, break, continue, if_node, scs, sequence, switch, switch_break, set, Nodes, nil,
  cons, Cases, no_case, case,
}
use revng_c.Ghast.Identity.{node_id}
use revng_c.Semantics.{Last}
use revng_c.Beautify.FallThrough.{Binary, ScopeMap, at, falls_through, compute_fall_through_scope}
use revng_c.Beautify.Weight.{Blocks, WeightMap, weight_at, note_weight, cumulative_weight}
use revng_c.Beautify.Sequences.{collapse_sequences}

pub record State : Type 0 where
  pub fresh : ℕ
  pub fall_through_scope_map : ScopeMap
  pub node_weight : WeightMap

-- PromoteThen and PromoteElse, of which one at most is set
pub data Promotion : Type 0 where
  keep_branches promote_then promote_else : Promotion

-- the heavier branch moves
abbrev pub by_weight : Bool → Promotion
by_weight true = promote_then
by_weight false = promote_else

-- whether `then` and `else` fall through, and their weights
abbrev pub by_scopes : Bool → Bool → Option ℕ → Option ℕ → Option Promotion
by_scopes false false wt we = wt >>= λ a. we >>= λ b. some (by_weight (not (ltb a b)))
by_scopes false true wt we = some promote_else
by_scopes true false wt we = some promote_then
by_scopes true true wt we = some keep_branches

abbrev pub choose_promotion : State → ℕ → ℕ → Option Promotion
choose_promotion s t e = at s.fall_through_scope_map t >>= λ a.
    at s.fall_through_scope_map e >>= λ b.
    by_scopes (falls_through a) (falls_through b) (weight_at s.node_weight t)
      (weight_at s.node_weight e)

-- NodeWeight[New] = NodeWeight[If], where a missing entry is made first
abbrev pub copy_weight : ℕ → ℕ → Option ℕ → WeightMap → WeightMap
copy_weight new old (some w) mp = (new, w) ∷ mp
copy_weight new old none mp = (new, 0) ∷ (old, 0) ∷ mp

-- AST.addSequenceNode, with the entries of the `if` at `i` for it
abbrev pub add_sequence : State → ℕ → Nodes → Option (Node × State)
add_sequence s i ns = at s.fall_through_scope_map i >>= λ t. some (
  sequence s.fresh ns,
  record {
    fresh = suc s.fresh;
    fall_through_scope_map = (s.fresh, t) ∷ s.fall_through_scope_map;
    node_weight = copy_weight s.fresh i (weight_at s.node_weight i) s.node_weight;
  },
)

abbrev pub promote_branch :
    ℕ → Option ℕ → Expr → Bool → Node → Node → State → Promotion → Option (Node × State)
promote_branch i bb c w t e s keep_branches = some (if_node i bb c w t e, s)
promote_branch i bb c w t e s promote_else =
    add_sequence s i (cons (if_node i bb c w t null) (cons e nil))
promote_branch i bb c w t e s promote_then =
    add_sequence s i (cons (if_node i bb c w null e) (cons t nil))

-- the `if` once its branches are visited
abbrev pub promote_if : ℕ → Option ℕ → Expr → Bool → Node → Node → State → Option (Node × State)
promote_if i bb c w null e s = some (if_node i bb c w null e, s)
promote_if i bb c w t null s = some (if_node i bb c w t null, s)
promote_if i bb c w t e s =
    choose_promotion s (node_id t) (node_id e) >>= λ p. promote_branch i bb c w t e s p

-- a branch or a body, which may be absent
abbrev pub promote_child : Node → State → Option (Node × State) → Option (Node × State)
promote_child null s r = some (null, s)
promote_child n s r = r

unfoldable mutual
  unfolding node_id falls_through at weight_at

  pub promote_no_fall_through : Node → State → Option (Node × State)
  promote_no_fall_through (sequence i ns) s = promote_nodes ns s >>= λ r. some (sequence i r.0, r.1)
  promote_no_fall_through (scs i t b) s =
      promote_child b s (promote_no_fall_through b s) >>= λ r. some (scs i t r.0, r.1)
  promote_no_fall_through (if_node i bb c w t e) s =
      promote_child t s (promote_no_fall_through t s) >>= λ rt.
      promote_child e rt.1 (promote_no_fall_through e rt.1) >>= λ re.
      promote_if i bb c w rt.0 re.0 re.1
  promote_no_fall_through (switch i f cs) s = promote_cases cs s >>= λ r. some (switch i f r.0, r.1)
  promote_no_fall_through (continue i c true) s = none
  promote_no_fall_through null s = none
  promote_no_fall_through n s = some (n, s)

  pub promote_nodes : Nodes → State → Option (Nodes × State)
  promote_nodes nil s = some (nil, s)
  promote_nodes (cons n ns) s =
      promote_no_fall_through n s >>= λ r. promote_nodes ns r.1 >>= λ q. some (cons r.0 q.0, q.1)

  pub promote_cases : Cases → State → Option (Cases × State)
  promote_cases no_case s = some (no_case, s)
  promote_cases (case l n cs) s =
      promote_no_fall_through n s >>= λ r. promote_cases cs r.1 >>= λ q. some (case l r.0 q.0, q.1)

-- the analyses, and the promotion from their results
unfoldable pub promote_root : Binary → Blocks → (ℕ → Last) → Node → ℕ → Option (Node × State)
unfolding promote_no_fall_through compute_fall_through_scope cumulative_weight node_id
promote_root b blocks last root fresh = compute_fall_through_scope b last root >>= λ scopes.
    cumulative_weight blocks root [] >>= λ r. promote_no_fall_through root (record {
      fresh = fresh;
      fall_through_scope_map = scopes;
      node_weight = (note_weight (node_id root) r).1;
    })

-- `promoteNoFallthroughIf`
unfoldable pub promote_no_fall_through_if : Binary → Blocks → (ℕ → Last) → Node → ℕ → Option Node
unfolding promote_root collapse_sequences
promote_no_fall_through_if b blocks last root fresh =
    promote_root b blocks last root fresh >>= λ r. some (collapse_sequences r.0)
