-- ===== src/Beautify/HybridNot.antt =====
-- lib/RestructureCFG/SimplifyHybridNot.cpp: `simplifyHybridNot`.
-- The pass rewrites the conditions of the GHAST and the branches of LLVM IR. An instruction and a value
-- of LLVM IR are numbers; a comparison is an instruction with a predicate, which is changed in place.
-- The pass collects the addresses of expressions; here the expressions themselves are rewritten where
-- they stand. The two maps of the pass are lists, since it visits them in no order of its own.
pub mod Branches
pub mod Agreed
pub mod Preserves
use revng_c.Prelude.{
  ℕ, zero, suc, Bool, true, false, ◌||◌, Option, some, none, List, [], ◌∷◌, ◌++◌, ◌==◌, ltb, ◌>>=◌,
  if◌then◌else◌,
}
use revng_c.Ghast.Expr.{Expr, compare, atomic, negated, and_also, or_else}
use revng_c.Ghast.Node.{
  RelatedCondition, LoopType, while_true, while, do_while, Node, null, code, break, continue,
  if_node, scs, sequence, switch, switch_break, set, Nodes, nil, cons, Cases, no_case, case,
  is_null,
}
use revng_c.Semantics.{is_in}

-- llvm::ICmpInst::Predicate
pub data Predicate : Type 0 where
  icmp_eq icmp_ne other_predicate : Predicate

-- the condition of a conditional branch
pub data Condition : Type 0 where
  -- an ICmpInst
  comparison : ℕ → Condition
  -- a call of BooleanNot, with its argument
  boolean_not : ℕ → Condition
  -- the comparison that CreateIsNotNull makes
  is_not_null : ℕ → Condition
  other_condition : ℕ → Condition

pub record Ir : Type 0 where
  -- `none`: the block does not end in a conditional branch
  pub condition : ℕ → Option Condition
  pub predicate : ℕ → Predicate

pub data Direction : Type 0 where
  direct under_not : Direction

-- BBExprsMap, as the list of what was inserted
abbrev pub Occurrences : Type 0
Occurrences = List (ℕ × Direction)

unfoldable pub collect_expr_bb : Expr → Occurrences
collect_expr_bb (compare l k c) = []
collect_expr_bb (atomic bb) = (bb, direct) ∷ []
collect_expr_bb (negated (atomic bb)) = (bb, under_not) ∷ []
collect_expr_bb (negated e) = collect_expr_bb e
collect_expr_bb (and_also a b) = collect_expr_bb a ++ collect_expr_bb b
collect_expr_bb (or_else a b) = collect_expr_bb a ++ collect_expr_bb b

unfoldable pub collect_loop : LoopType → Occurrences
unfolding collect_expr_bb
collect_loop while_true = []
collect_loop (while c) = collect_expr_bb c.cond_expr
collect_loop (do_while c) = collect_expr_bb c.cond_expr

-- `none`: a null pointer is read
unfoldable mutual
  unfolding collect_expr_bb collect_loop is_null

  pub populate_associated_expr_map : Node → Option Occurrences
  populate_associated_expr_map null = none
  populate_associated_expr_map (code i bb r) = some []
  populate_associated_expr_map (break i w) = some []
  populate_associated_expr_map (continue i c m) = some []
  populate_associated_expr_map (switch_break i p) = some []
  populate_associated_expr_map (set i v k) = some []
  populate_associated_expr_map (sequence i ns) = populate_nodes ns
  populate_associated_expr_map (scs i t b) =
      (if is_null b then some [] else populate_associated_expr_map b) >>= λ os.
      some (collect_loop t ++ os)
  populate_associated_expr_map (if_node i bb c w t e) =
      (if is_null t then some [] else populate_associated_expr_map t) >>= λ os.
      (if is_null e then some [] else populate_associated_expr_map e) >>= λ ps.
      some (collect_expr_bb c ++ (os ++ ps))
  populate_associated_expr_map (switch i f cs) = populate_cases cs

  pub populate_nodes : Nodes → Option Occurrences
  populate_nodes nil = some []
  populate_nodes (cons n ns) =
      populate_associated_expr_map n >>= λ os. populate_nodes ns >>= λ ps. some (os ++ ps)

  pub populate_cases : Cases → Option Occurrences
  populate_cases no_case = some []
  populate_cases (case l n cs) =
      populate_associated_expr_map n >>= λ os. populate_cases cs >>= λ ps. some (os ++ ps)

-- the keys of the map
unfoldable pub insert_block : ℕ → List ℕ → List ℕ
insert_block b bs = if is_in b bs then bs else b ∷ bs

unfoldable pub blocks_of : Occurrences → List ℕ
unfolding insert_block
blocks_of [] = []
blocks_of ((b, d) ∷ os) = insert_block b (blocks_of os)

-- the sizes of DirectExprs and NegatedExprs
unfoldable pub direct_size : ℕ → Occurrences → ℕ
direct_size b [] = 0
direct_size b ((c, direct) ∷ os) = if c == b then suc (direct_size b os) else direct_size b os
direct_size b ((c, under_not) ∷ os) = direct_size b os

unfoldable pub negated_size : ℕ → Occurrences → ℕ
negated_size b [] = 0
negated_size b ((c, direct) ∷ os) = negated_size b os
negated_size b ((c, under_not) ∷ os) = if c == b then suc (negated_size b os) else negated_size b os

pub data NotKind : Type 0 where
  simple_ir by_boolean_not : NotKind

-- ConsensusMap
abbrev pub Consensus : Type 0
Consensus = List (ℕ × NotKind)

-- the decision at a block, with the sizes of its DirectExprs and NegatedExprs
unfoldable pub by_predicate : Predicate → ℕ → ℕ → Option NotKind
by_predicate icmp_ne d n = if ltb n d then none else some simple_ir
by_predicate icmp_eq d n = if ltb d n then some simple_ir else none
by_predicate other_predicate d n = none

unfoldable pub consent : (ℕ → Predicate) → Condition → ℕ → ℕ → Option NotKind
unfolding by_predicate
consent p (comparison i) d n = by_predicate (p i) d n
consent p (boolean_not v) d n = if ltb n d then none else some by_boolean_not
consent p (is_not_null v) d n = none
consent p (other_condition v) d n = none

unfoldable pub add_consent : ℕ → Option NotKind → Consensus → Consensus
add_consent b none ks = ks
add_consent b (some k) ks = (b, k) ∷ ks

unfoldable pub compute_consensus : Ir → Occurrences → List ℕ → Option Consensus
unfolding consent add_consent direct_size negated_size
compute_consensus ir os [] = some []
compute_consensus ir os (b ∷ bs) = ir.condition b >>= λ c. compute_consensus ir os bs >>= λ ks.
    some (add_consent b (consent ir.predicate c (direct_size b os) (negated_size b os)) ks)

-- getInversePredicate
unfoldable pub inverse_predicate : Predicate → Predicate
inverse_predicate icmp_eq = icmp_ne
inverse_predicate icmp_ne = icmp_eq
inverse_predicate other_predicate = other_predicate

unfoldable pub invert_predicate : ℕ → Ir → Ir
unfolding inverse_predicate
invert_predicate i ir = record {
  condition = ir.condition;
  predicate = λ j. if j == i then inverse_predicate (ir.predicate i) else ir.predicate j;
}

-- setCondition of the branch of a block
unfoldable pub set_condition : ℕ → Condition → Ir → Ir
set_condition b c ir = record {
  condition = λ j. if j == b then some c else ir.condition j;
  predicate = ir.predicate;
}

unfoldable pub flip_at : NotKind → ℕ → Condition → Ir → Option Ir
unfolding invert_predicate set_condition
flip_at simple_ir b (comparison i) ir = some (invert_predicate i ir)
flip_at by_boolean_not b (boolean_not v) ir = some (set_condition b (is_not_null v) ir)
flip_at _ b _ ir = none

-- flipIRNot
unfoldable pub flip_ir_not : NotKind → ℕ → Ir → Option Ir
unfolding flip_at
flip_ir_not k b ir = ir.condition b >>= λ c. flip_at k b c ir

unfoldable pub flip_all : Consensus → Ir → Option Ir
unfolding flip_ir_not
flip_all [] ir = some ir
flip_all ((b, k) ∷ ks) ir = flip_ir_not k b ir >>= λ ir'. flip_all ks ir'

unfoldable pub agrees : Consensus → ℕ → Bool
agrees [] b = false
agrees ((c, k) ∷ ks) b = b == c || agrees ks b

-- flipAssociatedExprs, at all blocks of the consensus
unfoldable pub flip_expr : (ℕ → Bool) → Expr → Expr
flip_expr p (compare l k c) = compare l k c
flip_expr p (atomic bb) = if p bb then negated (atomic bb) else atomic bb
flip_expr p (negated (atomic bb)) = if p bb then atomic bb else negated (atomic bb)
flip_expr p (negated e) = negated (flip_expr p e)
flip_expr p (and_also a b) = and_also (flip_expr p a) (flip_expr p b)
flip_expr p (or_else a b) = or_else (flip_expr p a) (flip_expr p b)

unfoldable pub flip_related : (ℕ → Bool) → RelatedCondition → RelatedCondition
unfolding flip_expr
flip_related p c = record {
  id = c.id;
  bb = c.bb;
  cond_expr = flip_expr p c.cond_expr;
  is_weaved = c.is_weaved;
}

unfoldable pub flip_loop : (ℕ → Bool) → LoopType → LoopType
unfolding flip_related
flip_loop p while_true = while_true
flip_loop p (while c) = while (flip_related p c)
flip_loop p (do_while c) = do_while (flip_related p c)

unfoldable mutual
  unfolding flip_expr flip_loop

  pub flip_node : (ℕ → Bool) → Node → Node
  flip_node p (if_node i bb c w t e) =
      if_node i bb (flip_expr p c) w (flip_node p t) (flip_node p e)
  flip_node p (scs i t b) = scs i (flip_loop p t) (flip_node p b)
  flip_node p (sequence i ns) = sequence i (flip_nodes p ns)
  flip_node p (switch i f cs) = switch i f (flip_cases p cs)
  flip_node p n = n

  pub flip_nodes : (ℕ → Bool) → Nodes → Nodes
  flip_nodes p nil = nil
  flip_nodes p (cons n ns) = cons (flip_node p n) (flip_nodes p ns)

  pub flip_cases : (ℕ → Bool) → Cases → Cases
  flip_cases p no_case = no_case
  flip_cases p (case l n cs) = case l (flip_node p n) (flip_cases p cs)

unfoldable pub simplify_hybrid_not : Ir → Node → Option (Ir × Node)
unfolding populate_associated_expr_map compute_consensus blocks_of flip_all agrees flip_node
simplify_hybrid_not ir n = populate_associated_expr_map n >>= λ os.
    compute_consensus ir os (blocks_of os) >>= λ ks.
    flip_all ks ir >>= λ ir'. some (ir', flip_node (agrees ks) n)
