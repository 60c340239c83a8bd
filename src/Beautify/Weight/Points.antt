-- ===== src/Beautify/Weight/Points.antt =====
-- `computeCumulativeNodeWeight` (BeautifyGHAST.cpp): the weight of a node as a sum over the list of
-- the nodes of its subtree.
--
-- The comment of the function gives a point to each node of the subtree. The code gives none to a
-- sequence and to a `continue` without a computation, and to a code node the size of its block.
use revng_c.Prelude.{
  ℕ, ◌+◌, ◌%◌, ◌^◌, ◌<◌, ◌≡◌, refl, ◌∙◌, ap, none, some, List, [], ◌∷◌, ◌++◌, arith,
}
use revng_c.Ghast.Node.{
  Node, null, code, break, continue, if_node, scs, sequence, switch, switch_break, set, Nodes, nil,
  cons, Cases, no_case, case,
}
use revng_c.Ghast.Everywhere.{Everywhere}
use revng_c.Beautify.FallThrough.Map.{IsFiled}
use revng_c.Beautify.Weight.{Blocks, WeightMap, weight_at, cumulative_weight}
use revng_c.Beautify.Weight.Exact.{
  block_size, weight, nodes_sum, cases_sum, cumulative_weight-IsWeighed,
}

-- the nodes of a subtree, the root first; an absent branch is none
unfoldable mutual
  subtree : Node → List Node
  subtree null = []
  subtree (if_node i bb c w t e) = if_node i bb c w t e ∷ subtree t ++ subtree e
  subtree (scs i t b) = scs i t b ∷ subtree b
  subtree (sequence i ns) = sequence i ns ∷ subtrees ns
  subtree (switch i f cs) = switch i f cs ∷ case_subtrees cs
  subtree n = n ∷ []

  subtrees : Nodes → List Node
  subtrees nil = []
  subtrees (cons n ns) = subtree n ++ subtrees ns

  case_subtrees : Cases → List Node
  case_subtrees no_case = []
  case_subtrees (case l n cs) = subtree n ++ case_subtrees cs

-- the point of a node itself
abbrev point : Node → ℕ
point null = 0
point (code i bb implicit) = 0
point (sequence i ns) = 0
point (continue i none implicit) = 0
point _ = 1

-- the instructions that are printed for a node itself: those of its block or of its computation
abbrev instructions : Blocks → Node → ℕ
instructions b (code i bb implicit) = block_size b bb
instructions b (continue i (some k) implicit) = block_size b (b.original_bb k)
instructions b _ = 0

sum_points : Blocks → List Node → ℕ
sum_points b [] = 0
sum_points b (n ∷ ns) = point n + instructions b n + sum_points b ns

-- the points and the instructions of all nodes of a subtree
pub total : Blocks → Node → ℕ
total b n = sum_points b (subtree n)

sum_points-++ :
    (b : Blocks) (ns ms : List Node) → sum_points b (ns ++ ms) ≡ sum_points b ns + sum_points b ms
unfolding sum_points
sum_points-++ b [] ms = omega arith
sum_points-++ b (n ∷ ns) ms = let h = sum_points-++ b ns ms in omega arith

mutual
  unfolding weight subtree sum_points

  weight-points : (b : Blocks) (n : Node) → weight b n ≡ sum_points b (subtree n)
  weight-points b null = refl
  weight-points b (code i bb x) = omega arith
  weight-points b (continue i none x) = refl
  weight-points b (continue i (some k) x) = omega arith
  weight-points b (if_node i bb c w t e) =
      let h = sum_points-++ b (subtree t) (subtree e) in
      let ht = weight-points b t in let he = weight-points b e in omega arith
  weight-points b (scs i t n) = let h = weight-points b n in omega arith
  weight-points b (sequence i ns) = let h = nodes_sum-points b ns in omega arith
  weight-points b (switch i f cs) = let h = cases_sum-points b cs in omega arith
  weight-points b (break i x) = refl
  weight-points b (switch_break i x) = refl
  weight-points b (set i v x) = refl

  nodes_sum-points : (b : Blocks) (ns : Nodes) → nodes_sum b ns ≡ sum_points b (subtrees ns)
  nodes_sum-points b nil = refl
  nodes_sum-points b (cons n ns) =
      let h = sum_points-++ b (subtree n) (subtrees ns) in
      let hn = weight-points b n in let hs = nodes_sum-points b ns in omega arith

  cases_sum-points : (b : Blocks) (cs : Cases) → cases_sum b cs ≡ sum_points b (case_subtrees cs)
  cases_sum-points b no_case = refl
  cases_sum-points b (case l n cs) =
      let h = sum_points-++ b (subtree n) (case_subtrees cs) in
      let hn = weight-points b n in let hs = cases_sum-points b cs in omega arith

weight-total : (b : Blocks) (n : Node) → weight b n ≡ total b n
unfolding total
weight-total = weight-points

-- Every entry is the total of its node, up to a multiple of 2 ^ 32.
pub record IsTotalled (b : Blocks) (who : ℕ → Node) (mp : WeightMap) : Type 0 where
  pub entry : (j w : ℕ) → weight_at mp j ≡ some w → w ≡ total b (who j) % 2 ^ 32

-- Where an identity belongs to one node, the weight computed for a GHAST is, up to a multiple of
-- 2 ^ 32, the sum over all nodes of its subtree of the instructions of their blocks and computations
-- and of one point for each, where code nodes, sequences and `continue`s without a computation get no
-- point; it fits in 32 bits, and so it is for every entry made on the way.
pub cumulative_weight-total :
    (b : Blocks) (who : ℕ → Node) (n : Node) (w : ℕ) (mp : WeightMap)
    → cumulative_weight b n [] ≡ some (w, mp)
    → Everywhere (IsFiled who) n
    → (w ≡ total b n % 2 ^ 32) × (w < 2 ^ 32) × IsTotalled b who mp
cumulative_weight-total b who n w mp e f =
    let (h, k, g) = cumulative_weight-IsWeighed b who n w mp e f in
    (
      h ∙ ap (λ x. x % 2 ^ 32) (weight-total b n),
      k,
      record { entry = λ j v x. g.entry j v x ∙ ap (λ x. x % 2 ^ 32) (weight-total b (who j)) },
    )
