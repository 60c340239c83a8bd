-- ===== src/Beautify/Weight.antt =====
-- lib/RestructureCFG/BeautifyGHAST.cpp: `computeCumulativeNodeWeight`, in 32-bit unsigned numbers.
--
-- The map from nodes to weights is a list of entries, the newest first. `none` is the access through
-- a null pointer. The sizes of the basic blocks are LLVM's, and a parameter; so is the store of the
-- `IfNode`s, of which the code reads the block through `getComputationIfNode`.
pub mod Exact
pub mod Points
use revng_c.Prelude.{
  ℕ, ◌+◌, ◌%◌, ◌^◌, Bool, Option, none, some, List, [], ◌∷◌, ◌==◌, if◌then◌else◌, ◌>>=◌,
}
use revng_c.Ghast.Node.{
  Node, null, code, break, continue, if_node, scs, sequence, switch, switch_break, set, Nodes, nil,
  cons, Cases, no_case, case,
}
use revng_c.Ghast.Identity.{node_id}

pub record Blocks : Type 0 where
  -- BasicBlock::size
  pub size : ℕ → ℕ
  -- getOriginalBB of the `IfNode` at an address
  pub original_bb : ℕ → Option ℕ

abbrev pub WeightMap : Type 0
WeightMap = List (ℕ × ℕ)

-- std::map::at
unfoldable pub weight_at : WeightMap → ℕ → Option ℕ
weight_at [] i = none
weight_at ((j, w) ∷ mp) i = if i == j then some w else weight_at mp i

-- the conversion to `unsigned`
abbrev pub word : ℕ → ℕ
word x = x % 2 ^ 32

-- NodeWeight[N] = weight of N
abbrev pub note_weight : ℕ → ℕ × WeightMap → ℕ × WeightMap
note_weight i (w, mp) = (w, (i, w) ∷ mp)

-- a branch or a body, which may be absent
abbrev pub child_weight : Node → WeightMap → Option (ℕ × WeightMap) → Option (ℕ × WeightMap)
child_weight null mp r = some (0, mp)
child_weight n mp r = r >>= λ x. some (note_weight (node_id n) x)

unfoldable mutual
  unfolding node_id

  pub cumulative_weight : Blocks → Node → WeightMap → Option (ℕ × WeightMap)
  cumulative_weight b (sequence i ns) mp = nodes_weight b ns 0 mp
  cumulative_weight b (scs i t body) mp =
      child_weight body mp (cumulative_weight b body mp) >>= λ r. some (word (r.0 + 1), r.1)
  cumulative_weight b (if_node i bb c w t e) mp =
      child_weight t mp (cumulative_weight b t mp) >>= λ rt.
      child_weight e rt.1 (cumulative_weight b e rt.1) >>= λ re.
      some (word (word (rt.0 + re.0) + 1), re.1)
  cumulative_weight b (switch i f cs) mp =
      cases_weight b cs 0 mp >>= λ r. some (word (r.0 + 1), r.1)
  cumulative_weight b (code i none implicit) mp = none
  cumulative_weight b (code i (some bb) implicit) mp = some (word (b.size bb), mp)
  cumulative_weight b (continue i none implicit) mp = some (0, mp)
  cumulative_weight b (continue i (some k) implicit) mp =
      b.original_bb k >>= λ bb. some (word (b.size bb + 1), mp)
  cumulative_weight b (set i v k) mp = some (1, mp)
  cumulative_weight b (switch_break i p) mp = some (1, mp)
  cumulative_weight b (break i w) mp = some (1, mp)
  cumulative_weight b null mp = none

  -- the third argument is `Accum`
  pub nodes_weight : Blocks → Nodes → ℕ → WeightMap → Option (ℕ × WeightMap)
  nodes_weight b nil accum mp = some (accum, mp)
  nodes_weight b (cons n ns) accum mp = cumulative_weight b n mp >>= λ r.
      nodes_weight b ns (word (accum + r.0)) (note_weight (node_id n) r).1

  -- the third argument is `SwitchWeight`
  pub cases_weight : Blocks → Cases → ℕ → WeightMap → Option (ℕ × WeightMap)
  cases_weight b no_case accum mp = some (accum, mp)
  cases_weight b (case l n cs) accum mp = cumulative_weight b n mp >>= λ r.
      cases_weight b cs (word (accum + r.0)) (note_weight (node_id n) r).1
