-- ===== src/Beautify/AtomicSequence.antt =====
-- lib/RestructureCFG/ASTNodeUtils.cpp: `simplifyAtomicSequence`, which replaces a sequence of one
-- node by the node and an empty one by nothing.
--
-- The number that is passed along is the identity of the next node that the tree allocates. `none`
-- is the failed assertion on a sequence of nulls, or the visit of a null pointer.
pub mod Switches
pub mod Preserves
pub mod Succeeds
use revng_c.Prelude.{ℕ, suc, Bool, true, false, Option, none, some, List, ◌>>=◌, ◌&&◌}
use revng_c.Ghast.Node.{
  Node, null, code, break, continue, if_node, scs, sequence, switch, switch_break, set, Nodes, nil,
  cons, Cases, no_case, case, is_null, has_default,
}

-- revng_assert(not Empty)
abbrev pub all_null : Nodes → Bool
unfolding is_null
all_null nil = true
all_null (cons n ns) = is_null n && all_null ns

abbrev pub assert_some_node : Bool → Node × ℕ → Option (Node × ℕ)
assert_some_node true r = none
assert_some_node false r = some r

-- a branch or a body, which may be absent
abbrev pub or_absent : Node → ℕ → Option (Node × ℕ) → Option (Node × ℕ)
or_absent null f r = some (null, f)
or_absent n f r = r

-- What becomes of a case: without a body it is erased, or, in a `switch` with a default, it gets a
-- switch break. The loop of the source then visits the switch break, which it leaves as it is.
abbrev pub keep_or_break : Bool → ℕ → ℕ → List ℕ → Node → Cases → Cases
keep_or_break true parent fresh l null cs = case l (switch_break fresh (some parent)) cs
keep_or_break false parent fresh l null cs = cs
keep_or_break has parent fresh l n cs = case l n cs

abbrev pub next_fresh : Bool → Node → ℕ → ℕ
next_fresh true null fresh = suc fresh
next_fresh _ _ fresh = fresh

unfoldable mutual
  unfolding has_default

  -- `simplifyAtomicSequenceImpl`
  pub simplify_atomic_sequence : ℕ → Node → Option (Node × ℕ)
  simplify_atomic_sequence fresh (sequence i nil) = some (null, fresh)
  simplify_atomic_sequence fresh (sequence i (cons n nil)) = simplify_atomic_sequence fresh n
  simplify_atomic_sequence fresh (sequence i (cons n (cons k ns))) =
      simplify_atomic_sequence fresh n >>= λ x. simplify_atomic_sequence x.1 k >>= λ y.
      simplify_in_nodes y.1 ns >>= λ z.
      assert_some_node (all_null (cons x.0 (cons y.0 z.0)))
        (sequence i (cons x.0 (cons y.0 z.0)), z.1)
  simplify_atomic_sequence fresh (if_node i bb c w t e) =
      or_absent t fresh (simplify_atomic_sequence fresh t) >>= λ x.
      or_absent e x.1 (simplify_atomic_sequence x.1 e) >>= λ y. some (if_node i bb c w x.0 y.0, y.1)
  simplify_atomic_sequence fresh (switch i f cs) =
      simplify_in_cases (has_default cs) i fresh cs >>= λ r. some (switch i f r.0, r.1)
  simplify_atomic_sequence fresh (scs i t b) =
      or_absent b fresh (simplify_atomic_sequence fresh b) >>= λ x. some (scs i t x.0, x.1)
  simplify_atomic_sequence fresh null = none
  simplify_atomic_sequence fresh n = some (n, fresh)

  pub simplify_in_nodes : ℕ → Nodes → Option (Nodes × ℕ)
  simplify_in_nodes fresh nil = some (nil, fresh)
  simplify_in_nodes fresh (cons n ns) = simplify_atomic_sequence fresh n >>= λ x.
      simplify_in_nodes x.1 ns >>= λ r. some (cons x.0 r.0, r.1)

  -- The source asks for the default anew for each case; the answer does not change, since a default
  -- never loses its body: it gets a switch break.
  pub simplify_in_cases : Bool → ℕ → ℕ → Cases → Option (Cases × ℕ)
  simplify_in_cases has parent fresh no_case = some (no_case, fresh)
  simplify_in_cases has parent fresh (case l n cs) = simplify_atomic_sequence fresh n >>= λ x.
      simplify_in_cases has parent (next_fresh has x.0 x.1) cs >>= λ r.
      some (keep_or_break has parent x.1 l x.0 r.0, r.1)
