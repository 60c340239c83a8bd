-- ===== src/Beautify/FallThrough.antt =====
-- lib/RestructureCFG/FallThroughScopeAnalysis.cpp: whether control can reach what follows a node.
--
-- The result map of the source, from nodes to scope types, is a list of entries, the newest first.
-- `none` stands for a failed assertion, a missing key, or an access that the source does not define
-- (the last child of an empty sequence, the block of a node without one). The binary's model and the
-- look-up of isolated functions in it are parameters.
pub mod Leaving
pub mod Analysis
pub mod Map
pub mod Keys
use revng_c.Prelude.{
  ℕ, zero, suc, Bool, true, false, Option, none, some, List, [], ◌∷◌, ◌==◌, ◌&&◌, if◌then◌else◌,
  ◌>>=◌,
}
use revng_c.Ghast.Node.{
  Node, null, code, break, continue, if_node, scs, sequence, switch, switch_break, set, Nodes, nil,
  cons, Cases, no_case, case, has_default,
}
use revng_c.Ghast.Identity.{node_id}
use revng_c.Semantics.{
  Last, return_value, return_void, unreachable, branch, no_previous, isolated_call, dynamic_call,
  ordinary,
}

-- FallThroughScopeType
pub data ScopeType : Type 0 where
  fall_through mixed_no_fall_through call_no_return returns continues loop_break : ScopeType

-- What the analysis reads of the `model::Binary`.
pub record Binary : Type 0 where
  -- the NoReturn attribute of the model's function for an isolated function
  pub isolated_no_return : ℕ → Bool
  -- ImportedDynamicFunctions: names, with the NoReturn attribute
  pub dynamic_functions : List (List ℕ × Bool)

abbrev pub ScopeMap : Type 0
ScopeMap = List (ℕ × ScopeType)

-- std::map::at
unfoldable pub at : ScopeMap → ℕ → Option ScopeType
at [] i = none
at ((j, t) ∷ m) i = if i == j then some t else at m i

-- `fallsThrough`
unfoldable pub falls_through : ScopeType → Bool
falls_through fall_through = true
falls_through _ = false

unfoldable pub scope_eq : ScopeType → ScopeType → Bool
scope_eq fall_through fall_through = true
scope_eq mixed_no_fall_through mixed_no_fall_through = true
scope_eq call_no_return call_no_return = true
scope_eq returns returns = true
scope_eq continues continues = true
scope_eq loop_break loop_break = true
scope_eq _ _ = false

-- `combineTypes`
unfoldable pub combine_types : ScopeType → ScopeType → ScopeType
unfolding falls_through scope_eq
combine_types a b =
    if scope_eq a b
    then a
    else if falls_through a
    then fall_through
    else if falls_through b
    then fall_through
    else mixed_no_fall_through

pub name_eq : List ℕ → List ℕ → Bool
name_eq [] [] = true
name_eq (a ∷ as') (b ∷ bs) = a == b && name_eq as' bs
name_eq _ _ = false

-- "dynamic_"
abbrev pub dynamic_prefix : List ℕ
dynamic_prefix = b'd' ∷ b'y' ∷ b'n' ∷ b'a' ∷ b'm' ∷ b'i' ∷ b'c' ∷ b'_' ∷ []

-- StringRef::consume_front
pub consume_front : List ℕ → List ℕ → List ℕ → List ℕ
consume_front whole [] rest = rest
consume_front whole (p ∷ ps) [] = whole
consume_front whole (p ∷ ps) (c ∷ cs) = if p == c then consume_front whole ps cs else whole

pub drop_front : ℕ → List ℕ → List ℕ
drop_front zero cs = cs
drop_front (suc n) [] = []
drop_front (suc n) (c ∷ cs) = drop_front n cs

pub find_dynamic : List (List ℕ × Bool) → List ℕ → Option Bool
unfolding name_eq
find_dynamic [] name = none
find_dynamic ((n, r) ∷ fs) name = if name_eq n name then some r else find_dynamic fs name

-- `getDynamicFunction`, and the NoReturn attribute of what it finds
pub get_dynamic_function : Binary → List ℕ → Option Bool
unfolding consume_front find_dynamic
get_dynamic_function b name =
    find_dynamic b.dynamic_functions (consume_front name dynamic_prefix name)

abbrev pub no_return_scope : Bool → ScopeType
no_return_scope true = call_no_return
no_return_scope false = fall_through

-- case NK_Code: by the last instruction and the one before
unfoldable pub code_scope : Binary → Last → Option ScopeType
unfolding get_dynamic_function drop_front
code_scope b return_value = some returns
code_scope b return_void = some returns
code_scope b (unreachable no_previous) = some fall_through
code_scope b (unreachable (isolated_call f)) = some (no_return_scope (b.isolated_no_return f))
code_scope b (unreachable (dynamic_call name)) =
    get_dynamic_function b (drop_front 8 name) >>= λ r. some (no_return_scope r)
code_scope b (unreachable ordinary) = some fall_through
code_scope b branch = some fall_through

-- the entry that a block's own scope type makes before it is returned
unfoldable pub note_code : ℕ → ScopeMap → ScopeType → ScopeType × ScopeMap
note_code i m returns = (returns, (i, returns) ∷ m)
note_code i m call_no_return = (call_no_return, (i, call_no_return) ∷ m)
note_code i m t = (t, m)

-- ResultMap[N] = type of N
abbrev pub note : ℕ → ScopeType × ScopeMap → ScopeType × ScopeMap
note i (t, m) = (t, (i, t) ∷ m)

-- a branch or a body, which may be absent
unfoldable pub child_scope :
    Node → ScopeMap → Option (ScopeType × ScopeMap) → Option (ScopeType × ScopeMap)
unfolding node_id
child_scope null m r = some (fall_through, m)
child_scope n m r = r >>= λ x. some (note (node_id n) x)

unfoldable pub last_id : Nodes → Option ℕ
unfolding node_id
last_id nil = none
last_id (cons n nil) = some (node_id n)
last_id (cons n (cons k ns)) = last_id (cons k ns)

abbrev pub merge : Option ScopeType → ScopeType → ScopeType
merge none t = t
merge (some a) t = combine_types a t

-- A `switch` can be left without its end only if it has a default.
unfoldable pub switch_scope : Bool → Option ScopeType × ScopeMap → Option (ScopeType × ScopeMap)
switch_scope true (t, m) = t >>= λ x. some (x, m)
switch_scope false (t, m) = some (fall_through, m)

unfoldable mutual
  unfolding code_scope note_code child_scope last_id combine_types switch_scope at

  -- `fallThroughScopeImpl`
  pub scope : Binary → (ℕ → Last) → Node → ScopeMap → Option (ScopeType × ScopeMap)
  scope b last (sequence i ns) m =
      scope_nodes b last ns m >>= λ m'. last_id ns >>= λ l. at m' l >>= λ t. some (t, m')
  scope b last (scs i t body) m =
      child_scope body m (scope b last body m) >>= λ r. some (fall_through, r.1)
  scope b last (if_node i bb c w t e) m = child_scope t m (scope b last t m) >>= λ rt.
      child_scope e rt.1 (scope b last e rt.1) >>= λ re. some (combine_types rt.0 re.0, re.1)
  scope b last (switch i f cs) m =
      scope_cases b last cs none m >>= λ r. switch_scope (has_default cs) r
  scope b last (code i none implicit) m = none
  scope b last (code i (some bb) implicit) m =
      code_scope b (last bb) >>= λ t. some (note_code i m t)
  scope b last (set i v k) m = some (fall_through, m)
  scope b last (switch_break i p) m = some (fall_through, m)
  scope b last (continue i c implicit) m = some (continues, m)
  scope b last (break i w) m = some (loop_break, m)
  scope b last null m = none

  pub scope_nodes : Binary → (ℕ → Last) → Nodes → ScopeMap → Option ScopeMap
  scope_nodes b last nil m = some m
  scope_nodes b last (cons n ns) m =
      scope b last n m >>= λ r. scope_nodes b last ns (note (node_id n) r).1

  pub scope_cases :
      Binary
      → (ℕ → Last)
      → Cases
      → Option ScopeType
      → ScopeMap
      → Option (Option ScopeType × ScopeMap)
  scope_cases b last no_case all m = some (all, m)
  scope_cases b last (case l n cs) all m =
      scope b last n m >>= λ r. scope_cases b last cs (some (merge all r.0)) (note (node_id n) r).1

-- `computeFallThroughScope`
unfoldable pub compute_fall_through_scope : Binary → (ℕ → Last) → Node → Option ScopeMap
unfolding scope node_id
compute_fall_through_scope b last root =
    scope b last root [] >>= λ r. some (note (node_id root) r).1
