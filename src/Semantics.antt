-- ===== src/Semantics.antt =====
-- What a GHAST means: the yardstick of the passes, not code of the repository.
--
-- `Machine` is what the GHAST is laid over: the effect of the basic blocks on a state, the values
-- that their terminators read, and the variable that dispatches. The C that the backend prints for
-- a condition runs the blocks of all its leaves, left to right, before the condition is tested.
--
-- A `while` computes its condition before each of its rounds. The printed text does so before the
-- loop and at each `continue` that carries the computation. The computation of a `continue` is not
-- run here, so a theorem on the promotion of loops has to say on its own that it is there; and a body
-- that goes round without a `continue` computes the condition here, and not in the text.
pub mod Congruence
use revng_c.Prelude.{
  ℕ, zero, suc, Bool, true, false, ◌&&◌, ◌||◌, not, Option, none, some, List, [], ◌∷◌, ◌==◌,
  if◌then◌else◌,
}
use revng_c.Ghast.Expr.{
  ComparisonKind, equal, not_equal, not_present, Lhs, block_value, loop_state, Expr, compare,
  atomic, negated, and_also, or_else,
}
use revng_c.Ghast.Node.{
  LoopType, while_true, while, do_while, SwitchFields, Node, null, code, break, continue, if_node,
  scs, sequence, switch, switch_break, set, Nodes, nil, cons, Cases, no_case, case,
}

-- The instruction before the terminator of a block, as far as the passes tell it apart: a call of
-- an isolated function, a call of a dynamic function by its symbol's name, or something else.
pub data Previous : Type 0 where
  no_previous : Previous
  isolated_call : ℕ → Previous
  dynamic_call : List ℕ → Previous
  ordinary : Previous

-- The last instruction of a block.
pub data Last : Type 0 where
  return_value return_void : Last
  unreachable : Previous → Last
  branch : Last

pub record Machine (S : Type 0) : Type 0 where
  pub last : ℕ → Last
  -- run a block
  pub run_block : ℕ → S → S
  -- run a block, if its statements are to be emitted, and read its branch condition
  pub condition_of : Bool → ℕ → S → Bool × S
  -- the same for the value that a block's terminator switches on or compares
  pub value_of : Bool → ℕ → S → ℕ × S
  pub loop_state_of : S → ℕ
  pub set_loop_state : ℕ → S → S

pub data Signal : Type 0 where
  normal broke continued switch_broke returned stopped : Signal

-- `none`: the fuel of a loop has run out
abbrev pub Outcome : Type 0 → Type 0
Outcome S = Option (Signal × S)

abbrev pub holds : ComparisonKind → ℕ → ℕ → Bool
holds equal c v = v == c
holds not_equal c v = not (v == c)
holds not_present c v = not (v == 0)

abbrev pub is_in : ℕ → List ℕ → Bool
is_in v [] = false
is_in v (l ∷ ls) = v == l || is_in v ls

-- A block ends as its last instruction says, but an implicit `return` is not printed.
abbrev pub block_signal : Last → Bool → Signal
block_signal return_value true = normal
block_signal return_value false = returned
block_signal return_void true = normal
block_signal return_void false = returned
block_signal (unreachable _) _ = stopped
block_signal branch _ = normal

module _ {S : Type 0} where
  abbrev pub map_fst : (Bool → Bool) → Bool × S → Bool × S
  map_fst f r = (f r.0, r.1)

  abbrev pub lhs_value : Machine S → Bool → Lhs → S → ℕ × S
  lhs_value m emit (block_value bb) s = m.value_of emit bb s
  lhs_value m emit loop_state s = (m.loop_state_of s, s)

  unfoldable pub eval : Machine S → Bool → Expr → S → Bool × S
  eval m emit (compare l k c) s = let r = lhs_value m emit l s in (holds k c r.0, r.1)
  eval m emit (atomic bb) s = m.condition_of emit bb s
  eval m emit (negated e) s = map_fst not (eval m emit e s)
  eval m emit (and_also a b) s =
      let r = eval m emit a s in map_fst (λ x. r.0 && x) (eval m emit b r.1)
  eval m emit (or_else a b) s =
      let r = eval m emit a s in map_fst (λ x. r.0 || x) (eval m emit b r.1)

  -- run on after a normal end
  abbrev pub and_then : Outcome S → (S → Outcome S) → Outcome S
  and_then (some (normal, s)) k = k s
  and_then o k = o

  -- a loop goes round after a normal end and after `continue`, and ends at `break`
  abbrev pub resume : Outcome S → (S → Outcome S) → Outcome S
  resume (some (normal, s)) k = k s
  resume (some (continued, s)) k = k s
  resume (some (broke, s)) k = some (normal, s)
  resume o k = o

  abbrev pub after_switch : Outcome S → Outcome S
  after_switch (some (switch_broke, s)) = some (normal, s)
  after_switch o = o

  abbrev pub choose : Bool × S → (S → Outcome S) → (S → Outcome S) → Outcome S
  choose r yes_branch no_branch = if r.0 then yes_branch r.1 else no_branch r.1

  abbrev pub finish : S → Outcome S
  finish s = some (normal, s)

  -- `before` is the condition of a `while`, `after` that of a `do while`
  unfoldable pub loop : (S → Bool × S) → (S → Bool × S) → (S → Outcome S) → ℕ → S → Outcome S
  loop before after body zero s = none
  loop before after body (suc f) s =
      choose (before s)
        (λ s1.
          resume (body s1) (λ s2. choose (after s2) (λ s3. loop before after body f s3) finish))
        finish

  abbrev pub always : S → Bool × S
  always s = (true, s)

  abbrev pub loop_before : Machine S → LoopType → S → Bool × S
  loop_before m while_true = always
  loop_before m (while c) = eval m (not c.is_weaved) c.cond_expr
  loop_before m (do_while c) = always

  abbrev pub loop_after : Machine S → LoopType → S → Bool × S
  loop_after m while_true = always
  loop_after m (while c) = always
  loop_after m (do_while c) = eval m (not c.is_weaved) c.cond_expr

  abbrev pub code_outcome : Machine S → Option ℕ → Bool → S → Outcome S
  code_outcome m none implicit s = some (stopped, s)
  code_outcome m (some bb) implicit s = some (block_signal (m.last bb) implicit, m.run_block bb s)

  -- a dispatcher, which has no block, switches on the loop state variable
  abbrev pub block_value_at : Machine S → Option ℕ → Bool → S → ℕ × S
  block_value_at m none emit s = (m.loop_state_of s, s)
  block_value_at m (some bb) emit s = m.value_of emit bb s

  abbrev pub switch_value : Machine S → SwitchFields → S → ℕ × S
  switch_value m f s = block_value_at m f.bb (not f.is_weaved) s

unfoldable mutual
  pub exec : {S : Type 0} → Machine S → ℕ → Node → S → Outcome S
  exec m fuel null s = finish s
  exec m fuel (code i bb implicit) s = code_outcome m bb implicit s
  exec m fuel (break i w) s = some (broke, s)
  exec m fuel (continue i c true) s = some (normal, s)
  exec m fuel (continue i c false) s = some (continued, s)
  exec m fuel (if_node i bb c w t e) s = choose (eval m (not w) c s) (exec m fuel t) (exec m fuel e)
  exec m fuel (scs i t b) s = loop (loop_before m t) (loop_after m t) (exec m fuel b) fuel s
  exec m fuel (sequence i ns) s = exec_nodes m fuel ns s
  exec m fuel (switch i f cs) s =
      let r = switch_value m f s in after_switch (exec_cases m fuel cs finish r.0 r.1)
  exec m fuel (switch_break i p) s = some (switch_broke, s)
  exec m fuel (set i v k) s = some (normal, m.set_loop_state v s)

  pub exec_nodes : {S : Type 0} → Machine S → ℕ → Nodes → S → Outcome S
  exec_nodes m fuel nil s = finish s
  exec_nodes m fuel (cons n ns) s = and_then (exec m fuel n s) (exec_nodes m fuel ns)

  -- the first case that has the value; `otherwise` is the default, once it is met
  pub exec_cases : {S : Type 0} → Machine S → ℕ → Cases → (S → Outcome S) → ℕ → S → Outcome S
  exec_cases m fuel no_case otherwise v s = otherwise s
  exec_cases m fuel (case [] n cs) otherwise v s = exec_cases m fuel cs (exec m fuel n) v s
  exec_cases m fuel (case (l ∷ ls) n cs) otherwise v s =
      if is_in v (l ∷ ls) then exec m fuel n s else exec_cases m fuel cs otherwise v s
