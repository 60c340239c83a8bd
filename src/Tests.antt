-- ===== src/Tests.antt =====
-- The properties at concrete GHASTs, on a machine whose state is a number.
mod DeadCode
mod Loops
mod Branches
mod Calls
mod Switches
mod ShortCircuits
mod Breaks
mod Dispatchers
mod Clift
mod Shape
mod Implicit
mod Equality
mod Operators
mod HybridNots
use revng_c.Prelude.{ℕ, zero, suc, ◌+◌, Bool, true, false, ◌==◌, Option, some, none, [], ltb}
use revng_c.Semantics.{Machine, Last, return_value, return_void, branch}
use revng_c.Beautify.FallThrough.{Binary}

-- block 0 goes on, block 1 returns nothing, every other block returns a value
abbrev pub last_of : ℕ → Last
last_of zero = branch
last_of (suc zero) = return_void
last_of _ = return_value

-- a block that returns nothing has no effect
abbrev pub effect : ℕ → ℕ → ℕ
effect zero s = s + 1
effect (suc zero) s = s
effect _ s = s + 2

abbrev pub counter : Machine ℕ
counter = record {
  last = last_of;
  run_block = effect;
  condition_of = λ emit bb s. (s == bb, s);
  value_of = λ emit bb s. (s + bb, s);
  loop_state_of = λ s. s;
  set_loop_state = λ v s. v;
}

abbrev pub no_model : Binary
no_model = record { isolated_no_return = λ f. false; dynamic_functions = [] }
