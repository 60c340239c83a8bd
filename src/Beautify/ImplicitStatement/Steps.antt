-- ===== src/Beautify/ImplicitStatement/Steps.antt =====
-- `simplifyImplicitStatementImpl` (SimplifyImplicitStatement.cpp): machines on which conditions and
-- `return` blocks change nothing, and the loops that a visit goes through.
use revng_c.Prelude.{
  ℕ, zero, suc, Bool, true, false, ◌≡◌, refl, ap, ◌∙◌, some, none, Option, fun_ext,
}
use revng_c.Ghast.Expr.{block_value, loop_state, Expr, compare, atomic, negated, and_also, or_else}
use revng_c.Ghast.Node.{Node, scs}
use revng_c.Semantics.{
  Machine, Last, return_void, Outcome, resume, choose, finish, loop, eval, block_value_at,
}
use revng_c.Beautify.ImplicitStatement.{StatementType, st_continue, st_return, simplify}

-- Reading a condition changes nothing, and neither does a block that ends in a `return` of nothing.
pub record IsQuiet {S : Type 0} (m : Machine S) : Type 0 where
  pub condition : (emit : Bool) (bb : ℕ) (s : S) → (m.condition_of emit bb s).1 ≡ s
  pub value : (emit : Bool) (bb : ℕ) (s : S) → (m.value_of emit bb s).1 ≡ s
  pub return_block : (bb : ℕ) (s : S) → m.last bb ≡ return_void → m.run_block bb s ≡ s

-- The loops that a visit can go through: for `continue` those that it does not take to be empty,
-- for `return` none.
abbrev pub LoopOk : StatementType → (ℕ → Last) → Node → Type 0
LoopOk st_continue last (scs i t b) = (simplify st_continue last b true).1 ≡ false
LoopOk st_return last (scs i t b) = ⊥
LoopOk st last _ = Unit

pub loop-resume :
    {S : Type 0} (before after : S → Bool × S) (f' f : S → Outcome S)
    → ((s : S) (k : S → Outcome S) → resume (f' s) k ≡ resume (f s) k)
    → (fuel : ℕ) (s : S) → loop before after f' fuel s ≡ loop before after f fuel s
unfolding loop
loop-resume before after f' f h zero s = refl
loop-resume before after f' f h (suc fuel) s =
    ap (λ r. choose (before s) r finish)
      (fun_ext λ s1.
        h s1 _
        ∙ ap (resume (f s1)) (
            fun_ext λ s2.
              ap (λ r. choose (after s2) r finish)
                (fun_ext λ s3. loop-resume before after f' f h fuel s3)))

module _ {S : Type 0} (m : Machine S) (q : IsQuiet m) where
  pub eval-quiet : (emit : Bool) (e : Expr) (s : S) → (eval m emit e s).1 ≡ s
  unfolding eval
  eval-quiet emit (compare (block_value bb) k c) s = q.value emit bb s
  eval-quiet emit (compare loop_state k c) s = refl
  eval-quiet emit (atomic bb) s = q.condition emit bb s
  eval-quiet emit (negated e) s = eval-quiet emit e s
  eval-quiet emit (and_also a b) s = eval-quiet emit b _ ∙ eval-quiet emit a s
  eval-quiet emit (or_else a b) s = eval-quiet emit b _ ∙ eval-quiet emit a s

  pub value-quiet : (bb : Option ℕ) (emit : Bool) (s : S) → (block_value_at m bb emit s).1 ≡ s
  value-quiet none emit s = refl
  value-quiet (some bb) emit s = q.value emit bb s
