-- ===== src/Beautify/ImplicitStatement/Bugs.antt =====
-- SimplifyImplicitStatement.cpp: three small GHASTs before and after their marks.
use revng_c.Prelude.{ℕ, zero, suc, Bool, true, false, not, ◌≡◌, refl, some, none, arith}
use revng_c.Ghast.Expr.{Expr, atomic}
use revng_c.Ghast.Node.{
  RelatedCondition, while_true, while, Node, null, code, break, continue, if_node, scs, sequence,
  nil, cons,
}
use revng_c.Semantics.{
  Machine, Last, return_void, branch, normal, continued, returned, Outcome, eval, loop, exec,
  always,
}
use revng_c.Beautify.ImplicitStatement.{
  is_return_void, st_continue, simplify, simplify_implicit_continue, simplify_implicit_return,
}

-- while (true) { bb; return; }
abbrev pub loop_of_return : ℕ → Node
loop_of_return bb = scs 0 while_true (code 1 (some bb) false)

-- if (c) { a; return; } b; return;
abbrev pub early_return : Expr → ℕ → ℕ → Node
early_return c a b =
    sequence 0 (
      cons (if_node 1 none c false (code 2 (some a) false) null) (cons (code 3 (some b) false) nil))

-- if (c) continue; if (d) continue;
abbrev pub two_continues : ℕ → ℕ → Node
two_continues c d = sequence 0 (
    cons (if_node 1 none (atomic c) false (continue 2 none false) null)
      (cons (if_node 3 none (atomic d) false (continue 4 none false) null) nil))

spins :
    {S : Type 0} (before after : S → Bool × S) (f : S → Outcome S) (g : S → S)
    → ((s : S) → before s ≡ (true, s))
    → ((s : S) → after s ≡ (true, s))
    → ((s : S) → f s ≡ some (normal, g s))
    → (fuel : ℕ) (s : S) → loop before after f fuel s ≡ none
unfolding loop
spins before after f g hb ha hf zero s = refl
spins before after f g hb ha hf (suc fuel) s =
    rw (hb s, hf s, ha (g s)) (spins before after f g hb ha hf fuel (g s))

marked_loop :
    (last : ℕ → Last) (bb : ℕ)
    → last bb ≡ return_void
    → simplify_implicit_return last (loop_of_return bb) ≡ scs 0 while_true (code 1 (some bb) true)
unfolding simplify_implicit_return is_return_void
marked_loop last bb h = rw h

marked_early :
    (last : ℕ → Last) (c : Expr) (a b : ℕ)
    → last a ≡ return_void
    → last b ≡ return_void
    → simplify_implicit_return last (early_return c a b)
      ≡ sequence 0 (
          cons
            (if_node 1 none c false (code 2 (some a) true) null)
            (cons (code 3 (some b) true) nil))
unfolding simplify_implicit_return is_return_void
marked_early last c a b ha hb = rw (ha, hb)

-- The `return` in a loop's body is made implicit: where the function returned in the first round,
-- the simplified one does not end, whatever the fuel.
pub simplify_implicit_return-loop :
    {S : Type 0} (m : Machine S) (bb fuel : ℕ) (s : S)
    → m.last bb ≡ return_void
    → (exec m (suc fuel) (loop_of_return bb) s ≡ some (returned, m.run_block bb s))
      × (exec m (suc fuel) (simplify_implicit_return m.last (loop_of_return bb)) s ≡ none)
unfolding exec loop
simplify_implicit_return-loop m bb fuel s h = (
  rw h,
  rw (marked_loop m.last bb h) (
      spins always always (exec m (suc fuel) (code 1 (some bb) true)) (m.run_block bb) (λ _. refl)
        (λ _. refl) (λ _. rw h) (suc fuel) s),
)

-- A `return` under a condition is made implicit before a block that ends in a `return` itself: where
-- the condition holds, the function no longer returns there, and that block runs too.
pub simplify_implicit_return-early :
    {S : Type 0} (m : Machine S) (c : Expr) (a b fuel : ℕ) (s t : S)
    → m.last a ≡ return_void
    → m.last b ≡ return_void
    → eval m true c s ≡ (true, t)
    → (exec m fuel (early_return c a b) s ≡ some (returned, m.run_block a t))
      × (exec m fuel (simplify_implicit_return m.last (early_return c a b)) s
          ≡ some (normal, m.run_block b (m.run_block a t)))
unfolding exec
simplify_implicit_return-early m c a b fuel s t ha hb hc =
    (rw (hc, ha), rw (marked_early m.last c a b ha hb, hc, ha, hb))

-- A `continue` is made implicit before an `if` with an implicit `continue`: where the first
-- condition holds, the block of the second condition runs too.
pub simplify_continue-two :
    {S : Type 0} (m : Machine S) (c d fuel : ℕ) (s t : S)
    → m.condition_of true c s ≡ (true, t)
    → (exec m fuel (two_continues c d) s ≡ some (continued, t))
      × (exec m fuel (simplify st_continue m.last (two_continues c d) true).0 s
          ≡ some (normal, (m.condition_of true d t).1))
unfolding exec eval simplify
simplify_continue-two m c d fuel s t hc = (rw hc, rw hc (ground arith))

-- while (true) { if (c) break; a; if (d) continue; while (e) { continue; } }, with marks on the
-- continues
abbrev nested_loop_with : Bool → ℕ → ℕ → ℕ → RelatedCondition → Node
nested_loop_with implicit c a d e = scs 0 while_true (
    sequence 1 (
      cons (if_node 2 none (atomic c) false (break 3 false) null) (
        cons (code 4 (some a) false) (
          cons (if_node 5 none (atomic d) false (continue 6 none implicit) null)
            (cons (scs 7 (while e) (continue 8 none implicit)) nil)))))

abbrev pub nested_loop : ℕ → ℕ → ℕ → RelatedCondition → Node
nested_loop = nested_loop_with false

stays :
    {S : Type 0} (before after : S → Bool × S) (f : S → Outcome S) (u : S)
    → before u ≡ (true, u)
    → after u ≡ (true, u)
    → f u ≡ some (normal, u)
    → (fuel : ℕ) → loop before after f fuel u ≡ none
unfolding loop
stays before after f u hb ha hf zero = refl
stays before after f u hb ha hf (suc fuel) = rw (hb, hf, ha) (stays before after f u hb ha hf fuel)

marked_nested :
    (last : ℕ → Last) (c a d : ℕ) (e : RelatedCondition)
    → simplify_implicit_continue last (nested_loop c a d e) ≡ nested_loop_with true c a d e
unfolding simplify_implicit_continue simplify
marked_nested last c a d e = refl

-- A loop nested in a loop, with nothing but a `continue` in it, is taken to be empty, and a `continue`
-- before it is made implicit. Where no condition changes the state, the loop goes on after its first
-- round with `d` and `e` true, and `c` is true then, the loop ended, and the simplified one does not,
-- whatever the fuel.
pub simplify_implicit_continue-nested :
    {S : Type 0} (m : Machine S) (c a d fuel : ℕ) (e : RelatedCondition) (s u : S)
    → m.last a ≡ branch
    → m.run_block a s ≡ u
    → m.condition_of true c s ≡ (false, s)
    → m.condition_of true c u ≡ (true, u)
    → m.condition_of true d u ≡ (true, u)
    → eval m (not e.is_weaved) e.cond_expr u ≡ (true, u)
    → (exec m (suc (suc fuel)) (nested_loop c a d e) s ≡ some (normal, u))
      × (exec m fuel (simplify_implicit_continue m.last (nested_loop c a d e)) s ≡ none)
unfolding exec eval loop
simplify_implicit_continue-nested m c a d fuel e s u hl hr hc hc' hd he =
    (rw (hc, hl, hr, hd, hc'), rw (marked_nested m.last c a d e) (ends fuel))
  where
    ends : (n : ℕ) → exec m n (nested_loop_with true c a d e) s ≡ none
    ends zero = refl
    ends (suc n) =
        rw (hc, hl, hr, hd, he)
          (rw (
            stays (eval m (not e.is_weaved) e.cond_expr) always
              (exec m (suc n) (continue 8 none true)) u he refl refl n))
