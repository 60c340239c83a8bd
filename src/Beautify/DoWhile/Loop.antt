-- ===== src/Beautify/DoWhile/Loop.antt =====
-- A loop that ends its body by a choice between leaving and going on, and the loop that makes this
-- choice after its body.
use revng_c.Prelude.{ℕ, zero, suc, Bool, true, false, ◌≡◌, refl, ap, sym, ◌∙◌, fun_ext, none, some}
use revng_c.Semantics.{
  normal, broke, continued, switch_broke, returned, stopped, Outcome, and_then, resume, choose,
  finish, loop, always,
}

-- The outcome is not a `continue` of the loop.
abbrev pub NotContinued : {S : Type 0} → Outcome S → Type 0
NotContinued (some (continued, s)) = ⊥
NotContinued _ = Unit

module _ {S : Type 0} where
  pub resume-and_then :
      (o : Outcome S) (f k : S → Outcome S)
      → NotContinued o
      → resume (and_then o f) k ≡ resume o (λ s. resume (f s) k)
  resume-and_then none f k h = refl
  resume-and_then (some (normal, s)) f k h = refl
  resume-and_then (some (broke, s)) f k h = refl
  resume-and_then (some (continued, s)) f k h = absurd h
  resume-and_then (some (switch_broke, s)) f k h = refl
  resume-and_then (some (returned, s)) f k h = refl
  resume-and_then (some (stopped, s)) f k h = refl

  pub resume-choose :
      (r : Bool × S) (f g k : S → Outcome S)
      → resume (choose r f g) k ≡ choose r (λ s. resume (f s) k) (λ s. resume (g s) k)
  resume-choose (true, s) f g k = refl
  resume-choose (false, s) f g k = refl

  -- `body` and `body'` go on alike
  pub loop-body :
      (after : S → Bool × S) (body body' : S → Outcome S)
      → ((s : S) (k : S → Outcome S)
          → resume (body s) k ≡ resume (body' s) (λ u. choose (after u) k finish))
      → (fuel : ℕ) (s : S) → loop always after body' fuel s ≡ loop always always body fuel s
  unfolding loop
  loop-body after body body' h zero s = refl
  loop-body after body body' h (suc fuel) s =
      ap (λ k. resume (body' s) (λ u. choose (after u) k finish))
        (fun_ext λ u. loop-body after body body' h fuel u)
      ∙ sym (h s (loop always always body fuel))
