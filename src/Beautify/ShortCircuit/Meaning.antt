-- ===== src/Beautify/ShortCircuit/Meaning.antt =====
-- The reductions of `simplifyShortCircuit` (BeautifyGHAST.cpp) against the nested `if`s.
use revng_c.Prelude.{
  ℕ, Bool, true, false, not, ◌&&◌, ◌≡◌, refl, ap, sym, ◌∙◌, fun_ext, subst, Option, none, some,
  of_some,
}
use revng_c.Ghast.Expr.{Expr, negated, and_also}
use revng_c.Ghast.Node.{RelatedCondition, Node, null}
use revng_c.Ghast.Everywhere.{Everywhere}
use revng_c.Ghast.Equality.Sound.{IsComparable, is_equal-exec}
use revng_c.Semantics.{Machine, Outcome, choose, map_fst, eval, exec}
use revng_c.Beautify.ShortCircuit.{
  has_side_effects, if_of, replace, guarded, a_and_not_b, a_and_b, trivial_a_and_b,
}

-- A condition without side effects leaves the state alone, whether or not its statements are printed.
pub record IsStill {S : Type 0} (m : Machine S) (fx : ℕ → Bool) : Type 0 where
  pub still :
      (e : Expr) (emit : Bool) (s : S)
      → has_side_effects fx e ≡ some false
      → eval m emit e s ≡ ((eval m true e s).0, s)

-- a reduction that took place, or the `if` as it was
guarded-cases :
    (c : Bool) (effects : Option Bool) (old new n : Node) (P : Node → Type 0)
    → guarded c effects old new ≡ some n
    → P old
    → (c ≡ true → effects ≡ some false → P new)
    → P n
guarded-cases false effects old new n P e po pn = subst P (of_some e) po
guarded-cases true none old new n P e po pn = absurd (cc e)
guarded-cases true (some true) old new n P e po pn = subst P (of_some e) po
guarded-cases true (some false) old new n P e po pn = subst P (of_some e) (pn refl refl)

and-right : (a b : Bool) → (a && b) ≡ true → b ≡ true
and-right true b h = h
and-right false b h = cc

module _ {S : Type 0} where
  flipped-choose :
      (v : Bool) (s : S) (f g : S → Outcome S) → choose (not v, s) g f ≡ choose (v, s) f g
  flipped-choose true s f g = refl
  flipped-choose false s f g = refl

  and_not-choose :
      (r : Bool × S) (v : S → Bool) (f g h : S → Outcome S)
      → ((s : S) → h s ≡ f s)
      → choose (r.0 && not (v r.1), r.1) g f ≡ choose r (λ u. choose (v u, u) f g) h
  and_not-choose (true, s) v f g h k = flipped-choose (v s) s f g
  and_not-choose (false, s) v f g h k = sym (k s)

  and-choose :
      (r : Bool × S) (v : S → Bool) (f g h : S → Outcome S)
      → ((s : S) → h s ≡ g s)
      → choose (r.0 && v r.1, r.1) f g ≡ choose r (λ u. choose (v u, u) f g) h
  and-choose (true, s) v f g h k = refl
  and-choose (false, s) v f g h k = sym (k s)

  not_and_not-choose :
      (r : Bool × S) (v : S → Bool) (f g : S → Outcome S)
      → choose (not r.0 && not (v r.1), r.1) f g ≡ choose r g (λ u. choose (v u, u) g f)
  not_and_not-choose (true, s) v f g = refl
  not_and_not-choose (false, s) v f g = flipped-choose (v s) s g f

  not_and-choose :
      (r : Bool × S) (v : S → Bool) (f g : S → Outcome S)
      → choose (not r.0 && v r.1, r.1) g f ≡ choose r f (λ u. choose (v u, u) g f)
  not_and-choose (true, s) v f g = refl
  not_and-choose (false, s) v f g = refl

module _ {S : Type 0} (m : Machine S) (fuel : ℕ) (fx : ℕ → Bool) (st : IsStill m fx)
    (q r : RelatedCondition) (free : has_side_effects fx r.cond_expr ≡ some false) where
  -- the value of the inner condition
  abbrev inner : S → Bool
  inner u = (eval m true r.cond_expr u).0

  abbrev outer : S → Bool × S
  outer s = eval m (not q.is_weaved) q.cond_expr s

  eval-inner : (emit : Bool) → eval m emit r.cond_expr ≡ (λ u. (inner u, u))
  eval-inner emit = fun_ext λ u. st.still r.cond_expr emit u free

  nested-run :
      (t e : Node)
      → exec m fuel (if_of r t e) ≡ (λ u. choose (inner u, u) (exec m fuel t) (exec m fuel e))
  unfolding exec
  nested-run t e =
      fun_ext
        λ u. ap (λ f. choose (f u) (exec m fuel t) (exec m fuel e)) (eval-inner (not r.is_weaved))

  a_and_not_b-run :
      (t e o : Node)
      → ((s : S) → exec m fuel o s ≡ exec m fuel t s)
      → (s : S)
      → exec m fuel (if_of (replace q (and_also q.cond_expr (negated r.cond_expr))) e t) s
        ≡ exec m fuel (if_of q (if_of r t e) o) s
  unfolding exec eval
  a_and_not_b-run t e o h s =
      ap
        (λ f.
          choose (map_fst (λ x. (outer s).0 && x) (map_fst not (f (outer s).1))) (exec m fuel e)
            (exec m fuel t))
        (eval-inner (not q.is_weaved))
      ∙ and_not-choose (outer s) inner (exec m fuel t) (exec m fuel e) (exec m fuel o) h
      ∙ ap (λ g. choose (outer s) g (exec m fuel o)) (sym (nested-run t e))

  pub a_and_b-run :
      (t e o : Node)
      → ((s : S) → exec m fuel o s ≡ exec m fuel e s)
      → (s : S)
      → exec m fuel (if_of (replace q (and_also q.cond_expr r.cond_expr)) t e) s
        ≡ exec m fuel (if_of q (if_of r t e) o) s
  unfolding exec eval
  a_and_b-run t e o h s =
      ap
        (λ f.
          choose (map_fst (λ x. (outer s).0 && x) (f (outer s).1)) (exec m fuel t) (exec m fuel e))
        (eval-inner (not q.is_weaved))
      ∙ and-choose (outer s) inner (exec m fuel t) (exec m fuel e) (exec m fuel o) h
      ∙ ap (λ g. choose (outer s) g (exec m fuel o)) (sym (nested-run t e))

  pub not_a_and_not_b-run :
      (t e : Node) (s : S)
      → exec m fuel (if_of (replace q (and_also (negated q.cond_expr) (negated r.cond_expr))) t e) s
        ≡ exec m fuel (if_of q e (if_of r e t)) s
  unfolding exec eval
  not_a_and_not_b-run t e s =
      ap
        (λ f.
          choose (map_fst (λ x. not (outer s).0 && x) (map_fst not (f (outer s).1))) (exec m fuel t)
            (exec m fuel e))
        (eval-inner (not q.is_weaved))
      ∙ not_and_not-choose (outer s) inner (exec m fuel t) (exec m fuel e)
      ∙ ap (choose (outer s) (exec m fuel e)) (sym (nested-run e t))

  pub not_a_and_b-run :
      (t e : Node) (s : S)
      → exec m fuel (if_of (replace q (and_also (negated q.cond_expr) r.cond_expr)) e t) s
        ≡ exec m fuel (if_of q t (if_of r e t)) s
  unfolding exec eval
  not_a_and_b-run t e s =
      ap
        (λ f.
          choose (map_fst (λ x. not (outer s).0 && x) (f (outer s).1)) (exec m fuel e)
            (exec m fuel t))
        (eval-inner (not q.is_weaved))
      ∙ not_and-choose (outer s) inner (exec m fuel t) (exec m fuel e)
      ∙ ap (choose (outer s) (exec m fuel t)) (sym (nested-run e t))

-- The first reduction keeps the outcome, if conditions without side effects leave the state alone and
-- the shared branch is comparable.
pub exec-a_and_not_b :
    {S : Type 0} (m : Machine S) (fuel : ℕ) (fx : ℕ → Bool) (cond : Option ℕ → Expr)
    (q r : RelatedCondition) (t e o n : Node) (s : S)
    → a_and_not_b fx q r t e o ≡ some n
    → IsStill m fx
    → Everywhere (IsComparable cond) o
    → Everywhere (IsComparable cond) t
    → exec m fuel n s ≡ exec m fuel (if_of q (if_of r t e) o) s
unfolding a_and_not_b
exec-a_and_not_b m fuel fx cond q r t e o n s h st co ct =
    guarded-cases _ (has_side_effects fx r.cond_expr) _ _ n
      (λ x. exec m fuel x s ≡ exec m fuel (if_of q (if_of r t e) o) s) h refl
      (λ eq free.
        a_and_not_b-run m fuel fx st q r free t e o
          (λ u. is_equal-exec m fuel cond o t u (and-right _ _ eq) co ct) s)

-- The second reduction keeps the outcome, if conditions without side effects leave the state alone
-- and the shared branch is comparable.
pub exec-a_and_b :
    {S : Type 0} (m : Machine S) (fuel : ℕ) (fx : ℕ → Bool) (cond : Option ℕ → Expr)
    (q r : RelatedCondition) (t e o n : Node) (s : S)
    → a_and_b fx q r t e o ≡ some n
    → IsStill m fx
    → Everywhere (IsComparable cond) o
    → Everywhere (IsComparable cond) e
    → exec m fuel n s ≡ exec m fuel (if_of q (if_of r t e) o) s
unfolding a_and_b
exec-a_and_b m fuel fx cond q r t e o n s h st co ce =
    guarded-cases _ (has_side_effects fx r.cond_expr) _ _ n
      (λ x. exec m fuel x s ≡ exec m fuel (if_of q (if_of r t e) o) s) h refl
      (λ eq free.
        a_and_b-run m fuel fx st q r free t e o
          (λ u. is_equal-exec m fuel cond o e u (and-right _ _ eq) co ce) s)

-- The reduction of two `if`s without an `else` keeps the outcome, if conditions without side effects
-- leave the state alone.
pub exec-trivial_a_and_b :
    {S : Type 0} (m : Machine S) (fuel : ℕ) (fx : ℕ → Bool) (q r : RelatedCondition) (t n : Node)
    (s : S)
    → trivial_a_and_b fx q r t ≡ some n
    → IsStill m fx
    → exec m fuel n s ≡ exec m fuel (if_of q (if_of r t null) null) s
unfolding trivial_a_and_b
exec-trivial_a_and_b m fuel fx q r t n s h st =
    guarded-cases true (has_side_effects fx r.cond_expr) _ _ n
      (λ x. exec m fuel x s ≡ exec m fuel (if_of q (if_of r t null) null) s) h refl
      (λ eq free. a_and_b-run m fuel fx st q r free t null null (λ u. refl) s)
