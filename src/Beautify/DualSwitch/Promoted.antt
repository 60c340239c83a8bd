-- ===== src/Beautify/DualSwitch/Promoted.antt =====
-- `simplifyDualSwitch` (SimplifyDualSwitch.cpp): one switch and the `if` that takes its place.
use revng_c.Prelude.{
  ℕ, Bool, true, false, not, ◌≡◌, refl, ap, sym, ◌∙◌, fun_ext, ◌&&◌, ◌||◌, ◌==◌, ltb, if◌then◌else◌,
  Option, none, some, List, [], ◌∷◌, >>=-eq-some, of_some, arith,
}
use revng_c.Ghast.Expr.{equal, block_value, loop_state, Expr, compare}
use revng_c.Ghast.Node.{Node, null, switch_break, no_case, case, is_null, get_default}
use revng_c.Semantics.{
  Machine, normal, switch_broke, Outcome, after_switch, choose, finish, is_in, eval, block_value_at,
  exec, exec_cases,
}
use revng_c.Beautify.FallThrough.Leaving.{NotSwitchBroke}
use revng_c.Beautify.DualSwitch.{
  IfFields, fields, is_present, lower, elect, unless, own_break, drop_switch_break, unless_empty,
  assert_present, make_if, if_of_switch,
}

abbrev pub is_switch_break : Node → Bool
is_switch_break (switch_break i p) = true
is_switch_break _ = false

-- whether one of two cases is taken for the value
abbrev pub decides : List ℕ → List ℕ → ℕ → Bool
decides [] p v = true
decides l [] v = true
decides l p v = is_in v l || is_in v p

or_false : (b : Bool) → (b || false) ≡ b
or_false true = refl
or_false false = refl

after_switch_id : {S : Type 0} (o : Outcome S) → NotSwitchBroke o → after_switch o ≡ o
after_switch_id (some (switch_broke, s)) h = absurd h
after_switch_id _ h = refl

own_break-null : (v : Bool) (x : Node) → own_break v ≡ some x → null ≡ x
own_break-null true x e = of_some e
own_break-null false x e = cc

present-not_null : (n t : Node) → assert_present n ≡ some t → (n ≡ t) × (is_null n ≡ false)
unfolding is_null
present-not_null null t e = absurd (cc e)
present-not_null n t e = (of_some e, refl)

dropped-null :
    (i : ℕ) (n : Node) → drop_switch_break i n ≡ some null → (is_switch_break n || is_null n) ≡ true
unfolding is_null
dropped-null i (switch_break j p) e = refl
dropped-null i null e = refl
dropped-null i n e = cc

pub unless-some :
    (v : Bool) (o : Option IfFields) (x : IfFields)
    → unless v o ≡ some x
    → (v ≡ false) × (o ≡ some x)
unless-some false o x e = (refl, e)
unless-some true o x e = absurd (cc e)

pub default-decides :
    (l p : List ℕ) (n k : Node) (v : ℕ)
    → is_null (get_default (case l n (case p k no_case))) ≡ false
    → decides l p v ≡ true
unfolding is_null get_default
default-decides [] p n k v h = refl
default-decides (a ∷ l) [] n k v h = refl
default-decides (a ∷ l) (b ∷ p) n k v h = cc

-- two tests of which exactly one holds
module _ {A : Type 0} (x y z : A) where
  first-test :
      (a b : Bool)
      → (a || b) ≡ true
      → (if a then x else (if b then y else z)) ≡ (if a then x else y)
  first-test true b h = refl
  first-test false true h = refl
  first-test false false h = cc

  second-test :
      (a b : Bool)
      → (a || b) ≡ true
      → (a ≡ true → b ≡ false)
      → (if a then x else (if b then y else z)) ≡ (if b then y else x)
  second-test true true h k = absurd (cc (k refl))
  second-test true false h k = refl
  second-test false true h k = refl
  second-test false false h k = cc

vanished-standard :
    (standard : Bool) (x : IfFields)
    → (is_switch_break x.then_node || is_null x.then_node) ≡ true
    → is_null x.then_node ≡ false
    → (is_switch_break x.else_node || is_null x.else_node) ≡ true
    → (standard
        && (is_switch_break x.then_node && (is_switch_break x.else_node || is_null x.else_node)))
      ≡ false
    → standard ≡ false
vanished-standard standard x a b c d = grind (arith, a, b, c, d)

both-finish : {S : Type 0} (r : Bool × S) → some (normal, r.1) ≡ choose r finish finish
both-finish (true, s) = refl
both-finish (false, s) = refl

module _ {S : Type 0} (m : Machine S) (fuel : ℕ) where
  -- a case that ends its switch only if it is a switch break
  abbrev pub CaseOk : Node → Type 0
  CaseOk (switch_break i p) = Unit
  CaseOk n = (s : S) → NotSwitchBroke (exec m fuel n s)

  dropped-run :
      (i : ℕ) (n x : Node)
      → drop_switch_break i n ≡ some x
      → CaseOk n
      → (s : S) → exec m fuel x s ≡ after_switch (exec m fuel n s)
  unfolding exec
  dropped-run i (switch_break j (some p)) x e h s =
      ap (λ y. exec m fuel y s) (sym (own_break-null (p == i) x e))
  dropped-run i (switch_break j none) x e h s = absurd (cc e)
  dropped-run i n x e h s =
      ap (λ y. exec m fuel y s) (sym (of_some e)) ∙ sym (after_switch_id (exec m fuel n s) (h s))

  abbrev pub pick : IfFields → ℕ × S → Outcome S
  pick x r = choose (r.0 == x.case_index, r.1) (exec m fuel x.then_node) (exec m fuel x.else_node)

  pub one-run :
      (a : ℕ) (n : Node) (v : ℕ) (s : S)
      → exec_cases m fuel (case (a ∷ []) n no_case) finish v s ≡ pick (fields n null a) (v, s)
  unfolding exec
  one-run a n v s = ap (λ b. if b then exec m fuel n s else finish s) (or_false (v == a))

  -- either of two cases with one label may be asked for
  lower-run :
      (a b : ℕ) (n k : Node) (z : Bool) (x : IfFields) (v : ℕ) (s : S)
      → lower z (fields n k a) (fields k n b) ≡ x
      → (is_in v (a ∷ []) ≡ true → is_in v (b ∷ []) ≡ false)
      → decides (a ∷ []) (b ∷ []) v ≡ true
      → exec_cases m fuel (case (a ∷ []) n (case (b ∷ []) k no_case)) finish v s ≡ pick x (v, s)
  unfolding exec
  lower-run a b n k true x v s e d c =
      first-test _ _ _ (v == a || false) _ c
      ∙ ap (λ y. if y then exec m fuel n s else exec m fuel k s) (or_false (v == a))
      ∙ ap (λ y. pick y (v, s)) e
  lower-run a b n k false x v s e d c =
      second-test _ _ _ (v == a || false) _ c d
      ∙ ap (λ y. if y then exec m fuel k s else exec m fuel n s) (or_false (v == b))
      ∙ ap (λ y. pick y (v, s)) e

  pub elect-run :
      (l p : List ℕ) (n k : Node) (x : IfFields) (v : ℕ) (s : S)
      → elect l n p k ≡ some x
      → (is_in v l ≡ true → is_in v p ≡ false)
      → decides l p v ≡ true
      → exec_cases m fuel (case l n (case p k no_case)) finish v s ≡ pick x (v, s)
  unfolding exec
  elect-run (a ∷ []) (b ∷ []) n k x v s e d c = lower-run a b n k (ltb a b) x v s (of_some e) d c
  elect-run (a ∷ []) [] n k x v s e d c =
      ap (λ b. if b then exec m fuel n s else exec m fuel k s) (or_false (v == a))
      ∙ ap (λ y. pick y (v, s)) (of_some e)
  elect-run (a ∷ []) (b ∷ (b' ∷ p)) n k x v s e d c =
      first-test _ _ _ (v == a || false) _ c
      ∙ ap (λ b. if b then exec m fuel n s else exec m fuel k s) (or_false (v == a))
      ∙ ap (λ y. pick y (v, s)) (of_some e)
  elect-run [] (b ∷ []) n k x v s e d c =
      ap (λ b. if b then exec m fuel k s else exec m fuel n s) (or_false (v == b))
      ∙ ap (λ y. pick y (v, s)) (of_some e)
  elect-run (a ∷ (a' ∷ l)) (b ∷ []) n k x v s e d c =
      second-test _ _ _ (is_in v (a ∷ (a' ∷ l))) _ c d
      ∙ ap (λ b. if b then exec m fuel k s else exec m fuel n s) (or_false (v == b))
      ∙ ap (λ y. pick y (v, s)) (of_some e)
  elect-run _ _ n k x v s e d c = cc

  -- the `if` may be left out: nothing happens in its branches, nor in its condition
  abbrev Vanishes : Node → Node → Expr → Bool → Type 0
  Vanishes t e c w = (t ≡ null) → (e ≡ null) → (s : S) → (eval m (not w) c s).1 ≡ s

  unless_empty-run :
      (j : ℕ) (bb : Option ℕ) (c : Expr) (w : Bool) (t e : Node)
      → Vanishes t e c w
      → (s : S)
      → exec m fuel (unless_empty j bb c w t e) s
        ≡ choose (eval m (not w) c s) (exec m fuel t) (exec m fuel e)
  unfolding exec
  unless_empty-run j bb c w null null h s =
      ap (λ u. some (normal, u)) (sym (h refl refl s)) ∙ both-finish (eval m (not w) c s)
  unless_empty-run j bb c w t e h s = refl

  after_switch-choose :
      (r : Bool × S) (f g : S → Outcome S)
      → choose r (λ s. after_switch (f s)) (λ s. after_switch (g s)) ≡ after_switch (choose r f g)
  after_switch-choose (true, s) f g = refl
  after_switch-choose (false, s) f g = refl

  -- the elected branches may end the switch, and a standard switch has something in them
  pub record Fits (standard : Bool) (x : IfFields) : Type 0 where
    pub then_ok : CaseOk x.then_node
    pub else_ok : CaseOk x.else_node
    pub something :
        (standard
          && (is_switch_break x.then_node && (is_switch_break x.else_node || is_null x.else_node)))
        ≡ false

  make_if-run :
      (i fresh : ℕ) (bb : Option ℕ) (c : Expr) (w standard : Bool) (x : IfFields) (r : Node × ℕ)
      → make_if i fresh bb c w x ≡ some r
      → Fits standard x
      → (standard ≡ false → (s : S) → (eval m (not w) c s).1 ≡ s)
      → (s : S)
      → exec m fuel r.0 s
        ≡ after_switch
            (choose (eval m (not w) c s) (exec m fuel x.then_node) (exec m fuel x.else_node))
  make_if-run i fresh bb c w standard x r e h q s =
      let (t0, e0, k0) = >>=-eq-some (assert_present x.then_node) _ e in
      let (t, e1, k1) = >>=-eq-some (drop_switch_break i t0) _ k0 in
      let (el, e2, k2) = >>=-eq-some (drop_switch_break i x.else_node) _ k1 in
      let (same, here) = present-not_null x.then_node t0 e0 in
      let e1' : drop_switch_break i x.then_node ≡ some t = ap (drop_switch_break i) same ∙ e1 in
      ap (λ (y : Node × ℕ). exec m fuel y.0 s) (sym (of_some k2))
      ∙ unless_empty-run fresh bb c w t el
          (λ p p'. q (
            vanished-standard standard x (dropped-null i x.then_node (e1' ∙ ap some p)) here
              (dropped-null i x.else_node (e2 ∙ ap some p')) h.something))
          s
      ∙ ap (λ g. choose (eval m (not w) c s) g (exec m fuel el))
          (fun_ext (dropped-run i x.then_node t e1' h.then_ok))
      ∙ ap (λ g. choose (eval m (not w) c s) (λ u. after_switch (exec m fuel x.then_node u)) g)
          (fun_ext (dropped-run i x.else_node el e2 h.else_ok))
      ∙ after_switch-choose (eval m (not w) c s) (exec m fuel x.then_node) (exec m fuel x.else_node)

  pub if_of_switch-run :
      (i fresh : ℕ) (no_default w : Bool) (cond bb : Option ℕ) (x : IfFields) (r : Node × ℕ)
      → if_of_switch i fresh no_default w cond bb x ≡ some r
      → Fits (is_present cond) x
      → (s : S) → exec m fuel r.0 s ≡ after_switch (pick x (block_value_at m bb (not w) s))
  unfolding eval
  if_of_switch-run i fresh true w none none x r e h s =
      make_if-run i fresh none (compare loop_state equal x.case_index) false false x r e h
        (λ p u. refl) s
  if_of_switch-run i fresh no_default w (some v) (some bb) x r e h s =
      make_if-run i fresh (some bb) (compare (block_value bb) equal x.case_index) w true x r e h
        (λ p. cc p) s
  if_of_switch-run i fresh no_default w _ _ x r e h s = absurd (cc e)
