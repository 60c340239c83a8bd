-- ===== src/Beautify/AtomicSequence/Switches.antt =====
-- `simplifyAtomicSequence` (ASTNodeUtils.cpp): the cases of a `switch` before and after it.
use revng_c.Prelude.{
  ℕ, Bool, true, false, ◌≡◌, refl, ap, ◌∙◌, fun_ext, inl, inr, Bool-cases, some, List, [], ◌∷◌,
  ◌||◌, or-eq-false, if◌then◌else◌,
}
use revng_c.Ghast.Node.{
  SwitchFields, Node, null, code, break, continue, if_node, scs, sequence, switch, switch_break,
  set, Cases, no_case, case, is_null, has_default, get_default,
}
use revng_c.Semantics.{Machine, Outcome, normal, after_switch, finish, is_in, exec, exec_cases}
use revng_c.Semantics.Congruence.{Same, Same-run}
use revng_c.Beautify.AtomicSequence.{keep_or_break}

abbrev pub is_label : ℕ → Cases → Bool
is_label v no_case = false
is_label v (case l n cs) = is_in v l || is_label v cs

-- No label stands at two cases.
abbrev pub DisjointCases : Cases → Type 0
DisjointCases no_case = Unit
DisjointCases (case l n cs) =
    ((v : ℕ) → is_in v l ≡ true → is_label v cs ≡ false) × DisjointCases cs

abbrev pub HasDisjointLabels : Node → Type 0
HasDisjointLabels (switch i f cs) = DisjointCases cs
HasDisjointLabels _ = Unit

default-not_null :
    (n : Node) (cs : Cases) → is_null n ≡ false → has_default (case [] n cs) ≡ false → ⊥
unfolding is_null has_default get_default
default-not_null null cs h e = cc
default-not_null (code _ _ _) cs h e = cc
default-not_null (break _ _) cs h e = cc
default-not_null (continue _ _ _) cs h e = cc
default-not_null (if_node _ _ _ _ _ _) cs h e = cc
default-not_null (scs _ _ _) cs h e = cc
default-not_null (sequence _ _) cs h e = cc
default-not_null (switch _ _ _) cs h e = cc
default-not_null (switch_break _ _) cs h e = cc
default-not_null (set _ _ _) cs h e = cc

abbrev pub NotNullCases : Cases → Type 0
NotNullCases no_case = Unit
NotNullCases (case l n cs) = (is_null n ≡ false) × NotNullCases cs

module _ {S : Type 0} (m : Machine S) (fuel : ℕ) where
  -- cases that are the same once their `switch` has ended
  pub record SameSwitch (has : Bool) (cs' cs : Cases) : Type 0 where
    pub any_default :
        has ≡ true
        → (d' d : S → Outcome S) → ((s : S) → after_switch (d' s) ≡ after_switch (d s))
        → (v : ℕ) (s : S)
        → after_switch (exec_cases m fuel cs' d' v s) ≡ after_switch (exec_cases m fuel cs d v s)
    pub no_default :
        has ≡ false
        → has_default cs ≡ false
        → (v : ℕ) (s : S) → exec_cases m fuel cs' finish v s ≡ exec_cases m fuel cs finish v s

  -- no case has the value, and there is no default
  exec_cases-miss :
      (cs : Cases) (v : ℕ) (s : S)
      → has_default cs ≡ false
      → NotNullCases cs
      → is_label v cs ≡ false
      → exec_cases m fuel cs finish v s ≡ some (normal, s)
  unfolding exec has_default get_default
  exec_cases-miss no_case v s h w q = refl
  exec_cases-miss (case [] n cs) v s h w q = absurd (default-not_null n cs w.0 h)
  exec_cases-miss (case (l ∷ ls) n cs) v s h w q =
      let (q0, q1) = or-eq-false (is_in v (l ∷ ls)) (is_label v cs) q in
      rw q0 (exec_cases-miss cs v s h w.1 q1)

  if-same :
      {A : Type 0} (f : Outcome S → A) (c : Bool) {x x' y y' : Outcome S}
      → f x ≡ f x'
      → f y ≡ f y'
      → f (if c then x else y) ≡ f (if c then x' else y')
  if-same f true p q = p
  if-same f false p q = q

  kept :
      (has : Bool) (l : List ℕ) (n x : Node) (cs r : Cases)
      → ((s : S) → after_switch (exec m fuel x s) ≡ after_switch (exec m fuel n s))
      → (has ≡ false → (s : S) → exec m fuel x s ≡ exec m fuel n s)
      → is_null n ≡ false
      → SameSwitch has r cs
      → SameSwitch has (case l x r) (case l n cs)
  unfolding exec has_default get_default
  kept has [] n x cs r ha hb h t = record {
    any_default = λ p d' d hd v s. t.any_default p (exec m fuel x) (exec m fuel n) ha v s;
    no_default = λ p q v s. absurd (default-not_null n cs h q);
  }
  kept has (l ∷ ls) n x cs r ha hb h t = record {
    any_default = λ p d' d hd v s.
        if-same after_switch (is_in v (l ∷ ls)) (ha s) (t.any_default p d' d hd v s);
    no_default = λ p q v s. if-same (λ o. o) (is_in v (l ∷ ls)) (hb p s) (t.no_default p q v s);
  }

  erased :
      (l : List ℕ) (n : Node) (cs r : Cases)
      → Same m fuel null n
      → is_null n ≡ false
      → NotNullCases cs
      → ((v : ℕ) → is_in v l ≡ true → is_label v cs ≡ false)
      → SameSwitch false r cs
      → SameSwitch false r (case l n cs)
  unfolding exec has_default get_default
  erased [] n cs r hn h w q t = record {
    any_default = λ p d' d hd v s. absurd (cc p);
    no_default = λ p e v s. absurd (default-not_null n cs h e);
  }
  erased (l ∷ ls) n cs r hn h w q t = record {
    any_default = λ p d' d hd v s. absurd (cc p);
    no_default = λ p e v s. elim (Bool-cases (is_in v (l ∷ ls))) [
      | inl hit ↦
          rw hit (t.no_default p e v s ∙ exec_cases-miss cs v s e w (q v hit) ∙ Same-run hn s)
      | inr miss ↦ rw miss (t.no_default p e v s)
    ];
  }

  pub no_case-SameSwitch : (has : Bool) → SameSwitch has no_case no_case
  unfolding exec
  no_case-SameSwitch has = record {
    any_default = λ p d' d hd v s. hd s;
    no_default = λ p e v s. refl;
  }

  pub case-SameSwitch :
      (has : Bool) (parent fresh : ℕ) (l : List ℕ) (n x : Node) (cs r : Cases)
      → Same m fuel x n
      → is_null n ≡ false
      → NotNullCases cs
      → ((v : ℕ) → is_in v l ≡ true → is_label v cs ≡ false)
      → SameSwitch has r cs
      → SameSwitch has (keep_or_break has parent fresh l x r) (case l n cs)
  unfolding exec
  case-SameSwitch true parent fresh l n null cs r hn h w q t =
      kept true l n (switch_break fresh (some parent)) cs r (λ s. ap after_switch (Same-run hn s))
        (λ p. absurd (cc p)) h t
  case-SameSwitch false parent fresh l n null cs r hn h w q t = erased l n cs r hn h w q t
  case-SameSwitch has parent fresh l n x cs r hn h w q t =
      kept has l n x cs r (λ s. ap after_switch (Same-run hn s)) (λ _ s. Same-run hn s) h t

  pub switch-Same :
      (i : ℕ) (f : SwitchFields) (cs' cs : Cases)
      → SameSwitch (has_default cs) cs' cs
      → Same m fuel (switch i f cs') (switch i f cs)
  unfolding exec
  switch-Same i f cs' cs h = record {
    at = fun_ext λ s. elim (Bool-cases (has_default cs)) [
      | inl e ↦ h.any_default e finish finish (λ u. refl) _ _
      | inr e ↦ ap after_switch (h.no_default e e _ _)
    ];
  }
