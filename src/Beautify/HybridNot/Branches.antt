-- ===== src/Beautify/HybridNot/Branches.antt =====
-- `simplifyHybridNot` (SimplifyHybridNot.cpp): what it does to the conditions of the branches.
use revng_c.Prelude.{
  ℕ, Bool, true, false, not, Option, some, none, ◌==◌, ==_iff, ◌≡◌, ◌≢◌, refl, ap, ◌∙◌, subst,
  of_some, Bool-cases, inl, inr,
}
use revng_c.Semantics.{Machine}
use revng_c.Beautify.HybridNot.{
  Predicate, icmp_eq, icmp_ne, other_predicate, Condition, comparison, boolean_not, is_not_null,
  other_condition, Ir, NotKind, simple_ir, by_boolean_not, inverse_predicate, invert_predicate,
  set_condition, flip_at,
}

-- What the conditions read of a state.
pub record Reading (S : Type 0) : Type 0 where
  -- run the statements of a block, if they are to be emitted
  pub settle : Bool → ℕ → S → S
  pub are_equal : ℕ → S → Bool
  pub other_comparison : ℕ → S → Bool
  pub value : ℕ → S → ℕ
  pub other_truth : ℕ → S → Bool

module _ {S : Type 0} where
  abbrev pub compares : Reading S → Predicate → ℕ → S → Bool
  compares r icmp_eq i s = r.are_equal i s
  compares r icmp_ne i s = not (r.are_equal i s)
  compares r other_predicate i s = r.other_comparison i s

  abbrev pub truth : Reading S → (ℕ → Predicate) → Condition → S → Bool
  truth r p (comparison i) s = compares r (p i) i s
  truth r p (boolean_not v) s = r.value v s == 0
  truth r p (is_not_null v) s = not (r.value v s == 0)
  truth r p (other_condition v) s = r.other_truth v s

  -- a block with no conditional branch is not asked
  abbrev pub truth_of : Reading S → (ℕ → Predicate) → Option Condition → S → Bool
  truth_of r p none s = false
  truth_of r p (some c) s = truth r p c s

  abbrev pub truth_at : Reading S → Ir → ℕ → S → Bool
  truth_at r ir b s = truth_of r ir.predicate (ir.condition b) s

  -- the machine whose branches are those of the IR; no block but by its branch reads a predicate
  abbrev pub laid_over : Machine S → Reading S → Ir → Machine S
  laid_over m r ir = record {
    last = m.last;
    run_block = m.run_block;
    condition_of = λ emit b s. let s' = r.settle emit b s in (truth_at r ir b s', s');
    value_of = m.value_of;
    loop_state_of = m.loop_state_of;
    set_loop_state = m.set_loop_state;
  }

-- no comparison is the condition of two branches
abbrev pub NoSharing : Ir → Type 0
NoSharing ir =
    (a b i : ℕ)
    → ir.condition a ≡ some (comparison i)
    → ir.condition b ≡ some (comparison i)
    → a ≡ b

-- the comparison of the branch of a block is one that has an inverse here
abbrev pub Plain : Ir → ℕ → Type 0
Plain ir b = (i : ℕ) → ir.condition b ≡ some (comparison i) → ir.predicate i ≢ other_predicate

-- exclusive or
abbrev pub flipped : Bool → Bool → Bool
flipped true x = not x
flipped false x = x

module _ {S : Type 0} (r : Reading S) where
  not-not : (x : Bool) → x ≡ not (not x)
  not-not true = refl
  not-not false = refl

  compares-inverse_predicate :
      (q : Predicate) (i : ℕ) (s : S)
      → q ≢ other_predicate
      → compares r (inverse_predicate q) i s ≡ not (compares r q i s)
  unfolding inverse_predicate
  compares-inverse_predicate icmp_eq i s n = refl
  compares-inverse_predicate icmp_ne i s n = not-not _
  compares-inverse_predicate other_predicate i s n = absurd (n refl)

  inverted_there :
      (ir : Ir) (i : ℕ) (s : S)
      → ir.predicate i ≢ other_predicate
      → truth r (invert_predicate i ir).predicate (comparison i) s
        ≡ not (truth r ir.predicate (comparison i) s)
  unfolding invert_predicate
  inverted_there ir i s n =
      let e : (i == i) ≡ true = (==_iff i i).1 refl in
      rw e (compares-inverse_predicate (ir.predicate i) i s n)

  inverted_elsewhere :
      (ir : Ir) (i : ℕ) (x : Condition) (s : S)
      → x ≢ comparison i
      → truth r (invert_predicate i ir).predicate x s ≡ truth r ir.predicate x s
  unfolding invert_predicate
  inverted_elsewhere ir i (comparison j) s n = elim (Bool-cases (j == i)) [
    | inl e ↦ absurd (n (ap comparison ((==_iff j i).0 e)))
    | inr e ↦ rw e
  ]
  inverted_elsewhere ir i (boolean_not v) s n = refl
  inverted_elsewhere ir i (is_not_null v) s n = refl
  inverted_elsewhere ir i (other_condition v) s n = refl

  -- After the flip of block `b` the condition of `b` is the opposite, and the others are what they were.
  abbrev pub Flips : Ir → ℕ → Ir → Type 0
  Flips ir b ir' = (c : ℕ) (s : S) → truth_at r ir' c s ≡ flipped (c == b) (truth_at r ir c s)

  invert_predicate-Flips :
      (ir : Ir) (b i : ℕ)
      → NoSharing ir
      → ir.condition b ≡ some (comparison i)
      → ir.predicate i ≢ other_predicate
      → Flips ir b (invert_predicate i ir)
  unfolding invert_predicate
  invert_predicate-Flips ir b i alone e n c s = elim (Bool-cases (c == b)) [
    | inl t ↦
        let e' : ir.condition c ≡ some (comparison i) = ap ir.condition ((==_iff c b).0 t) ∙ e in
        rw (t, e') (inverted_there ir i s n)
    | inr f ↦ rw f (others f (ir.condition c) refl)
  ]
    where
      others :
          c == b ≡ false
          → (o : Option Condition) → ir.condition c ≡ o
          → truth_of r (invert_predicate i ir).predicate o s ≡ truth_of r ir.predicate o s
      others f none p = refl
      others f (some x) p = inverted_elsewhere ir i x s λ q.
          let same : c ≡ b = alone c b i (p ∙ ap some q) e in
          let t : c == b ≡ true = (==_iff c b).1 same in cc

  set_condition-Flips :
      (ir : Ir) (b v : ℕ)
      → ir.condition b ≡ some (boolean_not v)
      → Flips ir b (set_condition b (is_not_null v) ir)
  unfolding set_condition
  set_condition-Flips ir b v e c s = elim (Bool-cases (c == b)) [
    | inl t ↦
        let e' : ir.condition c ≡ some (boolean_not v) = ap ir.condition ((==_iff c b).0 t) ∙ e in
        rw (t, e')
    | inr f ↦ rw f
  ]

  pub flip_at-Flips :
      (k : NotKind) (b : ℕ) (x : Condition) (ir ir' : Ir)
      → NoSharing ir
      → Plain ir b
      → ir.condition b ≡ some x
      → flip_at k b x ir ≡ some ir'
      → Flips ir b ir'
  unfolding flip_at
  flip_at-Flips simple_ir b (comparison i) ir ir' alone n e h =
      subst (Flips ir b) (of_some h) (invert_predicate-Flips ir b i alone e (n i e))
  flip_at-Flips by_boolean_not b (boolean_not v) ir ir' alone n e h =
      subst (Flips ir b) (of_some h) (set_condition-Flips ir b v e)
  flip_at-Flips simple_ir b (boolean_not v) ir ir' alone n e h = cc
  flip_at-Flips simple_ir b (is_not_null v) ir ir' alone n e h = cc
  flip_at-Flips simple_ir b (other_condition v) ir ir' alone n e h = cc
  flip_at-Flips by_boolean_not b (comparison i) ir ir' alone n e h = cc
  flip_at-Flips by_boolean_not b (is_not_null v) ir ir' alone n e h = cc
  flip_at-Flips by_boolean_not b (other_condition v) ir ir' alone n e h = cc

-- What a flip never does: it makes no other comparison a condition, and no predicate one of the others.
pub record Kept (ir ir' : Ir) : Type 0 where
  pub conditions :
      (c j : ℕ) → ir'.condition c ≡ some (comparison j) → ir.condition c ≡ some (comparison j)
  pub predicates : (j : ℕ) → ir.predicate j ≢ other_predicate → ir'.predicate j ≢ other_predicate

inverse_predicate-other :
    (q : Predicate) → inverse_predicate q ≡ other_predicate → q ≡ other_predicate
unfolding inverse_predicate
inverse_predicate-other icmp_eq e = cc
inverse_predicate-other icmp_ne e = cc
inverse_predicate-other other_predicate e = refl

invert_predicate-Kept : (ir : Ir) (i : ℕ) → Kept ir (invert_predicate i ir)
unfolding invert_predicate
invert_predicate-Kept ir i = record {
  conditions = λ c j e. e;
  predicates = λ j n. elim (Bool-cases (j == i)) [
    | inl t ↦ λ e.
        let same : j ≡ i = (==_iff j i).0 t in
        n (ap ir.predicate same ∙ inverse_predicate-other (ir.predicate i) (rw t at e))
    | inr f ↦ λ e. n (rw f at e)
  ];
}

set_condition-Kept : (ir : Ir) (b v : ℕ) → Kept ir (set_condition b (is_not_null v) ir)
unfolding set_condition
set_condition-Kept ir b v = record {
  conditions = λ c j. elim (Bool-cases (c == b)) [
    | inl t ↦ λ e. absurd (impossible (rw t at e))
    | inr f ↦ λ e. rw f at e
  ];
  predicates = λ j n. n;
}
  where
    impossible : {j : ℕ} → ¬ (some (is_not_null v) ≡ some (comparison j))
    impossible e = cc

pub flip_at-Kept :
    (k : NotKind) (b : ℕ) (x : Condition) (ir ir' : Ir) → flip_at k b x ir ≡ some ir' → Kept ir ir'
unfolding flip_at
flip_at-Kept simple_ir b (comparison i) ir ir' h =
    subst (Kept ir) (of_some h) (invert_predicate-Kept ir i)
flip_at-Kept by_boolean_not b (boolean_not v) ir ir' h =
    subst (Kept ir) (of_some h) (set_condition-Kept ir b v)
flip_at-Kept simple_ir b (boolean_not v) ir ir' h = cc
flip_at-Kept simple_ir b (is_not_null v) ir ir' h = cc
flip_at-Kept simple_ir b (other_condition v) ir ir' h = cc
flip_at-Kept by_boolean_not b (comparison i) ir ir' h = cc
flip_at-Kept by_boolean_not b (is_not_null v) ir ir' h = cc
flip_at-Kept by_boolean_not b (other_condition v) ir ir' h = cc

pub Kept-NoSharing : {ir ir' : Ir} → Kept ir ir' → NoSharing ir → NoSharing ir'
Kept-NoSharing k alone a b i p q = alone a b i (k.conditions a i p) (k.conditions b i q)

pub Kept-Plain : {ir ir' : Ir} → Kept ir ir' → (b : ℕ) → Plain ir b → Plain ir' b
Kept-Plain k b n i e = k.predicates i (n i (k.conditions b i e))
