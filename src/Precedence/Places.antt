-- ===== src/Precedence/Places.antt =====
-- Where an operand that lib/Canonicalize/OperatorPrecedenceResolutionPass.cpp puts in no parentheses
-- stands: its level is one that C takes there.
use revng_c.Prelude.{ℕ, suc, ◌≤◌, ◌<◌, true, false, ◌≡◌, ◌≢◌, refl, sym, ◌∙◌, ◌⊎◌, inl, inr, arith}
use revng_c.Precedence.{
  Opcode, logical_or, bitwise_or, xor, logical_and, bitwise_and, equality, relational, shl, lshr,
  ashr, add, sub, mul, udiv, sdiv, urem, srem, Value, left_to_right, right_to_left, is_ternary,
  is_nary, is_binary, OperatorInfo, prefix, postfix, opcode_info, Side, lhs, rhs, binary_side,
  same_precedence, traverse_transparent,
}
use revng_c.Precedence.Grammar.{c_level}
use revng_c.Precedence.Levels.{level, level-traverse_transparent, opcode_facts, Tighter}
use revng_c.Precedence.Operands.{
  Bare, NotIndirection, NotIndirection-traverse_transparent, NotEquality,
  NotEquality-traverse_transparent, AtMost, no_more, of_call, of_indirection, of_equality,
  operand_level,
}

abbrev pub calling : OperatorInfo
calling = record {
  precedence = 0;
  classes_to_force = 0;
  associativity = left_to_right;
  arity = is_nary;
}

abbrev pub ternary : OperatorInfo
ternary = record {
  precedence = 13;
  classes_to_force = 0;
  associativity = right_to_left;
  arity = is_ternary;
}

at_most_precedence :
    (i : OperatorInfo) (side : Side) (o : OperatorInfo)
    → Tighter i side o
    → o.precedence ≤ i.precedence
at_most_precedence i side o (inl l) = omega (arith, l)
at_most_precedence i side o (inr (e, f)) = omega (arith, e)

below_ternary : (side : Side) (o : OperatorInfo) → Tighter ternary side o → o.precedence < 13
unfolding same_precedence
below_ternary side o (inl l) = l
below_ternary side o (inr (e, f)) = cc

right_two :
    (i : OperatorInfo)
    → i.arity ≡ is_binary
    → i.associativity ≡ left_to_right
    → same_precedence i.arity i.associativity rhs ≡ true
unfolding same_precedence binary_side
right_two i p q = rw (p, q)

below_right :
    (op : Opcode) (o : OperatorInfo)
    → Tighter (opcode_info op) rhs o
    → o.precedence < (opcode_info op).precedence
unfolding same_precedence binary_side
below_right op o (inl l) = l
below_right op o (inr (e, f)) =
    let g : true ≡ false =
      sym (right_two (opcode_info op) (opcode_facts op).two (opcode_facts op).left) ∙ f in
    cc

module _ (v : Value) where
  of_traversed : (l : ℕ) → level (traverse_transparent v) ≤ l → level v ≤ l
  of_traversed l h = omega (arith, h, level-traverse_transparent v)

  pub prefix_operand : Bare prefix lhs (traverse_transparent v) → level v ≤ 2
  prefix_operand b = of_traversed 2 (operand_level prefix lhs (traverse_transparent v) 2 b fits)
    where
      fits :
          (o : OperatorInfo)
          → Tighter prefix lhs o
          → AtMost o.precedence (traverse_transparent v)
          → level (traverse_transparent v) ≤ 2
      fits o t (no_more h) = omega (arith, at_most_precedence prefix lhs o t, h)
      fits o t (of_call h) = omega (arith, h)
      fits o t (of_indirection h p n) = omega (arith, h)
      fits o t (of_equality h p n) = absurd (omega (arith, at_most_precedence prefix lhs o t, p))

  pub dereferenced : Bare postfix lhs (traverse_transparent v) → level v ≤ 2
  dereferenced b = of_traversed 2 (operand_level postfix lhs (traverse_transparent v) 2 b fits)
    where
      fits :
          (o : OperatorInfo)
          → Tighter postfix lhs o
          → AtMost o.precedence (traverse_transparent v)
          → level (traverse_transparent v) ≤ 2
      fits o t (no_more h) = omega (arith, at_most_precedence postfix lhs o t, h)
      fits o t (of_call h) = omega (arith, h)
      fits o t (of_indirection h p n) = omega (arith, h)
      fits o t (of_equality h p n) = absurd (omega (arith, at_most_precedence postfix lhs o t, p))

  pub accessed : NotIndirection v → Bare postfix lhs (traverse_transparent v) → level v ≤ 1
  accessed d b = of_traversed 1 (operand_level postfix lhs (traverse_transparent v) 1 b fits)
    where
      fits :
          (o : OperatorInfo)
          → Tighter postfix lhs o
          → AtMost o.precedence (traverse_transparent v)
          → level (traverse_transparent v) ≤ 1
      fits o t (no_more h) = omega (arith, at_most_precedence postfix lhs o t, h)
      fits o t (of_call h) = omega (arith, h)
      fits o t (of_indirection h p n) = absurd (n (NotIndirection-traverse_transparent v d))
      fits o t (of_equality h p n) = absurd (omega (arith, at_most_precedence postfix lhs o t, p))

  pub callee : Bare calling lhs (traverse_transparent v) → level v ≤ 1
  callee b = of_traversed 1 (operand_level calling lhs (traverse_transparent v) 1 b fits)
    where
      fits :
          (o : OperatorInfo)
          → Tighter calling lhs o
          → AtMost o.precedence (traverse_transparent v)
          → level (traverse_transparent v) ≤ 1
      fits o t (no_more h) = omega (arith, at_most_precedence calling lhs o t, h)
      fits o t (of_call h) = omega (arith, h)
      fits o t (of_indirection h p n) =
          absurd (omega (arith, at_most_precedence calling lhs o t, p))
      fits o t (of_equality h p n) = absurd (omega (arith, at_most_precedence calling lhs o t, p))

  pub branch : (side : Side) → Bare ternary side (traverse_transparent v) → level v ≤ 12
  branch side b = of_traversed 12 (operand_level ternary side (traverse_transparent v) 12 b fits)
    where
      fits :
          (o : OperatorInfo)
          → Tighter ternary side o
          → AtMost o.precedence (traverse_transparent v)
          → level (traverse_transparent v) ≤ 12
      fits o t (no_more h) = omega (arith, below_ternary side o t, h)
      fits o t (of_call h) = omega (arith, h)
      fits o t (of_indirection h p n) = omega (arith, h)
      fits o t (of_equality h p n) = omega (arith, h)

-- only a relational operator stands between the two precedences of a comparison for equality
dec_relational :
    (op : Opcode) → (op ≡ relational) ⊎ (6 ≤ (opcode_info op).precedence → 7 ≤ c_level op)
unfolding opcode_info c_level
dec_relational relational = inl refl
dec_relational equality = inr (λ h. omega arith)
dec_relational logical_or = inr (λ h. omega arith)
dec_relational bitwise_or = inr (λ h. omega arith)
dec_relational xor = inr (λ h. omega arith)
dec_relational logical_and = inr (λ h. omega arith)
dec_relational bitwise_and = inr (λ h. omega arith)
dec_relational shl = inr (λ h. omega (arith, h))
dec_relational lshr = inr (λ h. omega (arith, h))
dec_relational ashr = inr (λ h. omega (arith, h))
dec_relational add = inr (λ h. omega (arith, h))
dec_relational sub = inr (λ h. omega (arith, h))
dec_relational mul = inr (λ h. omega (arith, h))
dec_relational udiv = inr (λ h. omega (arith, h))
dec_relational sdiv = inr (λ h. omega (arith, h))
dec_relational urem = inr (λ h. omega (arith, h))
dec_relational srem = inr (λ h. omega (arith, h))

seven_below : (p : ℕ) → 7 ≤ p → p ≢ 7 → 8 ≤ p
seven_below p h n = ground arith

module _ (op : Opcode) (v : Value) where
  at_least_three : 3 ≤ c_level op
  at_least_three = omega (arith, (opcode_facts op).at_least, (opcode_facts op).below_level)

  pub left_operand :
      (op ≡ relational → NotEquality v)
      → Bare (opcode_info op) lhs (traverse_transparent v)
      → level v ≤ c_level op
  left_operand n b =
      of_traversed v (c_level op)
        (operand_level (opcode_info op) lhs (traverse_transparent v) (c_level op) b fits)
    where
      fits :
          (o : OperatorInfo)
          → Tighter (opcode_info op) lhs o
          → AtMost o.precedence (traverse_transparent v)
          → level (traverse_transparent v) ≤ c_level op
      fits o t (no_more h) =
          omega
            (arith, at_most_precedence (opcode_info op) lhs o t, h, (opcode_facts op).below_level)
      fits o t (of_call h) = omega (arith, h, at_least_three)
      fits o t (of_indirection h p q) = omega (arith, h, at_least_three)
      fits o t (of_equality h p q) = elim (dec_relational op) [
        | inl r ↦ absurd (q (NotEquality-traverse_transparent v (n r)))
        | inr k ↦
            let m : 6 ≤ (opcode_info op).precedence =
              omega (arith, at_most_precedence (opcode_info op) lhs o t, p) in
            omega (arith, h, k m)
      ]

  pub right_operand :
      (l : ℕ)
      → suc l ≡ c_level op
      → Bare (opcode_info op) rhs (traverse_transparent v)
      → level v ≤ l
  right_operand l e b =
      of_traversed v l (operand_level (opcode_info op) rhs (traverse_transparent v) l b fits)
    where
      fits :
          (o : OperatorInfo)
          → Tighter (opcode_info op) rhs o
          → AtMost o.precedence (traverse_transparent v)
          → level (traverse_transparent v) ≤ l
      fits o t (no_more h) = omega (arith, below_right op o t, h, (opcode_facts op).below_level, e)
      fits o t (of_call h) = omega (arith, h, at_least_three, e)
      fits o t (of_indirection h p q) = omega (arith, h, at_least_three, e)
      fits o t (of_equality h p q) =
          let m : 8 ≤ (opcode_info op).precedence =
            seven_below (opcode_info op).precedence (omega (arith, below_right op o t, p))
              (opcode_facts op).not_seven in
          omega (arith, h, m, (opcode_facts op).below_level, e)
