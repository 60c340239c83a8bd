-- ===== src/Precedence/Levels.antt =====
-- The precedence that lib/Canonicalize/OperatorPrecedenceResolutionPass.cpp gives an operand against
-- the level that the operand has in C.
use revng_c.Prelude.{
  ℕ, ◌+◌, ◌≤◌, ◌<◌, Bool, true, false, ◌==◌, ==_iff, ltb, some, if◌then◌else◌, ◌≡◌, ◌≢◌, refl, sym,
  ap, ◌∙◌, ◌⊎◌, inl, inr, arith, Bool-cases,
}
use Prim.Native.Nat.{◌-◌}
use revng_c.Precedence.{
  Opcode, logical_or, bitwise_or, xor, logical_and, bitwise_and, equality, relational, shl, lshr,
  ashr, add, sub, mul, udiv, sdiv, urem, srem, Value, leaf, variable, transparent, resize, unary,
  indirection, access, binary, select, call, parentheses, Associativity, left_to_right,
  right_to_left, is_binary, OperatorInfo, opcode_info, Side, same_associativity, same_precedence,
  compare_precedence, traverse_transparent,
}
use revng_c.Precedence.Grammar.{c_level}

-- the level of the text of a value
unfoldable pub level : Value → ℕ
unfolding c_level
level (leaf n) = 0
level (variable n) = 0
level (transparent v) = level v
level (resize v) = 2
level (unary op v) = 2
level (indirection v) = 2
level (access n v) = 1
level (binary op a b) = c_level op
level (select c t e) = 13
level (call f vs) = 1
level (parentheses v) = 0

pub level-traverse_transparent : (v : Value) → level (traverse_transparent v) ≡ level v
unfolding level traverse_transparent
level-traverse_transparent (transparent v) = level-traverse_transparent v
level-traverse_transparent (leaf n) = refl
level-traverse_transparent (variable n) = refl
level-traverse_transparent (resize v) = refl
level-traverse_transparent (unary op v) = refl
level-traverse_transparent (indirection v) = refl
level-traverse_transparent (access n v) = refl
level-traverse_transparent (binary op a b) = refl
level-traverse_transparent (select c t e) = refl
level-traverse_transparent (call f vs) = refl
level-traverse_transparent (parentheses v) = refl

-- the associativity that all operators of a precedence have in the table
abbrev pub usual : ℕ → Associativity
usual p = if p == 2 then right_to_left else if p == 13 then right_to_left else left_to_right

pub record OpcodeFacts (op : Opcode) : Type 0 where
  pub at_least : 3 ≤ (opcode_info op).precedence
  pub at_most : (opcode_info op).precedence ≤ 12
  pub not_seven : (opcode_info op).precedence ≢ 7
  pub below_level : (opcode_info op).precedence ≤ c_level op
  pub level_bound : c_level op ≤ (opcode_info op).precedence + 1
  pub is_usual : (opcode_info op).associativity ≡ usual (opcode_info op).precedence
  pub left : (opcode_info op).associativity ≡ left_to_right
  pub two : (opcode_info op).arity ≡ is_binary

pub opcode_facts : (op : Opcode) → OpcodeFacts op
unfolding opcode_info c_level
opcode_facts logical_or = ground arith
opcode_facts bitwise_or = ground arith
opcode_facts xor = ground arith
opcode_facts logical_and = ground arith
opcode_facts bitwise_and = ground arith
opcode_facts equality = ground arith
opcode_facts relational = ground arith
opcode_facts shl = ground arith
opcode_facts lshr = ground arith
opcode_facts ashr = ground arith
opcode_facts add = ground arith
opcode_facts sub = ground arith
opcode_facts mul = ground arith
opcode_facts udiv = ground arith
opcode_facts sdiv = ground arith
opcode_facts urem = ground arith
opcode_facts srem = ground arith

-- What is known when no parentheses are needed.
abbrev pub Tighter : OperatorInfo → Side → OperatorInfo → Type 0
Tighter i side o =
    (o.precedence < i.precedence)
    ⊎ ((o.precedence ≡ i.precedence) × (same_precedence i.arity i.associativity side ≡ false))

same_associativity_refl : (a : Associativity) → same_associativity a a ≡ true
unfolding same_associativity
same_associativity_refl left_to_right = refl
same_associativity_refl right_to_left = refl

pub compare_precedence_lem :
    (i o : OperatorInfo) (side : Side)
    → i.associativity ≡ usual i.precedence
    → o.associativity ≡ usual o.precedence
    → (b : Bool) × (compare_precedence i side o ≡ some b) × (b ≡ false → Tighter i side o)
unfolding compare_precedence
compare_precedence_lem i o side p q = elim (Bool-cases (i.precedence == o.precedence)) [
  | inl e ↦
      let same : i.precedence ≡ o.precedence = (==_iff i.precedence o.precedence).0 e in
      let a : i.associativity ≡ o.associativity = p ∙ ap usual same ∙ sym q in
      let a' : same_associativity i.associativity o.associativity ≡ true =
        ap (same_associativity i.associativity) (sym a) ∙ same_associativity_refl i.associativity in
      (same_precedence i.arity i.associativity side, rw (e, a'), λ h. inr (sym same, h))
  | inr e ↦ elim (Bool-cases (ltb i.precedence o.precedence)) [
    | inl l ↦ (true, rw (e, l), λ h. cc)
    | inr l ↦ (
      if ltb i.classes_to_force (i.precedence - o.precedence) then false else true,
      rw (e, l),
      λ h. inl (ground arith),
    )
  ]
]

-- The table and the standard agree but on the comparisons for equality.
pub opcode_level :
    (op : Opcode)
    → (c_level op ≡ (opcode_info op).precedence)
      ⊎ ((op ≡ equality) × (c_level op ≡ 7) × ((opcode_info op).precedence ≡ 6))
unfolding opcode_info c_level
opcode_level equality = inr (refl, refl, refl)
opcode_level logical_or = inl refl
opcode_level bitwise_or = inl refl
opcode_level xor = inl refl
opcode_level logical_and = inl refl
opcode_level bitwise_and = inl refl
opcode_level relational = inl refl
opcode_level shl = inl refl
opcode_level lshr = inl refl
opcode_level ashr = inl refl
opcode_level add = inl refl
opcode_level sub = inl refl
opcode_level mul = inl refl
opcode_level udiv = inl refl
opcode_level sdiv = inl refl
opcode_level urem = inl refl
opcode_level srem = inl refl
