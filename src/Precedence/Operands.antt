-- ===== src/Precedence/Operands.antt =====
-- An operand that lib/Canonicalize/OperatorPrecedenceResolutionPass.cpp puts in no parentheses may stand
-- where it stands.
use revng_c.Prelude.{
  ℕ, ◌≤◌, Bool, true, false, some, ◌≡◌, ◌≢◌, refl, sym, ap, ◌⊎◌, inl, inr, arith, of_some,
}
use revng_c.Precedence.{
  equality, Value, leaf, variable, transparent, resize, unary, indirection, access, binary, select,
  call, parentheses, OperatorInfo, opcode_info, get_precedence, Side, traverse_transparent,
  is_identifier, needs_parentheses,
}
use revng_c.Precedence.Levels.{
  level, usual, opcode_facts, opcode_level, Tighter, compare_precedence_lem,
}

-- a value that the pass has not visited
abbrev pub HasInfo : Value → Type 0
HasInfo o =
    (is_identifier o ≡ true)
    ⊎ ((info : OperatorInfo) × (is_identifier o ≡ false)
        × (get_precedence o ≡ some info)
        × (info.associativity ≡ usual info.precedence))

abbrev pub IsOpen : Value → Type 0
IsOpen (transparent v) = IsOpen v
IsOpen (parentheses v) = ⊥
IsOpen (leaf n) = Unit
IsOpen (variable n) = Unit
IsOpen (resize v) = Unit
IsOpen (unary op v) = Unit
IsOpen (indirection v) = Unit
IsOpen (access n v) = Unit
IsOpen (binary op a b) = Unit
IsOpen (select c t e) = Unit
IsOpen (call f vs) = Unit

pub traverse_transparent-HasInfo : (v : Value) → IsOpen v → HasInfo (traverse_transparent v)
unfolding traverse_transparent is_identifier get_precedence
traverse_transparent-HasInfo (transparent v) h = traverse_transparent-HasInfo v h
traverse_transparent-HasInfo (parentheses v) h = absurd h
traverse_transparent-HasInfo (leaf n) h = inl refl
traverse_transparent-HasInfo (variable n) h = inl refl
traverse_transparent-HasInfo (resize v) h = inr (_, refl, refl, refl)
traverse_transparent-HasInfo (unary op v) h = inr (_, refl, refl, refl)
traverse_transparent-HasInfo (indirection v) h = inr (_, refl, refl, refl)
traverse_transparent-HasInfo (access n v) h = inr (_, refl, refl, refl)
traverse_transparent-HasInfo (binary op a b) h =
    inr (opcode_info op, refl, refl, (opcode_facts op).is_usual)
traverse_transparent-HasInfo (select c t e) h = inr (_, refl, refl, refl)
traverse_transparent-HasInfo (call f vs) h = inr (_, refl, refl, refl)

-- an operand with no parentheses: an identifier, or an operator that binds as the table says
abbrev pub Bare : OperatorInfo → Side → Value → Type 0
Bare i side o =
    (is_identifier o ≡ true)
    ⊎ ((info : OperatorInfo) × (get_precedence o ≡ some info) × Tighter i side info)

-- The pass decides on each operand, and what it leaves without parentheses is bare.
pub needs_parentheses_lem :
    (i : Value) (info : OperatorInfo) (side : Side) (v : Value)
    → get_precedence i ≡ some info
    → info.associativity ≡ usual info.precedence
    → IsOpen v
    → (b : Bool) × (needs_parentheses i side v ≡ some b)
      × (b ≡ false → Bare info side (traverse_transparent v))
unfolding needs_parentheses
needs_parentheses_lem i info side v p u h = elim (traverse_transparent-HasInfo v h) [
  | inl e ↦ (false, rw e, λ _. inl e)
  | inr (info', e, q, u') ↦
      let (b, c, t) = compare_precedence_lem info info' side u u' in
      (b, rw (e, p, q, c), λ f. inr (info', q, t f))
]

-- the two values whose place in the table is not their level in C
abbrev pub NotIndirection : Value → Type 0
NotIndirection (indirection v) = ⊥
NotIndirection (transparent v) = NotIndirection v
NotIndirection (leaf n) = Unit
NotIndirection (variable n) = Unit
NotIndirection (resize v) = Unit
NotIndirection (unary op v) = Unit
NotIndirection (access n v) = Unit
NotIndirection (binary op a b) = Unit
NotIndirection (select c t e) = Unit
NotIndirection (call f vs) = Unit
NotIndirection (parentheses v) = Unit

abbrev pub NotEquality : Value → Type 0
NotEquality (binary op a b) = op ≢ equality
NotEquality (transparent v) = NotEquality v
NotEquality (leaf n) = Unit
NotEquality (variable n) = Unit
NotEquality (resize v) = Unit
NotEquality (unary op v) = Unit
NotEquality (indirection v) = Unit
NotEquality (access n v) = Unit
NotEquality (select c t e) = Unit
NotEquality (call f vs) = Unit
NotEquality (parentheses v) = Unit

pub NotIndirection-traverse_transparent :
    (v : Value) → NotIndirection v → NotIndirection (traverse_transparent v)
unfolding traverse_transparent
NotIndirection-traverse_transparent (transparent v) h = NotIndirection-traverse_transparent v h
NotIndirection-traverse_transparent (indirection v) h = h
NotIndirection-traverse_transparent (leaf n) h = h
NotIndirection-traverse_transparent (variable n) h = h
NotIndirection-traverse_transparent (resize v) h = h
NotIndirection-traverse_transparent (unary op v) h = h
NotIndirection-traverse_transparent (access n v) h = h
NotIndirection-traverse_transparent (binary op a b) h = h
NotIndirection-traverse_transparent (select c t e) h = h
NotIndirection-traverse_transparent (call f vs) h = h
NotIndirection-traverse_transparent (parentheses v) h = h

pub NotEquality-traverse_transparent :
    (v : Value) → NotEquality v → NotEquality (traverse_transparent v)
unfolding traverse_transparent
NotEquality-traverse_transparent (transparent v) h = NotEquality-traverse_transparent v h
NotEquality-traverse_transparent (indirection v) h = h
NotEquality-traverse_transparent (leaf n) h = h
NotEquality-traverse_transparent (variable n) h = h
NotEquality-traverse_transparent (resize v) h = h
NotEquality-traverse_transparent (unary op v) h = h
NotEquality-traverse_transparent (access n v) h = h
NotEquality-traverse_transparent (binary op a b) h = h
NotEquality-traverse_transparent (select c t e) h = h
NotEquality-traverse_transparent (call f vs) h = h
NotEquality-traverse_transparent (parentheses v) h = h

-- the level of a value with precedence `p` in the table: no more, but for calls, indirections and
-- comparisons for equality
pub data AtMost (p : ℕ) (o : Value) : Type 0 where
  no_more : level o ≤ p → AtMost p o
  of_call : level o ≡ 1 → AtMost p o
  of_indirection : level o ≡ 2 → p ≡ 1 → ¬ NotIndirection o → AtMost p o
  of_equality : level o ≡ 7 → p ≡ 6 → ¬ NotEquality o → AtMost p o

precedence_of : {i j : OperatorInfo} → some i ≡ some j → i.precedence ≡ j.precedence
precedence_of e = ap (λ x. x.precedence) (of_some e)

table_level :
    (o : Value) (info : OperatorInfo) → get_precedence o ≡ some info → AtMost info.precedence o
unfolding get_precedence level
table_level (leaf n) info e = cc
table_level (variable n) info e = cc
table_level (transparent v) info e = cc
table_level (parentheses v) info e = cc
table_level (resize v) info e = no_more (omega (arith, precedence_of e))
table_level (unary op v) info e = no_more (omega (arith, precedence_of e))
table_level (indirection v) info e = of_indirection refl (sym (precedence_of e)) (λ h. h)
table_level (access n v) info e = no_more (omega (arith, precedence_of e))
table_level (binary op a b) info e = elim (opcode_level op) [
  | inl p ↦ no_more (omega (arith, precedence_of e))
  | inr (p, q, r) ↦ of_equality q (omega (arith, precedence_of e)) (λ h. h p)
]
table_level (select c t x) info e = no_more (omega (arith, precedence_of e))
table_level (call f vs) info e = of_call refl

identifier_level : (o : Value) → is_identifier o ≡ true → level o ≡ 0
unfolding is_identifier level
identifier_level (leaf n) e = refl
identifier_level (variable n) e = refl
identifier_level (transparent v) e = cc
identifier_level (parentheses v) e = cc
identifier_level (resize v) e = cc
identifier_level (unary op v) e = cc
identifier_level (indirection v) e = cc
identifier_level (access n v) e = cc
identifier_level (binary op a b) e = cc
identifier_level (select c t x) e = cc
identifier_level (call f vs) e = cc

-- A bare operand has a level `l` that every way to be bare allows.
pub operand_level :
    (i : OperatorInfo) (side : Side) (o : Value) (l : ℕ)
    → Bare i side o
    → ((info : OperatorInfo) → Tighter i side info → AtMost info.precedence o → level o ≤ l)
    → level o ≤ l
operand_level i side o l (inl e) k = omega (arith, identifier_level o e)
operand_level i side o l (inr (info, p, t)) k = k info t (table_level o info p)
