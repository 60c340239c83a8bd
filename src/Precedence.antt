-- ===== src/Precedence.antt =====
-- lib/Canonicalize/OperatorPrecedenceResolutionPass.cpp: which operands of an expression are put in
-- parentheses, with the table of C.
-- An LLVM value is what the pass and the printer tell apart. What the pass takes from LLVM, the opcode
-- and the tags of a call, is the constructor.
pub mod Printing
pub mod Grammar
pub mod Levels
pub mod Operands
pub mod Starts
pub mod Places
pub mod Faithful
pub mod Misread
use revng_c.Prelude.{
  ℕ, Bool, true, false, ◌==◌, ltb, Option, some, none, List, [], ◌∷◌, ◌++◌, ◌>>=◌, if◌then◌else◌,
}
use Prim.Native.Nat.{◌-◌}

-- the opcodes of binary operators: `or` and `and` on i1 are logical; a comparison is one for equality
-- or a relational one
pub data Opcode : Type 0 where
  logical_or bitwise_or xor logical_and bitwise_and equality relational : Opcode
  shl lshr ashr add sub mul udiv sdiv urem srem : Opcode

-- AddressOf, an explicit ModelCast, UnaryMinus, BinaryNot, BooleanNot
pub data UnaryOp : Type 0 where
  address_of cast unary_minus binary_not boolean_not : UnaryOp

mutual
  pub data Value : Type 0 where
    -- a constant or an argument
    leaf : ℕ → Value
    -- an instruction that is emitted as an identifier: a call of a helper, a local variable, a segment
    variable : ℕ → Value
    -- a copy, a bit cast, a freeze, an implicit ModelCast, a ModelGEPRef with no access
    transparent : Value → Value
    -- sext, zext, trunc, and a ModelCast to the type of its operand, which are printed as their operand
    resize : Value → Value
    unary : UnaryOp → Value → Value
    -- a ModelGEP with the index 0 and nothing else
    indirection : Value → Value
    -- the base and what follows it, but for an access through a pointer to an array, whose dereference is
    -- printed in parentheses anyway
    access : ℕ → Value → Value
    binary : Opcode → Value → Value → Value
    select : Value → Value → Value → Value
    call : Value → Values → Value
    -- FunctionTags::Parentheses
    parentheses : Value → Value

  pub data Values : Type 0 where
    nil : Values
    cons : Value → Values → Values

pub data Associativity : Type 0 where
  left_to_right right_to_left : Associativity

pub data Arity : Type 0 where
  is_unary is_binary is_ternary is_nary : Arity

pub record OperatorInfo : Type 0 where
  pub precedence : ℕ
  pub classes_to_force : ℕ
  pub associativity : Associativity
  pub arity : Arity

abbrev pub left_binary : ℕ → ℕ → OperatorInfo
left_binary p f = record {
  precedence = p;
  classes_to_force = f;
  associativity = left_to_right;
  arity = is_binary;
}

abbrev pub prefix : OperatorInfo
prefix = record {
  precedence = 2;
  classes_to_force = 0;
  associativity = right_to_left;
  arity = is_unary;
}

abbrev pub postfix : OperatorInfo
postfix = record {
  precedence = 1;
  classes_to_force = 0;
  associativity = left_to_right;
  arity = is_unary;
}

-- the table for the opcodes
unfoldable pub opcode_info : Opcode → OperatorInfo
opcode_info logical_or = left_binary 12 0
opcode_info bitwise_or = left_binary 10 7
opcode_info xor = left_binary 9 6
opcode_info logical_and = left_binary 11 0
opcode_info bitwise_and = left_binary 8 5
opcode_info equality = left_binary 6 0
opcode_info relational = left_binary 6 0
opcode_info shl = left_binary 5 2
opcode_info lshr = left_binary 5 2
opcode_info ashr = left_binary 5 2
opcode_info add = left_binary 4 0
opcode_info sub = left_binary 4 0
opcode_info mul = left_binary 3 0
opcode_info udiv = left_binary 3 0
opcode_info sdiv = left_binary 3 0
opcode_info urem = left_binary 3 0
opcode_info srem = left_binary 3 0

-- getPrecedenceImpl. An indirection has its index as operand 2, so it has no fewer than 3 operands,
-- and the branch for it is not taken: it is a member access there.
unfoldable pub get_precedence : Value → Option OperatorInfo
unfolding opcode_info
get_precedence (leaf n) = none
get_precedence (variable n) = none
get_precedence (transparent v) = none
get_precedence (resize v) = some prefix
get_precedence (unary op v) = some prefix
get_precedence (indirection v) = some postfix
get_precedence (access n v) = some postfix
get_precedence (binary op a b) = some (opcode_info op)
get_precedence (select c t e) = some (record {
  precedence = 13;
  classes_to_force = 0;
  associativity = right_to_left;
  arity = is_ternary;
})
get_precedence (call f vs) = some (record {
  precedence = 0;
  classes_to_force = 0;
  associativity = left_to_right;
  arity = is_nary;
})
get_precedence (parentheses v) = none

-- where an operand stands
pub data Side : Type 0 where
  lhs rhs : Side

unfoldable pub same_associativity : Associativity → Associativity → Bool
same_associativity left_to_right left_to_right = true
same_associativity left_to_right right_to_left = false
same_associativity right_to_left left_to_right = false
same_associativity right_to_left right_to_left = true

unfoldable pub binary_side : Associativity → Side → Bool
binary_side left_to_right lhs = false
binary_side left_to_right rhs = true
binary_side right_to_left rhs = false
binary_side right_to_left lhs = true

unfoldable pub same_precedence : Arity → Associativity → Side → Bool
unfolding binary_side
same_precedence is_nary a s = false
same_precedence is_unary a s = false
same_precedence is_binary a s = binary_side a s
same_precedence is_ternary a s = true

-- the comparison at the end of needsParentheses; `none` where an assertion fails
unfoldable pub compare_precedence : OperatorInfo → Side → OperatorInfo → Option Bool
unfolding same_associativity same_precedence
compare_precedence i side o =
    if i.precedence == o.precedence
    then (if same_associativity i.associativity o.associativity
        then some (same_precedence i.arity i.associativity side)
        else none)
    else if ltb i.precedence o.precedence
    then some true
    else some (if ltb i.classes_to_force (i.precedence - o.precedence) then false else true)

-- traverseTransparentOpcodes
unfoldable pub traverse_transparent : Value → Value
traverse_transparent (transparent v) = traverse_transparent v
traverse_transparent (leaf n) = leaf n
traverse_transparent (variable n) = variable n
traverse_transparent (resize v) = resize v
traverse_transparent (unary op v) = unary op v
traverse_transparent (indirection v) = indirection v
traverse_transparent (access n v) = access n v
traverse_transparent (binary op a b) = binary op a b
traverse_transparent (select c t e) = select c t e
traverse_transparent (call f vs) = call f vs
traverse_transparent (parentheses v) = parentheses v

unfoldable pub is_identifier : Value → Bool
is_identifier (leaf n) = true
is_identifier (variable n) = true
is_identifier (transparent v) = false
is_identifier (resize v) = false
is_identifier (unary op v) = false
is_identifier (indirection v) = false
is_identifier (access n v) = false
is_identifier (binary op a b) = false
is_identifier (select c t e) = false
is_identifier (call f vs) = false
is_identifier (parentheses v) = false

-- needsParentheses, for an instruction whose operands have to be looked at and an operand
unfoldable pub needs_parentheses : Value → Side → Value → Option Bool
unfolding traverse_transparent is_identifier get_precedence compare_precedence
needs_parentheses i side operand =
    let op = traverse_transparent operand in
    if is_identifier op
    then some false
    else get_precedence i >>= λ info.
        get_precedence op >>= λ info'. compare_precedence info side info'

abbrev pub wrap : Bool → Value → Value
wrap b v = if b then parentheses v else v

-- runOnFunction: all operands are looked at before any is put in parentheses. No parentheses are put
-- around arguments of calls and the operands of transparent instructions.
unfoldable mutual
  unfolding needs_parentheses

  pub resolve : Value → Option Value
  resolve (leaf n) = some (leaf n)
  resolve (variable n) = some (variable n)
  resolve (transparent v) = resolve v >>= λ v'. some (transparent v')
  resolve (resize v) =
      needs_parentheses (resize v) lhs v >>= λ b. resolve v >>= λ v'. some (resize (wrap b v'))
  resolve (unary op v) =
      needs_parentheses (unary op v) lhs v >>= λ b. resolve v >>= λ v'. some (unary op (wrap b v'))
  resolve (indirection v) = needs_parentheses (indirection v) lhs v >>= λ b.
      resolve v >>= λ v'. some (indirection (wrap b v'))
  resolve (access n v) =
      needs_parentheses (access n v) lhs v >>= λ b. resolve v >>= λ v'. some (access n (wrap b v'))
  resolve (binary op a b) = needs_parentheses (binary op a b) lhs a >>= λ p.
      needs_parentheses (binary op a b) rhs b >>= λ q.
      resolve a >>= λ a'. resolve b >>= λ b'. some (binary op (wrap p a') (wrap q b'))
  resolve (select c t e) = needs_parentheses (select c t e) lhs c >>= λ p.
      needs_parentheses (select c t e) rhs t >>= λ q.
      needs_parentheses (select c t e) rhs e >>= λ r. resolve c >>= λ c'.
      resolve t >>= λ t'. resolve e >>= λ e'. some (select (wrap p c') (wrap q t') (wrap r e'))
  resolve (call f vs) = needs_parentheses (call f vs) lhs f >>= λ b.
      resolve f >>= λ f'. resolve_all vs >>= λ vs'. some (call (wrap b f') vs')
  resolve (parentheses v) = resolve v >>= λ v'. some (parentheses v')

  pub resolve_all : Values → Option Values
  resolve_all nil = some nil
  resolve_all (cons v vs) = resolve v >>= λ v'. resolve_all vs >>= λ vs'. some (cons v' vs')
