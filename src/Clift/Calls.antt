-- ===== src/Clift/Calls.antt =====
-- lib/mlir/Dialect/Clift/IR/CliftOps.cpp: CallOp, its check, its text and the parser of the text.
-- The names of the operands and the attributes are MLIR's to print and to read. What is modelled of
-- the text is the types: that of the function and those of the arguments, where they have to be given.
pub mod RoundTrip
use revng_c.Prelude.{
  ℕ, zero, suc, Bool, true, false, ◌&&◌, not, ◌==◌, Option, some, none, List, [], ◌∷◌, ◌++◌, ◌>>=◌,
  if◌then◌else◌, map,
}
use revng_c.Clift.Types.{
  ValueType, primitive, pointer, array, defined, scalar_tuple, TypeDefinition, struct, union,
  enumeration, typedef, function, ValueTypes, nil, cons, decompose_typedef, dealias, same_type,
  remove_const,
}
use revng_c.Clift.Signature.{
  lparen, rparen, comma, arrow, keyword_as, type_token, other, Tokens, parse_type, expect_rparen,
  print_others,
}

pub record Call : Type 0 where
  pub function_type : ValueType
  pub arguments : List ValueType
  pub result : ValueType

-- The return type and the parameter types of a function type
abbrev pub Callee : Type 0
Callee = ValueType × List ValueType

unfoldable pub types_of : ValueTypes → List ValueType
types_of nil = []
types_of (cons t ts) = t ∷ types_of ts

unfoldable pub function_definition : TypeDefinition → Option Callee
unfolding types_of
function_definition (struct i) = none
function_definition (union i) = none
function_definition (enumeration i n t fs) = none
function_definition (typedef i n t) = none
function_definition (function i n r ts) = some (r, types_of ts)

unfoldable pub function_type_at : ValueType → Option Callee
unfolding function_definition
function_type_at (primitive k s c) = none
function_type_at (pointer t s c) = none
function_type_at (array t n) = none
function_type_at (defined d c) = function_definition d
function_type_at (scalar_tuple i) = none

-- getFunctionTypeAttr
unfoldable pub function_type_attr : ValueType → Option Callee
unfolding function_type_at dealias
function_type_attr t = function_type_at (dealias t)

unfoldable pub pointee_or_self : ValueType → ValueType
unfolding decompose_typedef
pointee_or_self (primitive k s c) = primitive k s c
pointee_or_self (pointer t s c) = (decompose_typedef t).0
pointee_or_self (array t n) = array t n
pointee_or_self (defined d c) = defined d c
pointee_or_self (scalar_tuple i) = scalar_tuple i

-- getFunctionOrFunctionPointerTypeAttr
unfoldable pub callee_of : ValueType → Option Callee
unfolding decompose_typedef pointee_or_self function_type_attr
callee_of t = function_type_attr (pointee_or_self (decompose_typedef t).0)

-- the comparison of argument and parameter types, and of how many there are
unfoldable pub arguments_match : List ValueType → List ValueType → Bool
arguments_match [] [] = true
arguments_match [] (p ∷ ps) = false
arguments_match (t ∷ ts) [] = false
arguments_match (t ∷ ts) (p ∷ ps) =
    same_type (remove_const t) (remove_const p) && arguments_match ts ps

unfoldable pub matches_callee : Call → Option Callee → Bool
unfolding arguments_match
matches_callee c none = false
matches_callee c (some (return_type, parameters)) =
    arguments_match c.arguments parameters && same_type c.result (remove_const return_type)

-- CallOp::verify
unfoldable pub verify_call : Call → Bool
unfolding matches_callee callee_of
verify_call c = matches_callee c (callee_of c.function_type)

-- RequiresExplicitArgumentTypes: some argument is not its unqualified parameter
unfoldable pub requires_explicit : List ValueType → List ValueType → Bool
requires_explicit [] [] = false
requires_explicit [] (p ∷ ps) = false
requires_explicit (t ∷ ts) [] = false
requires_explicit (t ∷ ts) (p ∷ ps) =
    if same_type t (remove_const p) then requires_explicit ts ps else true

unfoldable pub print_types : List ValueType → Tokens
unfolding print_others
print_types [] = []
print_types (t ∷ ts) = type_token t ∷ print_others ts

unfoldable pub print_argument_types : List ValueType → List ValueType → Tokens
unfolding requires_explicit print_types
print_argument_types arguments parameters =
    if requires_explicit arguments parameters
    then keyword_as ∷ (lparen ∷ (print_types arguments ++ (rparen ∷ [])))
    else []

-- CallOp::print, from the type of the function on; it fails where there is no function type
unfoldable pub print_call : Call → Option Tokens
unfolding print_argument_types callee_of
print_call c = callee_of c.function_type >>= λ (return_type, parameters).
    some (type_token c.function_type ∷ print_argument_types c.arguments parameters)

-- parseTypeList after its first type
unfoldable pub parse_more_types : Tokens → Option (List ValueType × Tokens)
parse_more_types (comma ∷ (type_token t ∷ ts)) =
    parse_more_types ts >>= λ (more, rest). some (t ∷ more, rest)
parse_more_types (comma ∷ (lparen ∷ ts)) = none
parse_more_types (comma ∷ (rparen ∷ ts)) = none
parse_more_types (comma ∷ (comma ∷ ts)) = none
parse_more_types (comma ∷ (arrow ∷ ts)) = none
parse_more_types (comma ∷ (keyword_as ∷ ts)) = none
parse_more_types (comma ∷ (other n ∷ ts)) = none
parse_more_types (comma ∷ []) = none
parse_more_types (lparen ∷ ts) = some ([], lparen ∷ ts)
parse_more_types (rparen ∷ ts) = some ([], rparen ∷ ts)
parse_more_types (arrow ∷ ts) = some ([], arrow ∷ ts)
parse_more_types (keyword_as ∷ ts) = some ([], keyword_as ∷ ts)
parse_more_types (type_token t ∷ ts) = some ([], type_token t ∷ ts)
parse_more_types (other n ∷ ts) = some ([], other n ∷ ts)
parse_more_types [] = some ([], [])

unfoldable pub parse_type_list : Tokens → Option (List ValueType × Tokens)
unfolding parse_type parse_more_types
parse_type_list ts =
    parse_type ts >>= λ (t, ts1). parse_more_types ts1 >>= λ (more, ts2). some (t ∷ more, ts2)

unfoldable pub parse_until_rparen : Tokens → Option (List ValueType × Tokens)
unfolding parse_type_list expect_rparen
parse_until_rparen ts =
    parse_type_list ts >>= λ (types, ts1). expect_rparen ts1 >>= λ ts2. some (types, ts2)

-- the types between the parentheses; there may be none
unfoldable pub parse_explicit : Tokens → Option (List ValueType × Tokens)
unfolding parse_until_rparen
parse_explicit (lparen ∷ (rparen ∷ ts)) = some ([], ts)
parse_explicit (lparen ∷ (lparen ∷ ts)) = parse_until_rparen (lparen ∷ ts)
parse_explicit (lparen ∷ (comma ∷ ts)) = parse_until_rparen (comma ∷ ts)
parse_explicit (lparen ∷ (arrow ∷ ts)) = parse_until_rparen (arrow ∷ ts)
parse_explicit (lparen ∷ (keyword_as ∷ ts)) = parse_until_rparen (keyword_as ∷ ts)
parse_explicit (lparen ∷ (type_token t ∷ ts)) = parse_until_rparen (type_token t ∷ ts)
parse_explicit (lparen ∷ (other n ∷ ts)) = parse_until_rparen (other n ∷ ts)
parse_explicit (lparen ∷ []) = parse_until_rparen []
parse_explicit (rparen ∷ ts) = none
parse_explicit (comma ∷ ts) = none
parse_explicit (arrow ∷ ts) = none
parse_explicit (keyword_as ∷ ts) = none
parse_explicit (type_token t ∷ ts) = none
parse_explicit (other n ∷ ts) = none
parse_explicit [] = none

abbrev pub starts_with_as : Tokens → Bool
starts_with_as [] = false
starts_with_as (lparen ∷ ts) = false
starts_with_as (rparen ∷ ts) = false
starts_with_as (comma ∷ ts) = false
starts_with_as (arrow ∷ ts) = false
starts_with_as (keyword_as ∷ ts) = true
starts_with_as (type_token t ∷ ts) = false
starts_with_as (other n ∷ ts) = false

unfoldable pub after_first : Tokens → Tokens
after_first [] = []
after_first (t ∷ ts) = ts

unfoldable pub parse_argument_types : List ValueType → Tokens → Option (List ValueType × Tokens)
unfolding after_first parse_explicit
parse_argument_types parameters ts =
    if starts_with_as ts
    then parse_explicit (after_first ts)
    else some (map remove_const parameters, ts)

abbrev pub length : List ValueType → ℕ
length [] = zero
length (t ∷ ts) = suc (length ts)

-- CallOp::parse, from the type of the function on, given the number of operands: as many types are
-- wanted, or resolving the operands fails. The result has the return type of the function.
unfoldable pub parse_call : ℕ → Tokens → Option (Call × Tokens)
unfolding parse_type callee_of parse_argument_types
parse_call operands ts = parse_type ts >>= λ (f, ts1). callee_of f >>= λ (return_type, parameters).
    parse_argument_types parameters ts1 >>= λ (arguments, ts2).
    if length arguments == operands
    then some (record { function_type = f; arguments = arguments; result = return_type }, ts2)
    else none
