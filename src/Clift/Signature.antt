-- ===== src/Clift/Signature.antt =====
-- lib/mlir/Dialect/Clift/IR/CliftOps.cpp: the text of the types of an operation, printed by
-- printCliftOpTypes and read by parseCliftOpTypes.
-- The text of one type is MLIR's to print and to read, and is one token here. The types of the
-- arguments are the first one and the list of the others, since there is at least one.
pub mod RoundTrip
use revng_c.Prelude.{
  ℕ, zero, suc, Bool, true, false, ◌&&◌, ◌||◌, Option, some, none, List, [], ◌∷◌, ◌++◌, ◌>>=◌,
  if◌then◌else◌,
}
use revng_c.Clift.Types.{ValueType, same_type, remove_const}

pub data Token : Type 0 where
  lparen rparen comma arrow keyword_as : Token
  type_token : ValueType → Token
  other : ℕ → Token

abbrev pub Tokens : Type 0
Tokens = List Token

-- deduceResultType: a type that all arguments have but for `const`
unfoldable pub all_unqualified : ValueType → List ValueType → Bool
all_unqualified common [] = true
all_unqualified common (t ∷ ts) = same_type (remove_const t) common && all_unqualified common ts

unfoldable pub deduce_result_type : ValueType → List ValueType → Option ValueType
unfolding all_unqualified
deduce_result_type first others =
    if all_unqualified (remove_const first) (first ∷ others)
    then some (remove_const first)
    else none

-- llvm::all_equal
unfoldable pub all_equal : ValueType → List ValueType → Bool
all_equal first [] = true
all_equal first (t ∷ ts) = same_type t first && all_equal first ts

unfoldable pub print_others : List ValueType → Tokens
print_others [] = []
print_others (t ∷ ts) = comma ∷ (type_token t ∷ print_others ts)

unfoldable pub print_arguments : ValueType → List ValueType → Tokens
unfolding all_equal print_others
print_arguments first others =
    if all_equal first others
    then type_token first ∷ []
    else lparen ∷ (type_token first ∷ (print_others others ++ (rparen ∷ [])))

unfoldable pub deduces : Option ValueType → ValueType → Bool
deduces none r = false
deduces (some t) r = same_type r t

unfoldable pub is_deducible : ValueType → ValueType → List ValueType → Bool
unfolding all_equal deduces deduce_result_type
is_deducible r first others =
    if all_equal first others
    then same_type r first || same_type r (remove_const first)
    else deduces (deduce_result_type first others) r

unfoldable pub print_result : Option ValueType → ValueType → List ValueType → Tokens
unfolding is_deducible
print_result none first others = []
print_result (some r) first others =
    if is_deducible r first others then [] else arrow ∷ (type_token r ∷ [])

-- printCliftOpTypes; there is a result type unless the operation has no result to print
unfoldable pub print_op_types : Option ValueType → ValueType → List ValueType → Tokens
unfolding print_arguments print_result
print_op_types result first others =
    print_arguments first others ++ print_result result first others

unfoldable pub parse_type : Tokens → Option (ValueType × Tokens)
parse_type (type_token t ∷ ts) = some (t, ts)
parse_type (lparen ∷ ts) = none
parse_type (rparen ∷ ts) = none
parse_type (comma ∷ ts) = none
parse_type (arrow ∷ ts) = none
parse_type (keyword_as ∷ ts) = none
parse_type (other n ∷ ts) = none
parse_type [] = none

unfoldable pub expect_comma : Tokens → Option Tokens
expect_comma (comma ∷ ts) = some ts
expect_comma (lparen ∷ ts) = none
expect_comma (rparen ∷ ts) = none
expect_comma (arrow ∷ ts) = none
expect_comma (type_token t ∷ ts) = none
expect_comma (keyword_as ∷ ts) = none
expect_comma (other n ∷ ts) = none
expect_comma [] = none

unfoldable pub expect_rparen : Tokens → Option Tokens
expect_rparen (rparen ∷ ts) = some ts
expect_rparen (lparen ∷ ts) = none
expect_rparen (comma ∷ ts) = none
expect_rparen (arrow ∷ ts) = none
expect_rparen (type_token t ∷ ts) = none
expect_rparen (keyword_as ∷ ts) = none
expect_rparen (other n ∷ ts) = none
expect_rparen [] = none

-- the loop over the arguments after the first
unfoldable pub parse_others : ℕ → Tokens → Option (List ValueType × Tokens)
unfolding expect_comma parse_type
parse_others zero ts = some ([], ts)
parse_others (suc n) ts = expect_comma ts >>= λ ts1.
    parse_type ts1 >>= λ (t, ts2). parse_others n ts2 >>= λ (others, ts3). some (t ∷ others, ts3)

unfoldable pub copies : ℕ → ValueType → List ValueType
copies zero t = []
copies (suc n) t = t ∷ copies n t

abbrev pub Arguments : Type 0
Arguments = ValueType × List ValueType

unfoldable pub parse_in_parentheses : ℕ → Tokens → Option (Arguments × Tokens)
unfolding parse_type parse_others expect_rparen
parse_in_parentheses n ts = parse_type ts >>= λ (first, ts1).
    parse_others n ts1 >>= λ (others, ts2). expect_rparen ts2 >>= λ ts3. some ((first, others), ts3)

unfoldable pub parse_single : ℕ → Tokens → Option (Arguments × Tokens)
unfolding parse_type copies
parse_single n ts = parse_type ts >>= λ (first, rest). some ((first, copies n first), rest)

unfoldable pub parse_arguments : ℕ → Tokens → Option (Arguments × Tokens)
unfolding parse_in_parentheses parse_single
parse_arguments n (lparen ∷ ts) = parse_in_parentheses n ts
parse_arguments n (rparen ∷ ts) = parse_single n (rparen ∷ ts)
parse_arguments n (comma ∷ ts) = parse_single n (comma ∷ ts)
parse_arguments n (arrow ∷ ts) = parse_single n (arrow ∷ ts)
parse_arguments n (type_token t ∷ ts) = parse_single n (type_token t ∷ ts)
parse_arguments n (keyword_as ∷ ts) = parse_single n (keyword_as ∷ ts)
parse_arguments n (other m ∷ ts) = parse_single n (other m ∷ ts)
parse_arguments n [] = parse_single n []

abbrev pub starts_with_arrow : Tokens → Bool
starts_with_arrow [] = false
starts_with_arrow (lparen ∷ ts) = false
starts_with_arrow (rparen ∷ ts) = false
starts_with_arrow (comma ∷ ts) = false
starts_with_arrow (arrow ∷ ts) = true
starts_with_arrow (type_token t ∷ ts) = false
starts_with_arrow (keyword_as ∷ ts) = false
starts_with_arrow (other n ∷ ts) = false

unfoldable pub drop_first : Tokens → Tokens
drop_first [] = []
drop_first (t ∷ ts) = ts

unfoldable pub parse_result : Arguments → Tokens → Option (ValueType × Tokens)
unfolding drop_first parse_type deduce_result_type
parse_result (first, others) ts =
    if starts_with_arrow ts
    then parse_type (drop_first ts)
    else (deduce_result_type first others >>= λ t. some (t, ts))

-- parseCliftOpTypes, given whether a result is wanted and how many arguments follow the first
unfoldable pub parse_op_types : Bool → ℕ → Tokens → Option (Option ValueType × Arguments × Tokens)
unfolding parse_arguments parse_result
parse_op_types wanted n ts = parse_arguments n ts >>= λ (arguments, ts1).
    if wanted
    then (parse_result arguments ts1 >>= λ (r, ts2). some (some r, arguments, ts2))
    else some (none, arguments, ts1)
