-- ===== src/Clift/Signature/RoundTrip.antt =====
-- The printed types of an operation are read back.
use revng_c.Prelude.{
  ℕ, zero, suc, true, false, Option, some, none, List, [], ◌∷◌, ◌++◌, ◌>>=◌, ◌≡◌, refl, sym, ap,
  ◌∙◌, Bool-cases, inl, inr, and-eq-true, is_none, not,
}
use revng_c.Clift.Types.{ValueType, same_type, same_type_iff, remove_const, is_const}
use revng_c.Clift.Types.Qualifiers.{remove_const_of_plain}
use revng_c.Clift.Signature.{
  rparen, Tokens, all_unqualified, deduce_result_type, all_equal, print_others, print_arguments,
  deduces, is_deducible, print_result, print_op_types, parse_type, expect_comma, expect_rparen,
  parse_others, copies, parse_in_parentheses, parse_single, parse_arguments, starts_with_arrow,
  drop_first, parse_result, parse_op_types,
}
use mathlib.Core.List.{append_assoc}

abbrev pub length : List ValueType → ℕ
length [] = zero
length (t ∷ ts) = suc (length ts)

same_type_refl : (t : ValueType) → same_type t t ≡ true
same_type_refl t = (same_type_iff t t).1 refl

copies-length :
    (first : ValueType) (others : List ValueType)
    → all_equal first others ≡ true
    → copies (length others) first ≡ others
unfolding all_equal copies
copies-length first [] h = refl
copies-length first (t ∷ ts) h =
    let (p, q) = and-eq-true _ _ h in
    let e = (same_type_iff t first).0 p in cc (copies-length first ts q)

all_unqualified_of_equal :
    (common first : ValueType) (others : List ValueType)
    → remove_const first ≡ common
    → all_equal first others ≡ true
    → all_unqualified common others ≡ true
unfolding all_equal all_unqualified
all_unqualified_of_equal common first [] c h = refl
all_unqualified_of_equal common first (t ∷ ts) c h =
    let (p, q) = and-eq-true _ _ h in
    let e = (same_type_iff t first).0 p in
    let e' = (same_type_iff (remove_const t) common).1 (ap remove_const e ∙ c) in
    rw e' (all_unqualified_of_equal common first ts c q)

deduce_of_equal :
    (first : ValueType) (others : List ValueType)
    → all_equal first others ≡ true
    → deduce_result_type first others ≡ some (remove_const first)
unfolding deduce_result_type all_unqualified
deduce_of_equal first others h = rw (
  same_type_refl (remove_const first),
  all_unqualified_of_equal (remove_const first) first others refl h,
)

parse_others-print :
    (ts : List ValueType) (after : Tokens)
    → parse_others (length ts) (print_others ts ++ after) ≡ some (ts, after)
unfolding parse_others print_others expect_comma parse_type
parse_others-print [] after = refl
parse_others-print (t ∷ ts) after = rw (parse_others-print ts after)

parse_arguments-print :
    (first : ValueType) (others : List ValueType) (after : Tokens)
    → parse_arguments (length others) (print_arguments first others ++ after)
      ≡ some ((first, others), after)
unfolding parse_arguments print_arguments parse_single parse_in_parentheses parse_type expect_rparen
parse_arguments-print first others after = elim (Bool-cases (all_equal first others)) [
  | inl e ↦ rw (e, copies-length first others e)
  | inr e ↦ rw (
    e,
    append_assoc (print_others others) (rparen ∷ []) after,
    parse_others-print others (rparen ∷ after),
  )
]

deduces_lem : (o : Option ValueType) (r : ValueType) → deduces o r ≡ true → o ≡ some r
unfolding deduces
deduces_lem (some t) r h = ap some (sym ((same_type_iff r t).0 h))
deduces_lem none r h = cc

-- What the printer leaves out is what the parser deduces.
deduce_of_deducible :
    (r first : ValueType) (others : List ValueType)
    → is_const r ≡ false
    → is_deducible r first others ≡ true
    → deduce_result_type first others ≡ some r
unfolding is_deducible
deduce_of_deducible r first others plain h = elim (Bool-cases (all_equal first others)) [
  | inl e ↦ elim (Bool-cases (same_type r first)) [
    | inl e1 ↦
        let q = (same_type_iff r first).0 e1 in
        cc (deduce_of_equal first others e, remove_const_of_plain r plain)
    | inr e1 ↦
        let h' = rw (e, e1) at h in
        let q = (same_type_iff r (remove_const first)).0 h' in cc (deduce_of_equal first others e)
  ]
  | inr e ↦ deduces_lem (deduce_result_type first others) r (rw e at h)
]

parse_result_deduced :
    (first : ValueType) (others : List ValueType) (after : Tokens)
    → starts_with_arrow after ≡ false
    → parse_result (first, others) after
      ≡ (deduce_result_type first others >>= λ t. some (t, after))
unfolding parse_result
parse_result_deduced first others after h = rw h

parse_result-print :
    (r first : ValueType) (others : List ValueType) (after : Tokens)
    → is_const r ≡ false
    → starts_with_arrow after ≡ false
    → parse_result (first, others) (print_result (some r) first others ++ after) ≡ some (r, after)
unfolding print_result
parse_result-print r first others after plain h = elim (Bool-cases (is_deducible r first others)) [
  | inl e ↦
      rw (e, parse_result_deduced first others after h, deduce_of_deducible r first others plain e)
  | inr e ↦ rw e (unfold parse_result drop_first parse_type in refl)
]

abbrev pub IsPlain : Option ValueType → Type 0
IsPlain none = Unit
IsPlain (some r) = is_const r ≡ false

-- Printing the types of an operation and parsing the text, with the number of arguments known, gives
-- the same result type and the same argument types, and leaves what follows, if the result type is
-- not `const` and what follows does not begin with an arrow.
pub parse_op_types-print_op_types :
    (result : Option ValueType) (first : ValueType) (others : List ValueType) (after : Tokens)
    → IsPlain result
    → starts_with_arrow after ≡ false
    → parse_op_types
        (not (is_none result))
        (length others)
        (print_op_types result first others ++ after)
      ≡ some (result, (first, others), after)
unfolding parse_op_types print_op_types
parse_op_types-print_op_types none first others after plain h =
    rw
      (
        append_assoc (print_arguments first others) (print_result none first others) after,
        parse_arguments-print first others (print_result none first others ++ after),
      )
      (unfold print_result in refl)
parse_op_types-print_op_types (some r) first others after plain h = rw (
  append_assoc (print_arguments first others) (print_result (some r) first others) after,
  parse_arguments-print first others (print_result (some r) first others ++ after),
  parse_result-print r first others after plain h,
)
