-- ===== src/Clift/Calls/RoundTrip.antt =====
-- The text of a call is read back, and the call that is read passes the check or does not.
use revng_c.Prelude.{
  ℕ, true, false, ◌==◌, ==_iff, some, List, [], ◌∷◌, ◌++◌, map, ◌≡◌, ◌≢◌, refl, sym, ap, ◌∙◌, arith,
  Bool-cases, inl, inr, and-eq-true,
}
use mathlib.Core.List.{append_assoc}
use revng_c.Clift.Types.{ValueType, same_type, same_type_iff, remove_const, is_const}
use revng_c.Clift.Types.Qualifiers.{remove_const_of_plain}
use revng_c.Clift.Signature.{
  lparen, rparen, type_token, Tokens, parse_type, expect_rparen, print_others,
}
use revng_c.Clift.Calls.{
  Call, callee_of, arguments_match, matches_callee, verify_call, requires_explicit, print_types,
  print_argument_types, print_call, parse_more_types, parse_type_list, parse_until_rparen,
  parse_explicit, starts_with_as, after_first, parse_argument_types, length, parse_call,
}

-- Where the types need not be given, the arguments are the unqualified parameters.
implicit_arguments :
    (ts ps : List ValueType)
    → arguments_match ts ps ≡ true
    → requires_explicit ts ps ≡ false
    → map remove_const ps ≡ ts
unfolding arguments_match requires_explicit
implicit_arguments [] [] m h = refl
implicit_arguments [] (p ∷ ps) m h = cc
implicit_arguments (t ∷ ts) [] m h = cc
implicit_arguments (t ∷ ts) (p ∷ ps) m h =
    let (_, m') =
      and-eq-true (same_type (remove_const t) (remove_const p)) (arguments_match ts ps) m in
    elim (Bool-cases (same_type t (remove_const p))) [
      | inl e ↦
          let q = (same_type_iff t (remove_const p)).0 e in
          cc (implicit_arguments ts ps m' (rw e at h))
      | inr e ↦ ground (arith)
    ]

explicit_has_one : (ps : List ValueType) → requires_explicit [] ps ≡ false
unfolding requires_explicit
explicit_has_one [] = refl
explicit_has_one (p ∷ ps) = refl

parse_more_types-print :
    (ts : List ValueType) (after : Tokens)
    → parse_more_types (print_others ts ++ (rparen ∷ after)) ≡ some (ts, rparen ∷ after)
unfolding parse_more_types print_others
parse_more_types-print [] after = refl
parse_more_types-print (t ∷ ts) after = rw (parse_more_types-print ts after)

parse_explicit-print :
    (t : ValueType) (ts : List ValueType) (after : Tokens)
    → parse_explicit (lparen ∷ (print_types (t ∷ ts) ++ (rparen ∷ after))) ≡ some (t ∷ ts, after)
unfolding parse_explicit print_types parse_until_rparen parse_type_list parse_type expect_rparen
parse_explicit-print t ts after = rw (parse_more_types-print ts after)

parse_argument_types-print :
    (ts ps : List ValueType) (after : Tokens)
    → arguments_match ts ps ≡ true
    → starts_with_as after ≡ false
    → parse_argument_types ps (print_argument_types ts ps ++ after) ≡ some (ts, after)
unfolding parse_argument_types print_argument_types after_first
parse_argument_types-print ts ps after m h = elim (Bool-cases (requires_explicit ts ps)) [
  | inr e ↦ rw (e, h, implicit_arguments ts ps m e)
  | inl e ↦ rw (e, append_assoc (print_types ts) (rparen ∷ []) after) (explicit ts e)
]
  where
    explicit :
        (us : List ValueType)
        → requires_explicit us ps ≡ true
        → parse_explicit (lparen ∷ (print_types us ++ (rparen ∷ after))) ≡ some (us, after)
    explicit [] e = cc (explicit_has_one ps)
    explicit (u ∷ us) e = parse_explicit-print u us after

-- A call of which nothing is left but what its text tells: the result has the function's return type.
abbrev pub read_back : Call → ValueType → Call
read_back c return_type = record c { result = return_type }

same_length : (n : ℕ) → (n == n) ≡ true
same_length n = (==_iff n n).1 refl

parse_call-print_call_any :
    (c : Call) (r : ValueType) (ps : List ValueType) (after : Tokens)
    → callee_of c.function_type ≡ some (r, ps)
    → verify_call c ≡ true
    → starts_with_as after ≡ false
    → (text : Tokens) × (print_call c ≡ some text)
      × (parse_call (length c.arguments) (text ++ after) ≡ some (read_back c r, after))
unfolding verify_call matches_callee print_call parse_call parse_type
parse_call-print_call_any c r ps after f v h =
    let (m, _) =
      and-eq-true (arguments_match c.arguments ps) (same_type c.result (remove_const r))
        (rw f at v) in
    (
      type_token c.function_type ∷ print_argument_types c.arguments ps,
      rw f,
      rw (f, parse_argument_types-print c.arguments ps after m h, same_length (length c.arguments)),
    )

verified_result :
    (c : Call) (r : ValueType) (ps : List ValueType)
    → callee_of c.function_type ≡ some (r, ps)
    → verify_call c ≡ true
    → c.result ≡ remove_const r
unfolding verify_call matches_callee
verified_result c r ps f v =
    (same_type_iff c.result (remove_const r)).0
      (and-eq-true (arguments_match c.arguments ps) (same_type c.result (remove_const r))
        (rw f at v)).1

-- A call that passes the check, of a function whose return type is not `const`, is printed, and the
-- parser reads the same call from the text, whatever follows but an `as`.
pub parse_call-print_call :
    (c : Call) (r : ValueType) (ps : List ValueType) (after : Tokens)
    → callee_of c.function_type ≡ some (r, ps)
    → is_const r ≡ false
    → verify_call c ≡ true
    → starts_with_as after ≡ false
    → (text : Tokens) × (print_call c ≡ some text)
      × (parse_call (length c.arguments) (text ++ after) ≡ some (c, after))
parse_call-print_call c r ps after f plain v h =
    let (text, p, q) = parse_call-print_call_any c r ps after f v h in
    let e : c.result ≡ r = verified_result c r ps f v ∙ remove_const_of_plain r plain in
    let e' : read_back c r ≡ c = λ i. record c { result = sym e i } in
    (text, p, q ∙ ap (λ d. some (d, after)) e')

-- A call that passes the check, of a function whose return type differs from its unqualified type, is
-- printed, and the call that the parser reads from the text does not pass the check.
pub parse_call-const_return :
    (c : Call) (r : ValueType) (ps : List ValueType) (after : Tokens)
    → callee_of c.function_type ≡ some (r, ps)
    → r ≢ remove_const r
    → verify_call c ≡ true
    → starts_with_as after ≡ false
    → (text : Tokens) × (d : Call) × (print_call c ≡ some text)
      × (parse_call (length c.arguments) (text ++ after) ≡ some (d, after))
      × (verify_call d ≡ false)
parse_call-const_return c r ps after f const v h =
    let (text, p, q) = parse_call-print_call_any c r ps after f v h in
    (
      text,
      read_back c r,
      p,
      q,
      elim (Bool-cases (verify_call (read_back c r))) [
        | inl e ↦ absurd (const (verified_result (read_back c r) r ps f e))
        | inr e ↦ e
      ],
    )
