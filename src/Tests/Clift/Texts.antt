-- ===== src/Tests/Clift/Texts.antt =====
-- The texts of an addition and of two calls.
use revng_c.Prelude.{◌++◌, true, false, some, [], ◌∷◌, ◌≡◌, refl}
use revng_c.Clift.Types.{same_type, is_const, remove_const}
use revng_c.Clift.Signature.{Tokens, other, type_token, print_op_types, parse_op_types}
use revng_c.Clift.Signature.RoundTrip.{parse_op_types-print_op_types}
use revng_c.Clift.Calls.{Call, callee_of, verify_call, print_call, parse_call}
use revng_c.Clift.Calls.RoundTrip.{parse_call-print_call, parse_call-const_return}
use revng_c.Tests.Clift.{int32, int8, const_int32, int_of_int, const_int_of_int}

parse_op_types-print_op_types_example :
    parse_op_types true 1 (print_op_types (some int8) int32 (const_int32 ∷ []) ++ (other 0 ∷ []))
    ≡ some (some int8, (int32, const_int32 ∷ []), other 0 ∷ [])
parse_op_types-print_op_types_example =
    parse_op_types-print_op_types (some int8) int32 (const_int32 ∷ []) (other 0 ∷ [])
      (unfold is_const in refl) refl

abbrev call : Call
call = record { function_type = int_of_int; arguments = int32 ∷ []; result = int32 }

abbrev const_call : Call
const_call = record { function_type = const_int_of_int; arguments = int32 ∷ []; result = int32 }

call_text : print_call call ≡ some (type_token int_of_int ∷ [])
unfolding print_call callee_of same_type remove_const
call_text = refl

parse_call-print_call_example :
    (text : Tokens) × (print_call call ≡ some text)
    × (parse_call 1 (text ++ (other 0 ∷ [])) ≡ some (call, other 0 ∷ []))
unfolding same_type remove_const
parse_call-print_call_example =
    parse_call-print_call call int32 (const_int32 ∷ []) (other 0 ∷ []) (unfold callee_of in refl)
      (unfold is_const in refl) (unfold verify_call in refl) refl

parse_call-const_return_example :
    (text : Tokens) × (d : Call) × (print_call const_call ≡ some text)
    × (parse_call 1 (text ++ []) ≡ some (d, []))
    × (verify_call d ≡ false)
unfolding same_type remove_const
parse_call-const_return_example =
    parse_call-const_return const_call const_int32 (int32 ∷ []) [] (unfold callee_of in refl)
      (unfold remove_const in λ e. cc) (unfold verify_call in refl) refl
