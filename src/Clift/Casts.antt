-- ===== src/Clift/Casts.antt =====
-- lib/mlir/Dialect/Clift/IR/CliftOps.cpp: the check on a cast.
pub mod Typing
pub mod Checked
use revng_c.Prelude.{
  ℕ, Bool, true, false, ◌&&◌, ◌||◌, not, ◌==◌, ltb, Option, some, none, ◌>>=◌, if◌then◌else◌,
}
use mathlib.Core.HLevel.{Discrete}
use revng_c.Clift.Types.{
  PrimitiveKind, ValueType, primitive, pointer, array, defined, scalar_tuple, is_const, same_type,
}
use revng_c.Clift.Kinds.{
  is_function, is_object_type, is_array_type, Underlying, integer, no_integer, aborted,
  underlying_integer_type,
}

-- CastKind
pub data CastKind : Type 0 where
  extend truncate reinterpret decay : CastKind

pub PrimitiveKind-discrete : Discrete PrimitiveKind
PrimitiveKind-discrete = hlevel

unfoldable pub same_kind : PrimitiveKind → PrimitiveKind → Bool
same_kind k l = elim (PrimitiveKind-discrete k l) [ yes p ↦ true | no q ↦ false ]

-- Extend and Truncate: the result first, then the argument
unfoldable pub check_argument : (ℕ → ℕ → Bool) → PrimitiveKind → ℕ → Underlying → Option Bool
unfolding same_kind
check_argument fits k s aborted = none
check_argument fits k s no_integer = some false
check_argument fits k s (integer l t) = some (same_kind k l && fits s t)

unfoldable pub check_resize : (ℕ → ℕ → Bool) → Underlying → Underlying → Option Bool
unfolding check_argument
check_resize fits aborted a = none
check_resize fits no_integer a = some false
check_resize fits (integer k s) a = check_argument fits k s a

abbrev pub wider : ℕ → ℕ → Bool
wider result argument = ltb argument result

abbrev pub narrower : ℕ → ℕ → Bool
narrower result argument = ltb result argument

abbrev pub is_stored : ValueType → Bool
is_stored t = is_object_type t && not (is_array_type t)

unfoldable pub check_reinterpret : (ValueType → Option ℕ) → ValueType → ValueType → Option Bool
unfolding is_object_type is_array_type
check_reinterpret size_of argument result =
    if is_stored result && is_stored argument
    then (size_of result >>= λ s. size_of argument >>= λ t. some (s == t))
    else some false

unfoldable pub decays_to : ValueType → ValueType → Bool
unfolding same_type is_function
decays_to (array t n) pointee = same_type pointee t
decays_to (defined d c) pointee = is_function d && same_type pointee (defined d c)
decays_to (primitive k s c) pointee = false
decays_to (pointer t s c) pointee = false
decays_to (scalar_tuple i) pointee = false

unfoldable pub check_decay : ValueType → ValueType → Bool
unfolding decays_to
check_decay argument (pointer t s c) = decays_to argument t
check_decay argument (primitive k s c) = false
check_decay argument (array t n) = false
check_decay argument (defined d c) = false
check_decay argument (scalar_tuple i) = false

unfoldable pub check_kind : (ValueType → Option ℕ) → CastKind → ValueType → ValueType → Option Bool
unfolding check_resize underlying_integer_type check_reinterpret check_decay
check_kind size_of extend argument result =
    check_resize wider (underlying_integer_type result) (underlying_integer_type argument)
check_kind size_of truncate argument result =
    check_resize narrower (underlying_integer_type result) (underlying_integer_type argument)
check_kind size_of reinterpret argument result = check_reinterpret size_of argument result
check_kind size_of decay argument result = some (check_decay argument result)

-- CastOp::verify, of the argument's type and the result's, given getByteSize. It is `none` where an
-- assertion fails.
unfoldable pub verify_cast : (ValueType → Option ℕ) → CastKind → ValueType → ValueType → Option Bool
unfolding is_const check_kind
verify_cast size_of kind argument result =
    if is_const result then some false else check_kind size_of kind argument result
