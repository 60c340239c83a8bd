-- ===== src/Clift/Kinds.antt =====
-- lib/mlir/Dialect/Clift/IR/CliftTypes.cpp: the questions that the checks of the operations ask of a
-- type. Each looks through typedefs first.
use revng_c.Prelude.{ℕ, Bool, true, false, ◌||◌, not, if◌then◌else◌}
use revng_c.Clift.Types.{
  PrimitiveKind, void, generic, pointer_or_number, number, unsigned, signed, float, ValueType,
  primitive, pointer, array, defined, scalar_tuple, TypeDefinition, struct, union, enumeration,
  typedef, function, dealias,
}

unfoldable pub is_integer_kind : PrimitiveKind → Bool
is_integer_kind generic = true
is_integer_kind pointer_or_number = true
is_integer_kind number = true
is_integer_kind unsigned = true
is_integer_kind signed = true
is_integer_kind void = false
is_integer_kind float = false

unfoldable pub is_void_kind : PrimitiveKind → Bool
is_void_kind void = true
is_void_kind generic = false
is_void_kind pointer_or_number = false
is_void_kind number = false
is_void_kind unsigned = false
is_void_kind signed = false
is_void_kind float = false

unfoldable pub is_void_at : ValueType → Bool
unfolding is_void_kind
is_void_at (primitive k s c) = is_void_kind k
is_void_at (pointer t s c) = false
is_void_at (array t n) = false
is_void_at (defined d c) = false
is_void_at (scalar_tuple i) = false

unfoldable pub is_void : ValueType → Bool
unfolding is_void_at dealias
is_void t = is_void_at (dealias t)

unfoldable pub is_enumeration : TypeDefinition → Bool
is_enumeration (struct i) = false
is_enumeration (union i) = false
is_enumeration (enumeration i n t fs) = true
is_enumeration (typedef i n t) = false
is_enumeration (function i n r ts) = false

unfoldable pub is_class : TypeDefinition → Bool
is_class (struct i) = true
is_class (union i) = true
is_class (enumeration i n t fs) = false
is_class (typedef i n t) = false
is_class (function i n r ts) = false

unfoldable pub is_function : TypeDefinition → Bool
is_function (struct i) = false
is_function (union i) = false
is_function (enumeration i n t fs) = false
is_function (typedef i n t) = false
is_function (function i n r ts) = true

unfoldable pub is_scalar_at : ValueType → Bool
unfolding is_void_kind is_enumeration
is_scalar_at (primitive k s c) = not (is_void_kind k)
is_scalar_at (pointer t s c) = true
is_scalar_at (array t n) = false
is_scalar_at (defined d c) = is_enumeration d
is_scalar_at (scalar_tuple i) = false

unfoldable pub is_scalar_type : ValueType → Bool
unfolding is_scalar_at dealias
is_scalar_type t = is_scalar_at (dealias t)

unfoldable pub is_integer_at : ValueType → Bool
unfolding is_integer_kind is_enumeration
is_integer_at (primitive k s c) = is_integer_kind k
is_integer_at (pointer t s c) = false
is_integer_at (array t n) = false
is_integer_at (defined d c) = is_enumeration d
is_integer_at (scalar_tuple i) = false

unfoldable pub is_integer_type : ValueType → Bool
unfolding is_integer_at dealias
is_integer_type t = is_integer_at (dealias t)

unfoldable pub is_object_at : ValueType → Bool
unfolding is_void_kind is_function
is_object_at (primitive k s c) = not (is_void_kind k)
is_object_at (pointer t s c) = true
is_object_at (array t n) = true
is_object_at (defined d c) = not (is_function d)
is_object_at (scalar_tuple i) = false

unfoldable pub is_object_type : ValueType → Bool
unfolding is_object_at dealias
is_object_type t = is_object_at (dealias t)

unfoldable pub is_array_at : ValueType → Bool
is_array_at (primitive k s c) = false
is_array_at (pointer t s c) = false
is_array_at (array t n) = true
is_array_at (defined d c) = false
is_array_at (scalar_tuple i) = false

unfoldable pub is_array_type : ValueType → Bool
unfolding is_array_at dealias
is_array_type t = is_array_at (dealias t)

unfoldable pub is_tuple_at : ValueType → Bool
is_tuple_at (primitive k s c) = false
is_tuple_at (pointer t s c) = false
is_tuple_at (array t n) = false
is_tuple_at (defined d c) = false
is_tuple_at (scalar_tuple i) = true

unfoldable pub is_class_at : ValueType → Bool
unfolding is_class
is_class_at (primitive k s c) = false
is_class_at (pointer t s c) = false
is_class_at (array t n) = false
is_class_at (defined d c) = is_class d
is_class_at (scalar_tuple i) = false

unfoldable pub is_class_type : ValueType → Bool
unfolding is_class_at dealias
is_class_type t = is_class_at (dealias t)

unfoldable pub is_function_at : ValueType → Bool
unfolding is_function
is_function_at (primitive k s c) = false
is_function_at (pointer t s c) = false
is_function_at (array t n) = false
is_function_at (defined d c) = is_function d
is_function_at (scalar_tuple i) = false

unfoldable pub is_function_type : ValueType → Bool
unfolding is_function_at dealias
is_function_type t = is_function_at (dealias t)

unfoldable pub is_returnable_type : ValueType → Bool
unfolding is_object_type is_array_type is_void is_tuple_at dealias
is_returnable_type t =
    let t' = dealias t in
    if is_object_type t' then not (is_array_type t') else is_void t' || is_tuple_at t'

-- getUnderlyingIntegerType: the kind and the size of the PrimitiveType. The cast of an enum's
-- underlying type fails if it is not primitive, and then there is no result.
pub data Underlying : Type 0 where
  integer : PrimitiveKind → ℕ → Underlying
  no_integer aborted : Underlying

unfoldable pub underlying_of_enum : ValueType → Underlying
underlying_of_enum (primitive k s c) = integer k s
underlying_of_enum (pointer t s c) = aborted
underlying_of_enum (array t n) = aborted
underlying_of_enum (defined d c) = aborted
underlying_of_enum (scalar_tuple i) = aborted

unfoldable pub underlying_at : ValueType → Underlying
unfolding is_integer_kind underlying_of_enum dealias
underlying_at (primitive k s c) = if is_integer_kind k then integer k s else no_integer
underlying_at (pointer t s c) = no_integer
underlying_at (array t n) = no_integer
underlying_at (defined (struct i) c) = no_integer
underlying_at (defined (union i) c) = no_integer
underlying_at (defined (enumeration i n t fs) c) = underlying_of_enum (dealias t)
underlying_at (defined (typedef i n t) c) = no_integer
underlying_at (defined (function i n r ts) c) = no_integer
underlying_at (scalar_tuple i) = no_integer

unfoldable pub underlying_integer_type : ValueType → Underlying
unfolding underlying_at dealias
underlying_integer_type t = underlying_at (dealias t)
