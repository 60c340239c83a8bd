-- ===== src/Clift/Types.antt =====
-- include/revng-c/mlir/Dialect/Clift/IR/CliftTypes.td, CliftAttributes.td and the helpers of
-- lib/mlir/Dialect/Clift/IR/CliftTypes.cpp: the types of the Clift dialect.
-- Types and attributes are unique in a context, so two that are the same value are equal. A struct, a
-- union and a scalar tuple are named by their ID alone: what they consist of is state of the context.
pub mod Qualifiers
pub mod Typedefs
use revng_c.Prelude.{
  ℕ, Bool, true, false, ◌||◌, ◌&&◌, not, Option, some, none, List, if◌then◌else◌, ◌≡◌, ◌↔◌, arith,
}
use mathlib.Core.HLevel.{Discrete}
use mathlib.Core.List.{List-discrete}
use native.Mathlib.Decide.{ℕ_discrete}

-- the bytes of a name
abbrev pub Name : Type 0
Name = List ℕ

-- PrimitiveKind
pub data PrimitiveKind : Type 0 where
  void generic pointer_or_number number unsigned signed float : PrimitiveKind

-- EnumFieldAttr
pub record EnumField : Type 0 where
  pub raw_value : ℕ
  pub name : Name

mutual
  -- PrimitiveType, PointerType, ArrayType, DefinedType, ScalarTupleType; a Boolean is `is_const`
  pub data ValueType : Type 0 where
    primitive : PrimitiveKind → ℕ → Bool → ValueType
    pointer : ValueType → ℕ → Bool → ValueType
    array : ValueType → ℕ → ValueType
    defined : TypeDefinition → Bool → ValueType
    scalar_tuple : ℕ → ValueType

  -- StructTypeAttr, UnionTypeAttr, EnumTypeAttr, TypedefTypeAttr, FunctionTypeAttr
  pub data TypeDefinition : Type 0 where
    struct : ℕ → TypeDefinition
    union : ℕ → TypeDefinition
    enumeration : ℕ → Name → ValueType → List EnumField → TypeDefinition
    typedef : ℕ → Name → ValueType → TypeDefinition
    function : ℕ → Name → ValueType → ValueTypes → TypeDefinition

  pub data ValueTypes : Type 0 where
    nil : ValueTypes
    cons : ValueType → ValueTypes → ValueTypes

unfoldable pub EnumField-discrete : Discrete EnumField
EnumField-discrete = hlevel (ℕ_discrete, List-discrete)

unfoldable pub ValueType-discrete : Discrete ValueType
ValueType-discrete = hlevel (ℕ_discrete, EnumField-discrete, List-discrete)

-- `==` on types: types are unique in their context
unfoldable pub same_type : ValueType → ValueType → Bool
unfolding ValueType-discrete ℕ_discrete
same_type s t = elim (ValueType-discrete s t) [ yes p ↦ true | no q ↦ false ]

-- the loop of decomposeTypedef, with HasConstTypedef
unfoldable pub decompose_from : ValueType → Bool → ValueType × Bool
decompose_from (defined (typedef i n t) c) has_const = decompose_from t (has_const || c)
decompose_from (defined (struct i) c) has_const = (defined (struct i) c, has_const)
decompose_from (defined (union i) c) has_const = (defined (union i) c, has_const)
decompose_from (defined (enumeration i n t fs) c) has_const =
    (defined (enumeration i n t fs) c, has_const)
decompose_from (defined (function i n r ts) c) has_const =
    (defined (function i n r ts) c, has_const)
decompose_from (primitive k s c) has_const = (primitive k s c, has_const)
decompose_from (pointer t s c) has_const = (pointer t s c, has_const)
decompose_from (array t n) has_const = (array t n, has_const)
decompose_from (scalar_tuple i) has_const = (scalar_tuple i, has_const)

unfoldable pub decompose_typedef : ValueType → ValueType × Bool
unfolding decompose_from
decompose_typedef t = decompose_from t false

-- isConst of each type
unfoldable pub is_const : ValueType → Bool
is_const (primitive k s c) = c
is_const (pointer t s c) = c
is_const (array t n) = is_const t
is_const (defined d c) = c
is_const (scalar_tuple i) = false

-- addConst of each type; a type that is const already is itself
unfoldable pub add_const : ValueType → ValueType
add_const (primitive k s c) = primitive k s true
add_const (pointer t s c) = pointer t s true
add_const (array t n) = array (add_const t) n
add_const (defined d c) = defined d true
add_const (scalar_tuple i) = scalar_tuple i

-- removeConst of each type
unfoldable pub remove_const : ValueType → ValueType
remove_const (primitive k s c) = primitive k s false
remove_const (pointer t s c) = pointer t s false
remove_const (array t n) = array (remove_const t) n
remove_const (defined d c) = defined d false
remove_const (scalar_tuple i) = scalar_tuple i

-- the type and IgnoreQualifiers
unfoldable pub dealias_with : ValueType → Bool → ValueType
unfolding decompose_typedef add_const
dealias_with t ignore_qualifiers =
    let (underlying, has_const) = decompose_typedef t in
    if has_const && not ignore_qualifiers then add_const underlying else underlying

unfoldable pub dealias : ValueType → ValueType
unfolding dealias_with
dealias t = dealias_with t false

unfoldable pub is_modifiable_type : ValueType → Bool
unfolding decompose_typedef is_const
is_modifiable_type t =
    let (underlying, has_const) = decompose_typedef t in not has_const && not (is_const underlying)

-- `==` answers yes exactly at equal types
pub same_type_iff : (s t : ValueType) → (same_type s t ≡ true) ↔ (s ≡ t)
unfolding same_type
same_type_iff s t = ground arith
