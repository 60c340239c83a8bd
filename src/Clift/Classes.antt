-- ===== src/Clift/Classes.antt =====
-- lib/mlir/Dialect/Clift/IR/CliftStorage.h, CliftAttributes.cpp and CliftTypes.cpp: structs, unions and
-- scalar tuples, which are defined once in a context, and the sizes of types.
-- Sizes and offsets are `uint64_t`: sums and products wrap around, written out.
pub mod Layout
use mathlib.Core.HLevel.{Discrete}
use mathlib.Core.List.{List-discrete}
use native.Mathlib.Decide.{ℕ_discrete}
use revng_c.Prelude.{
  ℕ, zero, suc, ◌+◌, ◌*◌, ◌%◌, ◌^◌, Bool, true, false, ◌&&◌, ◌||◌, not, ◌==◌, ltb, Option, some,
  none, List, [], ◌∷◌, ◌>>=◌, if◌then◌else◌,
}
use revng_c.Clift.Types.{
  Name, ValueType, ValueType-discrete, primitive, pointer, array, defined, scalar_tuple,
  TypeDefinition, struct, union, enumeration, typedef, function,
}

-- FieldAttr
pub record Field : Type 0 where
  pub offset : ℕ
  pub type : ValueType
  pub name : Name

-- ScalarTupleElementAttr
pub record Element : Type 0 where
  pub type : ValueType
  pub name : Name

pub record StructBody : Type 0 where
  pub name : Name
  pub fields : List Field
  pub size : ℕ

pub record UnionBody : Type 0 where
  pub name : Name
  pub fields : List Field

pub record TupleBody : Type 0 where
  pub name : Name
  pub elements : List Element

-- The definitions in the storage of a context, by ID
pub record Context : Type 0 where
  pub struct_at : ℕ → Option StructBody
  pub union_at : ℕ → Option UnionBody
  pub tuple_at : ℕ → Option TupleBody

-- getSubobjects: what is not defined has none
unfoldable pub union_fields : Option UnionBody → List Field
union_fields none = []
union_fields (some b) = b.fields

unfoldable pub tuple_elements : Option TupleBody → List Element
tuple_elements none = []
tuple_elements (some b) = b.elements

abbrev pub wrap64 : ℕ → ℕ
wrap64 n = n % 2 ^ 64

abbrev pub max : ℕ → ℕ → ℕ
max a b = if ltb a b then b else a

-- the loop of UnionTypeAttr::getByteSize, with Max
unfoldable pub largest : (ValueType → Option ℕ) → ℕ → List Field → Option ℕ
largest size_of so_far [] = some so_far
largest size_of so_far (f ∷ fs) = size_of f.type >>= λ s. largest size_of (max so_far s) fs

-- the loop of ScalarTupleType::getByteSize, with Size
unfoldable pub total : (ValueType → Option ℕ) → ℕ → List Element → Option ℕ
total size_of so_far [] = some so_far
total size_of so_far (e ∷ es) = size_of e.type >>= λ s. total size_of (wrap64 (so_far + s)) es

-- EnumTypeAttr::getByteSize casts the underlying type to a primitive type
unfoldable pub enum_size : ValueType → Option ℕ
enum_size (primitive k s c) = some s
enum_size (pointer t s c) = none
enum_size (array t n) = none
enum_size (defined d c) = none
enum_size (scalar_tuple i) = none

-- getByteSize of each type, given that of the types of fields and elements. The size of a struct is
-- read from its definition; there is none where it is not defined.
unfoldable pub size_with : Context → (ValueType → Option ℕ) → ValueType → Option ℕ
unfolding largest total union_fields tuple_elements enum_size
size_with ctx size_of (primitive k s c) = some s
size_with ctx size_of (pointer t s c) = some s
size_with ctx size_of (array t n) = size_with ctx size_of t >>= λ s. some (wrap64 (s * n))
size_with ctx size_of (defined (struct i) c) = ctx.struct_at i >>= λ b. some b.size
size_with ctx size_of (defined (union i) c) = largest size_of 0 (union_fields (ctx.union_at i))
size_with ctx size_of (defined (enumeration i n t fs) c) = enum_size t
size_with ctx size_of (defined (typedef i n t) c) = size_with ctx size_of t
size_with ctx size_of (defined (function i n r ts) c) = some 0
size_with ctx size_of (scalar_tuple i) = total size_of 0 (tuple_elements (ctx.tuple_at i))

-- getByteSize, with fuel for the unions and tuples inside one another; `none` also for exhausted fuel
unfoldable pub byte_size : Context → ℕ → ValueType → Option ℕ
unfolding size_with
byte_size ctx zero t = none
byte_size ctx (suc fuel) t = size_with ctx (byte_size ctx fuel) t

unfoldable pub same_name : Name → Name → Bool
same_name [] [] = true
same_name [] (d ∷ ds) = false
same_name (c ∷ cs) [] = false
same_name (c ∷ cs) (d ∷ ds) = c == d && same_name cs ds

unfoldable pub has_name : Name → List Name → Bool
unfolding same_name
has_name n [] = false
has_name n (m ∷ ms) = same_name n m || has_name n ms

unfoldable pub is_empty : Name → Bool
is_empty [] = true
is_empty (c ∷ cs) = false

-- NameSet.insert, for a name that is not empty; `none` where the name is there already
unfoldable pub insert_name : Name → List Name → Option (List Name)
unfolding is_empty has_name
insert_name n names =
    if is_empty n then some names else if has_name n names then none else some (n ∷ names)

-- the loop of StructTypeAttr::verify: the LastEndOffset, or `none` where a field is refused
unfoldable pub check_fields : (ValueType → Option ℕ) → ℕ → List Name → List Field → Option ℕ
unfolding insert_name
check_fields size_of last_end names [] = some last_end
check_fields size_of last_end names (f ∷ fs) =
    let rest = size_of f.type >>= λ s.
    insert_name f.name names >>= λ names'. check_fields size_of (wrap64 (f.offset + s)) names' fs in
    if ltb f.offset last_end then none else rest

-- StructTypeAttr::verify
unfoldable pub verify_struct : (ValueType → Option ℕ) → ℕ → List Field → Bool
unfolding check_fields
verify_struct size_of size fields =
    if size == 0
    then false
    else elim (check_fields size_of 0 [] fields) [ none ↦ false | some e ↦ not (ltb size e) ]

-- the loop of UnionTypeAttr::verify
unfoldable pub check_union_fields : List Name → List Field → Bool
unfolding insert_name
check_union_fields names [] = true
check_union_fields names (f ∷ fs) =
    if f.offset == 0
    then elim (insert_name f.name names) [
      | none ↦ false
      | some names' ↦ check_union_fields names' fs
    ]
    else false

-- UnionTypeAttr::verify
unfoldable pub verify_union : List Field → Bool
unfolding check_union_fields
verify_union [] = false
verify_union (f ∷ fs) = check_union_fields [] (f ∷ fs)
