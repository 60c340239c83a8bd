-- ===== src/Tests/Clift.antt =====
-- The properties of the Clift checks, at small types.
mod Texts
mod Checks
use revng_c.Prelude.{true, false, [], some, none, ◌==◌, if◌then◌else◌}
use revng_c.Clift.Types.{
  signed, void, ValueType, primitive, pointer, array, defined, struct, union, typedef, function,
  nil, cons,
}
use revng_c.Clift.Classes.{Field, UnionBody, Context}
use revng_c.Prelude.{◌∷◌}

abbrev pub int32 : ValueType
int32 = primitive signed 4 false

abbrev pub int8 : ValueType
int8 = primitive signed 1 false

abbrev pub const_int32 : ValueType
const_int32 = primitive signed 4 true

abbrev pub nothing : ValueType
nothing = primitive void 0 false

-- typedef int32_t counter;
abbrev pub counter : ValueType
counter = defined (typedef 7 (99 ∷ []) int32) true

abbrev pub int_of_int : ValueType
int_of_int = defined (function 1 [] int32 (cons const_int32 nil)) false

abbrev pub const_int_of_int : ValueType
const_int_of_int = defined (function 2 [] const_int32 (cons int32 nil)) false

-- union 1 { struct 5 f; }, union 2 { union 2 f; }, union 3 { union 2 f; }, union 4 { union 4 f[2]; }
abbrev pub field : ValueType → Field
field t = record { offset = 0; type = t; name = 102 ∷ [] }

abbrev pub of_union : ValueType
of_union = defined (union 2) false

abbrev pub body : ValueType → UnionBody
body t = record { name = []; fields = field t ∷ [] }

abbrev pub context : Context
context = record {
  struct_at = λ i. none;
  union_at = λ i.
      if i == 1
      then some (body (defined (struct 5) false))
      else if i == 2
      then some (body of_union)
      else if i == 3
      then some (body of_union)
      else some (body (array (defined (union 4) false) 2));
  tuple_at = λ i. none;
}
