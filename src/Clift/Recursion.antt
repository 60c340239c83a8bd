-- ===== src/Clift/Recursion.antt =====
-- lib/mlir/Dialect/Clift/IR/CliftOps.cpp: the search of ModuleValidator for a class that holds itself.
-- The search goes from a root class through the types of the fields, by recursion with no bound. Here
-- it takes fuel, and `unfinished` stands for exhausted fuel.
pub mod Sound
pub mod Endless
use mathlib.Core.HLevel.{Discrete}
use mathlib.Core.List.{List-discrete}
use native.Mathlib.Decide.{ℕ_discrete}
use revng_c.Prelude.{
  ℕ, zero, suc, Bool, true, false, Option, some, none, List, [], ◌∷◌, if◌then◌else◌,
}
use revng_c.Clift.Types.{
  EnumField-discrete, ValueType, primitive, pointer, array, defined, scalar_tuple, TypeDefinition,
  struct, union, enumeration, typedef, function, dealias,
}
use revng_c.Clift.Classes.{Field, Context, StructBody, union_fields}

pub data Verdict : Type 0 where
  accepted refused unfinished : Verdict

unfoldable pub TypeDefinition-discrete : Discrete TypeDefinition
TypeDefinition-discrete = hlevel (ℕ_discrete, EnumField-discrete, List-discrete)

unfoldable pub same_definition : TypeDefinition → TypeDefinition → Bool
unfolding TypeDefinition-discrete ℕ_discrete
same_definition d e = elim (TypeDefinition-discrete d e) [ yes p ↦ true | no q ↦ false ]

unfoldable pub struct_fields : Option StructBody → List Field
struct_fields none = []
struct_fields (some b) = b.fields

-- the fields of a class, as they are defined in the context; other types have none
unfoldable pub fields_of : Context → TypeDefinition → List Field
unfolding struct_fields union_fields
fields_of ctx (struct i) = struct_fields (ctx.struct_at i)
fields_of ctx (union i) = union_fields (ctx.union_at i)
fields_of ctx (enumeration i n t fs) = []
fields_of ctx (typedef i n t) = []
fields_of ctx (function i n r ts) = []

-- visitFieldType at a dealiased type, given maybeVisitClassTypeAttr
unfoldable pub visit_field_at : (TypeDefinition → Verdict) → TypeDefinition → ValueType → Verdict
unfolding same_definition
visit_field_at visit root (primitive k s c) = accepted
visit_field_at visit root (pointer t s c) = accepted
visit_field_at visit root (array t n) = accepted
visit_field_at visit root (defined d c) = if same_definition d root then refused else visit d
visit_field_at visit root (scalar_tuple i) = accepted

-- the rest of the loop of visitClassTypeAttr, after the verdict on a field
unfoldable pub and_next : Verdict → Verdict → Verdict
and_next accepted v = v
and_next refused v = refused
and_next unfinished v = unfinished

-- the loop of visitClassTypeAttr
unfoldable pub visit_fields : (TypeDefinition → Verdict) → TypeDefinition → List Field → Verdict
unfolding visit_field_at and_next dealias
visit_fields visit root [] = accepted
visit_fields visit root (f ∷ fs) =
    and_next (visit_field_at visit root (dealias f.type)) (visit_fields visit root fs)

-- maybeVisitClassTypeAttr
unfoldable pub visit_class : Context → TypeDefinition → ℕ → TypeDefinition → Verdict
unfolding visit_fields fields_of
visit_class ctx root zero d = unfinished
visit_class ctx root (suc fuel) d = visit_fields (visit_class ctx root fuel) root (fields_of ctx d)

-- the search of visitTypeAttr for the class itself
unfoldable pub check_recursion : Context → ℕ → TypeDefinition → Verdict
unfolding visit_class
check_recursion ctx fuel d = visit_class ctx d fuel d
