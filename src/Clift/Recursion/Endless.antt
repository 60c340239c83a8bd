-- ===== src/Clift/Recursion/Endless.antt =====
-- Where the search of ModuleValidator (lib/mlir/Dialect/Clift/IR/CliftOps.cpp) does not end, and a
-- class that holds itself and is accepted.
use revng_c.Prelude.{
  ℕ, zero, suc, Bool, true, Option, some, none, List, [], ◌∷◌, ◌≡◌, ◌≢◌, refl, ap, ◌∙◌, arith,
  Bool-cases, inl, inr,
}
use revng_c.Clift.Types.{
  ValueType, array, defined, TypeDefinition, union, dealias, dealias_with, decompose_typedef,
  decompose_from,
}
use revng_c.Clift.Classes.{
  Field, UnionBody, Context, union_fields, largest, size_with, byte_size, has_name, insert_name,
  check_union_fields, verify_union,
}
use revng_c.Clift.Recursion.{
  Verdict, accepted, unfinished, same_definition, fields_of, visit_field_at, and_next, visit_fields,
  visit_class, check_recursion,
}
use revng_c.Clift.Recursion.Sound.{same_definition_iff}

-- the first field of the class is of the defined type
abbrev pub BeginsWith : Context → TypeDefinition → TypeDefinition → Type 0
BeginsWith ctx d e =
    (f : Field) × (fs : List Field) × (c : Bool) × (fields_of ctx d ≡ f ∷ fs)
    × (dealias f.type ≡ defined e c)

module _ (ctx : Context) (root : TypeDefinition) where
  visit_class_first :
      (d e : TypeDefinition) (fuel : ℕ)
      → e ≢ root
      → BeginsWith ctx d e
      → visit_class ctx root fuel e ≡ unfinished
      → visit_class ctx root (suc fuel) d ≡ unfinished
  unfolding visit_class visit_fields visit_field_at and_next
  visit_class_first d e fuel n (f, fs, c, p, q) h = elim (Bool-cases (same_definition e root)) [
    | inl b ↦ absurd (n ((same_definition_iff e root).0 b))
    | inr b ↦ rw (p, q, b, h)
  ]

  visit_class-endless :
      (e : TypeDefinition) (fuel : ℕ)
      → e ≢ root
      → BeginsWith ctx e e
      → visit_class ctx root fuel e ≡ unfinished
  visit_class-endless e zero n b = unfold visit_class in refl
  visit_class-endless e (suc fuel) n b =
      visit_class_first e e fuel n b (visit_class-endless e fuel n b)

-- The search from a class that begins with another class, which begins with itself, does not end,
-- whatever the fuel: it only looks for the class that it began with.
pub check_recursion-endless :
    (ctx : Context) (d e : TypeDefinition) (fuel : ℕ)
    → e ≢ d
    → BeginsWith ctx d e
    → BeginsWith ctx e e
    → check_recursion ctx fuel d ≡ unfinished
unfolding check_recursion
check_recursion-endless ctx d e zero n b b' = unfold visit_class in refl
check_recursion-endless ctx d e (suc fuel) n b b' =
    visit_class_first ctx d d e fuel n b (visit_class-endless ctx d e fuel n b')

single_field-accepted : (f : Field) → f.offset ≡ 0 → verify_union (f ∷ []) ≡ true
unfolding verify_union check_union_fields insert_name has_name
single_field-accepted f z = rw z (ground arith)

array_field-accepted :
    (visit : TypeDefinition → Verdict) (root d : TypeDefinition) (n : ℕ) (c : Bool) (f : Field)
    → f.type ≡ array (defined d c) n
    → visit_fields visit root (f ∷ []) ≡ accepted
unfolding visit_fields visit_field_at and_next dealias dealias_with decompose_typedef decompose_from
array_field-accepted visit root d n c f e = rw e

single_field-size :
    (ctx : Context) (size_of : ValueType → Option ℕ) (i : ℕ) (c : Bool) (b : UnionBody) (f : Field)
    → ctx.union_at i ≡ some b
    → b.fields ≡ f ∷ []
    → size_of f.type ≡ none
    → size_with ctx size_of (defined (union i) c) ≡ none
unfolding size_with largest union_fields
single_field-size ctx size_of i c b f p q e = rw (p, q, e)

array_size :
    (ctx : Context) (size_of : ValueType → Option ℕ) (t : ValueType) (n : ℕ)
    → size_with ctx size_of t ≡ none
    → size_with ctx size_of (array t n) ≡ none
unfolding size_with
array_size ctx size_of t n e = rw e

array_field-size :
    (ctx : Context) (i n k : ℕ) (c : Bool) (b : UnionBody) (f : Field)
    → ctx.union_at i ≡ some b
    → b.fields ≡ f ∷ []
    → f.type ≡ array (defined (union i) c) n
    → byte_size ctx k (defined (union i) c) ≡ none
unfolding byte_size
array_field-size ctx i n zero c b f p q e = refl
array_field-size ctx i n (suc zero) c b f p q e =
    single_field-size ctx (byte_size ctx zero) i c b f p q refl
array_field-size ctx i n (suc (suc k)) c b f p q e =
    let ih = array_field-size ctx i n (suc k) c b f p q e in
    single_field-size ctx (byte_size ctx (suc k)) i c b f p q (
      ap (size_with ctx (byte_size ctx k)) e
      ∙ array_size ctx (byte_size ctx k) (defined (union i) c) n ih)

-- A union whose only field is an array of the union passes its own check, and the search from it
-- accepts it, since it does not look into arrays; its size is not found, whatever the fuel.
pub array_of_itself-accepted :
    (ctx : Context) (i n fuel : ℕ) (c : Bool) (b : UnionBody) (f : Field)
    → ctx.union_at i ≡ some b
    → b.fields ≡ f ∷ []
    → f.offset ≡ 0
    → f.type ≡ array (defined (union i) c) n
    → (verify_union b.fields ≡ true)
      × (check_recursion ctx (suc fuel) (union i) ≡ accepted)
      × (byte_size ctx fuel (defined (union i) c) ≡ none)
unfolding check_recursion visit_class fields_of union_fields
array_of_itself-accepted ctx i n fuel c b f p q z e = (
  rw q (single_field-accepted f z),
  rw (p, q) (array_field-accepted (visit_class ctx (union i) fuel) (union i) (union i) n c f e),
  array_field-size ctx i n fuel c b f p q e,
)
