-- ===== src/Clift/Recursion/Sound.antt =====
-- What the search of ModuleValidator (lib/mlir/Dialect/Clift/IR/CliftOps.cpp) finds, and when it ends.
use revng_c.Prelude.{
  ℕ, zero, suc, ◌<◌, Bool, true, List, [], ◌∷◌, ◌≡◌, ◌≢◌, refl, ap, arith, Bool-cases, inl, inr,
  ◌↔◌,
}
use revng_c.Clift.Types.{
  ValueType, primitive, pointer, array, defined, scalar_tuple, TypeDefinition, dealias,
}
use revng_c.Clift.Classes.{Field, Context}
use revng_c.Clift.Recursion.{
  Verdict, accepted, refused, unfinished, same_definition, fields_of, visit_field_at, and_next,
  visit_fields, visit_class, check_recursion,
}

-- `InFields fs d`: some field, behind typedefs, is of the defined type `d`.
pub data InFields : List Field → TypeDefinition → Type 0 where
  here :
      {f : Field} {fs : List Field} {d : TypeDefinition} {c : Bool}
      → dealias f.type ≡ defined d c
      → InFields (f ∷ fs) d
  later : {f : Field} {fs : List Field} {d : TypeDefinition} → InFields fs d → InFields (f ∷ fs) d

module _ (ctx : Context) where
  -- `Within d e`: going from `d` to the type of a field, once or more often, leads to `e`.
  pub data Within : TypeDefinition → TypeDefinition → Type 0 where
    field_of : {d e : TypeDefinition} → InFields (fields_of ctx d) e → Within d e
    deeper : {d e f : TypeDefinition} → InFields (fields_of ctx d) e → Within e f → Within d f

  -- Each type of a field ranks below the class that has the field.
  abbrev pub IsRanked : (TypeDefinition → ℕ) → Type 0
  IsRanked rank = (d e : TypeDefinition) → InFields (fields_of ctx d) e → rank e < rank d

pub same_definition_iff : (d e : TypeDefinition) → (same_definition d e ≡ true) ↔ (d ≡ e)
unfolding same_definition
same_definition_iff d e = ground arith

and_next_both : (v w : Verdict) → and_next v w ≡ accepted → (v ≡ accepted) × (w ≡ accepted)
unfolding and_next
and_next_both accepted w h = (refl, h)
and_next_both refused w h = cc
and_next_both unfinished w h = cc

visit_field_of_defined :
    (visit : TypeDefinition → Verdict) (root d : TypeDefinition) (c : Bool)
    → visit_field_at visit root (defined d c) ≡ accepted
    → (d ≢ root) × (visit d ≡ accepted)
unfolding visit_field_at
visit_field_of_defined visit root d c h = elim (Bool-cases (same_definition d root)) [
  | inl e ↦ let h' : refused ≡ accepted = rw e at h in cc
  | inr e ↦ (λ p. let q = (same_definition_iff d root).1 p in cc, rw e at h)
]

visit_fields_lem :
    (visit : TypeDefinition → Verdict) (root : TypeDefinition) {fs : List Field}
    {d : TypeDefinition}
    → visit_fields visit root fs ≡ accepted
    → InFields fs d
    → (d ≢ root) × (visit d ≡ accepted)
unfolding visit_fields
visit_fields_lem visit root h (here {f} {fs} {d} {c} e) =
    let (p, _) =
      and_next_both (visit_field_at visit root (dealias f.type)) (visit_fields visit root fs) h in
    visit_field_of_defined visit root d c (rw e at p)
visit_fields_lem visit root h (later {f} {fs} m) =
    let (_, q) =
      and_next_both (visit_field_at visit root (dealias f.type)) (visit_fields visit root fs) h in
    visit_fields_lem visit root q m

module _ (ctx : Context) (root : TypeDefinition) where
  visit_class-avoids :
      {d e : TypeDefinition} (fuel : ℕ)
      → visit_class ctx root fuel d ≡ accepted
      → Within ctx d e
      → e ≢ root
  unfolding visit_class
  visit_class-avoids zero h w = cc
  visit_class-avoids (suc fuel) h (field_of m) =
      (visit_fields_lem (visit_class ctx root fuel) root h m).0
  visit_class-avoids (suc fuel) h (deeper m w) =
      visit_class-avoids fuel (visit_fields_lem (visit_class ctx root fuel) root h m).1 w

  visit_field_at-accepts :
      (visit : TypeDefinition → Verdict) (t : ValueType)
      → ((d : TypeDefinition) (c : Bool) → t ≡ defined d c → (d ≢ root) × (visit d ≡ accepted))
      → visit_field_at visit root t ≡ accepted
  unfolding visit_field_at
  visit_field_at-accepts visit (primitive k s c) all = refl
  visit_field_at-accepts visit (pointer t s c) all = refl
  visit_field_at-accepts visit (array t n) all = refl
  visit_field_at-accepts visit (scalar_tuple i) all = refl
  visit_field_at-accepts visit (defined d c) all =
      let (p, q) = all d c refl in
      elim (Bool-cases (same_definition d root)) [
        | inl e ↦ absurd (p ((same_definition_iff d root).0 e))
        | inr e ↦ rw e q
      ]

  visit_fields-accepts :
      (visit : TypeDefinition → Verdict) (fs : List Field)
      → ((d : TypeDefinition) → InFields fs d → (d ≢ root) × (visit d ≡ accepted))
      → visit_fields visit root fs ≡ accepted
  unfolding visit_fields and_next
  visit_fields-accepts visit [] all = refl
  visit_fields-accepts visit (f ∷ fs) all =
      rw (visit_field_at-accepts visit (dealias f.type) (λ d c e. all d (here e)))
        (visit_fields-accepts visit fs (λ d m. all d (later m)))

  visit_class-accepts :
      (rank : TypeDefinition → ℕ) (fuel : ℕ) (d : TypeDefinition)
      → IsRanked ctx rank
      → rank d < fuel
      → rank d < suc (rank root)
      → visit_class ctx root fuel d ≡ accepted
  unfolding visit_class
  visit_class-accepts rank zero d r h g = absurd (omega arith)
  visit_class-accepts rank (suc fuel) d r h g =
      visit_fields-accepts (visit_class ctx root fuel) (fields_of ctx d) λ e m.
        let below = r d e m in
        (
          λ p. let q : rank e ≡ rank root = ap rank p in absurd (omega arith),
          visit_class-accepts rank fuel e r (omega arith) (omega arith),
        )

-- A class that the search accepts does not hold itself: no way through the types of fields, arrays
-- left aside, leads from the class back to it.
pub check_recursion-IsSound :
    (ctx : Context) (fuel : ℕ) (d : TypeDefinition)
    → check_recursion ctx fuel d ≡ accepted
    → ¬ Within ctx d d
unfolding check_recursion
check_recursion-IsSound ctx fuel d h w = visit_class-avoids ctx d fuel h w refl

-- Where the classes can be ranked so that the types of fields rank below the class that has them, the
-- search from any class ends, with as much fuel as the class's rank and one more, and accepts it.
pub check_recursion-accepts :
    (ctx : Context) (rank : TypeDefinition → ℕ) (fuel : ℕ) (d : TypeDefinition)
    → IsRanked ctx rank
    → rank d < fuel
    → check_recursion ctx fuel d ≡ accepted
unfolding check_recursion
check_recursion-accepts ctx rank fuel d r h =
    visit_class-accepts ctx d rank fuel d r h (omega arith)
