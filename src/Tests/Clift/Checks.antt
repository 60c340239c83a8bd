-- ===== src/Tests/Clift/Checks.antt =====
-- The checks of structs, casts, classes and statements.
use revng_c.Prelude.{
  ℕ, ◌<◌, ◌+◌, true, false, some, none, [], ◌∷◌, ◌≡◌, ◌↔◌, refl, arith, Option, List, Bool, of_some,
  subst,
}
use revng_c.Clift.Types.{
  ValueType, array, defined, union, struct, TypeDefinition, enumeration, typedef, function,
  is_const, dealias,
}
use revng_c.Clift.Classes.{Field, Context, byte_size, verify_struct, verify_union}
use revng_c.Clift.Classes.Layout.{EndsFit, Occupies, verify_struct-disjoint, verify_struct-wraps}
use revng_c.Clift.Casts.{extend, verify_cast}
use revng_c.Clift.Casts.Typing.{Casts}
use revng_c.Clift.Casts.Checked.{verify_cast_iff}
use revng_c.Clift.Recursion.{accepted, unfinished, check_recursion, fields_of}
use revng_c.Clift.Recursion.Sound.{
  InFields, here, later, Within, check_recursion-IsSound, check_recursion-accepts,
}
use revng_c.Clift.Recursion.Endless.{check_recursion-endless, array_of_itself-accepted}
use revng_c.Clift.Statements.{
  loop_break, return_op, while_op, if_op, switch_op, Ops, nil, cons, region, no_region,
  visit_function, check_return,
}
use revng_c.Clift.Kinds.{is_void}
use revng_c.Clift.Statements.Placed.{AllPlaced, visit_function_iff}
use revng_c.Clift.Statements.Void.{at, itself, in_then, visit_function-void}
use revng_c.Tests.Clift.{int32, int8, nothing, counter, field, of_union, body, context}

-- int32_t at 0 and at 4, in a struct of 8
abbrev second : Field
second = record { offset = 4; type = int32; name = 103 ∷ [] }

abbrev fields : List Field
fields = field int32 ∷ (second ∷ [])

size : ValueType → Option ℕ
size = byte_size context 1

verify_struct-disjoint_example : (5 < 8) × (◌≡◌ {A = ℕ} 1 1)
unfolding size byte_size
verify_struct-disjoint_example =
    verify_struct-disjoint size 8 fields 1 1 5 fit (unfold verify_struct in refl) at_five at_five
  where
    fit : EndsFit size fields
    fit = (λ s e. omega (arith, fits e), (λ s e. omega (arith, fits e), tt))
      where
        fits : {s : ℕ} → some 4 ≡ some s → 4 ≡ s
        fits e = of_some e

    at_five : Occupies size fields 1 5
    at_five = (second, refl, (4, refl, omega arith, omega arith))

abbrev last : Field
last = record { offset = 18446744073709551614; type = int32; name = [] }

verify_struct-wraps_example : (verify_struct size 2 (last ∷ []) ≡ true) × (2 < last.offset + 4)
unfolding size byte_size
verify_struct-wraps_example =
    verify_struct-wraps size 2 4 last refl (omega arith) (omega arith) (omega arith) (omega arith)
      (omega arith) (omega arith)

verify_cast_iff_example :
    (verify_cast size extend int8 int32 ≡ some true)
    ↔ ((is_const int32 ≡ false) × Casts size extend int8 int32)
verify_cast_iff_example = verify_cast_iff size extend int8 int32

widening : verify_cast size extend int8 counter ≡ some false
unfolding verify_cast
widening = refl

check_recursion-IsSound_example : ¬ Within context (union 1) (union 1)
check_recursion-IsSound_example =
    check_recursion-IsSound context 3 (union 1) (unfold check_recursion fields_of in refl)

abbrev rank : TypeDefinition → ℕ
rank (struct i) = 0
rank (union i) = 1
rank (enumeration i n t fs) = 0
rank (typedef i n t) = 0
rank (function i n r ts) = 0

abbrev flat : Context
flat = record {
  struct_at = λ i. none;
  union_at = λ i. some (body (defined (struct i) false));
  tuple_at = λ i. none;
}

no_field : {fs : List Field} {d : TypeDefinition} → InFields fs d → fs ≡ [] → ⊥
no_field (here e) p = cc
no_field (later m) p = cc

only_field :
    {fs : List Field} {d : TypeDefinition} {f : Field}
    → InFields fs d
    → fs ≡ f ∷ []
    → (c : Bool) × (dealias f.type ≡ defined d c)
only_field (here {c} e) p = (c, cc)
only_field (later m) p = let q : _ ≡ [] = cc in absurd (no_field m q)

flat-ranked : (d e : TypeDefinition) → InFields (fields_of flat d) e → rank e < rank d
unfolding fields_of dealias
flat-ranked (struct i) e m = absurd (no_field m refl)
flat-ranked (enumeration i n t fs) e m = absurd (no_field m refl)
flat-ranked (typedef i n t) e m = absurd (no_field m refl)
flat-ranked (function i n r ts) e m = absurd (no_field m refl)
flat-ranked (union i) e m =
    let (c, p) = only_field m refl in
    let q : struct i ≡ e = cc in subst (λ d. rank d < 1) q (omega arith)

check_recursion-accepts_example : check_recursion flat 2 (union 1) ≡ accepted
check_recursion-accepts_example =
    check_recursion-accepts flat rank 2 (union 1) flat-ranked (omega arith)

check_recursion-endless_example : check_recursion context 100 (union 3) ≡ unfinished
check_recursion-endless_example =
    check_recursion-endless context (union 3) (union 2) 100 (λ e. cc)
      (field of_union, [], false, unfold fields_of in refl, unfold dealias in refl)
      (field of_union, [], false, unfold fields_of in refl, unfold dealias in refl)

abbrev of_itself : Field
of_itself = field (array (defined (union 4) false) 2)

array_of_itself-accepted_example :
    (verify_union (of_itself ∷ []) ≡ true)
    × (check_recursion context 6 (union 4) ≡ accepted)
    × (byte_size context 5 (defined (union 4) false) ≡ none)
array_of_itself-accepted_example =
    array_of_itself-accepted context 4 2 5 false (body of_itself.type) of_itself refl refl refl refl

-- while (..) { if (..) { break; } else { } } return x;
abbrev loops : Ops
loops =
    cons (while_op (cons (if_op (cons loop_break nil) nil) nil)) (cons (return_op (some int32)) nil)

visit_function_iff_example : (visit_function int32 loops ≡ true) ↔ AllPlaced int32 none false loops
visit_function_iff_example = visit_function_iff int32 loops

loops_accepted : visit_function int32 loops ≡ true
unfolding visit_function check_return
loops_accepted = refl

-- a break out of a loop from within a switch
through_switch :
    visit_function int32
      (cons (while_op (cons (switch_op (region (cons loop_break nil) no_region)) nil)) nil)
    ≡ false
unfolding visit_function
through_switch = refl

visit_function-void_example :
    visit_function nothing (cons (if_op (cons (return_op none) nil) nil) nil) ≡ false
visit_function-void_example =
    visit_function-void nothing (cons (if_op (cons (return_op none) nil) nil) nil)
      (unfold is_void in refl) (at (in_then (at itself)))
