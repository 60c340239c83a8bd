-- ===== src/Clift/Statements/Placed.antt =====
-- Where each statement may stand, by rules, and that ModuleValidator
-- (lib/mlir/Dialect/Clift/IR/CliftOps.cpp) accepts just the functions that follow them.
use revng_c.Prelude.{
  Bool, true, false, Option, some, none, [], ◌∷◌, ◌≡◌, ◌↔◌, refl, sym, subst, Bool-cases, inl, inr,
  and-eq-true,
}
use revng_c.Clift.Types.{ValueType, same_type_iff}
use revng_c.Clift.Kinds.{is_void}
use revng_c.Clift.Statements.{
  LoopOrSwitch, loop, switch, Op, loop_break, loop_continue, switch_break, return_op, module_level,
  simple, if_op, for_op, while_op, do_while_op, switch_op, Ops, nil, cons, Regions, no_region,
  region, Ancestors, is_kind, has_parent, check_return, visit_op, visit_ops, visit_regions,
  visit_function,
}

module _ (return_type : ValueType) where
  -- `target` is the loop or the switch that a `break` of C would leave, and `in_loop` says whether
  -- there is a loop for a `continue`.
  mutual
    pub data Placed : Option LoopOrSwitch → Bool → Op → Type 0 where
      leaves_loop : {b : Bool} → Placed (some loop) b loop_break
      leaves_switch : {b : Bool} → Placed (some switch) b switch_break
      continues : {t : Option LoopOrSwitch} → Placed t true loop_continue
      returns :
          {t : Option LoopOrSwitch} {b : Bool} {r : ValueType}
          → is_void return_type ≡ false
          → r ≡ return_type
          → Placed t b (return_op (some r))
      stands : {t : Option LoopOrSwitch} {b : Bool} → Placed t b simple
      in_if :
          {t : Option LoopOrSwitch} {b : Bool} {x y : Ops}
          → AllPlaced t b x
          → AllPlaced t b y
          → Placed t b (if_op x y)
      in_for :
          {t : Option LoopOrSwitch} {b : Bool} {x : Ops}
          → AllPlaced (some loop) true x
          → Placed t b (for_op x)
      in_while :
          {t : Option LoopOrSwitch} {b : Bool} {x : Ops}
          → AllPlaced (some loop) true x
          → Placed t b (while_op x)
      in_do_while :
          {t : Option LoopOrSwitch} {b : Bool} {x : Ops}
          → AllPlaced (some loop) true x
          → Placed t b (do_while_op x)
      in_switch :
          {t : Option LoopOrSwitch} {b : Bool} {rs : Regions}
          → EachPlaced (some switch) b rs
          → Placed t b (switch_op rs)

    pub data AllPlaced : Option LoopOrSwitch → Bool → Ops → Type 0 where
      nothing : {t : Option LoopOrSwitch} {b : Bool} → AllPlaced t b nil
      first :
          {t : Option LoopOrSwitch} {b : Bool} {o : Op} {os : Ops}
          → Placed t b o
          → AllPlaced t b os
          → AllPlaced t b (cons o os)

    pub data EachPlaced : Option LoopOrSwitch → Bool → Regions → Type 0 where
      no_more : {t : Option LoopOrSwitch} {b : Bool} → EachPlaced t b no_region
      one :
          {t : Option LoopOrSwitch} {b : Bool} {os : Ops} {rs : Regions}
          → AllPlaced t b os
          → EachPlaced t b rs
          → EachPlaced t b (region os rs)

-- the innermost loop or switch
abbrev pub innermost : Ancestors → Option LoopOrSwitch
innermost [] = none
innermost (none ∷ ps) = innermost ps
innermost (some k ∷ ps) = some k

abbrev pub in_loop : Ancestors → Bool
in_loop [] = false
in_loop (none ∷ ps) = in_loop ps
in_loop (some loop ∷ ps) = true
in_loop (some switch ∷ ps) = in_loop ps

has_parent_directly :
    (k : LoopOrSwitch) (ps : Ancestors) → (has_parent k true ps ≡ true) ↔ (innermost ps ≡ some k)
unfolding has_parent is_kind
has_parent_directly k [] = (λ h. cc, λ h. cc)
has_parent_directly k (none ∷ ps) = has_parent_directly k ps
has_parent_directly loop (some loop ∷ ps) = (λ h. refl, λ h. refl)
has_parent_directly loop (some switch ∷ ps) = (λ h. cc, λ h. cc)
has_parent_directly switch (some loop ∷ ps) = (λ h. cc, λ h. cc)
has_parent_directly switch (some switch ∷ ps) = (λ h. refl, λ h. refl)

has_parent_anywhere : (ps : Ancestors) → has_parent loop false ps ≡ in_loop ps
unfolding has_parent is_kind
has_parent_anywhere [] = refl
has_parent_anywhere (none ∷ ps) = has_parent_anywhere ps
has_parent_anywhere (some loop ∷ ps) = refl
has_parent_anywhere (some switch ∷ ps) = has_parent_anywhere ps

check_return_iff :
    (r t : ValueType) → (check_return r (some t) ≡ true) ↔ ((is_void r ≡ false) × (t ≡ r))
unfolding check_return
check_return_iff r t = elim (Bool-cases (is_void r)) [
  | inl e ↦ (λ h. let h' : false ≡ true = rw e at h in cc, λ (p, q). cc)
  | inr e ↦ (λ h. (e, (same_type_iff t r).0 (rw e at h)), λ (p, q). rw e ((same_type_iff t r).1 q))
]

module _ (r : ValueType) where
  mutual
    unfolding visit_op visit_ops visit_regions check_return

    Placed-visit_op :
        (ps : Ancestors) (o : Op) → visit_op r ps o ≡ true → Placed r (innermost ps) (in_loop ps) o
    Placed-visit_op ps loop_break h =
        subst (λ x. Placed r x (in_loop ps) loop_break) (sym ((has_parent_directly loop ps).0 h))
          leaves_loop
    Placed-visit_op ps switch_break h =
        subst (λ x. Placed r x (in_loop ps) switch_break)
          (sym ((has_parent_directly switch ps).0 h)) leaves_switch
    Placed-visit_op ps loop_continue h =
        let e : true ≡ in_loop ps = cc (has_parent_anywhere ps) in
        subst (λ x. Placed r (innermost ps) x loop_continue) e continues
    Placed-visit_op ps (return_op none) h = cc
    Placed-visit_op ps (return_op (some t)) h =
        let (p, q) = (check_return_iff r t).0 h in returns p q
    Placed-visit_op ps module_level h = cc
    Placed-visit_op ps simple h = stands
    Placed-visit_op ps (if_op x y) h =
        let (p, q) = and-eq-true (visit_ops r (none ∷ ps) x) (visit_ops r (none ∷ ps) y) h in
        in_if (AllPlaced-visit_ops (none ∷ ps) x p) (AllPlaced-visit_ops (none ∷ ps) y q)
    Placed-visit_op ps (for_op x) h = in_for (AllPlaced-visit_ops (some loop ∷ ps) x h)
    Placed-visit_op ps (while_op x) h = in_while (AllPlaced-visit_ops (some loop ∷ ps) x h)
    Placed-visit_op ps (do_while_op x) h = in_do_while (AllPlaced-visit_ops (some loop ∷ ps) x h)
    Placed-visit_op ps (switch_op rs) h =
        in_switch (EachPlaced-visit_regions (some switch ∷ ps) rs h)

    AllPlaced-visit_ops :
        (ps : Ancestors) (os : Ops)
        → visit_ops r ps os ≡ true
        → AllPlaced r (innermost ps) (in_loop ps) os
    AllPlaced-visit_ops ps nil h = nothing
    AllPlaced-visit_ops ps (cons o os) h =
        let (p, q) = and-eq-true (visit_op r ps o) (visit_ops r ps os) h in
        first (Placed-visit_op ps o p) (AllPlaced-visit_ops ps os q)

    EachPlaced-visit_regions :
        (ps : Ancestors) (rs : Regions)
        → visit_regions r ps rs ≡ true
        → EachPlaced r (innermost ps) (in_loop ps) rs
    EachPlaced-visit_regions ps no_region h = no_more
    EachPlaced-visit_regions ps (region os rs) h =
        let (p, q) = and-eq-true (visit_ops r ps os) (visit_regions r ps rs) h in
        one (AllPlaced-visit_ops ps os p) (EachPlaced-visit_regions ps rs q)

  -- the ancestors are like what the rules know of them
  record Around (ps : Ancestors) (t : Option LoopOrSwitch) (b : Bool) : Type 0 where
    pub target : innermost ps ≡ t
    pub loops : in_loop ps ≡ b

  mutual
    unfolding visit_op visit_ops visit_regions

    visit_op-of_Placed :
        (ps : Ancestors) {t : Option LoopOrSwitch} {b : Bool} {o : Op}
        → Around ps t b
        → Placed r t b o
        → visit_op r ps o ≡ true
    visit_op-of_Placed ps a leaves_loop = (has_parent_directly loop ps).1 a.target
    visit_op-of_Placed ps a leaves_switch = (has_parent_directly switch ps).1 a.target
    visit_op-of_Placed ps a continues = cc (has_parent_anywhere ps, a.loops)
    visit_op-of_Placed ps a (returns {r = u} p q) = (check_return_iff r u).1 (p, q)
    visit_op-of_Placed ps a stands = refl
    visit_op-of_Placed ps {t} {b} a (in_if x y) =
        let a' : Around (none ∷ ps) t b = record { target = a.target; loops = a.loops } in
        rw (visit_ops-of_AllPlaced (none ∷ ps) a' x, visit_ops-of_AllPlaced (none ∷ ps) a' y)
    visit_op-of_Placed ps a (in_for x) =
        visit_ops-of_AllPlaced (some loop ∷ ps) (record { target = refl; loops = refl }) x
    visit_op-of_Placed ps a (in_while x) =
        visit_ops-of_AllPlaced (some loop ∷ ps) (record { target = refl; loops = refl }) x
    visit_op-of_Placed ps a (in_do_while x) =
        visit_ops-of_AllPlaced (some loop ∷ ps) (record { target = refl; loops = refl }) x
    visit_op-of_Placed ps a (in_switch x) =
        visit_regions-of_EachPlaced (some switch ∷ ps) (record { target = refl; loops = a.loops }) x

    visit_ops-of_AllPlaced :
        (ps : Ancestors) {t : Option LoopOrSwitch} {b : Bool} {os : Ops}
        → Around ps t b
        → AllPlaced r t b os
        → visit_ops r ps os ≡ true
    visit_ops-of_AllPlaced ps a nothing = refl
    visit_ops-of_AllPlaced ps a (first x y) =
        rw (visit_op-of_Placed ps a x, visit_ops-of_AllPlaced ps a y)

    visit_regions-of_EachPlaced :
        (ps : Ancestors) {t : Option LoopOrSwitch} {b : Bool} {rs : Regions}
        → Around ps t b
        → EachPlaced r t b rs
        → visit_regions r ps rs ≡ true
    visit_regions-of_EachPlaced ps a no_more = refl
    visit_regions-of_EachPlaced ps a (one x y) =
        rw (visit_ops-of_AllPlaced ps a x, visit_regions-of_EachPlaced ps a y)

-- The validator accepts a function exactly if its statements are placed by the rules: the innermost
-- loop or switch around a loop's `break` is a loop and that around a switch's `break` is a switch, a
-- `continue` has a loop around it, no function or global variable stands inside, and each `return` has
-- an expression of the function's return type, which is not void.
pub visit_function_iff :
    (r : ValueType) (body : Ops) → (visit_function r body ≡ true) ↔ AllPlaced r none false body
unfolding visit_function
visit_function_iff r body = (
  λ h. AllPlaced-visit_ops r (none ∷ (none ∷ [])) body h,
  λ p. visit_ops-of_AllPlaced r (none ∷ (none ∷ [])) (record { target = refl; loops = refl }) p,
)
