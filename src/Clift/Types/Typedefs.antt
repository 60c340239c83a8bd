-- ===== src/Clift/Types/Typedefs.antt =====
-- What a type is behind its typedefs: decomposeTypedef and dealias
-- (lib/mlir/Dialect/Clift/IR/CliftTypes.cpp) against the chain of definitions.
use revng_c.Prelude.{ℕ, Bool, false, ◌||◌, ◌≡◌, ap, ◌∙◌, Bool-cases, inl, inr}
use revng_c.Clift.Types.{
  Name, ValueType, primitive, pointer, array, defined, scalar_tuple, struct, union, enumeration,
  typedef, function, decompose_from, decompose_typedef, add_const, dealias_with, dealias,
}

-- `Names t u`: `u` is `t`, or the chain of typedefs that `t` begins leads to `u`.
pub data Names : ValueType → ValueType → Type 0 where
  itself : {t : ValueType} → Names t t
  through :
      {i : ℕ} {n : Name} {c : Bool} {t u : ValueType}
      → Names t u
      → Names (defined (typedef i n t) c) u

pub Names-decompose_from : (t : ValueType) (h : Bool) → Names t (decompose_from t h).0
unfolding decompose_from
Names-decompose_from (defined (typedef i n t) c) h = through (Names-decompose_from t (h || c))
Names-decompose_from (defined (struct i) c) h = itself
Names-decompose_from (defined (union i) c) h = itself
Names-decompose_from (defined (enumeration i n t fs) c) h = itself
Names-decompose_from (defined (function i n r ts) c) h = itself
Names-decompose_from (primitive k s c) h = itself
Names-decompose_from (pointer t s c) h = itself
Names-decompose_from (array t n) h = itself
Names-decompose_from (scalar_tuple i) h = itself

-- a type with no typedef at its head
abbrev pub IsEnd : ValueType → Type 0
IsEnd u = (h : Bool) → (decompose_from u h).0 ≡ u

pub decompose_from-eq_of_Names :
    {t u : ValueType} → Names t u → IsEnd u → (h : Bool) → (decompose_from t h).0 ≡ u
unfolding decompose_from
decompose_from-eq_of_Names itself e h = e h
decompose_from-eq_of_Names (through {i} {n} {c} m) e h = decompose_from-eq_of_Names m e (h || c)

-- What does not look at `const` is the same of the dealiased type and of the end of the chain.
pub dealias_at {ℓ} :
    {A : Type ℓ} (f : ValueType → A)
    → ((u : ValueType) → f (add_const u) ≡ f u)
    → (t : ValueType) → f (dealias t) ≡ f (decompose_typedef t).0
unfolding dealias dealias_with
dealias_at f keep t = elim (Bool-cases (decompose_typedef t).1) [
  | inl e ↦ rw e (keep (decompose_typedef t).0)
  | inr e ↦ rw e
]

-- a question answered by an `_at` function, put at the end of the chain
pub dealias_at-of_Names {ℓ} :
    {A : Type ℓ} (f : ValueType → A)
    → ((u : ValueType) → f (add_const u) ≡ f u)
    → {t u : ValueType} → Names t u
    → IsEnd u
    → f (dealias t) ≡ f u
unfolding decompose_typedef
dealias_at-of_Names f keep {t} {u} m e =
    dealias_at f keep t ∙ ap f (decompose_from-eq_of_Names m e false)

pub Names-decompose_typedef : (t : ValueType) → Names t (decompose_typedef t).0
unfolding decompose_typedef
Names-decompose_typedef t = Names-decompose_from t false
