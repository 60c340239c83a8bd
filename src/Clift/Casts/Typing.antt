-- ===== src/Clift/Casts/Typing.antt =====
-- Which casts there are, by rules, and that CastOp::verify accepts just these.
use revng_c.Prelude.{
  ℕ, ◌<◌, Bool, true, false, Option, some, List, ◌≡◌, refl, sym, ◌∙◌, subst, Bool-cases, inl, inr,
}
use revng_c.Clift.Types.{
  Name, EnumField, PrimitiveKind, ValueType, primitive, pointer, array, defined, scalar_tuple,
  ValueTypes, struct, union, enumeration, typedef, function, add_const, decompose_from,
  decompose_typedef,
}
use revng_c.Clift.Types.Typedefs.{Names, dealias_at, dealias_at-of_Names, Names-decompose_typedef}
use revng_c.Clift.Kinds.{
  is_integer_kind, is_void_kind, is_object_at, is_array_at, integer, no_integer, underlying_of_enum,
  underlying_at, underlying_integer_type,
}
use revng_c.Clift.Casts.{CastKind, extend, truncate, reinterpret, decay}

-- A type with no typedef at its head that has an integer type beneath it: an integer type itself, or
-- an enum over a primitive type or over typedefs of one.
pub data IntegerEnd : ValueType → PrimitiveKind → ℕ → Type 0 where
  plain :
      {k : PrimitiveKind} {s : ℕ} {c : Bool}
      → is_integer_kind k ≡ true
      → IntegerEnd (primitive k s c) k s
  of_enum :
      {i : ℕ} {n : Name} {t : ValueType} {fs : List EnumField} {c c' : Bool} {k : PrimitiveKind}
      {s : ℕ}
      → Names t (primitive k s c')
      → IntegerEnd (defined (enumeration i n t fs) c) k s

abbrev pub HasInteger : ValueType → PrimitiveKind → ℕ → Type 0
HasInteger t k s = (u : ValueType) × Names t u × IntegerEnd u k s

-- what a variable of one value is made of: a number, an address, an enum or a class
pub data StoredEnd : ValueType → Type 0 where
  a_number :
      {k : PrimitiveKind} {s : ℕ} {c : Bool} → is_void_kind k ≡ false → StoredEnd (primitive k s c)
  an_address : {t : ValueType} {s : ℕ} {c : Bool} → StoredEnd (pointer t s c)
  an_enum :
      {i : ℕ} {n : Name} {t : ValueType} {fs : List EnumField} {c : Bool}
      → StoredEnd (defined (enumeration i n t fs) c)
  a_struct : {i : ℕ} {c : Bool} → StoredEnd (defined (struct i) c)
  a_union : {i : ℕ} {c : Bool} → StoredEnd (defined (union i) c)

abbrev pub HasStored : ValueType → Type 0
HasStored t = (u : ValueType) × Names t u × StoredEnd u

-- An array decays to a pointer to its elements, a function to a pointer to itself.
pub data Decays : ValueType → ValueType → Type 0 where
  an_array : {t : ValueType} {n : ℕ} → Decays (array t n) t
  a_function :
      {i : ℕ} {n : Name} {r : ValueType} {ts : ValueTypes} {c : Bool}
      → Decays (defined (function i n r ts) c) (defined (function i n r ts) c)

module _ (size_of : ValueType → Option ℕ) where
  -- The casts from a type to another. No result is `const`.
  abbrev pub Casts : CastKind → ValueType → ValueType → Type 0
  Casts extend t u =
      (k : PrimitiveKind) × (m : ℕ) × (n : ℕ) × HasInteger u k m × HasInteger t k n × (n < m)
  Casts truncate t u =
      (k : PrimitiveKind) × (m : ℕ) × (n : ℕ) × HasInteger u k m × HasInteger t k n × (m < n)
  Casts reinterpret t u =
      (n : ℕ) × HasStored u × HasStored t × (size_of u ≡ some n) × (size_of t ≡ some n)
  Casts decay t u = (v : ValueType) × (s : ℕ) × (c : Bool) × (u ≡ pointer v s c) × Decays t v

underlying_of_enum-add_const :
    (u : ValueType) → underlying_of_enum (add_const u) ≡ underlying_of_enum u
unfolding underlying_of_enum add_const
underlying_of_enum-add_const (primitive k s c) = refl
underlying_of_enum-add_const (pointer t s c) = refl
underlying_of_enum-add_const (array t n) = refl
underlying_of_enum-add_const (defined d c) = refl
underlying_of_enum-add_const (scalar_tuple i) = refl

underlying_at-add_const : (u : ValueType) → underlying_at (add_const u) ≡ underlying_at u
unfolding underlying_at add_const
underlying_at-add_const (primitive k s c) = refl
underlying_at-add_const (pointer t s c) = refl
underlying_at-add_const (array t n) = refl
underlying_at-add_const (defined (struct i) c) = refl
underlying_at-add_const (defined (union i) c) = refl
underlying_at-add_const (defined (enumeration i n t fs) c) = refl
underlying_at-add_const (defined (typedef i n t) c) = refl
underlying_at-add_const (defined (function i n r ts) c) = refl
underlying_at-add_const (scalar_tuple i) = refl

pub is_object_at-add_const : (u : ValueType) → is_object_at (add_const u) ≡ is_object_at u
unfolding is_object_at add_const
is_object_at-add_const (primitive k s c) = refl
is_object_at-add_const (pointer t s c) = refl
is_object_at-add_const (array t n) = refl
is_object_at-add_const (defined d c) = refl
is_object_at-add_const (scalar_tuple i) = refl

pub is_array_at-add_const : (u : ValueType) → is_array_at (add_const u) ≡ is_array_at u
unfolding is_array_at add_const
is_array_at-add_const (primitive k s c) = refl
is_array_at-add_const (pointer t s c) = refl
is_array_at-add_const (array t n) = refl
is_array_at-add_const (defined d c) = refl
is_array_at-add_const (scalar_tuple i) = refl

enum_end :
    (u : ValueType) (k : PrimitiveKind) (s : ℕ)
    → underlying_of_enum u ≡ integer k s
    → (c : Bool) × (u ≡ primitive k s c)
unfolding underlying_of_enum
enum_end (primitive k s c) l t h = (c, cc)
enum_end (pointer t s c) l r h = cc
enum_end (array t n) l r h = cc
enum_end (defined d c) l r h = cc
enum_end (scalar_tuple i) l r h = cc

IntegerEnd-underlying :
    (u : ValueType) (k : PrimitiveKind) (s : ℕ) → underlying_at u ≡ integer k s → IntegerEnd u k s
unfolding underlying_at
IntegerEnd-underlying (primitive k s c) l r h = elim (Bool-cases (is_integer_kind k)) [
  | inl e ↦
      let h' : integer k s ≡ integer l r = rw e at h in
      let p : k ≡ l = cc in
      let q : s ≡ r = cc in
      subst (λ x. IntegerEnd (primitive k s c) x r) p
        (subst (IntegerEnd (primitive k s c) k) q (plain e))
  | inr e ↦ let h' : no_integer ≡ integer l r = rw e at h in cc
]
IntegerEnd-underlying (pointer t s c) l r h = cc
IntegerEnd-underlying (array t n) l r h = cc
IntegerEnd-underlying (defined (struct i) c) l r h = cc
IntegerEnd-underlying (defined (union i) c) l r h = cc
IntegerEnd-underlying (defined (enumeration i n t fs) c) l r h =
    let d = sym (dealias_at underlying_of_enum underlying_of_enum-add_const t) ∙ h in
    let (c', e) = enum_end (decompose_typedef t).0 l r d in
    of_enum (subst (Names t) e (Names-decompose_typedef t))
IntegerEnd-underlying (defined (typedef i n t) c) l r h = cc
IntegerEnd-underlying (defined (function i n q ts) c) l r h = cc
IntegerEnd-underlying (scalar_tuple i) l r h = cc

pub HasInteger-underlying :
    (t : ValueType) (k : PrimitiveKind) (s : ℕ)
    → underlying_integer_type t ≡ integer k s
    → HasInteger t k s
unfolding underlying_integer_type
HasInteger-underlying t k s h =
    let d = sym (dealias_at underlying_at underlying_at-add_const t) ∙ h in
    (
      (decompose_typedef t).0,
      Names-decompose_typedef t,
      IntegerEnd-underlying (decompose_typedef t).0 k s d,
    )

pub underlying-of_HasInteger :
    (t : ValueType) (k : PrimitiveKind) (s : ℕ)
    → HasInteger t k s
    → underlying_integer_type t ≡ integer k s
unfolding underlying_integer_type underlying_at decompose_from underlying_of_enum
underlying-of_HasInteger t k s (u, m, plain e) =
    dealias_at-of_Names underlying_at underlying_at-add_const m (λ h. refl) ∙ rw e
underlying-of_HasInteger t k s (u, m, of_enum {c'} m') =
    dealias_at-of_Names underlying_at underlying_at-add_const m (λ h. refl)
    ∙ dealias_at-of_Names underlying_of_enum underlying_of_enum-add_const m' (λ h. refl)
