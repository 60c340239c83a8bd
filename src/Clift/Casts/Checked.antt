-- ===== src/Clift/Casts/Checked.antt =====
-- CastOp::verify (lib/mlir/Dialect/Clift/IR/CliftOps.cpp) accepts the casts that the rules allow.
use revng_c.Prelude.{
  ℕ, ◌<◌, Bool, true, false, ◌&&◌, not, ◌==◌, ==_iff, ltb, Option, some, ◌>>=◌, >>=-eq-some,
  of_some, ◌≡◌, ◌↔◌, refl, sym, ap, ◌∙◌, subst, arith, Bool-cases, inl, inr, and-eq-true,
}
use revng_c.Clift.Types.{
  PrimitiveKind, ValueType, primitive, pointer, array, defined, scalar_tuple, struct, union,
  enumeration, typedef, function, is_const, decompose_from, decompose_typedef, same_type_iff,
}
use revng_c.Clift.Types.Typedefs.{
  Names, IsEnd, dealias_at, dealias_at-of_Names, Names-decompose_typedef,
}
use revng_c.Clift.Kinds.{
  is_function, is_object_at, is_object_type, is_array_at, is_array_type, Underlying, integer,
  no_integer, aborted, underlying_integer_type,
}
use revng_c.Clift.Casts.{
  CastKind, extend, truncate, reinterpret, decay, same_kind, check_argument, check_resize, wider,
  narrower, is_stored, check_reinterpret, decays_to, check_decay, check_kind, verify_cast,
}
use revng_c.Clift.Casts.Typing.{
  HasInteger, HasInteger-underlying, underlying-of_HasInteger, StoredEnd, a_number, an_address,
  an_enum, a_struct, a_union, HasStored, Decays, an_array, a_function, Casts,
  is_object_at-add_const, is_array_at-add_const,
}

same_kind_iff : (k l : PrimitiveKind) → (same_kind k l ≡ true) ↔ (k ≡ l)
unfolding same_kind
same_kind_iff k l = ground arith

-- no typedef stands at the end of a chain
abbrev NoTypedef : ValueType → Type 0
NoTypedef (defined (typedef i n t) c) = ⊥
NoTypedef (defined (struct i) c) = Unit
NoTypedef (defined (union i) c) = Unit
NoTypedef (defined (enumeration i n t fs) c) = Unit
NoTypedef (defined (function i n r ts) c) = Unit
NoTypedef (primitive k s c) = Unit
NoTypedef (pointer t s c) = Unit
NoTypedef (array t n) = Unit
NoTypedef (scalar_tuple i) = Unit

NoTypedef-decompose_from : (t : ValueType) (h : Bool) → NoTypedef (decompose_from t h).0
unfolding decompose_from
NoTypedef-decompose_from (defined (typedef i n t) c) h = NoTypedef-decompose_from t _
NoTypedef-decompose_from (defined (struct i) c) h = tt
NoTypedef-decompose_from (defined (union i) c) h = tt
NoTypedef-decompose_from (defined (enumeration i n t fs) c) h = tt
NoTypedef-decompose_from (defined (function i n r ts) c) h = tt
NoTypedef-decompose_from (primitive k s c) h = tt
NoTypedef-decompose_from (pointer t s c) h = tt
NoTypedef-decompose_from (array t n) h = tt
NoTypedef-decompose_from (scalar_tuple i) h = tt

StoredEnd-at :
    (u : ValueType) → NoTypedef u → is_object_at u ≡ true → is_array_at u ≡ false → StoredEnd u
unfolding is_object_at is_array_at is_function
StoredEnd-at (primitive k s c) n h a = a_number (ground (arith, h))
StoredEnd-at (pointer t s c) n h a = an_address
StoredEnd-at (array t m) n h a = cc
StoredEnd-at (defined (struct i) c) n h a = a_struct
StoredEnd-at (defined (union i) c) n h a = a_union
StoredEnd-at (defined (enumeration i m t fs) c) n h a = an_enum
StoredEnd-at (defined (typedef i m t) c) n h a = absurd n
StoredEnd-at (defined (function i m r ts) c) n h a = cc
StoredEnd-at (scalar_tuple i) n h a = cc

HasStored-is_stored : (t : ValueType) → is_stored t ≡ true → HasStored t
unfolding is_object_type is_array_type decompose_typedef
HasStored-is_stored t h =
    let (o, a) = and-eq-true (is_object_type t) (not (is_array_type t)) h in
    let o' = sym (dealias_at is_object_at is_object_at-add_const t) ∙ o in
    let a' = sym (dealias_at is_array_at is_array_at-add_const t) ∙ not-eq-true _ a in
    (
      (decompose_typedef t).0,
      Names-decompose_typedef t,
      StoredEnd-at (decompose_typedef t).0 (NoTypedef-decompose_from t false) o' a',
    )
  where
    not-eq-true : (b : Bool) → not b ≡ true → b ≡ false
    not-eq-true true e = cc
    not-eq-true false e = refl

is_stored-end :
    {t u : ValueType}
    → Names t u
    → IsEnd u
    → is_object_at u ≡ true
    → is_array_at u ≡ false
    → is_stored t ≡ true
unfolding is_object_type is_array_type
is_stored-end m e o a = rw (
  dealias_at-of_Names is_object_at is_object_at-add_const m e,
  dealias_at-of_Names is_array_at is_array_at-add_const m e,
  o,
  a,
)

is_stored-of_HasStored : (t : ValueType) → HasStored t → is_stored t ≡ true
unfolding is_object_at is_array_at is_function decompose_from
is_stored-of_HasStored t (u, m, a_number e) = is_stored-end m (λ h. refl) (rw e) refl
is_stored-of_HasStored t (u, m, an_address) = is_stored-end m (λ h. refl) refl refl
is_stored-of_HasStored t (u, m, an_enum) = is_stored-end m (λ h. refl) refl refl
is_stored-of_HasStored t (u, m, a_struct) = is_stored-end m (λ h. refl) refl refl
is_stored-of_HasStored t (u, m, a_union) = is_stored-end m (λ h. refl) refl refl

-- both types are integers of one kind, and their sizes fit
abbrev Resizes : (ℕ → ℕ → Bool) → Underlying → Underlying → Type 0
Resizes fits r a =
    (k : PrimitiveKind) × (m : ℕ) × (n : ℕ) × (r ≡ integer k m)
    × (a ≡ integer k n)
    × (fits m n ≡ true)

check_resize_iff :
    (fits : ℕ → ℕ → Bool) (r a : Underlying)
    → (check_resize fits r a ≡ some true) ↔ Resizes fits r a
unfolding check_resize check_argument
check_resize_iff fits (integer k m) (integer l n) = (
  λ h.
      let (p, q) = and-eq-true (same_kind k l) (fits m n) (of_some h) in
      let e = (same_kind_iff k l).0 p in (k, m, n, refl, ap (λ x. integer x n) (sym e), q),
  λ (k', m', n', p, q, f).
      let e = (same_kind_iff k l).1 (cc) in let f' : fits m n ≡ true = cc in rw (e, f'),
)
check_resize_iff fits (integer k m) no_integer = (λ h. cc, λ (k', m', n', p, q, f). cc)
check_resize_iff fits (integer k m) aborted = (λ h. cc, λ (k', m', n', p, q, f). cc)
check_resize_iff fits no_integer a = (λ h. cc, λ (k', m', n', p, q, f). cc)
check_resize_iff fits aborted a = (λ h. cc, λ (k', m', n', p, q, f). cc)

Decays-decays_to : (t v : ValueType) → decays_to t v ≡ true → Decays t v
unfolding decays_to is_function
Decays-decays_to (array t n) v h =
    subst (Decays (array t n)) (sym ((same_type_iff v t).0 h)) an_array
Decays-decays_to (defined (struct i) c) v h = cc
Decays-decays_to (defined (union i) c) v h = cc
Decays-decays_to (defined (enumeration i n t fs) c) v h = cc
Decays-decays_to (defined (typedef i n t) c) v h = cc
Decays-decays_to (defined (function i n r ts) c) v h =
    let f = defined (function i n r ts) c in
    subst (Decays f) (sym ((same_type_iff v f).0 h)) a_function
Decays-decays_to (primitive k s c) v h = cc
Decays-decays_to (pointer t s c) v h = cc
Decays-decays_to (scalar_tuple i) v h = cc

decays_to-of_Decays : {t v : ValueType} → Decays t v → decays_to t v ≡ true
unfolding decays_to is_function
decays_to-of_Decays (an_array {t} {n}) = (same_type_iff t t).1 refl
decays_to-of_Decays (a_function {i} {n} {r} {ts} {c}) =
    let f = defined (function i n r ts) c in (same_type_iff f f).1 refl

HasInteger-pair :
    (fits : ℕ → ℕ → Bool) (t u : ValueType)
    → (Resizes fits (underlying_integer_type u) (underlying_integer_type t)) ↔ (
        (k : PrimitiveKind) × (m : ℕ) × (n : ℕ) × HasInteger u k m
        × HasInteger t k n
        × (fits m n ≡ true))
HasInteger-pair fits t u = (
  λ (k, m, n, p, q, f). (k, m, n, HasInteger-underlying u k m p, HasInteger-underlying t k n q, f),
  λ (k, m, n, p, q, f).
      (k, m, n, underlying-of_HasInteger u k m p, underlying-of_HasInteger t k n q, f),
)

ltb_iff : (a b : ℕ) → (ltb a b ≡ true) ↔ (a < b)
ltb_iff a b = ground arith

module _ (size_of : ValueType → Option ℕ) where
  same_size :
      (t u : ValueType)
      → (size_of u >>= λ s. size_of t >>= λ r. some (s == r)) ≡ some true
      → (n : ℕ) × (size_of u ≡ some n) × (size_of t ≡ some n)
  same_size t u h =
      let (s, p, h1) = >>=-eq-some (size_of u) _ h in
      let (r, q, h2) = >>=-eq-some (size_of t) _ h1 in
      let e = (==_iff s r).0 (of_some h2) in (s, p, q ∙ ap some (sym e))

  check_reinterpret_iff :
      (t u : ValueType)
      → (check_reinterpret size_of t u ≡ some true) ↔ Casts size_of reinterpret t u
  unfolding check_reinterpret
  check_reinterpret_iff t u = (
    λ h. elim (Bool-cases (is_stored u && is_stored t)) [
      | inl b ↦
          let (p, q) = and-eq-true (is_stored u) (is_stored t) b in
          let (n, e, f) = same_size t u (rw b at h) in
          (n, HasStored-is_stored u p, HasStored-is_stored t q, e, f)
      | inr b ↦ let h' : some false ≡ some true = rw b at h in cc
    ],
    λ (n, p, q, e, f).
        rw (is_stored-of_HasStored u p, is_stored-of_HasStored t q, e, f, (==_iff n n).1 refl),
  )

  check_decay_iff : (t u : ValueType) → (check_decay t u ≡ true) ↔ Casts size_of decay t u
  unfolding check_decay
  check_decay_iff t u = (to u, λ (v, s, c, e, d). rw e (decays_to-of_Decays d))
    where
      to : (w : ValueType) → check_decay t w ≡ true → Casts size_of decay t w
      to (pointer v s c) h = (v, s, c, refl, Decays-decays_to t v h)
      to (primitive k s c) h = cc
      to (array v n) h = cc
      to (defined d c) h = cc
      to (scalar_tuple i) h = cc

  check_kind_iff :
      (kind : CastKind) (t u : ValueType)
      → (check_kind size_of kind t u ≡ some true) ↔ Casts size_of kind t u
  unfolding check_kind
  check_kind_iff extend t u =
      let c = check_resize_iff wider (underlying_integer_type u) (underlying_integer_type t) in
      let d = HasInteger-pair wider t u in
      (
        λ h. let (k, m, n, p, q, f) = d.0 (c.0 h) in (k, m, n, p, q, (ltb_iff n m).0 f),
        λ (k, m, n, p, q, f). c.1 (d.1 (k, m, n, p, q, (ltb_iff n m).1 f)),
      )
  check_kind_iff truncate t u =
      let c = check_resize_iff narrower (underlying_integer_type u) (underlying_integer_type t) in
      let d = HasInteger-pair narrower t u in
      (
        λ h. let (k, m, n, p, q, f) = d.0 (c.0 h) in (k, m, n, p, q, (ltb_iff m n).0 f),
        λ (k, m, n, p, q, f). c.1 (d.1 (k, m, n, p, q, (ltb_iff m n).1 f)),
      )
  check_kind_iff reinterpret t u = check_reinterpret_iff t u
  check_kind_iff decay t u =
      let c = check_decay_iff t u in (λ h. c.0 (of_some h), λ d. ap some (c.1 d))

  -- A cast passes the check exactly if its result type is not `const` and the rules allow it:
  -- an extension or a truncation between integers of one kind, behind typedefs and enums, to a greater
  -- or a smaller size; a reinterpretation between numbers, pointers, enums and classes of one size; a
  -- decay of an array to a pointer to its elements, or of a function to a pointer to it.
  pub verify_cast_iff :
      (kind : CastKind) (t u : ValueType)
      → (verify_cast size_of kind t u ≡ some true) ↔ ((is_const u ≡ false) × Casts size_of kind t u)
  unfolding verify_cast
  verify_cast_iff kind t u = (
    λ h. elim (Bool-cases (is_const u)) [
      | inl b ↦ let h' : some false ≡ some true = rw b at h in cc
      | inr b ↦ (b, (check_kind_iff kind t u).0 (rw b at h))
    ],
    λ (b, d). rw b ((check_kind_iff kind t u).1 d),
  )
