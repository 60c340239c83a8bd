-- ===== src/Clift/Classes/Layout.antt =====
-- What StructTypeAttr::verify (lib/mlir/Dialect/Clift/IR/CliftAttributes.cpp) means for the bytes of a
-- struct, and where its arithmetic wraps around.
use revng_c.Prelude.{
  ℕ, zero, suc, ◌+◌, ◌^◌, ◌≤◌, ◌<◌, true, ltb, Option, some, none, List, [], ◌∷◌, >>=-eq-some, ◌≡◌,
  refl, sym, ap, ◌∙◌, arith, Bool-cases, Option-cases, inl, inr, of_some,
}
use revng_c.Clift.Types.{Name, ValueType}
use revng_c.Clift.Classes.{
  Field, wrap64, insert_name, has_name, is_empty, check_fields, verify_struct,
}

abbrev pub get_elem? {ℓ} : {A : Type ℓ} → List A → ℕ → Option A
get_elem? [] i = none
get_elem? (x ∷ xs) zero = some x
get_elem? (x ∷ xs) (suc i) = get_elem? xs i

module _ (size_of : ValueType → Option ℕ) where
  -- byte `b` belongs to the field
  abbrev pub InField : Field → ℕ → Type 0
  InField f b = (s : ℕ) × (size_of f.type ≡ some s) × (f.offset ≤ b) × (b < f.offset + s)

  -- byte `b` belongs to field number `i`
  abbrev pub Occupies : List Field → ℕ → ℕ → Type 0
  Occupies fs i b = (f : Field) × (get_elem? fs i ≡ some f) × InField f b

  -- the end of each field is a number of 64 bits
  abbrev pub EndsFit : List Field → Type 0
  EndsFit [] = Unit
  EndsFit (f ∷ fs) = ((s : ℕ) → size_of f.type ≡ some s → f.offset + s < 2 ^ 64) × EndsFit fs

  record Checked (last : ℕ) (names : List Name) (f : Field) (fs : List Field) (e : ℕ) : Type 0 where
    pub size : ℕ
    pub size_eq : size_of f.type ≡ some size
    pub after_last : last ≤ f.offset
    pub names' : List Name
    pub rest : check_fields size_of (wrap64 (f.offset + size)) names' fs ≡ some e

  checked :
      (last : ℕ) (names : List Name) (f : Field) (fs : List Field) (e : ℕ)
      → check_fields size_of last names (f ∷ fs) ≡ some e
      → Checked last names f fs e
  unfolding check_fields
  checked last names f fs e h = elim (Bool-cases (ltb f.offset last)) [
    | inl b ↦ absurd (none-ne (rw b at h))
    | inr b ↦
        let h' = rw b at h in
        let (s, p, h1) = >>=-eq-some (size_of f.type) _ h' in
        let (ns, q, h2) = >>=-eq-some (insert_name f.name names) _ h1 in
        record { size = s; size_eq = p; after_last = ground arith; names' = ns; rest = h2 }
  ]
    where
      none-ne : {x : ℕ} → none ≡ some x → ⊥
      none-ne e = cc

  le_end :
      (last : ℕ) (names : List Name) (fs : List Field) (e : ℕ)
      → EndsFit fs
      → check_fields size_of last names fs ≡ some e
      → last ≤ e
  le_end last names [] e fit h =
      let p : last ≡ e = of_some (unfold check_fields in h) in omega arith
  le_end last names (f ∷ fs) e fit h =
      let c = checked last names f fs e h in
      let n = fit.0 c.size c.size_eq in
      let r = le_end (wrap64 (f.offset + c.size)) c.names' fs e fit.1 c.rest in
      let a = c.after_last in omega arith

  within :
      (last : ℕ) (names : List Name) (fs : List Field) (e i b : ℕ)
      → EndsFit fs
      → check_fields size_of last names fs ≡ some e
      → Occupies fs i b
      → (last ≤ b) × (b < e)
  within last names [] e i b fit h (f, p, _) = cc
  within last names (f ∷ fs) e zero b fit h (g, p, (s, q, lo, hi)) =
      let c = checked last names f fs e h in
      let n = fit.0 c.size c.size_eq in
      let r = le_end (wrap64 (f.offset + c.size)) c.names' fs e fit.1 c.rest in
      let a = c.after_last in
      let g' : f ≡ g = of_some p in
      let s' : c.size ≡ s = of_some (sym c.size_eq ∙ ap (λ x. size_of x.type) g' ∙ q) in
      let o : f.offset ≡ g.offset = ap (λ x. x.offset) g' in omega arith
  within last names (f ∷ fs) e (suc i) b fit h o =
      let c = checked last names f fs e h in
      let n = fit.0 c.size c.size_eq in
      let (lo, hi) = within (wrap64 (f.offset + c.size)) c.names' fs e i b fit.1 c.rest o in
      let a = c.after_last in omega arith

  -- a byte of the first field is none of a later one
  first_apart :
      (last : ℕ) (names : List Name) (f : Field) (fs : List Field) (e i b : ℕ)
      → EndsFit (f ∷ fs)
      → check_fields size_of last names (f ∷ fs) ≡ some e
      → Occupies (f ∷ fs) zero b
      → Occupies fs i b
      → ⊥
  first_apart last names f fs e i b fit h (g, p, (s, q, lo, hi)) o =
      let c = checked last names f fs e h in
      let n = fit.0 c.size c.size_eq in
      let (lo', _) = within (wrap64 (f.offset + c.size)) c.names' fs e i b fit.1 c.rest o in
      let g' : f ≡ g = of_some p in
      let s' : c.size ≡ s = of_some (sym c.size_eq ∙ ap (λ x. size_of x.type) g' ∙ q) in
      let o' : f.offset ≡ g.offset = ap (λ x. x.offset) g' in omega arith

  apart :
      (last : ℕ) (names : List Name) (fs : List Field) (e i j b : ℕ)
      → EndsFit fs
      → check_fields size_of last names fs ≡ some e
      → Occupies fs i b
      → Occupies fs j b
      → i ≡ j
  apart last names [] e i j b fit h (f, p, _) o = cc
  apart last names (f ∷ fs) e zero zero b fit h o o' = refl
  apart last names (f ∷ fs) e zero (suc j) b fit h o o' =
      absurd (first_apart last names f fs e j b fit h o o')
  apart last names (f ∷ fs) e (suc i) zero b fit h o o' =
      absurd (first_apart last names f fs e i b fit h o' o)
  apart last names (f ∷ fs) e (suc i) (suc j) b fit h o o' =
      let c = checked last names f fs e h in
      ap suc (apart (wrap64 (f.offset + c.size)) c.names' fs e i j b fit.1 c.rest o o')

  accepted :
      (size : ℕ) (fs : List Field)
      → verify_struct size_of size fs ≡ true
      → (e : ℕ) × (check_fields size_of 0 [] fs ≡ some e) × (e ≤ size)
  unfolding verify_struct
  accepted size fs h = elim (Option-cases (check_fields size_of 0 [] fs)) [
    | inl p ↦ absurd (ground (arith, p))
    | inr (e, p) ↦ (e, p, ground (arith, p))
  ]

  -- In a struct that passes the check, and whose fields end at numbers of 64 bits, a byte of a field
  -- lies inside the struct, and it belongs to no other field.
  pub verify_struct-disjoint :
      (size : ℕ) (fs : List Field) (i j b : ℕ)
      → EndsFit fs
      → verify_struct size_of size fs ≡ true
      → Occupies fs i b
      → Occupies fs j b
      → (b < size) × (i ≡ j)
  verify_struct-disjoint size fs i j b fit h o o' =
      let (e, p, le) = accepted size fs h in
      let (_, hi) = within 0 [] fs e i b fit p o in (omega arith, apart 0 [] fs e i j b fit p o o')

  -- A field that ends past 2 ^ 64 is accepted in any struct as large as the end less 2 ^ 64: the
  -- check passes, and the field ends outside the struct.
  pub verify_struct-wraps :
      (size s : ℕ) (f : Field)
      → size_of f.type ≡ some s
      → 2 ^ 64 ≤ f.offset + s
      → f.offset < 2 ^ 64
      → s < 2 ^ 64
      → f.offset + s ≤ size + 2 ^ 64
      → 0 < size
      → size < 2 ^ 64
      → (verify_struct size_of size (f ∷ []) ≡ true) × (size < f.offset + s)
  unfolding verify_struct check_fields insert_name has_name is_empty
  verify_struct-wraps size s f p w o b e pos fits = (ground (arith, p), omega arith)
