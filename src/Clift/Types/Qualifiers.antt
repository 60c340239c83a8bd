-- ===== src/Clift/Types/Qualifiers.antt =====
-- `const` on the types of Clift: addConst and removeConst (lib/mlir/Dialect/Clift/IR/CliftTypes.cpp).
use revng_c.Prelude.{false, ◌≡◌, refl, ap}
use revng_c.Clift.Types.{
  ValueType, primitive, pointer, array, defined, scalar_tuple, is_const, add_const, remove_const,
}

pub remove_const_of_plain : (t : ValueType) → is_const t ≡ false → remove_const t ≡ t
unfolding is_const remove_const
remove_const_of_plain (primitive k s c) h = cc
remove_const_of_plain (pointer t s c) h = cc
remove_const_of_plain (array t n) h = ap (λ x. array x n) (remove_const_of_plain t h)
remove_const_of_plain (defined d c) h = cc
remove_const_of_plain (scalar_tuple i) h = refl

pub is_const-remove_const : (t : ValueType) → is_const (remove_const t) ≡ false
unfolding is_const remove_const
is_const-remove_const (primitive k s c) = refl
is_const-remove_const (pointer t s c) = refl
is_const-remove_const (array t n) = is_const-remove_const t
is_const-remove_const (defined d c) = refl
is_const-remove_const (scalar_tuple i) = refl

pub remove_const-add_const : (t : ValueType) → remove_const (add_const t) ≡ remove_const t
unfolding add_const remove_const
remove_const-add_const (primitive k s c) = refl
remove_const-add_const (pointer t s c) = refl
remove_const-add_const (array t n) = ap (λ x. array x n) (remove_const-add_const t)
remove_const-add_const (defined d c) = refl
remove_const-add_const (scalar_tuple i) = refl
