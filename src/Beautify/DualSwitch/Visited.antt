-- ===== src/Beautify/DualSwitch/Visited.antt =====
-- `simplifyDualSwitch` (SimplifyDualSwitch.cpp): the cases of a switch once they are visited, and what
-- takes the place of the switch.
use revng_c.Prelude.{
  arith, ℕ, Bool, true, false, ◌≡◌, refl, ap, sym, ◌∙◌, ◌&&◌, Option, none, some, List, [], ◌∷◌,
  >>=-eq-some, of_some,
}
use revng_c.Ghast.Expr.{Expr}
use revng_c.Ghast.Node.{
  SwitchFields, Node, null, switch, Cases, no_case, case, is_null, get_default,
}
use revng_c.Semantics.{Machine}
use revng_c.Beautify.DualSwitch.{
  IfFields, compute_switch_to_if_promotion, unless_empty, assert_present, drop_switch_break,
  make_if, if_of_switch, or_switch, switch_to_if, simplify_dual_switch, dual_in_cases,
}
use revng_c.Beautify.DualSwitch.Promoted.{is_switch_break}
use revng_c.Beautify.DualSwitch.Switches.{IsDecided, IsDual}

-- what takes the place of a switch is no switch break
unless_empty-other :
    (j : ℕ) (bb : Option ℕ) (c : Expr) (w : Bool) (t e : Node)
    → is_switch_break (unless_empty j bb c w t e) ≡ false
unless_empty-other j bb c w null null = refl
unless_empty-other j bb c w t e = refl

make_if-other :
    (i fresh : ℕ) (bb : Option ℕ) (c : Expr) (w : Bool) (x : IfFields) (r : Node × ℕ)
    → make_if i fresh bb c w x ≡ some r
    → is_switch_break r.0 ≡ false
make_if-other i fresh bb c w x r e =
    let (t0, e0, k0) = >>=-eq-some (assert_present x.then_node) _ e in
    let (t, e1, k1) = >>=-eq-some (drop_switch_break i t0) _ k0 in
    let (el, e2, k2) = >>=-eq-some (drop_switch_break i x.else_node) _ k1 in
    ap (λ (y : Node × ℕ). is_switch_break y.0) (sym (of_some k2))
    ∙ unless_empty-other fresh bb c w t el

if_of_switch-other :
    (i fresh : ℕ) (no_default w : Bool) (cond bb : Option ℕ) (x : IfFields) (r : Node × ℕ)
    → if_of_switch i fresh no_default w cond bb x ≡ some r
    → is_switch_break r.0 ≡ false
if_of_switch-other i fresh true w none none x r e = make_if-other i fresh _ _ _ x r e
if_of_switch-other i fresh no_default w (some v) (some bb) x r e = make_if-other i fresh _ _ _ x r e
if_of_switch-other i fresh no_default w _ _ x r e = cc

or_switch-other :
    (i fresh : ℕ) (f : SwitchFields) (cs : Cases) (o : Option IfFields) (r : Node × ℕ)
    → or_switch i fresh f cs o ≡ some r
    → is_switch_break r.0 ≡ false
or_switch-other i fresh f cs none r e = ap (λ (y : Node × ℕ). is_switch_break y.0) (sym (of_some e))
or_switch-other i fresh f cs (some x) r e =
    if_of_switch-other i fresh (is_null (get_default cs)) f.is_weaved f.condition f.bb x r e

abbrev pub IsLoneDefault : Cases → Type 0
IsLoneDefault (case [] n no_case) = Unit
IsLoneDefault _ = ⊥

pub two-not_lone :
    (l p : List ℕ) (n k : Node) (cs : Cases) → ¬ IsLoneDefault (case l n (case p k cs))
two-not_lone [] p n k cs x = x
two-not_lone (a ∷ l) p n k cs x = x

pub switch_to_if-other :
    (i fresh : ℕ) (f : SwitchFields) (cs : Cases) (r : Node × ℕ)
    → switch_to_if i fresh f cs ≡ some r
    → ¬ IsLoneDefault cs
    → is_switch_break r.0 ≡ false
unfolding switch_to_if compute_switch_to_if_promotion
switch_to_if-other i fresh f no_case r e h = cc
switch_to_if-other i fresh f (case [] n no_case) r e h = absurd (h tt)
switch_to_if-other i fresh f (case (a ∷ l) n no_case) r e h =
    or_switch-other i fresh f (case (a ∷ l) n no_case) _ r e
switch_to_if-other i fresh f (case [] n (case p k no_case)) r e h =
    or_switch-other i fresh f (case [] n (case p k no_case)) _ r e
switch_to_if-other i fresh f (case (a ∷ l) n (case p k no_case)) r e h =
    or_switch-other i fresh f (case (a ∷ l) n (case p k no_case)) _ r e
switch_to_if-other i fresh f (case [] n (case p k (case q j cs))) r e h =
    or_switch-other i fresh f (case [] n (case p k (case q j cs))) none r e
switch_to_if-other i fresh f (case (a ∷ l) n (case p k (case q j cs))) r e h =
    or_switch-other i fresh f (case (a ∷ l) n (case p k (case q j cs))) none r e

pub two-IsDecided :
    {S : Type 0} (m : Machine S) (i : ℕ) (f : SwitchFields) (l o : List ℕ) (n j : Node)
    → IsDual m (switch i f (case l n (case o j no_case)))
    → IsDecided m f l o n j
two-IsDecided m i f [] o n j h = h
two-IsDecided m i f (a ∷ l) o n j h = h

-- fewer switch breaks
pub fewer :
    (s a b a' b' : Bool)
    → (a' ≡ true → a ≡ true)
    → (b' ≡ true → b ≡ true)
    → (s && (a && b)) ≡ false
    → (s && (a' && b')) ≡ false
fewer false a b a' b' ha hb h = refl
fewer true a b false b' ha hb h = refl
fewer true a b true false ha hb h = refl
fewer true a b true true ha hb h = let p = ha refl in let q = hb refl in grind (arith, p, q, h)

pub still : (s a a' : Bool) → (a' ≡ true → a ≡ true) → (s && a) ≡ false → (s && a') ≡ false
still false a a' ha h = refl
still true a false ha h = refl
still true a true ha h = let p = ha refl in grind (arith, p, h)

-- the cases of a visited switch
pub one-visited :
    (fresh : ℕ) (l : List ℕ) (n : Node) (x : Cases × ℕ)
    → dual_in_cases fresh (case l n no_case) ≡ some x
    → (y : Node × ℕ) × (simplify_dual_switch fresh n ≡ some y) × ((case l y.0 no_case, y.1) ≡ x)
unfolding simplify_dual_switch
one-visited fresh l n x e =
    let (y, e1, k1) = >>=-eq-some (simplify_dual_switch fresh n) _ e in (y, e1, of_some k1)

pub two-visited :
    (fresh : ℕ) (l p : List ℕ) (n k : Node) (x : Cases × ℕ)
    → dual_in_cases fresh (case l n (case p k no_case)) ≡ some x
    → (y : Node × ℕ) × (z : Node × ℕ) × (simplify_dual_switch fresh n ≡ some y)
      × (simplify_dual_switch y.1 k ≡ some z)
      × ((case l y.0 (case p z.0 no_case), z.1) ≡ x)
unfolding simplify_dual_switch
two-visited fresh l p n k x e =
    let (y, e1, k1) = >>=-eq-some (simplify_dual_switch fresh n) _ e in
    let (v, e2, k2) = >>=-eq-some (dual_in_cases y.1 (case p k no_case)) _ k1 in
    let (z, e3, k3) = one-visited y.1 p k v e2 in
    (y, z, e1, e3, ap (λ (u : Cases × ℕ). (case l y.0 u.0, u.1)) k3 ∙ of_some k2)

pub more-visited :
    (fresh : ℕ) (l p q : List ℕ) (n k j : Node) (cs : Cases) (x : Cases × ℕ)
    → dual_in_cases fresh (case l n (case p k (case q j cs))) ≡ some x
    → (y : Node) × (z : Node) × (v : Node) × (u : Cases) × (case l y (case p z (case q v u)) ≡ x.0)
unfolding simplify_dual_switch
more-visited fresh l p q n k j cs x e =
    let (y, e1, k1) = >>=-eq-some (simplify_dual_switch fresh n) _ e in
    let (a, e2, k2) = >>=-eq-some (dual_in_cases y.1 (case p k (case q j cs))) _ k1 in
    let (z, e3, k3) = >>=-eq-some (simplify_dual_switch y.1 k) _ e2 in
    let (b, e4, k4) = >>=-eq-some (dual_in_cases z.1 (case q j cs)) _ k3 in
    let (v, e5, k5) = >>=-eq-some (simplify_dual_switch z.1 j) _ e4 in
    let (u, e6, k6) = >>=-eq-some (dual_in_cases v.1 cs) _ k5 in
    (
      y.0,
      z.0,
      v.0,
      u.0,
      ap (λ (w : Cases × ℕ). case l y.0 (case p z.0 w.0)) (of_some k6)
          ∙ ap (λ (w : Cases × ℕ). case l y.0 w.0) (of_some k4)
          ∙ ap (λ (w : Cases × ℕ). w.0) (of_some k2),
    )
