-- ===== src/Beautify/SwitchBreaks/Exact.antt =====
-- `SwitchBreaksFixer` (BeautifyGHAST.cpp) against a description of the switches that a `break` crosses.
use revng_c.Prelude.{
  ℕ, Bool, true, false, ◌≡◌, refl, ap, sym, ◌∙◌, subst, ◌||◌, ◌&&◌, ◌==◌, some, List, [], ◌∷◌, ◌++◌,
  >>=-eq-some, of_some, arith,
}
use revng_c.Ghast.Node.{
  Node, null, code, break, continue, if_node, scs, sequence, switch, switch_break, set, Nodes, nil,
  cons, Cases, no_case, case,
}
use revng_c.Semantics.{is_in}
use revng_c.Beautify.SwitchBreaks.{
  LoopStack, Flags, fix_break, push_switch, check_switch_break, fix_breaks, fix_in_nodes,
  fix_in_cases,
}

unfoldable mutual
  -- Whether a `break` crosses the switch `j`. `looped` says whether there is a loop around the node,
  -- and `within` whether `j` is between this loop and the node.
  pub crosses : ℕ → Bool → Bool → Node → Bool
  crosses j looped within (break i w) = within
  crosses j looped within (if_node i bb c w t e) =
      crosses j looped within t || crosses j looped within e
  crosses j looped within (scs i t b) = crosses j true false b
  crosses j looped within (sequence i ns) = crosses_nodes j looped within ns
  crosses j looped within (switch i f cs) = crosses_cases j looped (looped && j == i || within) cs
  crosses j looped within _ = false

  pub crosses_nodes : ℕ → Bool → Bool → Nodes → Bool
  crosses_nodes j looped within nil = false
  crosses_nodes j looped within (cons n ns) =
      crosses j looped within n || crosses_nodes j looped within ns

  pub crosses_cases : ℕ → Bool → Bool → Cases → Bool
  crosses_cases j looped within no_case = false
  crosses_cases j looped within (case l n cs) =
      crosses j looped within n || crosses_cases j looped within cs

abbrev has_loop : LoopStack → Bool
has_loop [] = false
has_loop (x ∷ ls) = true

abbrev is_active : ℕ → LoopStack → Bool
is_active j [] = false
is_active j ((l, ss) ∷ ls) = is_in j ss

is_in-append : (j : ℕ) (xs ys : List ℕ) → is_in j (xs ++ ys) ≡ (is_in j xs || is_in j ys)
is_in-append j [] ys = refl
is_in-append j (x ∷ xs) ys = ground (arith, is_in-append j xs ys)

has_loop-push : (i : ℕ) (ls : LoopStack) → has_loop (push_switch i ls) ≡ has_loop ls
has_loop-push i [] = refl
has_loop-push i (x ∷ ls) = refl

is_active-push :
    (j i : ℕ) (ls : LoopStack)
    → is_active j (push_switch i ls) ≡ (has_loop ls && j == i || is_active j ls)
is_active-push j i [] = refl
is_active-push j i ((l, ss) ∷ ls) = refl

-- what a part adds to the dispatchers
abbrev Adds : ℕ → Bool → Flags → Flags → Type 0
Adds j v fl fl' = is_in j fl'.dispatchers ≡ (v || is_in j fl.dispatchers)

Adds-both :
    (j : ℕ) (a b : Bool) (fl fl' fl'' : Flags)
    → Adds j a fl fl'
    → Adds j b fl' fl''
    → Adds j (a || b) fl fl''
Adds-both j a b fl fl' fl'' p q = ground (arith, p, q)

fix_break-Adds :
    (j : ℕ) (ls : LoopStack) (i : ℕ) (w : Bool) (fl : Flags) (r : Node × Flags)
    → fix_break ls i w fl ≡ some r
    → Adds j (is_active j ls) fl r.1
fix_break-Adds j [] i w fl r e = cc
fix_break-Adds j ((l, []) ∷ ls) i w fl r e =
    ap (λ (x : Node × Flags). is_in j x.1.dispatchers) (sym (of_some e))
fix_break-Adds j ((l, s ∷ ss) ∷ ls) i w fl r e =
    ap (λ (x : Node × Flags). is_in j x.1.dispatchers) (sym (of_some e))
    ∙ is_in-append j (s ∷ ss) fl.dispatchers

check-Adds :
    (j : ℕ) (ls : LoopStack) (n : Node) (fl : Flags) (r : Node × Flags)
    → check_switch_break ls n fl ≡ some r
    → Adds j false fl r.1
check-Adds j [] n fl r e = ap (λ (x : Node × Flags). is_in j x.1.dispatchers) (sym (of_some e))
check-Adds j ((l, []) ∷ ls) n fl r e = cc
check-Adds j ((l, s ∷ ss) ∷ ls) n fl r e =
    ap (λ (x : Node × Flags). is_in j x.1.dispatchers) (sym (of_some e))

same-Adds :
    (j : ℕ) (n : Node) (fl : Flags) (r : Node × Flags) → some (n, fl) ≡ some r → Adds j false fl r.1
same-Adds j n fl r e = ap (λ (x : Node × Flags). is_in j x.1.dispatchers) (sym (of_some e))

mutual
  unfolding fix_breaks crosses

  adds :
      (j : ℕ) (ls : LoopStack) (n : Node) (fl : Flags) (r : Node × Flags)
      → fix_breaks ls n fl ≡ some r
      → Adds j (crosses j (has_loop ls) (is_active j ls) n) fl r.1
  adds j ls (if_node i bb c w t e) fl r eq =
      let (x, e1, k1) = >>=-eq-some (fix_breaks ls t fl) _ eq in
      let (y, e2, k2) = >>=-eq-some (fix_breaks ls e x.1) _ k1 in
      subst
        (λ (z : Node × Flags).
          Adds j (crosses j (has_loop ls) (is_active j ls) (if_node i bb c w t e)) fl z.1)
        (of_some k2)
        (Adds-both j (crosses j (has_loop ls) (is_active j ls) t)
          (crosses j (has_loop ls) (is_active j ls) e) fl x.1 y.1 (adds j ls t fl x e1)
          (adds j ls e x.1 y e2))
  adds j ls (scs i t b) fl r e =
      let (x, e1, k1) = >>=-eq-some (fix_breaks ((i, []) ∷ ls) b fl) _ e in
      subst (λ (z : Node × Flags). Adds j (crosses j true false b) fl z.1) (of_some k1)
        (adds j ((i, []) ∷ ls) b fl x e1)
  adds j ls (sequence i ns) fl r e =
      let (x, e1, k1) = >>=-eq-some (fix_in_nodes ls ns fl) _ e in
      subst
        (λ (z : Node × Flags). Adds j (crosses_nodes j (has_loop ls) (is_active j ls) ns) fl z.1)
        (of_some k1) (Adds-nodes j ls ns fl x e1)
  adds j ls (switch i f cs) fl r e =
      let (x, e1, k1) = >>=-eq-some (fix_in_cases (push_switch i ls) cs fl) _ e in
      subst
        (λ (z : Node × Flags).
          Adds j (crosses_cases j (has_loop ls) (has_loop ls && j == i || is_active j ls) cs) fl
            z.1)
        (of_some k1)
        (subst (λ v. Adds j (crosses_cases j v (has_loop ls && j == i || is_active j ls) cs) fl x.1)
          (has_loop-push i ls)
          (subst (λ v. Adds j (crosses_cases j (has_loop (push_switch i ls)) v cs) fl x.1)
            (is_active-push j i ls) (Adds-cases j (push_switch i ls) cs fl x e1)))
  adds j ls (break i w) fl r e = fix_break-Adds j ls i w fl r e
  adds j ls (switch_break i p) fl r e = check-Adds j ls (switch_break i p) fl r e
  adds j ls null fl r e = same-Adds j null fl r e
  adds j ls (code i bb x) fl r e = same-Adds j (code i bb x) fl r e
  adds j ls (continue i c x) fl r e = same-Adds j (continue i c x) fl r e
  adds j ls (set i v k) fl r e = same-Adds j (set i v k) fl r e

  Adds-nodes :
      (j : ℕ) (ls : LoopStack) (ns : Nodes) (fl : Flags) (r : Nodes × Flags)
      → fix_in_nodes ls ns fl ≡ some r
      → Adds j (crosses_nodes j (has_loop ls) (is_active j ls) ns) fl r.1
  Adds-nodes j ls nil fl r e = ap (λ (x : Nodes × Flags). is_in j x.1.dispatchers) (sym (of_some e))
  Adds-nodes j ls (cons n ns) fl r e =
      let (x, e1, k1) = >>=-eq-some (fix_breaks ls n fl) _ e in
      let (y, e2, k2) = >>=-eq-some (fix_in_nodes ls ns x.1) _ k1 in
      subst
        (λ (z : Nodes × Flags).
          Adds j (crosses_nodes j (has_loop ls) (is_active j ls) (cons n ns)) fl z.1)
        (of_some k2)
        (Adds-both j (crosses j (has_loop ls) (is_active j ls) n)
          (crosses_nodes j (has_loop ls) (is_active j ls) ns) fl x.1 y.1 (adds j ls n fl x e1)
          (Adds-nodes j ls ns x.1 y e2))

  Adds-cases :
      (j : ℕ) (ls : LoopStack) (cs : Cases) (fl : Flags) (r : Cases × Flags)
      → fix_in_cases ls cs fl ≡ some r
      → Adds j (crosses_cases j (has_loop ls) (is_active j ls) cs) fl r.1
  Adds-cases j ls no_case fl r e =
      ap (λ (x : Cases × Flags). is_in j x.1.dispatchers) (sym (of_some e))
  Adds-cases j ls (case l n cs) fl r e =
      let (x, e1, k1) = >>=-eq-some (fix_breaks ls n fl) _ e in
      let (y, e2, k2) = >>=-eq-some (fix_in_cases ls cs x.1) _ k1 in
      subst
        (λ (z : Cases × Flags).
          Adds j (crosses_cases j (has_loop ls) (is_active j ls) (case l n cs)) fl z.1)
        (of_some k2)
        (Adds-both j (crosses j (has_loop ls) (is_active j ls) n)
          (crosses_cases j (has_loop ls) (is_active j ls) cs) fl x.1 y.1 (adds j ls n fl x e1)
          (Adds-cases j ls cs x.1 y e2))

or_right-false : (b : Bool) → (b || false) ≡ b
or_right-false true = refl
or_right-false false = refl

-- When the fixer succeeds, the switches that are to dispatch a `break` are exactly those that a
-- `break` crosses: the ones with a `break` below them and no loop between.
pub fix_breaks-dispatchers :
    (j : ℕ) (n : Node) (r : Node × Flags)
    → fix_breaks [] n (record { state_variables = []; dispatchers = [] }) ≡ some r
    → is_in j r.1.dispatchers ≡ crosses j false false n
fix_breaks-dispatchers j n r e = adds j [] n _ r e ∙ or_right-false (crosses j false false n)
