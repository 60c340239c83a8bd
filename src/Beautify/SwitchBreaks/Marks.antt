-- ===== src/Beautify/SwitchBreaks/Marks.antt =====
-- `SwitchBreaksFixer` (BeautifyGHAST.cpp): the `break`s that it marks.
use revng_c.Prelude.{
  ℕ, Bool, true, false, ◌≡◌, refl, ap, sym, ◌∙◌, ◌||◌, some, [], ◌∷◌, >>=-eq-some, of_some,
}
use revng_c.Ghast.Node.{
  Node, null, code, break, continue, if_node, scs, sequence, switch, switch_break, set, Nodes, nil,
  cons, Cases, no_case, case,
}
use revng_c.Beautify.SwitchBreaks.{
  LoopStack, Flags, fix_break, push_switch, check_switch_break, fix_breaks, fix_in_nodes,
  fix_in_cases,
}

unfoldable mutual
  -- Every `break` in a `switch` of its loop is marked. `looped` says whether there is a loop around
  -- the node, and `within` whether there is a `switch` between this loop and the node.
  pub marked : Bool → Bool → Node → Node
  marked looped within (break i w) = break i (within || w)
  marked looped within (if_node i bb c w t e) =
      if_node i bb c w (marked looped within t) (marked looped within e)
  marked looped within (scs i t b) = scs i t (marked true false b)
  marked looped within (sequence i ns) = sequence i (marked_nodes looped within ns)
  marked looped within (switch i f cs) = switch i f (marked_cases looped looped cs)
  marked looped within n = n

  pub marked_nodes : Bool → Bool → Nodes → Nodes
  marked_nodes looped within nil = nil
  marked_nodes looped within (cons n ns) =
      cons (marked looped within n) (marked_nodes looped within ns)

  pub marked_cases : Bool → Bool → Cases → Cases
  marked_cases looped within no_case = no_case
  marked_cases looped within (case l n cs) =
      case l (marked looped within n) (marked_cases looped within cs)

abbrev has_loop : LoopStack → Bool
has_loop [] = false
has_loop (x ∷ ls) = true

abbrev has_switch : LoopStack → Bool
has_switch [] = false
has_switch ((l, []) ∷ ls) = false
has_switch ((l, s ∷ ss) ∷ ls) = true

has_loop-push : (i : ℕ) (ls : LoopStack) → has_loop (push_switch i ls) ≡ has_loop ls
has_loop-push i [] = refl
has_loop-push i (x ∷ ls) = refl

has_switch-push : (i : ℕ) (ls : LoopStack) → has_switch (push_switch i ls) ≡ has_loop ls
has_switch-push i [] = refl
has_switch-push i ((l, ss) ∷ ls) = refl

fix_break-marked :
    (ls : LoopStack) (i : ℕ) (w : Bool) (fl : Flags) (r : Node × Flags)
    → fix_break ls i w fl ≡ some r
    → r.0 ≡ break i (has_switch ls || w)
fix_break-marked [] i w fl r e = cc
fix_break-marked ((l, []) ∷ ls) i w fl r e = ap (λ (x : Node × Flags). x.0) (sym (of_some e))
fix_break-marked ((l, s ∷ ss) ∷ ls) i w fl r e = ap (λ (x : Node × Flags). x.0) (sym (of_some e))

check-marked :
    (ls : LoopStack) (n : Node) (fl : Flags) (r : Node × Flags)
    → check_switch_break ls n fl ≡ some r
    → r.0 ≡ n
check-marked [] n fl r e = ap (λ (x : Node × Flags). x.0) (sym (of_some e))
check-marked ((l, []) ∷ ls) n fl r e = cc
check-marked ((l, s ∷ ss) ∷ ls) n fl r e = ap (λ (x : Node × Flags). x.0) (sym (of_some e))

same-marked : (n : Node) (fl : Flags) (r : Node × Flags) → some (n, fl) ≡ some r → r.0 ≡ n
same-marked n fl r e = ap (λ (x : Node × Flags). x.0) (sym (of_some e))

mutual
  unfolding fix_breaks marked

  marks :
      (ls : LoopStack) (n : Node) (fl : Flags) (r : Node × Flags)
      → fix_breaks ls n fl ≡ some r
      → r.0 ≡ marked (has_loop ls) (has_switch ls) n
  marks ls (if_node i bb c w t e) fl r eq =
      let (x, e1, k1) = >>=-eq-some (fix_breaks ls t fl) _ eq in
      let (y, e2, k2) = >>=-eq-some (fix_breaks ls e x.1) _ k1 in
      ap (λ (z : Node × Flags). z.0) (sym (of_some k2))
      ∙ ap (λ z. if_node i bb c w z y.0) (marks ls t fl x e1)
      ∙ ap (if_node i bb c w (marked (has_loop ls) (has_switch ls) t)) (marks ls e x.1 y e2)
  marks ls (scs i t b) fl r e =
      let (x, e1, k1) = >>=-eq-some (fix_breaks ((i, []) ∷ ls) b fl) _ e in
      ap (λ (z : Node × Flags). z.0) (sym (of_some k1))
      ∙ ap (scs i t) (marks ((i, []) ∷ ls) b fl x e1)
  marks ls (sequence i ns) fl r e =
      let (x, e1, k1) = >>=-eq-some (fix_in_nodes ls ns fl) _ e in
      ap (λ (z : Node × Flags). z.0) (sym (of_some k1))
      ∙ ap (sequence i) (nodes_marked ls ns fl x e1)
  marks ls (switch i f cs) fl r e =
      let (x, e1, k1) = >>=-eq-some (fix_in_cases (push_switch i ls) cs fl) _ e in
      ap (λ (z : Node × Flags). z.0) (sym (of_some k1))
      ∙ ap (switch i f) (cases_marked (push_switch i ls) cs fl x e1)
      ∙ ap (λ v. switch i f (marked_cases v (has_switch (push_switch i ls)) cs))
          (has_loop-push i ls)
      ∙ ap (λ v. switch i f (marked_cases (has_loop ls) v cs)) (has_switch-push i ls)
  marks ls (break i w) fl r e = fix_break-marked ls i w fl r e
  marks ls (switch_break i p) fl r e = check-marked ls (switch_break i p) fl r e
  marks ls null fl r e = same-marked null fl r e
  marks ls (code i bb x) fl r e = same-marked (code i bb x) fl r e
  marks ls (continue i c x) fl r e = same-marked (continue i c x) fl r e
  marks ls (set i v k) fl r e = same-marked (set i v k) fl r e

  nodes_marked :
      (ls : LoopStack) (ns : Nodes) (fl : Flags) (r : Nodes × Flags)
      → fix_in_nodes ls ns fl ≡ some r
      → r.0 ≡ marked_nodes (has_loop ls) (has_switch ls) ns
  nodes_marked ls nil fl r e = ap (λ (x : Nodes × Flags). x.0) (sym (of_some e))
  nodes_marked ls (cons n ns) fl r e =
      let (x, e1, k1) = >>=-eq-some (fix_breaks ls n fl) _ e in
      let (y, e2, k2) = >>=-eq-some (fix_in_nodes ls ns x.1) _ k1 in
      ap (λ (z : Nodes × Flags). z.0) (sym (of_some k2))
      ∙ ap (λ z. cons z y.0) (marks ls n fl x e1)
      ∙ ap (cons (marked (has_loop ls) (has_switch ls) n)) (nodes_marked ls ns x.1 y e2)

  cases_marked :
      (ls : LoopStack) (cs : Cases) (fl : Flags) (r : Cases × Flags)
      → fix_in_cases ls cs fl ≡ some r
      → r.0 ≡ marked_cases (has_loop ls) (has_switch ls) cs
  cases_marked ls no_case fl r e = ap (λ (x : Cases × Flags). x.0) (sym (of_some e))
  cases_marked ls (case l n cs) fl r e =
      let (x, e1, k1) = >>=-eq-some (fix_breaks ls n fl) _ e in
      let (y, e2, k2) = >>=-eq-some (fix_in_cases ls cs x.1) _ k1 in
      ap (λ (z : Cases × Flags). z.0) (sym (of_some k2))
      ∙ ap (λ z. case l z y.0) (marks ls n fl x e1)
      ∙ ap (case l (marked (has_loop ls) (has_switch ls) n)) (cases_marked ls cs x.1 y e2)

-- When the fixer succeeds, it has marked exactly the `break`s that stand in a `switch` of their loop,
-- and left everything else of the GHAST as it was.
pub fix_breaks-marked :
    (n : Node) (fl : Flags) (r : Node × Flags)
    → fix_breaks [] n fl ≡ some r
    → r.0 ≡ marked false false n
fix_breaks-marked n fl r e = marks [] n fl r e
