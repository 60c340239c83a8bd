-- ===== src/Beautify/DeadCode/Preserves.antt =====
-- `removeDeadCode` (RemoveDeadCode.cpp): the GHAST before and after it.
use revng_c.Prelude.{
  ℕ, false, ◌≡◌, refl, ap, sym, ◌∙◌, subst, fun_ext, some, List, inl, inr, Bool-cases, >>=-eq-some,
  of_some, ◌>>=◌,
}
use revng_c.Ghast.Node.{
  Node, null, code, break, continue, if_node, scs, sequence, switch, switch_break, set, Nodes, nil,
  cons, Cases, no_case, case, is_null,
}
use revng_c.Ghast.Identity.{node_id}
use revng_c.Ghast.Everywhere.{Everywhere, EverywhereNodes, EverywhereCases}
use revng_c.Semantics.{Machine, and_then, exec, exec_nodes, finish}
use revng_c.Semantics.Congruence.{
  Same, SameNodes, SameCases, Same-refl, Same-run, SameNodes-refl, SameCases-refl, SameExpr-refl,
  Same-if_node, Same-scs, Same-sequence, Same-switch, SameNodes-cons, SameCases-case,
}
use revng_c.Beautify.FallThrough.{Binary, ScopeMap, at, falls_through, compute_fall_through_scope}
use revng_c.Beautify.FallThrough.Leaving.{Leaving, IsPlain, and_then-left}
use revng_c.Beautify.FallThrough.Map.{
  IsFiled, IsSound, filed_node, compute_fall_through_scope-IsSound,
}
use revng_c.Beautify.DeadCode.{
  assert_not_empty, keep_after, if_present, keep_case, remove_dead_code_impl, remove_in_nodes,
  remove_in_cases, remove_dead_code,
}

-- the pass returns the node that it is given, its children changed
pub remove-node_id :
    (mp : ScopeMap) (n n' : Node)
    → remove_dead_code_impl mp n ≡ some n'
    → (node_id n' ≡ node_id n) × (is_null n' ≡ false) × (is_null n ≡ false)
unfolding remove_dead_code_impl node_id is_null
remove-node_id mp null n' e = absurd (cc e)
remove-node_id mp (sequence i ns) n' e =
    let (r, e1, k1) = >>=-eq-some (remove_in_nodes mp ns >>= assert_not_empty) _ e in
    subst (λ x. (node_id x ≡ i) × (is_null x ≡ false) × (false ≡ false)) (of_some k1)
      (refl, refl, refl)
remove-node_id mp (scs i t b) n' e =
    let (r, e1, k1) = >>=-eq-some (if_present b (remove_dead_code_impl mp b)) _ e in
    subst (λ x. (node_id x ≡ i) × (is_null x ≡ false) × (false ≡ false)) (of_some k1)
      (refl, refl, refl)
remove-node_id mp (if_node i bb c w t f) n' e =
    let (t', e1, k1) = >>=-eq-some (if_present t (remove_dead_code_impl mp t)) _ e in
    let (f', e2, k2) = >>=-eq-some (if_present f (remove_dead_code_impl mp f)) _ k1 in
    subst (λ x. (node_id x ≡ i) × (is_null x ≡ false) × (false ≡ false)) (of_some k2)
      (refl, refl, refl)
remove-node_id mp (switch i f cs) n' e =
    let (r, e1, k1) = >>=-eq-some (remove_in_cases mp cs) _ e in
    subst (λ x. (node_id x ≡ i) × (is_null x ≡ false) × (false ≡ false)) (of_some k1)
      (refl, refl, refl)
remove-node_id mp n n' e =
    subst (λ x. (node_id x ≡ node_id n) × (is_null x ≡ false) × (is_null n ≡ false)) (of_some e)
      (refl, refl, refl)

keep_case-node :
    (l : List ℕ) (n : Node) (cs : Cases) → is_null n ≡ false → keep_case l n cs ≡ case l n cs
unfolding is_null
keep_case-node l null cs h = cc
keep_case-node l n cs h = refl

assert_not_empty-same : (ns r : Nodes) → assert_not_empty ns ≡ some r → ns ≡ r
assert_not_empty-same nil r e = cc
assert_not_empty-same (cons n ns) r e = of_some e

module _ {S : Type 0} (m : Machine S) (fuel : ℕ) (who : ℕ → Node) (mp : ScopeMap) where
  cut :
      {n n' : Node} (ns : Nodes)
      → Same m fuel n' n
      → ((s : S) → Leaving (exec m fuel n s))
      → SameNodes m fuel (cons n' nil) (cons n ns)
  unfolding exec
  cut ns same leaves = record {
    at = fun_ext λ s.
        ap (λ o. and_then o finish) (Same-run same s)
        ∙ and_then-left _ finish (leaves s)
        ∙ sym (and_then-left _ (exec_nodes m fuel ns) (leaves s));
  }

  if_present-Same :
      (n n' : Node)
      → if_present n (remove_dead_code_impl mp n) ≡ some n'
      → (remove_dead_code_impl mp n ≡ some n' → Same m fuel n' n)
      → Same m fuel n' n
  if_present-Same null n' e k = subst (λ x. Same m fuel x null) (of_some e) (Same-refl null)
  if_present-Same n n' e k = k e

  mutual
    unfolding remove_dead_code_impl Everywhere

    same :
        (n n' : Node)
        → remove_dead_code_impl mp n ≡ some n'
        → IsSound m fuel who mp
        → Everywhere (IsFiled who) n
        → Same m fuel n' n
    same (sequence i ns) n' e h w =
        let (r', e1, k1) = >>=-eq-some (remove_in_nodes mp ns >>= assert_not_empty) _ e in
        let (r, e2, k2) = >>=-eq-some (remove_in_nodes mp ns) _ e1 in
        subst (λ x. Same m fuel x (sequence i ns)) (of_some k1)
          (Same-sequence i (
            subst (λ x. SameNodes m fuel x ns) (assert_not_empty-same r r' k2)
              (same_nodes ns r e2 h w.1)))
    same (scs i t b) n' e h w =
        let (b', e1, k1) = >>=-eq-some (if_present b (remove_dead_code_impl mp b)) _ e in
        subst (λ x. Same m fuel x (scs i t b)) (of_some k1)
          (Same-scs i t (if_present-Same b b' e1 (λ x. same b b' x h w.1)))
    same (if_node i bb c q t f) n' e h w =
        let (t', e1, k1) = >>=-eq-some (if_present t (remove_dead_code_impl mp t)) _ e in
        let (f', e2, k2) = >>=-eq-some (if_present f (remove_dead_code_impl mp f)) _ k1 in
        subst (λ x. Same m fuel x (if_node i bb c q t f)) (of_some k2)
          (Same-if_node i bb q (SameExpr-refl c) (if_present-Same t t' e1 (λ x. same t t' x h w.1))
            (if_present-Same f f' e2 (λ x. same f f' x h w.2)))
    same (switch i f cs) n' e h w =
        let (r, e1, k1) = >>=-eq-some (remove_in_cases mp cs) _ e in
        subst (λ x. Same m fuel x (switch i f cs)) (of_some k1)
          (Same-switch i f (same_cases cs r e1 h w.1))
    same null n' e h w = absurd (cc e)
    same (code i bb q) n' e h w =
        subst (λ x. Same m fuel x (code i bb q)) (of_some e) (Same-refl (code i bb q))
    same (break i q) n' e h w =
        subst (λ x. Same m fuel x (break i q)) (of_some e) (Same-refl (break i q))
    same (continue i c q) n' e h w =
        subst (λ x. Same m fuel x (continue i c q)) (of_some e) (Same-refl (continue i c q))
    same (switch_break i q) n' e h w =
        subst (λ x. Same m fuel x (switch_break i q)) (of_some e) (Same-refl (switch_break i q))
    same (set i v k) n' e h w =
        subst (λ x. Same m fuel x (set i v k)) (of_some e) (Same-refl (set i v k))

    same_nodes :
        (ns r : Nodes)
        → remove_in_nodes mp ns ≡ some r
        → IsSound m fuel who mp
        → EverywhereNodes (IsFiled who) ns
        → SameNodes m fuel r ns
    same_nodes nil r e h w = subst (λ x. SameNodes m fuel x nil) (of_some e) (SameNodes-refl nil)
    same_nodes (cons n ns) r e h w =
        let (n', e1, k1) = >>=-eq-some (remove_dead_code_impl mp n) _ e in
        let (t, e2, k2) = >>=-eq-some (at mp (node_id n')) _ k1 in
        let (ns', e3, k3) =
          >>=-eq-some (keep_after (falls_through t) (remove_in_nodes mp ns)) _ k2 in
        let hn = same n n' e1 h w.0 in
        let ids = remove-node_id mp n n' e1 in
        subst (λ x. SameNodes m fuel x (cons n ns)) (of_some k3)
          (elim (Bool-cases (falls_through t)) [
            | inl f ↦ SameNodes-cons hn (
                same_nodes ns ns' (sym (ap (λ x. keep_after x (remove_in_nodes mp ns)) f) ∙ e3) h
                  w.1)
            | inr f ↦
                subst (λ x. SameNodes m fuel (cons n' x) (cons n ns))
                  (of_some (sym (ap (λ x. keep_after x (remove_in_nodes mp ns)) f) ∙ e3))
                  (cut ns hn (λ s.
                    subst (λ x. Leaving (exec m fuel x s))
                      (ap who ids.0 ∙ filed_node who n ids.2 w.0)
                      (h.leaving (node_id n') t e2 f s)))
          ])

    same_cases :
        (cs r : Cases)
        → remove_in_cases mp cs ≡ some r
        → IsSound m fuel who mp
        → EverywhereCases (IsFiled who) cs
        → SameCases m fuel r cs
    same_cases no_case r e h w =
        subst (λ x. SameCases m fuel x no_case) (of_some e) (SameCases-refl no_case)
    same_cases (case l n cs) r e h w =
        let (n', e1, k1) = >>=-eq-some (remove_dead_code_impl mp n) _ e in
        let (cs', e2, k2) = >>=-eq-some (remove_in_cases mp cs) _ k1 in
        subst (λ x. SameCases m fuel x (case l n cs))
          (sym (keep_case-node l n' cs' (remove-node_id mp n n' e1).1) ∙ of_some k2)
          (SameCases-case l (same n n' e1 h w.0) (same_cases cs cs' e2 h w.1))

-- Removing dead code keeps the meaning: the result of `remove_dead_code` has the outcome of the GHAST
-- it was given, on any machine, with any fuel and from any state, if nothing is implicit there, a
-- switch break is a whole case, and an identity belongs to one node.
pub exec-remove_dead_code :
    {S : Type 0} (b : Binary) (m : Machine S) (fuel : ℕ) (who : ℕ → Node) (n n' : Node) (s : S)
    → remove_dead_code b m.last n ≡ some n'
    → Everywhere IsPlain n
    → Everywhere (IsFiled who) n
    → exec m fuel n' s ≡ exec m fuel n s
unfolding remove_dead_code
exec-remove_dead_code b m fuel who n n' s e p w =
    let (mp, e1, k1) = >>=-eq-some (compute_fall_through_scope b m.last n) _ e in
    Same-run
      (same m fuel who mp n n' k1 (compute_fall_through_scope-IsSound b m fuel who n mp e1 p w) w) s
