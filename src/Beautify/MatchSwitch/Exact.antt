-- ===== src/Beautify/MatchSwitch/Exact.antt =====
-- `matchSwitch` (BeautifyGHAST.cpp): when the visit gets through, and what it returns.
use revng_c.Prelude.{
  Bool, true, false, ◌≡◌, refl, ap, ◌∙◌, ◌&&◌, ◌||◌, Option, none, some, ◌>>=◌, if◌then◌else◌,
}
use revng_c.Ghast.Node.{
  Node, null, if_node, scs, sequence, switch, Nodes, nil, cons, Cases, no_case, case, is_null,
}
use revng_c.Beautify.DoWhile.{or_null}
use revng_c.Beautify.MatchSwitch.{match_switch, match_in_nodes, match_in_cases}

unfoldable mutual
  unfolding is_null

  -- Every loop has a body, and no child of a sequence or of a switch is a null pointer.
  pub is_complete : Node → Bool
  is_complete null = false
  is_complete (sequence i ns) = nodes_complete ns
  is_complete (scs i t b) = is_complete b
  is_complete (if_node i bb c w t e) = (is_null t || is_complete t) && (is_null e || is_complete e)
  is_complete (switch i f cs) = cases_complete cs
  is_complete _ = true

  pub nodes_complete : Nodes → Bool
  nodes_complete nil = true
  nodes_complete (cons n ns) = is_complete n && nodes_complete ns

  pub cases_complete : Cases → Bool
  cases_complete no_case = true
  cases_complete (case l n cs) = is_complete n && cases_complete cs

abbrev when : {A : Type 0} → Bool → A → Option A
when true x = some x
when false x = none

when-then :
    {A B : Type 0} (a : Bool) (x : A) (f : A → B) → (when a x >>= λ y. some (f y)) ≡ when a (f x)
when-then true x f = refl
when-then false x f = refl

when-both :
    {A B C : Type 0} (a b : Bool) (x : A) (y : B) (f : A → B → C)
    → (when a x >>= λ u. when b y >>= λ v. some (f u v)) ≡ when (a && b) (f x y)
when-both true true x y f = refl
when-both true false x y f = refl
when-both false b x y f = refl

when_if : {A : Type 0} (a : Bool) (x : A) → when a x ≡ (if a then some x else none)
when_if true x = refl
when_if false x = refl

or_null-when :
    (n : Node) (o : Option Node)
    → o ≡ when (is_complete n) n
    → or_null n o ≡ when (is_null n || is_complete n) n
unfolding is_null
or_null-when null o h = refl
or_null-when n o h = h

mutual
  unfolding match_switch is_complete

  exact : (n : Node) → match_switch n ≡ when (is_complete n) n
  exact (sequence i ns) =
      ap (λ o. o >>= (λ r. some (sequence i r))) (exact_nodes ns)
      ∙ when-then (nodes_complete ns) ns (sequence i)
  exact (scs i t b) =
      ap (λ o. o >>= (λ r. some (scs i t r))) (exact b) ∙ when-then (is_complete b) b (scs i t)
  exact (if_node i bb c w t e) =
      ap (λ o. o >>= (λ t'. or_null e (match_switch e) >>= λ e'. some (if_node i bb c w t' e')))
        (or_null-when t (match_switch t) (exact t))
      ∙ ap
          (λ o.
            when (is_null t || is_complete t) t
            >>= (λ t'. o >>= λ e'. some (if_node i bb c w t' e')))
          (or_null-when e (match_switch e) (exact e))
      ∙ when-both (is_null t || is_complete t) (is_null e || is_complete e) t e (if_node i bb c w)
  exact (switch i f cs) =
      ap (λ o. o >>= (λ r. some (switch i f r))) (exact_cases cs)
      ∙ when-then (cases_complete cs) cs (switch i f)
  exact null = refl
  exact n = refl

  exact_nodes : (ns : Nodes) → match_in_nodes ns ≡ when (nodes_complete ns) ns
  exact_nodes nil = refl
  exact_nodes (cons n ns) =
      ap (λ o. o >>= (λ n'. match_in_nodes ns >>= λ r. some (cons n' r))) (exact n)
      ∙ ap (λ o. when (is_complete n) n >>= (λ n'. o >>= λ r. some (cons n' r))) (exact_nodes ns)
      ∙ when-both (is_complete n) (nodes_complete ns) n ns cons

  exact_cases : (cs : Cases) → match_in_cases cs ≡ when (cases_complete cs) cs
  exact_cases no_case = refl
  exact_cases (case l n cs) =
      ap (λ o. o >>= (λ n'. match_in_cases cs >>= λ r. some (case l n' r))) (exact n)
      ∙ ap (λ o. when (is_complete n) n >>= (λ n'. o >>= λ r. some (case l n' r))) (exact_cases cs)
      ∙ when-both (is_complete n) (cases_complete cs) n cs (case l)

-- `matchSwitch` returns the GHAST unchanged if every loop has a body and no child of a sequence or of
-- a switch is a null pointer, and it fails otherwise.
pub match_switch_lem : (n : Node) → match_switch n ≡ (if is_complete n then some n else none)
match_switch_lem n = exact n ∙ when_if (is_complete n) n
