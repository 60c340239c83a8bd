-- ===== src/Semantics/Congruence.antt =====
-- Two nodes are the same on a machine, with some fuel, if they have the same outcome from any state.
-- A node stays the same when its children are exchanged for ones that are the same; a pass that
-- rewrites a GHAST from the leaves upwards is proved through these rules.
use revng_c.Prelude.{ℕ, Bool, Option, some, List, [], ◌∷◌, ◌≡◌, refl, ap, fun_ext, ◌∙◌}
use revng_c.Ghast.Expr.{Expr}
use revng_c.Ghast.Node.{
  LoopType, SwitchFields, Node, if_node, scs, sequence, switch, Nodes, cons, Cases, case,
}
use revng_c.Semantics.{
  Machine, normal, Outcome, and_then, finish, eval, exec, exec_nodes, exec_cases,
}

module _ {S : Type 0} (m : Machine S) where
  pub record SameExpr (a b : Expr) : Type 0 where
    pub at : (emit : Bool) → eval m emit a ≡ eval m emit b

module _ {S : Type 0} (m : Machine S) (fuel : ℕ) where
  pub record Same (a b : Node) : Type 0 where
    pub at : exec m fuel a ≡ exec m fuel b

  pub record SameNodes (a b : Nodes) : Type 0 where
    pub at : exec_nodes m fuel a ≡ exec_nodes m fuel b

  pub record SameCases (a b : Cases) : Type 0 where
    pub at : exec_cases m fuel a ≡ exec_cases m fuel b

module _ {S : Type 0} {m : Machine S} where
  pub SameExpr-refl : (e : Expr) → SameExpr m e e
  SameExpr-refl e = record { at = λ emit. refl }

module _ {S : Type 0} {m : Machine S} {fuel : ℕ} where
  pub Same-refl : (n : Node) → Same m fuel n n
  Same-refl n = record { at = refl }

  pub SameNodes-refl : (ns : Nodes) → SameNodes m fuel ns ns
  SameNodes-refl ns = record { at = refl }

  pub SameCases-refl : (cs : Cases) → SameCases m fuel cs cs
  SameCases-refl cs = record { at = refl }

  pub Same-trans : {a b c : Node} → Same m fuel a b → Same m fuel b c → Same m fuel a c
  Same-trans p q = record { at = p.at ∙ q.at }

  pub SameNodes-trans :
      {a b c : Nodes} → SameNodes m fuel a b → SameNodes m fuel b c → SameNodes m fuel a c
  SameNodes-trans p q = record { at = p.at ∙ q.at }

  -- the equation at one state
  pub Same-run : {a b : Node} → Same m fuel a b → (s : S) → exec m fuel a s ≡ exec m fuel b s
  Same-run h s = ap (λ f. f s) h.at

  pub Same-if_node :
      (i : ℕ) (bb : Option ℕ) (w : Bool) {c c' : Expr} {t t' e e' : Node}
      → SameExpr m c' c
      → Same m fuel t' t
      → Same m fuel e' e
      → Same m fuel (if_node i bb c' w t' e') (if_node i bb c w t e)
  unfolding exec
  Same-if_node i bb w hc ht he = record { at = fun_ext λ s. rw (ht.at, he.at, hc.at _) }

  pub Same-scs :
      (i : ℕ) (t : LoopType) {b b' : Node} → Same m fuel b' b → Same m fuel (scs i t b') (scs i t b)
  unfolding exec
  Same-scs i t hb = record { at = fun_ext λ s. rw hb.at }

  pub Same-sequence :
      (i : ℕ) {ns ns' : Nodes}
      → SameNodes m fuel ns' ns
      → Same m fuel (sequence i ns') (sequence i ns)
  unfolding exec
  Same-sequence i h = record { at = fun_ext λ s. rw h.at }

  pub Same-switch :
      (i : ℕ) (f : SwitchFields) {cs cs' : Cases}
      → SameCases m fuel cs' cs
      → Same m fuel (switch i f cs') (switch i f cs)
  unfolding exec
  Same-switch i f h = record { at = fun_ext λ s. rw h.at }

  pub SameNodes-cons :
      {n n' : Node} {ns ns' : Nodes}
      → Same m fuel n' n
      → SameNodes m fuel ns' ns
      → SameNodes m fuel (cons n' ns') (cons n ns)
  unfolding exec
  SameNodes-cons hn hs = record { at = fun_ext λ s. rw (hn.at, hs.at) }

  pub SameCases-case :
      (l : List ℕ) {n n' : Node} {cs cs' : Cases}
      → Same m fuel n' n
      → SameCases m fuel cs' cs
      → SameCases m fuel (case l n' cs') (case l n cs)
  unfolding exec
  SameCases-case [] hn hs = record { at = λ i d v s. hs.at i (hn.at i) v s }
  SameCases-case (l ∷ ls) hn hs = record {
    at = fun_ext λ d. fun_ext λ v. fun_ext λ s. rw (hn.at, hs.at);
  }

pub and_then_assoc :
    {S : Type 0} (o : Outcome S) (f g : S → Outcome S)
    → and_then (and_then o f) g ≡ and_then o (λ s. and_then (f s) g)
and_then_assoc (some (normal, s)) f g = refl
and_then_assoc _ f g = refl

pub and_then-finish : {S : Type 0} (o : Outcome S) → and_then o finish ≡ o
and_then-finish (some (normal, s)) = refl
and_then-finish _ = refl
