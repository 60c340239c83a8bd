-- ===== src/Beautify/EmptyThen/Preserves.antt =====
-- `flipEmptyThen` (ASTNodeUtils.cpp): the GHAST before and after it.
use revng_c.Prelude.{ℕ, Bool, ◌≡◌, refl, fun_ext, arith, Option}
use revng_c.Ghast.Expr.{Expr, negated}
use revng_c.Ghast.Node.{
  Node, null, if_node, scs, sequence, switch, Nodes, nil, cons, Cases, no_case, case, is_null,
}
use revng_c.Ghast.Everywhere.{Everywhere, EverywhereNodes, EverywhereCases, IsWellFormed, HasThen}
use revng_c.Semantics.{Machine, eval, exec}
use revng_c.Semantics.Congruence.{
  Same, SameNodes, SameCases, SameExpr-refl, Same-refl, SameNodes-refl, SameCases-refl, Same-run,
  Same-trans, Same-if_node, Same-scs, Same-sequence, Same-switch, SameNodes-cons, SameCases-case,
}
use revng_c.Beautify.EmptyThen.{flip_empty_then, flip_nodes, flip_cases}

-- Negating the condition and exchanging the branches is no change.
pub Same-swap :
    {S : Type 0} {m : Machine S} {fuel : ℕ} (i : ℕ) (bb : Option ℕ) (c : Expr) (w : Bool)
    (t e : Node)
    → Same m fuel (if_node i bb (negated c) w e t) (if_node i bb c w t e)
unfolding exec eval
Same-swap i bb c w t e = record { at = fun_ext λ s. ground arith }

module _ {S : Type 0} (m : Machine S) (fuel : ℕ) where
  mutual
    unfolding flip_empty_then

    flip-Same : (n : Node) → Same m fuel (flip_empty_then n) n
    flip-Same (sequence i ns) = Same-sequence i (flip-SameNodes ns)
    flip-Same (scs i t b) = Same-scs i t (flip-Same b)
    flip-Same (if_node i bb c w null e) =
        Same-trans (Same-if_node i bb w (SameExpr-refl (negated c)) (flip-Same e) (Same-refl null))
          (Same-swap i bb c w null e)
    flip-Same (if_node i bb c w t e) =
        Same-if_node i bb w (SameExpr-refl c) (flip-Same t) (flip-Same e)
    flip-Same (switch i f cs) = Same-switch i f (flip-SameCases cs)
    flip-Same _ = Same-refl _

    flip-SameNodes : (ns : Nodes) → SameNodes m fuel (flip_nodes ns) ns
    flip-SameNodes nil = SameNodes-refl nil
    flip-SameNodes (cons n ns) = SameNodes-cons (flip-Same n) (flip-SameNodes ns)

    flip-SameCases : (cs : Cases) → SameCases m fuel (flip_cases cs) cs
    flip-SameCases no_case = SameCases-refl no_case
    flip-SameCases (case l n cs) = SameCases-case l (flip-Same n) (flip-SameCases cs)

-- On every machine, with any fuel and from any state, the flipped GHAST has the outcome of the GHAST
-- that it came from.
pub exec-flip_empty_then :
    {S : Type 0} (m : Machine S) (fuel : ℕ) (n : Node) (s : S)
    → exec m fuel (flip_empty_then n) s ≡ exec m fuel n s
exec-flip_empty_then m fuel n s = Same-run (flip-Same m fuel n) s

pub is_null-flip : (n : Node) → is_null (flip_empty_then n) ≡ is_null n
unfolding flip_empty_then is_null
is_null-flip (if_node i bb c w null e) = refl
is_null-flip (if_node i bb c w _ e) = refl
is_null-flip _ = refl

mutual
  unfolding flip_empty_then Everywhere is_null

  flip-HasThen : (n : Node) → Everywhere IsWellFormed n → Everywhere HasThen (flip_empty_then n)
  flip-HasThen (sequence i ns) h = (tt, flip_nodes-HasThen ns h.1)
  flip-HasThen (scs i t b) h = (tt, flip-HasThen b h.1)
  flip-HasThen (if_node i bb c w null e) h = (rw is_null-flip h.0, flip-HasThen e h.2, tt)
  flip-HasThen (if_node i bb c w t e) h = (is_null-flip t, flip-HasThen t h.1, flip-HasThen e h.2)
  flip-HasThen (switch i f cs) h = (tt, flip_cases-HasThen cs h.1)
  flip-HasThen _ h = tt

  flip_nodes-HasThen :
      (ns : Nodes) → EverywhereNodes IsWellFormed ns → EverywhereNodes HasThen (flip_nodes ns)
  flip_nodes-HasThen nil h = tt
  flip_nodes-HasThen (cons n ns) h = (flip-HasThen n h.0, flip_nodes-HasThen ns h.1)

  flip_cases-HasThen :
      (cs : Cases) → EverywhereCases IsWellFormed cs → EverywhereCases HasThen (flip_cases cs)
  flip_cases-HasThen no_case h = tt
  flip_cases-HasThen (case l n cs) h = (flip-HasThen n h.0, flip_cases-HasThen cs h.1)

-- In a well-formed GHAST every `if` has a `then` branch afterwards, at any depth.
pub flip_empty_then-HasThen :
    (n : Node) → Everywhere IsWellFormed n → Everywhere HasThen (flip_empty_then n)
flip_empty_then-HasThen n h = flip-HasThen n h
