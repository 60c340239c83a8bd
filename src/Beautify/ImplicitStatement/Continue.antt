-- ===== src/Beautify/ImplicitStatement/Continue.antt =====
-- `simplifyImplicitContinue` (SimplifyImplicitStatement.cpp): the GHAST before and after it.
use revng_c.Prelude.{ℕ, true, ◌≡◌, fun_ext}
use revng_c.Ghast.Node.{
  LoopType, Node, if_node, scs, sequence, switch, Nodes, nil, cons, Cases, no_case, case,
}
use revng_c.Ghast.Everywhere.{Everywhere, EverywhereNodes, EverywhereCases}
use revng_c.Semantics.{Machine, Last, exec}
use revng_c.Semantics.Congruence.{
  Same, SameNodes, SameCases, SameExpr-refl, Same-refl, SameNodes-refl, SameCases-refl, Same-trans,
  Same-run, Same-if_node, Same-scs, Same-sequence, Same-switch, SameNodes-cons, SameCases-case,
}
use revng_c.Beautify.ImplicitStatement.{
  st_continue, simplify, simplify_implicit_continue, continue_nodes, continue_cases,
}
use revng_c.Beautify.ImplicitStatement.Steps.{IsQuiet, LoopOk}
use revng_c.Beautify.ImplicitStatement.Parts.{scs-Absorbs}
use revng_c.Beautify.ImplicitStatement.Sound.{simplify-Absorbs}

-- No loop that is nested in a loop's body is taken to be empty.
abbrev pub NestedLoopsOk : (ℕ → Last) → Node → Type 0
NestedLoopsOk last (scs i t b) =
    Everywhere (LoopOk st_continue last) (simplify_implicit_continue last b)
NestedLoopsOk last _ = Unit

module _ {S : Type 0} (m : Machine S) (fuel : ℕ) (q : IsQuiet m) where
  Same-marked_body :
      (i : ℕ) (t : LoopType) (b : Node)
      → Everywhere (LoopOk st_continue m.last) b
      → Same m fuel (scs i t (simplify st_continue m.last b true).0) (scs i t b)
  Same-marked_body i t b h = record {
    at = fun_ext λ s. scs-Absorbs m fuel i t _ b (simplify-Absorbs st_continue m fuel q b h) s;
  }

  mutual
    unfolding simplify_implicit_continue Everywhere

    implicit-Same :
        (n : Node)
        → Everywhere (NestedLoopsOk m.last) n
        → Same m fuel (simplify_implicit_continue m.last n) n
    implicit-Same (scs i t b) h =
        Same-trans (Same-marked_body i t (simplify_implicit_continue m.last b) h.0)
          (Same-scs i t (implicit-Same b h.1))
    implicit-Same (sequence i ns) h = Same-sequence i (implicit-SameNodes ns h.1)
    implicit-Same (if_node i bb c w t e) h =
        Same-if_node i bb w (SameExpr-refl c) (implicit-Same t h.1) (implicit-Same e h.2)
    implicit-Same (switch i f cs) h = Same-switch i f (implicit-SameCases cs h.1)
    implicit-Same _ h = Same-refl _

    implicit-SameNodes :
        (ns : Nodes)
        → EverywhereNodes (NestedLoopsOk m.last) ns
        → SameNodes m fuel (continue_nodes m.last ns) ns
    implicit-SameNodes nil h = SameNodes-refl nil
    implicit-SameNodes (cons n ns) h =
        SameNodes-cons (implicit-Same n h.0) (implicit-SameNodes ns h.1)

    implicit-SameCases :
        (cs : Cases)
        → EverywhereCases (NestedLoopsOk m.last) cs
        → SameCases m fuel (continue_cases m.last cs) cs
    implicit-SameCases no_case h = SameCases-refl no_case
    implicit-SameCases (case l n cs) h =
        SameCases-case l (implicit-Same n h.0) (implicit-SameCases cs h.1)

-- On a machine whose conditions, switched values and void-return blocks change nothing, and where the
-- pass takes no loop nested in a loop to be empty, as it does one whose body is just a `continue`: the
-- GHAST with its implicit `continue`s has the outcome of the GHAST that it came from, with any fuel and
-- from any state.
pub exec-simplify_implicit_continue :
    {S : Type 0} (m : Machine S) (fuel : ℕ) (n : Node) (s : S)
    → IsQuiet m
    → Everywhere (NestedLoopsOk m.last) n
    → exec m fuel (simplify_implicit_continue m.last n) s ≡ exec m fuel n s
exec-simplify_implicit_continue m fuel n s q h = Same-run (implicit-Same m fuel q n h) s
