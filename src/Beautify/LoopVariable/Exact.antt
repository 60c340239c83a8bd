-- ===== src/Beautify/LoopVariable/Exact.antt =====
-- `needsLoopVar` (ASTNodeUtils.cpp): what its answer stands for.
use revng_c.Prelude.{false, ◌≡◌, or-eq-false, ◌↔◌, refl, is_none}
use revng_c.Ghast.Node.{
  Node, null, code, break, continue, if_node, scs, sequence, switch, switch_break, set, Nodes, nil,
  cons, Cases, no_case, case,
}
use revng_c.Ghast.Everywhere.{Everywhere, EverywhereNodes, EverywhereCases}
use revng_c.Beautify.LoopVariable.{needs_loop_var, needs_in_nodes, needs_in_cases}

-- neither a `set` nor a dispatcher, which is a `switch` without a condition
abbrev pub NoDispatch : Node → Type 0
NoDispatch (set i v k) = ⊥
NoDispatch (switch i f cs) = is_none f.condition ≡ false
NoDispatch _ = Unit

mutual
  unfolding needs_loop_var Everywhere

  sound : (n : Node) → needs_loop_var n ≡ false → Everywhere NoDispatch n
  sound (if_node i bb c w t e) h = let p = or-eq-false _ _ h in (tt, sound t p.0, sound e p.1)
  sound (scs i t b) h = (tt, sound b h)
  sound (sequence i ns) h = (tt, sound_nodes ns h)
  sound (switch i f cs) h = let p = or-eq-false _ _ h in (p.0, sound_cases cs p.1)
  sound (set i v k) h = cc
  sound null h = tt
  sound (code _ _ _) h = tt
  sound (break _ _) h = tt
  sound (continue _ _ _) h = tt
  sound (switch_break _ _) h = tt

  sound_nodes : (ns : Nodes) → needs_in_nodes ns ≡ false → EverywhereNodes NoDispatch ns
  sound_nodes nil h = tt
  sound_nodes (cons n ns) h = let p = or-eq-false _ _ h in (sound n p.0, sound_nodes ns p.1)

  sound_cases : (cs : Cases) → needs_in_cases cs ≡ false → EverywhereCases NoDispatch cs
  sound_cases no_case h = tt
  sound_cases (case l n cs) h = let p = or-eq-false _ _ h in (sound n p.0, sound_cases cs p.1)

mutual
  unfolding needs_loop_var Everywhere

  complete : (n : Node) → Everywhere NoDispatch n → needs_loop_var n ≡ false
  complete (if_node i bb c w t e) h = rw (complete t h.1, complete e h.2)
  complete (scs i t b) h = complete b h.1
  complete (sequence i ns) h = complete_nodes ns h.1
  complete (switch i f cs) h = rw (h.0, complete_cases cs h.1)
  complete (set i v k) h = absurd h
  complete null h = refl
  complete (code _ _ _) h = refl
  complete (break _ _) h = refl
  complete (continue _ _ _) h = refl
  complete (switch_break _ _) h = refl

  complete_nodes : (ns : Nodes) → EverywhereNodes NoDispatch ns → needs_in_nodes ns ≡ false
  complete_nodes nil h = refl
  complete_nodes (cons n ns) h = rw (complete n h.0, complete_nodes ns h.1)

  complete_cases : (cs : Cases) → EverywhereCases NoDispatch cs → needs_in_cases cs ≡ false
  complete_cases no_case h = refl
  complete_cases (case l n cs) h = rw (complete n h.0, complete_cases cs h.1)

-- The answer is no exactly if the GHAST holds neither a `set` nor a dispatcher `switch`, at any
-- depth.
pub needs_loop_var_iff : (n : Node) → (needs_loop_var n ≡ false) ↔ Everywhere NoDispatch n
needs_loop_var_iff n = (sound n, complete n)
