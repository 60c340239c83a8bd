-- ===== src/Beautify/ImplicitStatement/Return.antt =====
-- `simplifyImplicitReturn` (SimplifyImplicitStatement.cpp): a function before and after it.
use revng_c.Prelude.{ℕ, ◌≡◌, inl, inr, some}
use revng_c.Ghast.Node.{Node}
use revng_c.Ghast.Everywhere.{Everywhere}
use revng_c.Semantics.{Machine, normal, returned, Outcome, exec}
use revng_c.Beautify.ImplicitStatement.{st_return, simplify_implicit_return}
use revng_c.Beautify.ImplicitStatement.Absorb.{Absorbs}
use revng_c.Beautify.ImplicitStatement.Steps.{IsQuiet, LoopOk}
use revng_c.Beautify.ImplicitStatement.Sound.{simplify-Absorbs}

-- A function that runs to the end of its body returns.
abbrev pub function_end : {S : Type 0} → Outcome S → Outcome S
function_end (some (normal, s)) = some (returned, s)
function_end o = o

function_end-Absorbs :
    {S : Type 0} (o' o : Outcome S) → Absorbs st_return o' o → function_end o' ≡ function_end o
function_end-Absorbs o' o (inl e) = rw e
function_end-Absorbs o' o (inr (s, e, e')) = rw (e, e')

-- On a machine whose conditions, switched values and void-return blocks change nothing, the body of
-- a function in which there is no loop ends, at the latest with the function, as it did before.
pub exec-simplify_implicit_return :
    {S : Type 0} (m : Machine S) (fuel : ℕ) (n : Node) (s : S)
    → IsQuiet m
    → Everywhere (LoopOk st_return m.last) n
    → function_end (exec m fuel (simplify_implicit_return m.last n) s)
      ≡ function_end (exec m fuel n s)
unfolding simplify_implicit_return
exec-simplify_implicit_return m fuel n s q h =
    function_end-Absorbs _ _ (simplify-Absorbs st_return m fuel q n h s)
