-- ===== src/Beautify/MatchSwitch.antt =====
-- lib/RestructureCFG/BeautifyGHAST.cpp: `matchSwitch`, a visit of the GHAST. `none` is the visit of a
-- null pointer.
pub mod Exact
use revng_c.Prelude.{Option, none, some, ◌>>=◌}
use revng_c.Ghast.Node.{
  Node, null, code, break, continue, if_node, scs, sequence, switch, switch_break, set, Nodes, nil,
  cons, Cases, no_case, case,
}
use revng_c.Beautify.DoWhile.{or_null}

unfoldable mutual
  pub match_switch : Node → Option Node
  match_switch (sequence i ns) = match_in_nodes ns >>= λ r. some (sequence i r)
  match_switch (scs i t b) = match_switch b >>= λ r. some (scs i t r)
  match_switch (if_node i bb c w t e) = or_null t (match_switch t) >>= λ t'.
      or_null e (match_switch e) >>= λ e'. some (if_node i bb c w t' e')
  match_switch (switch i f cs) = match_in_cases cs >>= λ r. some (switch i f r)
  match_switch null = none
  match_switch n = some n

  pub match_in_nodes : Nodes → Option Nodes
  match_in_nodes nil = some nil
  match_in_nodes (cons n ns) = match_switch n >>= λ n'. match_in_nodes ns >>= λ r. some (cons n' r)

  pub match_in_cases : Cases → Option Cases
  match_in_cases no_case = some no_case
  match_in_cases (case l n cs) =
      match_switch n >>= λ n'. match_in_cases cs >>= λ r. some (case l n' r)
