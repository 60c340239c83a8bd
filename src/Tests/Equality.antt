-- ===== src/Tests/Equality.antt =====
-- The comparison of two small GHASTs.
use revng_c.Prelude.{ℕ, true, false, ◌≡◌, refl, some, none, Option}
use revng_c.Ghast.Expr.{Expr, atomic, negated}
use revng_c.Ghast.Node.{Node, null, code, break, continue, if_node, is_null}
use revng_c.Ghast.Everywhere.{Everywhere}
use revng_c.Ghast.Equality.{is_equal}
use revng_c.Ghast.Equality.Sound.{
  IsComparable, is_equal-exec, is_equal-then_ignored, is_equal-condition_ignored,
}
use revng_c.Semantics.{normal, eval, exec}
use revng_c.Tests.{counter}

abbrev cond : Option ℕ → Expr
cond bb = atomic 5

-- if (s == 5) { block 0 }, twice
abbrev one : Node
one = if_node 1 (some 5) (atomic 5) false (code 2 (some 0) false) null

abbrev other : Node
other = if_node 3 (some 5) (atomic 5) false (code 4 (some 0) false) null

one-other : is_equal one other ≡ true
unfolding is_equal is_null
one-other = refl

one-IsComparable : Everywhere (IsComparable cond) one
unfolding Everywhere is_null
one-IsComparable = ((refl, refl, refl, refl), refl, tt)

other-IsComparable : Everywhere (IsComparable cond) other
unfolding Everywhere is_null
other-IsComparable = ((refl, refl, refl, refl), refl, tt)

is_equal-exec_example : exec counter 9 one 5 ≡ exec counter 9 other 5
is_equal-exec_example =
    is_equal-exec counter 9 cond one other 5 one-other one-IsComparable other-IsComparable

holds_at_five : eval counter true (atomic 5) 5 ≡ (true, 5)
unfolding eval
holds_at_five = refl

break-not_null : is_null (break 3 false) ≡ false
unfolding is_null
break-not_null = refl

break-break : is_equal (break 3 false) (break 3 false) ≡ true
unfolding is_equal
break-break = refl

is_equal-then_ignored_example :
    (is_equal
        (if_node 1 (some 5) (atomic 5) false (break 3 false) (break 3 false))
        (if_node 2 (some 5) (atomic 5) false (continue 4 none false) (break 3 false))
      ≡ true)
    × (exec counter 9 (if_node 1 (some 5) (atomic 5) false (break 3 false) (break 3 false)) 5
        ≡ exec counter 9 (break 3 false) 5)
    × (exec counter 9
          (if_node 2 (some 5) (atomic 5) false (continue 4 none false) (break 3 false))
          5
        ≡ exec counter 9 (continue 4 none false) 5)
is_equal-then_ignored_example =
    is_equal-then_ignored counter 9 1 2 5 (atomic 5) false (break 3 false) (continue 4 none false)
      (break 3 false) 5 5 break-not_null break-break holds_at_five

fails_at_five : eval counter true (negated (atomic 5)) 5 ≡ (false, 5)
unfolding eval
fails_at_five = refl

block_not_null : is_null (code 2 (some 0) false) ≡ false
unfolding is_null
block_not_null = refl

code-code : is_equal (code 2 (some 0) false) (code 2 (some 0) false) ≡ true
unfolding is_equal
code-code = refl

condition_ignored_test :
    (is_equal
        (if_node 1 (some 5) (atomic 5) false (code 2 (some 0) false) null)
        (if_node 3 (some 5) (negated (atomic 5)) false (code 2 (some 0) false) null)
      ≡ true)
    × (exec counter 9 (if_node 1 (some 5) (atomic 5) false (code 2 (some 0) false) null) 5
        ≡ exec counter 9 (code 2 (some 0) false) 5)
    × (exec counter 9 (if_node 3 (some 5) (negated (atomic 5)) false (code 2 (some 0) false) null) 5
        ≡ some (normal, 5))
condition_ignored_test =
    is_equal-condition_ignored counter 9 1 3 5 (atomic 5) (negated (atomic 5)) false false
      (code 2 (some 0) false) 5 5 5 block_not_null code-code holds_at_five fails_at_five
