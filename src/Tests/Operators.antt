-- ===== src/Tests/Operators.antt =====
-- The parentheses around operands, at concrete expressions.
use revng_c.Prelude.{ℕ, some, ◌≡◌}
use revng_c.Precedence.{
  relational, equality, sub, mul, select, unary, cast, unary_minus, Value, nil, cons, leaf,
  transparent, access, indirection, binary, call, resolve,
}
use revng_c.Precedence.Printing.{print}
use revng_c.Precedence.Grammar.{Reads, meant, name, dereference, followed, infixed}
use revng_c.Precedence.Levels.{level}
use revng_c.Precedence.Faithful.{IsOrderly, AllOrderly, resolve-Reads}
use revng_c.Precedence.Misread.{resolve-comparison, resolve-access_indirection}

-- (x - (x - y)) * (cast) f(x ? y : x, -y).m
abbrev product : Value
product = binary mul (binary sub (leaf 0) (transparent (binary sub (leaf 0) (leaf 1)))) (
    unary cast (
      access 7 (
        call (leaf 2)
          (cons (select (leaf 0) (leaf 1) (leaf 0)) (cons (unary unary_minus (leaf 1)) nil)))))

resolve-Reads_example :
    (w : Value) × (resolve product ≡ some w) × Reads (level product) (print w) (meant product)
unfolding IsOrderly AllOrderly meant
resolve-Reads_example = resolve-Reads product (
  (λ e q. cc),
  ((λ e. tt), tt, ((λ e. tt), tt, tt)),
  ((λ e. tt), (tt, (tt, ((tt, tt, tt), (((λ e. tt), tt), tt))))),
)

-- (x == y - z) < f()
resolve-comparison_example :
    (w : Value) × (resolve (
        binary relational
          (binary equality (leaf 1) (binary sub (leaf 2) (leaf 3)))
          (call (leaf 4) nil))
      ≡ some w)
    × Reads 7 (print w) (
        infixed equality
          (name 1)
          (infixed relational (meant (binary sub (leaf 2) (leaf 3))) (meant (call (leaf 4) nil))))
    × ((l : ℕ)
        → ¬ Reads l (print w) (
            meant (
              binary relational
                (binary equality (leaf 1) (binary sub (leaf 2) (leaf 3)))
                (call (leaf 4) nil))))
unfolding IsOrderly AllOrderly
resolve-comparison_example =
    resolve-comparison 1 (binary sub (leaf 2) (leaf 3)) (call (leaf 4) nil) ((λ e. tt), tt, tt)
      (tt, tt)

-- (*x.m).n
resolve-access_indirection_example :
    (w : Value) × (resolve (access 4 (indirection (access 5 (leaf 1)))) ≡ some w)
    × Reads 2 (print w) (dereference (followed 4 (meant (access 5 (leaf 1)))))
    × ((l : ℕ) → ¬ Reads l (print w) (meant (access 4 (indirection (access 5 (leaf 1))))))
unfolding IsOrderly
resolve-access_indirection_example = resolve-access_indirection 4 (access 5 (leaf 1)) (tt, tt) tt
