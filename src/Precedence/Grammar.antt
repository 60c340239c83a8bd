-- ===== src/Precedence/Grammar.antt =====
-- The expressions of C: which text is which expression. The levels are those of the C standard, from
-- the names at 0 to the conditional at 13; a higher level is a looser operator.
use revng_c.Prelude.{ℕ, suc, ◌≤◌, [], ◌∷◌, ◌++◌, ◌≡◌, ◌≢◌}
use revng_c.Precedence.{
  Opcode, logical_or, bitwise_or, xor, logical_and, bitwise_and, equality, relational, shl, lshr,
  ashr, add, sub, mul, udiv, sdiv, urem, srem, UnaryOp, unary_minus, Value, leaf, variable,
  transparent, resize, unary, indirection, access, binary, select, call, parentheses, Values, nil,
  cons,
}
use revng_c.Precedence.Printing.{
  Tokens, identifier, prefix_token, star, lparen, rparen, comma, question, colon, infix_token,
  suffix,
}

mutual
  pub data Expression : Type 0 where
    name : ℕ → Expression
    prefixed : UnaryOp → Expression → Expression
    dereference : Expression → Expression
    followed : ℕ → Expression → Expression
    infixed : Opcode → Expression → Expression → Expression
    conditional : Expression → Expression → Expression → Expression
    called : Expression → Expressions → Expression

  pub data Expressions : Type 0 where
    nothing : Expressions
    argument : Expression → Expressions → Expressions

-- the expression that a value is: what is not printed and parentheses make no difference
unfoldable mutual
  pub meant : Value → Expression
  meant (leaf n) = name n
  meant (variable n) = name n
  meant (transparent v) = meant v
  meant (resize v) = meant v
  meant (unary op v) = prefixed op (meant v)
  meant (indirection v) = dereference (meant v)
  meant (access n v) = followed n (meant v)
  meant (binary op a b) = infixed op (meant a) (meant b)
  meant (select c t e) = conditional (meant c) (meant t) (meant e)
  meant (call f vs) = called (meant f) (meant_all vs)
  meant (parentheses v) = meant v

  pub meant_all : Values → Expressions
  meant_all nil = nothing
  meant_all (cons v vs) = argument (meant v) (meant_all vs)

unfoldable pub c_level : Opcode → ℕ
c_level logical_or = 12
c_level logical_and = 11
c_level bitwise_or = 10
c_level xor = 9
c_level bitwise_and = 8
c_level equality = 7
c_level relational = 6
c_level shl = 5
c_level lshr = 5
c_level ashr = 5
c_level add = 4
c_level sub = 4
c_level mul = 3
c_level udiv = 3
c_level sdiv = 3
c_level urem = 3
c_level srem = 3

-- Two minuses in a row are the decrement of C.
abbrev pub NotMinus : Tokens → Type 0
NotMinus [] = ⊥
NotMinus (prefix_token op ∷ ts) = op ≢ unary_minus
NotMinus (identifier n ∷ ts) = Unit
NotMinus (star ∷ ts) = Unit
NotMinus (lparen ∷ ts) = Unit
NotMinus (rparen ∷ ts) = Unit
NotMinus (comma ∷ ts) = Unit
NotMinus (question ∷ ts) = Unit
NotMinus (colon ∷ ts) = Unit
NotMinus (infix_token op ∷ ts) = Unit
NotMinus (suffix n ∷ ts) = Unit

-- `Reads l ts e`: the text `ts`, where an operand of level `l` may stand, is the expression `e`.
mutual
  pub data Reads : ℕ → Tokens → Expression → Type 0 where
    a_name : {n : ℕ} → Reads 0 (identifier n ∷ []) (name n)
    in_parentheses :
        {l : ℕ} {ts : Tokens} {e : Expression}
        → Reads l ts e
        → Reads 0 (lparen ∷ (ts ++ (rparen ∷ []))) e
    looser : {l m : ℕ} {ts : Tokens} {e : Expression} → l ≤ m → Reads l ts e → Reads m ts e
    a_suffix :
        {n : ℕ} {ts : Tokens} {e : Expression}
        → Reads 1 ts e
        → Reads 1 (ts ++ (suffix n ∷ [])) (followed n e)
    a_call :
        {ts us : Tokens} {f : Expression} {es : Expressions}
        → Reads 1 ts f
        → ReadsArguments us es
        → Reads 1 (ts ++ (lparen ∷ us)) (called f es)
    a_prefix :
        {op : UnaryOp} {ts : Tokens} {e : Expression}
        → (op ≡ unary_minus → NotMinus ts)
        → Reads 2 ts e
        → Reads 2 (prefix_token op ∷ ts) (prefixed op e)
    a_dereference :
        {ts : Tokens} {e : Expression} → Reads 2 ts e → Reads 2 (star ∷ ts) (dereference e)
    -- to the left
    an_infix :
        {op : Opcode} {l : ℕ} {ts us : Tokens} {a b : Expression}
        → suc l ≡ c_level op
        → Reads (c_level op) ts a
        → Reads l us b
        → Reads (c_level op) (ts ++ (infix_token op ∷ us)) (infixed op a b)
    a_conditional :
        {ts us vs : Tokens} {c t e : Expression}
        → Reads 12 ts c
        → Reads 15 us t
        → Reads 13 vs e
        → Reads 13 (ts ++ (question ∷ (us ++ (colon ∷ vs)))) (conditional c t e)

  pub data ReadsArguments : Tokens → Expressions → Type 0 where
    no_argument : ReadsArguments (rparen ∷ []) nothing
    arguments :
        {ts us : Tokens} {e : Expression} {es : Expressions}
        → Reads 14 ts e
        → ReadsMore us es
        → ReadsArguments (ts ++ us) (argument e es)

  pub data ReadsMore : Tokens → Expressions → Type 0 where
    no_more : ReadsMore (rparen ∷ []) nothing
    another :
        {ts us : Tokens} {e : Expression} {es : Expressions}
        → Reads 14 ts e
        → ReadsMore us es
        → ReadsMore (comma ∷ (ts ++ us)) (argument e es)
