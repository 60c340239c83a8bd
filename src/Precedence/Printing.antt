-- ===== src/Precedence/Printing.antt =====
-- lib/Backend/DecompileFunction.cpp: how an expression is printed after the pass has run.
use revng_c.Prelude.{ℕ, List, [], ◌∷◌, ◌++◌}
use revng_c.Precedence.{
  Opcode, UnaryOp, Value, leaf, variable, transparent, resize, unary, indirection, access, binary,
  select, call, parentheses, Values, nil, cons,
}

pub data Token : Type 0 where
  identifier : ℕ → Token
  -- a prefix operator; a cast is its type in parentheses
  prefix_token : UnaryOp → Token
  star lparen rparen comma question colon : Token
  -- those of the signed and the unsigned opcodes look the same; the types of the operands tell them apart
  infix_token : Opcode → Token
  -- a member access or a subscript
  suffix : ℕ → Token

abbrev pub Tokens : Type 0
Tokens = List Token

abbrev pub add_always_parentheses : Tokens → Tokens
add_always_parentheses ts = lparen ∷ (ts ++ (rparen ∷ []))

abbrev pub build_deref_expr : Tokens → Tokens
build_deref_expr ts = star ∷ ts

-- buildAddressExpr, buildCastExpr, and the operators of getCustomOpcodeToken
abbrev pub build_unary_expr : UnaryOp → Tokens → Tokens
build_unary_expr op ts = prefix_token op ∷ ts

-- getModelGEPToken, after the base
abbrev pub add_access : Tokens → ℕ → Tokens
add_access ts n = ts ++ (suffix n ∷ [])

abbrev pub build_select_expr : Tokens → Tokens → Tokens → Tokens
build_select_expr c t e = c ++ (question ∷ (t ++ (colon ∷ e)))

-- the printing of expressions by CCodeGenerator, which adds no parentheses of its own after the pass
unfoldable mutual
  pub print : Value → Tokens
  print (leaf n) = identifier n ∷ []
  print (variable n) = identifier n ∷ []
  print (transparent v) = print v
  print (resize v) = print v
  print (unary op v) = build_unary_expr op (print v)
  print (indirection v) = build_deref_expr (print v)
  print (access n v) = add_access (print v) n
  print (binary op a b) = print a ++ (infix_token op ∷ print b)
  print (select c t e) = build_select_expr (print c) (print t) (print e)
  print (call f vs) = print f ++ (lparen ∷ print_arguments vs)
  print (parentheses v) = add_always_parentheses (print v)

  -- up to the closing parenthesis
  pub print_arguments : Values → Tokens
  print_arguments nil = rparen ∷ []
  print_arguments (cons v vs) = print v ++ print_more vs

  pub print_more : Values → Tokens
  print_more nil = rparen ∷ []
  print_more (cons v vs) = comma ∷ (print v ++ print_more vs)
