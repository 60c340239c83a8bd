-- ===== src/Precedence/Starts.antt =====
-- How the text of an expression starts: with a minus only where the expression is the negation of
-- another, or has a looser operator.
use revng_c.Prelude.{ℕ, ◌≤◌, [], ◌∷◌, ◌++◌, ◌≢◌, arith}
use revng_c.Precedence.{unary_minus}
use revng_c.Precedence.Printing.{
  Tokens, identifier, prefix_token, star, lparen, rparen, comma, question, colon, infix_token,
  suffix,
}
use revng_c.Precedence.Levels.{opcode_facts}
use revng_c.Precedence.Grammar.{
  Expression, name, prefixed, dereference, followed, infixed, conditional, called, NotMinus, Reads,
  a_name, in_parentheses, looser, a_suffix, a_call, a_prefix, a_dereference, an_infix,
  a_conditional,
}

abbrev pub NotNegation : Expression → Type 0
NotNegation (prefixed op e) = op ≢ unary_minus
NotNegation (name n) = Unit
NotNegation (dereference e) = Unit
NotNegation (followed n e) = Unit
NotNegation (infixed op a b) = Unit
NotNegation (conditional c t e) = Unit
NotNegation (called f es) = Unit

NotMinus-++ : (ts us : Tokens) → NotMinus ts → NotMinus (ts ++ us)
NotMinus-++ [] us h = absurd h
NotMinus-++ (prefix_token op ∷ ts) us h = h
NotMinus-++ (identifier n ∷ ts) us h = h
NotMinus-++ (star ∷ ts) us h = h
NotMinus-++ (lparen ∷ ts) us h = h
NotMinus-++ (rparen ∷ ts) us h = h
NotMinus-++ (comma ∷ ts) us h = h
NotMinus-++ (question ∷ ts) us h = h
NotMinus-++ (colon ∷ ts) us h = h
NotMinus-++ (infix_token op ∷ ts) us h = h
NotMinus-++ (suffix n ∷ ts) us h = h

-- A postfix expression starts with no minus.
postfix-NotMinus : {l : ℕ} {ts : Tokens} {e : Expression} → Reads l ts e → l ≤ 1 → NotMinus ts
postfix-NotMinus a_name h = tt
postfix-NotMinus (in_parentheses r) h = tt
postfix-NotMinus (looser k r) h = postfix-NotMinus r (omega (arith, k, h))
postfix-NotMinus (a_suffix {ts = ts} r) h = NotMinus-++ ts _ (postfix-NotMinus r (omega arith))
postfix-NotMinus (a_call {ts = ts} r q) h = NotMinus-++ ts _ (postfix-NotMinus r (omega arith))
postfix-NotMinus (a_prefix n r) h = absurd (omega (arith, h))
postfix-NotMinus (a_dereference r) h = tt
postfix-NotMinus (an_infix {op = op} q r r') h =
    absurd (omega (arith, h, (opcode_facts op).at_least, (opcode_facts op).below_level))
postfix-NotMinus (a_conditional r r' r'') h = absurd (omega (arith, h))

-- A unary expression that is no negation starts with no minus.
pub unary-NotMinus :
    {l : ℕ} {ts : Tokens} {e : Expression} → Reads l ts e → l ≤ 2 → NotNegation e → NotMinus ts
unary-NotMinus a_name h n = tt
unary-NotMinus (in_parentheses r) h n = tt
unary-NotMinus (looser k r) h n = unary-NotMinus r (omega (arith, k, h)) n
unary-NotMinus (a_suffix {ts = ts} r) h n = NotMinus-++ ts _ (postfix-NotMinus r (omega arith))
unary-NotMinus (a_call {ts = ts} r q) h n = NotMinus-++ ts _ (postfix-NotMinus r (omega arith))
unary-NotMinus (a_prefix m r) h n = n
unary-NotMinus (a_dereference r) h n = tt
unary-NotMinus (an_infix {op = op} q r r') h n =
    absurd (omega (arith, h, (opcode_facts op).at_least, (opcode_facts op).below_level))
unary-NotMinus (a_conditional r r' r'') h n = absurd (omega (arith, h))
