-- ===== src/Precedence/Misread.antt =====
-- Two kinds of expression that lib/Canonicalize/OperatorPrecedenceResolutionPass.cpp gives no
-- parentheses and lib/Backend/DecompileFunction.cpp prints as the text of another.
use revng_c.Prelude.{ℕ, ◌≤◌, false, some, [], ◌∷◌, ◌++◌, ◌≡◌, refl, arith}
use revng_c.Precedence.{
  postfix, equality, relational, Value, indirection, access, binary, leaf, opcode_info,
  get_precedence, same_associativity, binary_side, same_precedence, compare_precedence,
  traverse_transparent, is_identifier, needs_parentheses, resolve, wrap, lhs,
}
use revng_c.Precedence.Printing.{
  Tokens, identifier, prefix_token, star, lparen, rparen, comma, question, colon, infix_token,
  suffix, print,
}
use revng_c.Precedence.Grammar.{
  Expression, meant, c_level, Reads, a_name, in_parentheses, looser, a_suffix, a_dereference,
  an_infix, name, dereference, followed, infixed,
}
use revng_c.Precedence.Operands.{NotIndirection}
use revng_c.Precedence.Places.{accessed}
use revng_c.Precedence.Faithful.{IsOrderly, resolve-Reads, binary-right, placed}

-- a text that starts with a parenthesis
abbrev Opens : Tokens → Type 0
Opens (lparen ∷ ts) = Unit
Opens _ = ⊥

Opens-++ : (ts us : Tokens) → Opens ts → Opens (ts ++ us)
Opens-++ [] us h = absurd h
Opens-++ (lparen ∷ ts) us h = tt
Opens-++ (identifier n ∷ ts) us h = absurd h
Opens-++ (prefix_token op ∷ ts) us h = absurd h
Opens-++ (star ∷ ts) us h = absurd h
Opens-++ (rparen ∷ ts) us h = absurd h
Opens-++ (comma ∷ ts) us h = absurd h
Opens-++ (question ∷ ts) us h = absurd h
Opens-++ (colon ∷ ts) us h = absurd h
Opens-++ (infix_token op ∷ ts) us h = absurd h
Opens-++ (suffix n ∷ ts) us h = absurd h

-- A comparison for equality stands in parentheses where only a tighter operand may stand.
equality-Opens :
    {l : ℕ} {ts : Tokens} {a b : Expression} → Reads l ts (infixed equality a b) → l ≤ 6 → Opens ts
unfolding c_level
equality-Opens (in_parentheses r) h = tt
equality-Opens (looser k r) h = equality-Opens r (omega (arith, k, h))
equality-Opens (an_infix q r r') h = absurd (omega (arith, h))

-- A relational comparison of such a comparison starts with a parenthesis.
relational-Opens :
    {l : ℕ} {ts : Tokens} {a b c : Expression}
    → Reads l ts (infixed relational (infixed equality a b) c)
    → Opens ts
unfolding c_level
relational-Opens (in_parentheses r) = tt
relational-Opens (looser k r) = relational-Opens r
relational-Opens (an_infix {ts = ts} q r r') = Opens-++ ts _ (equality-Opens r (omega arith))

dereference-Opens :
    {l : ℕ} {ts : Tokens} {a : Expression} → Reads l ts (dereference a) → l ≤ 1 → Opens ts
dereference-Opens (in_parentheses r) h = tt
dereference-Opens (looser k r) h = dereference-Opens r (omega (arith, k, h))
dereference-Opens (a_dereference r) h = absurd (omega (arith, h))

-- So does the member of an indirection.
followed-Opens :
    {l n : ℕ} {ts : Tokens} {a : Expression} → Reads l ts (followed n (dereference a)) → Opens ts
followed-Opens (in_parentheses r) = tt
followed-Opens (looser k r) = followed-Opens r
followed-Opens (a_suffix {ts = ts} r) = Opens-++ ts _ (dereference-Opens r (omega arith))

bare_equality :
    (x : ℕ) (b c : Value)
    → needs_parentheses
        (binary relational (binary equality (leaf x) b) c)
        lhs
        (binary equality (leaf x) b)
      ≡ some false
unfolding needs_parentheses traverse_transparent is_identifier get_precedence compare_precedence
    same_associativity same_precedence binary_side opcode_info
bare_equality x b c = refl

bare_name :
    (x : ℕ) (b : Value) → needs_parentheses (binary equality (leaf x) b) lhs (leaf x) ≡ some false
unfolding needs_parentheses traverse_transparent is_identifier
bare_name x b = refl

bare_indirection :
    (n : ℕ) (v : Value)
    → needs_parentheses (access n (indirection v)) lhs (indirection v) ≡ some false
unfolding needs_parentheses traverse_transparent is_identifier get_precedence compare_precedence
    same_associativity same_precedence
bare_indirection n v = refl

-- An identifier is compared for equality with `b`, and the result with `c`
-- by a relational operator. The pass puts no parentheses around the comparison for equality, for any
-- orderly `b` and `c`: the text reads as the comparison for equality of the identifier and the
-- relational comparison of `b` and `c`, and it does not read as what was printed.
pub resolve-comparison :
    (x : ℕ) (b c : Value)
    → IsOrderly b
    → IsOrderly c
    → (w : Value) × (resolve (binary relational (binary equality (leaf x) b) c) ≡ some w)
      × Reads 7 (print w) (infixed equality (name x) (infixed relational (meant b) (meant c)))
      × ((l : ℕ) → ¬ Reads l (print w) (meant (binary relational (binary equality (leaf x) b) c)))
unfolding resolve print c_level meant
resolve-comparison x b c hb hc =
    let (b', e, r) = resolve-Reads b hb in
    let (c', f, s) = resolve-Reads c hc in
    let (p, g, k) = binary-right equality (leaf x) b 6 refl hb in
    let (q, h, k') = binary-right relational (binary equality (leaf x) b) c 5 refl hc in
    (
      binary relational (binary equality (leaf x) (wrap p b')) (wrap q c'),
      rw (bare_equality x b c, bare_name x b, h, g, e, f),
      an_infix {op = equality} refl (looser (omega arith) a_name)
          (an_infix {op = relational} refl (k b' r) (k' c' s)),
      λ l t. relational-Opens t,
    )

-- The member `n` of what `v` points to, for any orderly `v` that is no indirection itself, is printed as
-- `*` and the member of `v`: it reads as what the member of `v` points to, and does not read as what was
-- printed.
pub resolve-access_indirection :
    (n : ℕ) (v : Value)
    → IsOrderly v
    → NotIndirection v
    → (w : Value) × (resolve (access n (indirection v)) ≡ some w)
      × Reads 2 (print w) (dereference (followed n (meant v)))
      × ((l : ℕ) → ¬ Reads l (print w) (meant (access n (indirection v))))
unfolding resolve print meant get_precedence
resolve-access_indirection n v hv d =
    let (v', e, r) = resolve-Reads v hv in
    let (p, g, k) = placed (indirection v) postfix lhs v 1 refl refl hv (accessed v d) in
    (
      access n (indirection (wrap p v')),
      rw (bare_indirection n v, g, e),
      a_dereference (looser (omega arith) (a_suffix (k v' r))),
      λ l t. followed-Opens t,
    )
