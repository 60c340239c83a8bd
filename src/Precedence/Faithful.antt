-- ===== src/Precedence/Faithful.antt =====
-- What lib/Backend/DecompileFunction.cpp prints after
-- lib/Canonicalize/OperatorPrecedenceResolutionPass.cpp has run, read again as an expression of C.
use revng_c.Prelude.{ℕ, zero, suc, ◌≤◌, Bool, true, false, some, ◌≡◌, refl, arith}
use revng_c.Precedence.{
  Opcode, relational, Value, leaf, variable, transparent, resize, unary, indirection, access,
  binary, select, call, parentheses, traverse_transparent, UnaryOp, unary_minus, Values, nil, cons,
  OperatorInfo, prefix, postfix, opcode_info, get_precedence, Side, lhs, rhs, needs_parentheses,
  wrap, resolve, resolve_all,
}
use revng_c.Precedence.Printing.{print, print_arguments, print_more}
use revng_c.Precedence.Grammar.{
  Expression, meant, meant_all, c_level, Reads, a_name, in_parentheses, looser, a_suffix, a_call,
  a_prefix, a_dereference, an_infix, a_conditional, ReadsArguments, no_argument, arguments,
  ReadsMore, no_more, another,
}
use revng_c.Precedence.Starts.{NotNegation, unary-NotMinus}
use revng_c.Precedence.Levels.{level, usual, opcode_facts}
use revng_c.Precedence.Operands.{IsOpen, Bare, needs_parentheses_lem, NotIndirection, NotEquality}
use revng_c.Precedence.Places.{
  calling, ternary, prefix_operand, dereferenced, accessed, callee, branch, left_operand,
  right_operand,
}

-- no parentheses yet, no negation of a negation, no access to an indirection, no comparison for
-- equality on the left of a relational operator
unfoldable mutual
  pub IsOrderly : Value → Type 0
  IsOrderly (leaf n) = Unit
  IsOrderly (variable n) = Unit
  IsOrderly (transparent v) = IsOrderly v
  IsOrderly (resize v) = IsOrderly v
  IsOrderly (unary op v) = (op ≡ unary_minus → NotNegation (meant v)) × IsOrderly v
  IsOrderly (indirection v) = IsOrderly v
  IsOrderly (access n v) = NotIndirection v × IsOrderly v
  IsOrderly (binary op a b) = (op ≡ relational → NotEquality a) × IsOrderly a × IsOrderly b
  IsOrderly (select c t e) = IsOrderly c × IsOrderly t × IsOrderly e
  IsOrderly (call f vs) = IsOrderly f × AllOrderly vs
  IsOrderly (parentheses v) = ⊥

  pub AllOrderly : Values → Type 0
  AllOrderly nil = Unit
  AllOrderly (cons v vs) = IsOrderly v × AllOrderly vs

IsOrderly-IsOpen : (v : Value) → IsOrderly v → IsOpen v
unfolding IsOrderly
IsOrderly-IsOpen (transparent v) h = IsOrderly-IsOpen v h
IsOrderly-IsOpen (parentheses v) h = h
IsOrderly-IsOpen (leaf n) h = h
IsOrderly-IsOpen (variable n) h = h
IsOrderly-IsOpen (resize v) h = tt
IsOrderly-IsOpen (unary op v) h = tt
IsOrderly-IsOpen (indirection v) h = tt
IsOrderly-IsOpen (access n v) h = tt
IsOrderly-IsOpen (binary op a b) h = tt
IsOrderly-IsOpen (select c t e) h = tt
IsOrderly-IsOpen (call f vs) h = tt

-- the result of the pass on a value, and what it reads as
abbrev Resolved : Value → Type 0
Resolved v = (w : Value) × (resolve v ≡ some w) × Reads (level v) (print w) (meant v)

-- the decision on an operand, with which it may stand at level `l`
abbrev pub Placed : Value → Side → Value → ℕ → Type 0
Placed i side v l =
    (b : Bool) × (needs_parentheses i side v ≡ some b)
    × ((w : Value) → Reads (level v) (print w) (meant v) → Reads l (print (wrap b w)) (meant v))

wrapped :
    (b : Bool) (l m : ℕ) (w : Value) (e : Expression)
    → (b ≡ false → l ≤ m)
    → Reads l (print w) e
    → Reads m (print (wrap b w)) e
unfolding print
wrapped true l m w e h r = looser (omega arith) (in_parentheses r)
wrapped false l m w e h r = looser (h refl) r

predecessor : (n : ℕ) → 1 ≤ n → (l : ℕ) × (suc l ≡ n)
predecessor zero h = absurd (omega (arith, h))
predecessor (suc n) h = (n, refl)

pub placed :
    (i : Value) (info : OperatorInfo) (side : Side) (v : Value) (l : ℕ)
    → get_precedence i ≡ some info
    → info.associativity ≡ usual info.precedence
    → IsOrderly v
    → (Bare info side (traverse_transparent v) → level v ≤ l)
    → Placed i side v l
placed i info side v l p u h k =
    let (b, e, t) = needs_parentheses_lem i info side v p u (IsOrderly-IsOpen v h) in
    (b, e, λ w r. wrapped b (level v) l w (meant v) (λ f. k (t f)) r)

resize-operand : (v : Value) → IsOrderly v → Placed (resize v) lhs v 2
unfolding get_precedence
resize-operand v h = placed (resize v) prefix lhs v 2 refl refl h (prefix_operand v)

unary-operand : (op : UnaryOp) (v : Value) → IsOrderly v → Placed (unary op v) lhs v 2
unfolding get_precedence
unary-operand op v h = placed (unary op v) prefix lhs v 2 refl refl h (prefix_operand v)

indirection-operand : (v : Value) → IsOrderly v → Placed (indirection v) lhs v 2
unfolding get_precedence
indirection-operand v h = placed (indirection v) postfix lhs v 2 refl refl h (dereferenced v)

access-operand : (n : ℕ) (v : Value) → NotIndirection v → IsOrderly v → Placed (access n v) lhs v 1
unfolding get_precedence
access-operand n v d h = placed (access n v) postfix lhs v 1 refl refl h (accessed v d)

pub binary-left :
    (op : Opcode) (a b : Value)
    → (op ≡ relational → NotEquality a)
    → IsOrderly a
    → Placed (binary op a b) lhs a (c_level op)
unfolding get_precedence
binary-left op a b n h =
    placed (binary op a b) (opcode_info op) lhs a (c_level op) refl (opcode_facts op).is_usual h
      (left_operand op a n)

pub binary-right :
    (op : Opcode) (a b : Value) (l : ℕ)
    → suc l ≡ c_level op
    → IsOrderly b
    → Placed (binary op a b) rhs b l
unfolding get_precedence
binary-right op a b l e h =
    placed (binary op a b) (opcode_info op) rhs b l refl (opcode_facts op).is_usual h
      (right_operand op b l e)

select-operand : (c t e v : Value) (side : Side) → IsOrderly v → Placed (select c t e) side v 12
unfolding get_precedence
select-operand c t e v side h = placed (select c t e) ternary side v 12 refl refl h (branch v side)

call-callee : (f : Value) (vs : Values) → IsOrderly f → Placed (call f vs) lhs f 1
unfolding get_precedence
call-callee f vs h = placed (call f vs) calling lhs f 1 refl refl h (callee f)

level_bound : (v : Value) → level v ≤ 13
unfolding level
level_bound (transparent v) = level_bound v
level_bound (leaf n) = omega arith
level_bound (variable n) = omega arith
level_bound (resize v) = omega arith
level_bound (unary op v) = omega arith
level_bound (indirection v) = omega arith
level_bound (access n v) = omega arith
level_bound (binary op a b) =
    omega (arith, (opcode_facts op).at_most, (opcode_facts op).level_bound)
level_bound (select c t e) = omega arith
level_bound (call f vs) = omega arith
level_bound (parentheses v) = omega arith

mutual
  unfolding IsOrderly AllOrderly resolve resolve_all print print_arguments print_more meant
      meant_all level

  resolved :
      (v : Value)
      → IsOrderly v
      → (w : Value) × (resolve v ≡ some w) × Reads (level v) (print w) (meant v)
  resolved (leaf n) h = (leaf n, refl, a_name)
  resolved (variable n) h = (variable n, refl, a_name)
  resolved (transparent v) h = let (w, e, r) = resolved v h in (transparent w, rw e, r)
  resolved (resize v) h =
      let (w, e, r) = resolved v h in
      let (b, p, k) = resize-operand v h in (resize (wrap b w), rw (p, e), k w r)
  resolved (unary op v) (n, h) =
      let (w, e, r) = resolved v h in
      let (b, p, k) = unary-operand op v h in
      (
        unary op (wrap b w),
        rw (p, e),
        a_prefix (λ i. unary-NotMinus (k w r) (omega arith) (n i)) (k w r),
      )
  resolved (indirection v) h =
      let (w, e, r) = resolved v h in
      let (b, p, k) = indirection-operand v h in
      (indirection (wrap b w), rw (p, e), a_dereference (k w r))
  resolved (access n v) (d, h) =
      let (w, e, r) = resolved v h in
      let (b, p, k) = access-operand n v d h in (access n (wrap b w), rw (p, e), a_suffix (k w r))
  resolved (binary op a b) (n, h, h') =
      let (w, e, r) = resolved a h in
      let (w', e', r') = resolved b h' in
      let (l, s) =
        predecessor (c_level op)
          (omega (arith, (opcode_facts op).at_least, (opcode_facts op).below_level)) in
      let (p, f, k) = binary-left op a b n h in
      let (q, f', k') = binary-right op a b l s h' in
      (binary op (wrap p w) (wrap q w'), rw (f, f', e, e'), an_infix s (k w r) (k' w' r'))
  resolved (select c t x) (h, h', h'') =
      let (w, e, r) = resolved c h in
      let (w', e', r') = resolved t h' in
      let (w'', e'', r'') = resolved x h'' in
      let (p, f, k) = select-operand c t x c lhs h in
      let (q, f', k') = select-operand c t x t rhs h' in
      let (s, f'', k'') = select-operand c t x x rhs h'' in
      (
        select (wrap p w) (wrap q w') (wrap s w''),
        rw (f, f', f'', e, e', e''),
        a_conditional (k w r) (looser (omega arith) (k' w' r'))
            (looser (omega arith) (k'' w'' r'')),
      )
  resolved (call f vs) (h, h') =
      let (w, e, r) = resolved f h in
      let (ws, e', r') = resolved_arguments vs h' in
      let (b, p, k) = call-callee f vs h in (call (wrap b w) ws, rw (p, e, e'), a_call (k w r) r')
  resolved (parentheses v) h = absurd h

  resolved_arguments :
      (vs : Values)
      → AllOrderly vs
      → (ws : Values) × (resolve_all vs ≡ some ws)
        × ReadsArguments (print_arguments ws) (meant_all vs)
  resolved_arguments nil h = (nil, refl, no_argument)
  resolved_arguments (cons v vs) (h, h') =
      let (w, e, r) = resolved v h in
      let (ws, e', r') = resolved_more vs h' in
      (cons w ws, rw (e, e'), arguments (looser (omega (arith, level_bound v)) r) r')

  resolved_more :
      (vs : Values)
      → AllOrderly vs
      → (ws : Values) × (resolve_all vs ≡ some ws) × ReadsMore (print_more ws) (meant_all vs)
  resolved_more nil h = (nil, refl, no_more)
  resolved_more (cons v vs) (h, h') =
      let (w, e, r) = resolved v h in
      let (ws, e', r') = resolved_more vs h' in
      (cons w ws, rw (e, e'), another (looser (omega (arith, level_bound v)) r) r')

-- The pass gives an expression, and the text of it reads, by the grammar of C, as the expression it was
-- before the parentheses, for an expression with no parentheses yet, no negation of a negation, no
-- access to an indirection and no comparison for equality on the left of a relational operator.
pub resolve-Reads :
    (v : Value)
    → IsOrderly v
    → (w : Value) × (resolve v ≡ some w) × Reads (level v) (print w) (meant v)
resolve-Reads v h = resolved v h
