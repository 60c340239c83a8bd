-- ===== src/Beautify/CallNoReturn/Find.antt =====
-- `promoteCallNoReturnImpl` (PromoteCallNoReturn.cpp): what the search through a sequence finds.
use revng_c.Prelude.{
  ℕ, Bool, true, false, ◌≡◌, refl, ap, sym, ◌∙◌, subst, Option, none, some, >>=-eq-some, of_some,
  ◌||◌, ◌==◌, or-eq-false,
}
use revng_c.Ghast.Expr.{Expr}
use revng_c.Ghast.Node.{Node, null, if_node, sequence, Nodes, nil, cons, append_nodes}
use revng_c.Ghast.Identity.{node_id}
use revng_c.Ghast.Children.{is_child, is_child-append, DistinctChildren}
use revng_c.Semantics.{Machine, exec, exec_nodes}
use revng_c.Semantics.Congruence.{SameNodes, SameNodes-refl, and_then-finish}
use revng_c.Beautify.FallThrough.{
  ScopeType, call_no_return, returns, continues, loop_break, ScopeMap, at, falls_through, last_id,
}
use revng_c.Beautify.FallThrough.Leaving.{Leaving}
use revng_c.Beautify.CallNoReturn.{
  is_preferred_as_fall_through, is_call_no_return, child_id, remove_all, Found, nothing, found_if,
  if_preferred, try_if, or_try, find_if, swap, when_call, promote_tail,
}
use revng_c.Beautify.CallNoReturn.Tail.{
  Stops, Leaving-Stops, and_then-Stops, exchanged-Same, Apart-one, Apart-distinct, removed,
}

preferred-leaves : (t : ScopeType) → is_preferred_as_fall_through t ≡ true → falls_through t ≡ false
unfolding falls_through
preferred-leaves returns h = refl
preferred-leaves continues h = refl
preferred-leaves loop_break h = refl
preferred-leaves _ h = cc

call-leaves : (t : ScopeType) → is_call_no_return t ≡ true → falls_through t ≡ false
unfolding falls_through
call-leaves call_no_return h = refl
call-leaves _ h = cc

-- the address of the `then` of an `if`
unfoldable pub then_id : Node → Option ℕ
unfolding child_id
then_id (if_node i bb c w t e) = child_id t
then_id _ = none

-- No `then` of these children is one of `all`.
unfoldable pub ThensElsewhere : Nodes → Nodes → Type 0
unfolding then_id is_child
ThensElsewhere all nil = Unit
ThensElsewhere all (cons n ns) =
    ((j : ℕ) → then_id n ≡ some j → is_child j all ≡ false) × ThensElsewhere all ns

pub own_id : (n : Node) (j : ℕ) → child_id n ≡ some j → child_id n ≡ some (node_id n)
unfolding child_id
own_id null j h = cc
own_id n j h = refl

-- an address that is none of the children is none of the last ones
child-tail :
    (j : ℕ) (before : Nodes) (n : Node) (following : Nodes)
    → (is_child j before || is_child j (cons n following)) ≡ false
    → is_child j following ≡ false
unfolding is_child
child-tail j before n following h =
    let (h0, h1) = or-eq-false (is_child j before) _ h in
    let (h2, h3) = or-eq-false (j == node_id n) (is_child j following) h1 in h3

module _ {S : Type 0} (m : Machine S) (fuel : ℕ) (mp : ScopeMap) where
  -- what the map says of a node is true
  abbrev pub Leaves : Node → Type 0
  Leaves n =
      (j : ℕ) (t : ScopeType)
      → child_id n ≡ some j
      → at mp j ≡ some t
      → falls_through t ≡ false
      → (s : S) → Leaving (exec m fuel n s)

  abbrev pub ThenLeaves : Node → Type 0
  ThenLeaves (if_node i bb c w t e) = Leaves t
  ThenLeaves _ = Unit

  unfoldable pub AllLeave : Nodes → Type 0
  AllLeave nil = Unit
  AllLeave (cons n ns) = (child_id n ≡ some (node_id n)) × (Leaves n × ThenLeaves n) × AllLeave ns

  -- the children up to the one that is left are left
  last-Stops :
      (ns : Nodes) (l : ℕ) (t : ScopeType)
      → last_id ns ≡ some l
      → at mp l ≡ some t
      → falls_through t ≡ false
      → AllLeave ns
      → (s : S) → Stops (exec_nodes m fuel ns s)
  unfolding last_id AllLeave exec
  last-Stops nil l t e a f h s = absurd (cc e)
  last-Stops (cons n nil) l t e a f h s =
      subst Stops (sym (and_then-finish (exec m fuel n s)))
        (Leaving-Stops (exec m fuel n s) (h.1.0 l t (h.0 ∙ e) a f s))
  last-Stops (cons n (cons k ns)) l t e a f h s =
      and_then-Stops (exec m fuel n s) _ (last-Stops (cons k ns) l t e a f h.2)

  -- the `if` that is found stands in the sequence, and its `then` is left
  record IsFound (ns before : Nodes) (i : ℕ) (bb : Option ℕ) (c : Expr) (w : Bool) (t : Node)
      (following : Nodes) : Type 0 where
    whole : append_nodes before (cons (if_node i bb c w t null) following) ≡ ns
    branch : (s : S) → Leaving (exec m fuel t s)
    address : child_id t ≡ some (node_id t)
    last : last_id following ≡ last_id ns
    rest : AllLeave following

  abbrev Correct : Nodes → Found → Type 0
  Correct ns nothing = Unit
  Correct ns (found_if before i bb c w t following) = IsFound ns before i bb c w t following

  if_preferred-Correct :
      (i j : ℕ) (bb : Option ℕ) (c : Expr) (w : Bool) (t : Node) (u : ScopeType) (following : Nodes)
      (v : Bool)
      → is_preferred_as_fall_through u ≡ v
      → child_id t ≡ some j
      → at mp j ≡ some u
      → Leaves t
      → AllLeave following
      → last_id following ≡ last_id (cons (if_node i bb c w t null) following)
      → Correct (cons (if_node i bb c w t null) following) (if_preferred v i bb c w t following)
  unfolding append_nodes
  if_preferred-Correct i j bb c w t u following false p a e h r l = tt
  if_preferred-Correct i j bb c w t u following true p a e h r l = record {
    whole = refl;
    branch = h j u a e (preferred-leaves u p);
    address = own_id t j a;
    last = l;
    rest = r;
  }

  try_if-Correct :
      (n : Node) (following : Nodes) (r : Found)
      → try_if mp n following ≡ some r
      → ThenLeaves n
      → AllLeave following
      → last_id following ≡ last_id (cons n following)
      → Correct (cons n following) r
  unfolding try_if
  try_if-Correct (if_node i bb c w t null) following r e h a l =
      let (j, e1, k1) = >>=-eq-some (child_id t) _ e in
      let (u, e2, k2) = >>=-eq-some (at mp j) _ k1 in
      subst (Correct (cons (if_node i bb c w t null) following)) (of_some k2)
        (if_preferred-Correct i j bb c w t u following _ refl e1 e2 h a l)
  try_if-Correct n following r e h a l = subst (Correct (cons n following)) (of_some e) tt

  or_try-Correct :
      (n : Node) (ns : Nodes) (x r : Found)
      → or_try mp n ns x ≡ some r
      → Correct ns x
      → ThenLeaves n
      → AllLeave ns
      → last_id ns ≡ last_id (cons n ns)
      → Correct (cons n ns) r
  unfolding append_nodes
  or_try-Correct n ns nothing r e x h a l = try_if-Correct n ns r e h a l
  or_try-Correct n ns (found_if b i bb c w t f) r e x h a l =
      subst (Correct (cons n ns)) (of_some e) (record {
        whole = ap (cons n) x.whole;
        branch = x.branch;
        address = x.address;
        last = x.last ∙ l;
        rest = x.rest;
      })

  find_if-Correct : (ns : Nodes) (r : Found) → find_if mp ns ≡ some r → AllLeave ns → Correct ns r
  unfolding find_if AllLeave last_id
  find_if-Correct nil r e h = subst (Correct nil) (of_some e) tt
  find_if-Correct (cons n nil) r e h = subst (Correct (cons n nil)) (of_some e) tt
  find_if-Correct (cons n (cons k ns)) r e h =
      let (x, e1, k1) = >>=-eq-some (find_if mp (cons k ns)) _ e in
      or_try-Correct n (cons k ns) x r k1 (find_if-Correct (cons k ns) x e1 h.2) h.1.1 h.2 refl

  elsewhere-found :
      (all before : Nodes) (n : Node) (following : Nodes) (j : ℕ)
      → ThensElsewhere all (append_nodes before (cons n following))
      → then_id n ≡ some j
      → is_child j all ≡ false
  unfolding ThensElsewhere append_nodes
  elsewhere-found all nil n following j h e = h.0 j e
  elsewhere-found all (cons b before) n following j h e =
      elsewhere-found all before n following j h.1 e

  swap-Same :
      (fresh : ℕ) (ns : Nodes) (x : Found) (l : ℕ) (u : ScopeType)
      → Correct ns x
      → last_id ns ≡ some l
      → at mp l ≡ some u
      → falls_through u ≡ false
      → DistinctChildren ns
      → ThensElsewhere ns ns
      → SameNodes m fuel (swap fresh ns x).0 ns
  unfolding swap then_id node_id
  swap-Same fresh ns nothing l u h e a f d o = SameNodes-refl ns
  swap-Same fresh ns (found_if before i bb c w t following) l u h e a f d o =
      let old = if_node i bb c w t null in
      let (p, q) = Apart-distinct before old following (subst DistinctChildren (sym h.whole) d) in
      let away : is_child (node_id t) ns ≡ false =
        elsewhere-found ns before old following (node_id t)
          (subst (ThensElsewhere ns) (sym h.whole) o) h.address in
      let split =
        sym (is_child-append (node_id t) before (cons old following))
        ∙ ap (is_child (node_id t)) h.whole
        ∙ away in
      let t_apart = child-tail (node_id t) before old following split in
      let list =
        removed before following (if_node i bb c w null (sequence fresh following)) t p
          (Apart-one _ following q) (Apart-one t following t_apart) in
      subst
        (λ v.
          SameNodes m fuel
            (remove_all following (
              append_nodes before (
                cons (if_node i bb c w null (sequence fresh following))
                  (append_nodes following (cons t nil)))))
            v)
        h.whole
        (subst (λ v. SameNodes m fuel v (append_nodes before (cons old following))) (sym list)
          (exchanged-Same m fuel before following i fresh bb c w t
            (λ s. Leaving-Stops (exec m fuel t s) (h.branch s))
            (last-Stops following l u (h.last ∙ e) a f h.rest)))

  when_call-Same :
      (fresh : ℕ) (ns : Nodes) (r : Nodes × ℕ) (l : ℕ) (u : ScopeType) (v : Bool)
      → when_call mp fresh ns v ≡ some r
      → is_call_no_return u ≡ v
      → last_id ns ≡ some l
      → at mp l ≡ some u
      → AllLeave ns
      → DistinctChildren ns
      → ThensElsewhere ns ns
      → SameNodes m fuel r.0 ns
  when_call-Same fresh ns r l u false e c p a h d o =
      subst (λ (x : Nodes × ℕ). SameNodes m fuel x.0 ns) (of_some e) (SameNodes-refl ns)
  when_call-Same fresh ns r l u true e c p a h d o =
      let (x, e1, k1) = >>=-eq-some (find_if mp ns) _ e in
      subst (λ (x : Nodes × ℕ). SameNodes m fuel x.0 ns) (of_some k1)
        (swap-Same fresh ns x l u (find_if-Correct ns x e1 h) p a (call-leaves u c) d o)

  pub promote_tail-Same :
      (fresh : ℕ) (ns : Nodes) (r : Nodes × ℕ)
      → promote_tail mp fresh ns ≡ some r
      → AllLeave ns
      → DistinctChildren ns
      → ThensElsewhere ns ns
      → SameNodes m fuel r.0 ns
  unfolding promote_tail
  promote_tail-Same fresh nil r e h d o =
      subst (λ (x : Nodes × ℕ). SameNodes m fuel x.0 nil) (of_some e) (SameNodes-refl nil)
  promote_tail-Same fresh (cons n nil) r e h d o =
      subst (λ (x : Nodes × ℕ). SameNodes m fuel x.0 (cons n nil)) (of_some e) (SameNodes-refl _)
  promote_tail-Same fresh (cons n (cons k ns)) r e h d o =
      let (l, e1, k1) = >>=-eq-some (last_id (cons n (cons k ns))) _ e in
      let (u, e2, k2) = >>=-eq-some (at mp l) _ k1 in
      when_call-Same fresh (cons n (cons k ns)) r l u (is_call_no_return u) k2 refl e1 e2 h d o
