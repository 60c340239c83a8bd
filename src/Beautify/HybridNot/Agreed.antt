-- ===== src/Beautify/HybridNot/Agreed.antt =====
-- `simplifyHybridNot` (SimplifyHybridNot.cpp): the consensus, and all flips of it in a row.
use revng_c.Prelude.{
  ℕ, Bool, true, false, ◌||◌, Option, some, none, List, [], ◌∷◌, ◌==◌, ==_iff, >>=-eq-some, ◌≡◌,
  refl, sym, ap, ◌∙◌, subst, of_some, Bool-cases, inl, inr,
}
use revng_c.Semantics.{is_in}
use revng_c.Beautify.HybridNot.{
  Condition, comparison, Ir, Occurrences, NotKind, Consensus, insert_block, blocks_of, direct_size,
  negated_size, by_predicate, consent, add_consent, compute_consensus, flip_at, flip_ir_not,
  flip_all, agrees,
}
use revng_c.Beautify.HybridNot.Branches.{
  Reading, truth_at, NoSharing, Plain, flipped, flip_at-Flips, Kept, flip_at-Kept, Kept-NoSharing,
  Kept-Plain,
}

abbrev AllPlain : Ir → Consensus → Type 0
AllPlain ir [] = Unit
AllPlain ir ((b, k) ∷ ks) = Plain ir b × AllPlain ir ks

abbrev DistinctKeys : Consensus → Type 0
DistinctKeys [] = Unit
DistinctKeys ((b, k) ∷ ks) = (agrees ks b ≡ false) × DistinctKeys ks

Kept-AllPlain : {ir ir' : Ir} → Kept ir ir' → (ks : Consensus) → AllPlain ir ks → AllPlain ir' ks
Kept-AllPlain k [] h = tt
Kept-AllPlain k ((b, _) ∷ ks) (h, h') = (Kept-Plain k b h, Kept-AllPlain k ks h')

flipped-agrees :
    (ks : Consensus) (b c : ℕ) (x : Bool)
    → agrees ks b ≡ false
    → flipped (agrees ks c) (flipped (c == b) x) ≡ flipped (c == b || agrees ks c) x
flipped-agrees ks b c x h = elim (Bool-cases (c == b)) [
  | inl t ↦
      let same : c ≡ b = (==_iff c b).0 t in
      let none_left : agrees ks c ≡ false = ap (agrees ks) same ∙ h in rw (t, none_left)
  | inr f ↦ rw f
]

module _ {S : Type 0} (r : Reading S) where
  -- After all flips a block's condition is the opposite if the block is in the consensus.
  flip_all-truth :
      (ks : Consensus) (ir ir' : Ir)
      → NoSharing ir
      → AllPlain ir ks
      → DistinctKeys ks
      → flip_all ks ir ≡ some ir'
      → (c : ℕ) (s : S) → truth_at r ir' c s ≡ flipped (agrees ks c) (truth_at r ir c s)
  unfolding flip_all flip_ir_not agrees
  flip_all-truth [] ir ir' alone p d h c s = ap (λ z. truth_at r z c s) (sym (of_some h))
  flip_all-truth ((b, k) ∷ ks) ir ir' alone (p, ps) (d, ds) h c s =
      let (one, e, h') = >>=-eq-some (flip_ir_not k b ir) (flip_all ks) h in
      let (x, e', f) = >>=-eq-some (ir.condition b) (λ x. flip_at k b x ir) e in
      let kept = flip_at-Kept k b x ir one f in
      flip_all-truth ks one ir' (Kept-NoSharing kept alone) (Kept-AllPlain kept ks ps) ds h' c s
      ∙ ap (flipped (agrees ks c)) (flip_at-Flips r k b x ir one alone p e' f c s)
      ∙ flipped-agrees ks b c (truth_at r ir c s) d

-- no number is twice in a list
abbrev Distinct : List ℕ → Type 0
Distinct [] = Unit
Distinct (b ∷ bs) = (is_in b bs ≡ false) × Distinct bs

insert_block-Distinct : (b : ℕ) (bs : List ℕ) → Distinct bs → Distinct (insert_block b bs)
unfolding insert_block
insert_block-Distinct b bs d = elim (Bool-cases (is_in b bs)) [
  | inl e ↦ rw e d
  | inr e ↦ rw e (e, d)
]

blocks_of-Distinct : (os : Occurrences) → Distinct (blocks_of os)
unfolding blocks_of
blocks_of-Distinct [] = tt
blocks_of-Distinct ((b, d) ∷ os) = insert_block-Distinct b (blocks_of os) (blocks_of-Distinct os)

comparison_of : Condition → ℕ → ℕ
comparison_of (comparison i) d = i
comparison_of _ d = d

consent-Plain :
    (ir : Ir) (b d n : ℕ) (x : Condition) (k : NotKind)
    → ir.condition b ≡ some x
    → consent ir.predicate x d n ≡ some k
    → Plain ir b
unfolding consent by_predicate
consent-Plain ir b d n x k e h i e' q =
    let same : x ≡ comparison i = of_some (sym e ∙ e') in
    let h' : by_predicate (ir.predicate i) d n ≡ some k =
      ap (λ y. consent ir.predicate y d n) (sym same) ∙ h in
    impossible (ap (λ p. by_predicate p d n) (sym q) ∙ h')
  where
    impossible : none ≡ some k → ⊥
    impossible e = cc

-- what is known of the consensus over the blocks `bs`
abbrev Agreed : Ir → List ℕ → Consensus → Type 0
Agreed ir bs ks =
    DistinctKeys ks × AllPlain ir ks × ((c : ℕ) → is_in c bs ≡ false → agrees ks c ≡ false)

neither : (x y : Bool) → x || y ≡ false → (x ≡ false) × (y ≡ false)
neither true y h = cc
neither false y h = (refl, h)

add_consent-Agreed :
    (ir : Ir) (b : ℕ) (bs : List ℕ) (o : Option NotKind) (ks : Consensus)
    → is_in b bs ≡ false
    → ((k : NotKind) → o ≡ some k → Plain ir b)
    → Agreed ir bs ks
    → Agreed ir (b ∷ bs) (add_consent b o ks)
unfolding add_consent agrees
add_consent-Agreed ir b bs none ks d p (k1, k2, k3) =
    (k1, k2, λ c h. k3 c (neither (c == b) (is_in c bs) h).1)
add_consent-Agreed ir b bs (some k) ks d p (k1, k2, k3) = (
  (k3 b d, k1),
  (p k refl, k2),
  λ c h. let (f, g) = neither (c == b) (is_in c bs) h in rw (f, k3 c g),
)

-- The consensus has each block at most once, only blocks that were met, and no comparison that has no
-- inverse here.
compute_consensus-Agreed :
    (ir : Ir) (os : Occurrences) (bs : List ℕ) (ks : Consensus)
    → Distinct bs
    → compute_consensus ir os bs ≡ some ks
    → Agreed ir bs ks
unfolding compute_consensus
compute_consensus-Agreed ir os [] ks d h =
    subst (Agreed ir []) (of_some h) (tt, tt, unfold agrees in λ c e. e)
compute_consensus-Agreed ir os (b ∷ bs) ks (d, ds) h =
    let (x, e, h') = >>=-eq-some (ir.condition b) _ h in
    let (ls, f, h'') = >>=-eq-some (compute_consensus ir os bs) _ h' in
    subst (Agreed ir (b ∷ bs)) (of_some h'') (
      add_consent-Agreed ir b bs _ ls d
        (λ k. consent-Plain ir b (direct_size b os) (negated_size b os) x k e)
        (compute_consensus-Agreed ir os bs ls ds f))

-- After the flips of the consensus a block's condition is the opposite if the block is in it.
pub flip_all-blocks_of :
    {S : Type 0} (r : Reading S) (ir ir' : Ir) (os : Occurrences) (ks : Consensus)
    → NoSharing ir
    → compute_consensus ir os (blocks_of os) ≡ some ks
    → flip_all ks ir ≡ some ir'
    → (c : ℕ) (s : S) → truth_at r ir' c s ≡ flipped (agrees ks c) (truth_at r ir c s)
flip_all-blocks_of r ir ir' os ks alone e h c s =
    let (k1, k2, k3) = compute_consensus-Agreed ir os (blocks_of os) ks (blocks_of-Distinct os) e in
    flip_all-truth r ks ir ir' alone k2 k1 h c s
