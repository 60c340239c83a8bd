-- ===== src/Beautify/Weight/Exact.antt =====
-- `computeCumulativeNodeWeight` (BeautifyGHAST.cpp): the recursion on numbers that do not wrap.
-- The address of a node determines the node: `who` gives the node of an identity.
use revng_c.Prelude.{
  ℕ, ◌+◌, ◌%◌, ◌^◌, ◌<◌, ◌≡◌, refl, sym, ap, ◌∙◌, subst, Option, none, some, [], ◌==◌, ==_iff,
  Bool-cases, inl, inr, if◌then◌else◌, >>=-eq-some, of_some, arith,
}
use revng_c.Ghast.Node.{
  Node, null, code, break, continue, if_node, scs, sequence, switch, switch_break, set, Nodes, nil,
  cons, Cases, no_case, case,
}
use revng_c.Ghast.Identity.{node_id}
use revng_c.Ghast.Everywhere.{Everywhere, EverywhereNodes, EverywhereCases}
use revng_c.Beautify.FallThrough.Map.{IsFiled, here}
use revng_c.Beautify.Weight.{
  Blocks, WeightMap, weight_at, word, note_weight, child_weight, cumulative_weight, nodes_weight,
  cases_weight,
}

abbrev pub block_size : Blocks → Option ℕ → ℕ
block_size b none = 0
block_size b (some bb) = b.size bb

abbrev computation_size : Blocks → Option ℕ → ℕ
computation_size b none = 0
computation_size b (some k) = block_size b (b.original_bb k) + 1

unfoldable mutual
  -- the weight of a node, as a number without a bound
  pub weight : Blocks → Node → ℕ
  weight b null = 0
  weight b (code i bb implicit) = block_size b bb
  weight b (continue i c implicit) = computation_size b c
  weight b (if_node i bb c w t e) = weight b t + weight b e + 1
  weight b (scs i t body) = weight b body + 1
  weight b (sequence i ns) = nodes_sum b ns
  weight b (switch i f cs) = cases_sum b cs + 1
  weight b _ = 1

  pub nodes_sum : Blocks → Nodes → ℕ
  nodes_sum b nil = 0
  nodes_sum b (cons n ns) = weight b n + nodes_sum b ns

  pub cases_sum : Blocks → Cases → ℕ
  cases_sum b no_case = 0
  cases_sum b (case l n cs) = weight b n + cases_sum b cs

-- Every entry is the weight of its node, up to a multiple of 2 ^ 32.
pub record IsWeighed (b : Blocks) (who : ℕ → Node) (mp : WeightMap) : Type 0 where
  pub entry : (j w : ℕ) → weight_at mp j ≡ some w → w ≡ weight b (who j) % 2 ^ 32

module _ (b : Blocks) (who : ℕ → Node) where
  -- a weight as a 32-bit number, and a map that is right
  abbrev Right : ℕ → ℕ × WeightMap → Type 0
  Right x r = (r.0 ≡ x % 2 ^ 32) × IsWeighed b who r.1

  IsWeighed-note :
      (n : Node) (r : ℕ × WeightMap)
      → who (node_id n) ≡ n
      → Right (weight b n) r
      → IsWeighed b who (note_weight (node_id n) r).1
  unfolding weight_at
  IsWeighed-note n (w, mp) f h = record {
    entry = λ j v e. elim (Bool-cases (j == node_id n)) [
      | inl y ↦
          sym (of_some (sym (ap (λ x. if x then some w else weight_at mp j) y) ∙ e))
          ∙ h.0
          ∙ ap (λ x. weight b x % 2 ^ 32) (sym f ∙ ap who (sym ((==_iff j (node_id n)).0 y)))
      | inr y ↦ h.1.entry j v (sym (ap (λ x. if x then some w else weight_at mp j) y) ∙ e)
    ];
  }

  filed :
      (n : Node) (mp : WeightMap) (r : ℕ × WeightMap)
      → cumulative_weight b n mp ≡ some r
      → Everywhere (IsFiled who) n
      → who (node_id n) ≡ n
  unfolding cumulative_weight
  filed null mp r e w = absurd (cc e)
  filed n mp r e w = here (IsFiled who) n w

  Right-child :
      (n : Node) (mp : WeightMap) (r : ℕ × WeightMap)
      → child_weight n mp (cumulative_weight b n mp) ≡ some r
      → Everywhere (IsFiled who) n
      → IsWeighed b who mp
      → ((x : ℕ × WeightMap) → cumulative_weight b n mp ≡ some x → Right (weight b n) x)
      → Right (weight b n) r
  unfolding weight
  Right-child null mp r e f h k = subst (Right 0) (of_some e) (refl, h)
  Right-child n mp r e f h k =
      let (x, e1, k1) = >>=-eq-some (cumulative_weight b n mp) _ e in
      subst (Right (weight b n)) (of_some k1)
        ((k x e1).0, IsWeighed-note n x (filed n mp x e1 f) (k x e1))

  add_word : (a x r : ℕ) → r ≡ x % 2 ^ 32 → word (word a + r) ≡ (a + x) % 2 ^ 32
  add_word a x r h = omega arith

  add_one : (x r : ℕ) → r ≡ x % 2 ^ 32 → word (r + 1) ≡ (x + 1) % 2 ^ 32
  add_one x r h = omega arith

  add_both :
      (x y r s : ℕ)
      → r ≡ x % 2 ^ 32
      → s ≡ y % 2 ^ 32
      → word (word (r + s) + 1) ≡ (x + y + 1) % 2 ^ 32
  add_both x y r s h k = omega arith

  mutual
    unfolding cumulative_weight weight Everywhere

    right :
        (n : Node) (mp : WeightMap) (r : ℕ × WeightMap)
        → cumulative_weight b n mp ≡ some r
        → Everywhere (IsFiled who) n
        → IsWeighed b who mp
        → Right (weight b n) r
    right (sequence i ns) mp r e f h =
        subst (λ z. Right z r) (omega arith) (Right-nodes ns 0 mp r e f.1 h)
    right (if_node i bb c w t el) mp r e f h =
        let (rt, e1, k1) = >>=-eq-some (child_weight t mp (cumulative_weight b t mp)) _ e in
        let (re, e2, k2) = >>=-eq-some (child_weight el rt.1 (cumulative_weight b el rt.1)) _ k1 in
        let ht = Right-child t mp rt e1 f.1 h (λ x y. right t mp x y f.1 h) in
        let he = Right-child el rt.1 re e2 f.2 ht.1 (λ x y. right el rt.1 x y f.2 ht.1) in
        subst (Right (weight b t + weight b el + 1)) (of_some k2)
          (add_both (weight b t) (weight b el) rt.0 re.0 ht.0 he.0, he.1)
    right (switch i g cs) mp r e f h =
        let (r', e1, k1) = >>=-eq-some (cases_weight b cs 0 mp) _ e in
        let hc : Right (cases_sum b cs) r' =
          subst (λ z. Right z r') (omega arith) (Right-cases cs 0 mp r' e1 f.1 h) in
        subst (Right (cases_sum b cs + 1)) (of_some k1) (add_one (cases_sum b cs) r'.0 hc.0, hc.1)
    right (scs i t body) mp r e f h =
        let (r', e1, k1) = >>=-eq-some (child_weight body mp (cumulative_weight b body mp)) _ e in
        let hb = Right-child body mp r' e1 f.1 h (λ x y. right body mp x y f.1 h) in
        subst (Right (weight b body + 1)) (of_some k1) (add_one (weight b body) r'.0 hb.0, hb.1)
    right (code i none x) mp r e f h = absurd (cc e)
    right (code i (some bb) x) mp r e f h = subst (Right (b.size bb)) (of_some e) (refl, h)
    right (continue i none x) mp r e f h = subst (Right 0) (of_some e) (refl, h)
    right (continue i (some k) x) mp r e f h =
        let (bb, e1, k1) = >>=-eq-some (b.original_bb k) _ e in
        subst (Right (block_size b (b.original_bb k) + 1)) (of_some k1)
          (ap (λ o. (block_size b o + 1) % 2 ^ 32) (sym e1), h)
    right null mp r e f h = absurd (cc e)
    right (break i x) mp r e f h = subst (Right 1) (of_some e) (refl, h)
    right (switch_break i x) mp r e f h = subst (Right 1) (of_some e) (refl, h)
    right (set i v x) mp r e f h = subst (Right 1) (of_some e) (refl, h)

    Right-nodes :
        (ns : Nodes) (a : ℕ) (mp : WeightMap) (r : ℕ × WeightMap)
        → nodes_weight b ns (word a) mp ≡ some r
        → EverywhereNodes (IsFiled who) ns
        → IsWeighed b who mp
        → Right (a + nodes_sum b ns) r
    Right-nodes nil a mp r e f h = subst (Right (a + 0)) (of_some e) (omega arith, h)
    Right-nodes (cons n ns) a mp r e f h =
        let (x, e1, k1) = >>=-eq-some (cumulative_weight b n mp) _ e in
        let hx = right n mp x e1 f.0 h in
        subst (λ z. Right z r) (omega arith)
          (Right-nodes ns (a + weight b n) _ r
            (ap (λ z. nodes_weight b ns z (note_weight (node_id n) x).1)
                (sym (add_word a (weight b n) x.0 hx.0))
              ∙ k1)
            f.1 (IsWeighed-note n x (filed n mp x e1 f.0) hx))

    Right-cases :
        (cs : Cases) (a : ℕ) (mp : WeightMap) (r : ℕ × WeightMap)
        → cases_weight b cs (word a) mp ≡ some r
        → EverywhereCases (IsFiled who) cs
        → IsWeighed b who mp
        → Right (a + cases_sum b cs) r
    Right-cases no_case a mp r e f h = subst (Right (a + 0)) (of_some e) (omega arith, h)
    Right-cases (case l n cs) a mp r e f h =
        let (x, e1, k1) = >>=-eq-some (cumulative_weight b n mp) _ e in
        let hx = right n mp x e1 f.0 h in
        subst (λ z. Right z r) (omega arith)
          (Right-cases cs (a + weight b n) _ r
            (ap (λ z. cases_weight b cs z (note_weight (node_id n) x).1)
                (sym (add_word a (weight b n) x.0 hx.0))
              ∙ k1)
            f.1 (IsWeighed-note n x (filed n mp x e1 f.0) hx))

pub cumulative_weight-IsWeighed :
    (b : Blocks) (who : ℕ → Node) (n : Node) (w : ℕ) (mp : WeightMap)
    → cumulative_weight b n [] ≡ some (w, mp)
    → Everywhere (IsFiled who) n
    → (w ≡ weight b n % 2 ^ 32) × (w < 2 ^ 32) × IsWeighed b who mp
unfolding weight_at
cumulative_weight-IsWeighed b who n w mp e f =
    let (h, k) = right b who n [] (w, mp) e f (record { entry = λ j v x. cc x }) in
    (h, omega (arith, h), k)
