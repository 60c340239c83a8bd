-- ===== src/Beautify/DualSwitch/Switches.antt =====
-- `simplifyDualSwitch` (SimplifyDualSwitch.cpp): a switch of one or two cases, before and after.
use revng_c.Prelude.{
  ℕ, Bool, true, false, ◌≡◌, refl, ap, sym, ◌∙◌, subst, fun_ext, ◌&&◌, ltb, Option, none, some,
  List, [], ◌∷◌, of_some, arith,
}
use revng_c.Ghast.Node.{
  SwitchFields, Node, null, switch, Cases, no_case, case, is_null, get_default,
}
use revng_c.Semantics.{Machine, after_switch, finish, is_in, switch_value, exec, exec_cases}
use revng_c.Semantics.Congruence.{Same, Same-refl}
use revng_c.Beautify.DualSwitch.{
  IfFields, fields, is_present, lower, elect, elect_one, unless, compute_switch_to_if_promotion,
  or_switch, switch_to_if,
}
use revng_c.Beautify.DualSwitch.Promoted.{
  is_switch_break, decides, CaseOk, Fits, pick, one-run, elect-run, if_of_switch-run, unless-some,
  default-decides,
}

-- two labelled cases, or one and a default
pub record IsDecided {S : Type 0} (m : Machine S) (f : SwitchFields) (l p : List ℕ) (n k : Node)
    : Type 0 where
  pub disjoint : (v : ℕ) → is_in v l ≡ true → is_in v p ≡ false
  -- a dispatcher has a case for its value
  pub covered : is_present f.condition ≡ false → (s : S) → decides l p (switch_value m f s).0 ≡ true
  -- a standard switch has something in its cases
  pub something : (is_present f.condition && (is_switch_break n && is_switch_break k)) ≡ false

-- The switches that the pass is right about.
abbrev pub IsDual : {S : Type 0} → Machine S → Node → Type 0
IsDual m (switch i f (case [] n no_case)) = ⊥
IsDual m (switch i f (case l n no_case)) = (is_present f.condition && is_switch_break n) ≡ false
IsDual m (switch i f (case l n (case p k no_case))) = IsDecided m f l p n k
IsDual m _ = Unit

module _ {S : Type 0} (m : Machine S) (fuel : ℕ) where
  fields-Fits :
      (standard : Bool) (t e : Node) (v : ℕ)
      → CaseOk m fuel t
      → CaseOk m fuel e
      → (standard && is_null e) ≡ false
      → (standard && (is_switch_break t && is_switch_break e)) ≡ false
      → Fits m fuel standard (fields t e v)
  fields-Fits standard t e v ht he a b = record {
    then_ok = ht;
    else_ok = he;
    something = grind (arith, a, b);
  }

  -- a dispatcher has nothing to check
  dispatcher-Fits :
      (standard : Bool) (x : IfFields)
      → (standard && true) ≡ false
      → CaseOk m fuel x.then_node
      → CaseOk m fuel x.else_node
      → Fits m fuel standard x
  dispatcher-Fits false x a ht he = record { then_ok = ht; else_ok = he; something = refl }
  dispatcher-Fits true x a ht he = absurd (cc a)

  lower-Fits :
      (z : Bool) (a b : ℕ) (n k : Node)
      → CaseOk m fuel n
      → CaseOk m fuel k
      → (standard : Bool) → (standard && true) ≡ false
      → Fits m fuel standard (lower z (fields n k a) (fields k n b))
  lower-Fits true a b n k hn hk standard e = dispatcher-Fits standard (fields n k a) e hn hk
  lower-Fits false a b n k hn hk standard e = dispatcher-Fits standard (fields k n b) e hk hn

  elect-Fits :
      (l p : List ℕ) (n k : Node) (standard : Bool) (x : IfFields)
      → elect l n p k ≡ some x
      → (standard && is_null (get_default (case l n (case p k no_case)))) ≡ false
      → (standard && (is_switch_break n && is_switch_break k)) ≡ false
      → CaseOk m fuel n
      → CaseOk m fuel k
      → Fits m fuel standard x
  unfolding get_default is_null
  elect-Fits (a ∷ []) (b ∷ []) n k standard x e d o hn hk =
      subst (Fits m fuel standard) (of_some e) (lower-Fits (ltb a b) a b n k hn hk standard d)
  elect-Fits (a ∷ []) [] n k standard x e d o hn hk =
      subst (Fits m fuel standard) (of_some e) (fields-Fits standard n k a hn hk d o)
  elect-Fits (a ∷ []) (b ∷ (b' ∷ p)) n k standard x e d o hn hk =
      subst (Fits m fuel standard) (of_some e) (dispatcher-Fits standard (fields n k a) d hn hk)
  elect-Fits [] (b ∷ []) n k standard x e d o hn hk =
      subst (Fits m fuel standard) (of_some e)
        (fields-Fits standard k n b hk hn d (grind (arith, o)))
  elect-Fits (a ∷ (a' ∷ l)) (b ∷ []) n k standard x e d o hn hk =
      subst (Fits m fuel standard) (of_some e) (dispatcher-Fits standard (fields k n b) d hk hn)
  elect-Fits _ _ n k standard x e d o hn hk = absurd (cc e)

  or_switch-Same :
      (i fresh : ℕ) (f : SwitchFields) (cs : Cases) (o : Option IfFields) (r : Node × ℕ)
      → or_switch i fresh f cs o ≡ some r
      → ((x : IfFields)
          → o ≡ some x
          → Fits m fuel (is_present f.condition) x
            × ((s : S)
                → exec_cases m fuel cs finish (switch_value m f s).0 (switch_value m f s).1
                  ≡ pick m fuel x (switch_value m f s)))
      → Same m fuel r.0 (switch i f cs)
  unfolding exec
  or_switch-Same i fresh f cs none r e h =
      subst (λ (y : Node × ℕ). Same m fuel y.0 (switch i f cs)) (of_some e) (Same-refl _)
  or_switch-Same i fresh f cs (some x) r e h =
      let (ok, run) = h x refl in
      record {
        at = fun_ext λ s.
            if_of_switch-run m fuel i fresh (is_null (get_default cs)) f.is_weaved f.condition f.bb
              x r e ok s
            ∙ ap after_switch (sym (run s));
      }

  elect_one-fields :
      (a : ℕ) (l : List ℕ) (n : Node) (x : IfFields)
      → elect_one (a ∷ l) n ≡ some x
      → (l ≡ []) × (fields n null a ≡ x)
  elect_one-fields a [] n x e = (refl, of_some e)
  elect_one-fields a (b ∷ l) n x e = absurd (cc e)

  pub one-Same :
      (i fresh a : ℕ) (l : List ℕ) (f : SwitchFields) (n : Node) (r : Node × ℕ)
      → switch_to_if i fresh f (case (a ∷ l) n no_case) ≡ some r
      → (is_present f.condition && is_switch_break n) ≡ false
      → CaseOk m fuel n
      → Same m fuel r.0 (switch i f (case (a ∷ l) n no_case))
  unfolding switch_to_if compute_switch_to_if_promotion exec is_null
  one-Same i fresh a l f n r e o h =
      or_switch-Same i fresh f (case (a ∷ l) n no_case) (elect_one (a ∷ l) n) r e (λ x p.
        let (single, is) = elect_one-fields a l n x p in
        (
          subst (Fits m fuel (is_present f.condition)) is
              (record { then_ok = h; else_ok = λ s. tt; something = grind (arith, o) }),
          λ s.
              subst
                (λ q.
                  exec_cases m fuel (case (a ∷ q) n no_case) finish (switch_value m f s).0
                    (switch_value m f s).1
                  ≡ pick m fuel x (switch_value m f s))
                (sym single)
                (one-run m fuel a n (switch_value m f s).0 (switch_value m f s).1
                  ∙ ap (λ y. pick m fuel y (switch_value m f s)) is),
        ))

  pair-decides :
      (l p : List ℕ) (n k : Node) (standard : Bool) (v : ℕ)
      → (standard && is_null (get_default (case l n (case p k no_case)))) ≡ false
      → (standard ≡ false → decides l p v ≡ true)
      → decides l p v ≡ true
  pair-decides l p n k false v d h = h refl
  pair-decides l p n k true v d h = default-decides l p n k v d

  pair-Same :
      (i fresh : ℕ) (l p : List ℕ) (f : SwitchFields) (n k : Node) (r : Node × ℕ)
      → or_switch i fresh f (case l n (case p k no_case)) (
          unless
            (is_present f.condition && is_null (get_default (case l n (case p k no_case))))
            (elect l n p k))
        ≡ some r
      → IsDecided m f l p n k
      → CaseOk m fuel n
      → CaseOk m fuel k
      → Same m fuel r.0 (switch i f (case l n (case p k no_case)))
  pair-Same i fresh l p f n k r e h hn hk =
      or_switch-Same i fresh f (case l n (case p k no_case)) _ r e (λ x q.
        let (open_, chosen) = unless-some _ (elect l n p k) x q in
        (
          elect-Fits l p n k (is_present f.condition) x chosen open_ h.something hn hk,
          λ s.
              let u = switch_value m f s in
              elect-run m fuel l p n k x u.0 u.1 chosen (h.disjoint u.0)
                (pair-decides l p n k (is_present f.condition) u.0 open_ (λ d. h.covered d s)),
        ))

  pub two-Same :
      (i fresh : ℕ) (l p : List ℕ) (f : SwitchFields) (n k : Node) (r : Node × ℕ)
      → switch_to_if i fresh f (case l n (case p k no_case)) ≡ some r
      → IsDecided m f l p n k
      → CaseOk m fuel n
      → CaseOk m fuel k
      → Same m fuel r.0 (switch i f (case l n (case p k no_case)))
  unfolding switch_to_if compute_switch_to_if_promotion
  two-Same i fresh [] p f n k r e h hn hk = pair-Same i fresh [] p f n k r e h hn hk
  two-Same i fresh (a ∷ l) p f n k r e h hn hk = pair-Same i fresh (a ∷ l) p f n k r e h hn hk

  -- three cases or more stay
  pub more-Same :
      (i fresh : ℕ) (l p q : List ℕ) (f : SwitchFields) (n k j : Node) (cs : Cases) (r : Node × ℕ)
      → switch_to_if i fresh f (case l n (case p k (case q j cs))) ≡ some r
      → Same m fuel r.0 (switch i f (case l n (case p k (case q j cs))))
  unfolding switch_to_if compute_switch_to_if_promotion
  more-Same i fresh [] p q f n k j cs r e =
      subst (λ (y : Node × ℕ). Same m fuel y.0 (switch i f (case [] n (case p k (case q j cs)))))
        (of_some e) (Same-refl _)
  more-Same i fresh (a ∷ l) p q f n k j cs r e =
      subst
        (λ (y : Node × ℕ). Same m fuel y.0 (switch i f (case (a ∷ l) n (case p k (case q j cs)))))
        (of_some e) (Same-refl _)
