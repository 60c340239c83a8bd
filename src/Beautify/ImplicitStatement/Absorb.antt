-- ===== src/Beautify/ImplicitStatement/Absorb.antt =====
-- Outcomes of a marked GHAST beside those of the original: equal, or the original ends by the
-- statement that is made implicit and the marked one ends normally, in the same state.
use revng_c.Prelude.{◌≡◌, refl, ◌⊎◌, inl, inr, some}
use revng_c.Semantics.{Signal, normal, continued, returned, Outcome, and_then, resume, after_switch}
use revng_c.Beautify.ImplicitStatement.{StatementType, st_continue, st_return}

abbrev pub absorbed : StatementType → Signal
absorbed st_continue = continued
absorbed st_return = returned

module _ {S : Type 0} where
  abbrev pub Absorbs : StatementType → Outcome S → Outcome S → Type 0
  Absorbs st o' o = (o' ≡ o) ⊎ ((s : S) × (o ≡ some (absorbed st, s)) × (o' ≡ some (normal, s)))

  -- Nothing is run after `continue` or `return`, so what follows must end normally, at once.
  pub and_then-Absorbs :
      (st : StatementType) (o' o : Outcome S) (f' f : S → Outcome S)
      → Absorbs st o' o
      → ((s : S) → Absorbs st (f' s) (f s))
      → ((s : S) → f' s ≡ some (normal, s))
      → Absorbs st (and_then o' f') (and_then o f)
  and_then-Absorbs st o' (some (normal, s)) f' f (inl e) h quiet = rw e (h s)
  and_then-Absorbs st o' _ f' f (inl e) h quiet = rw e (inl refl)
  and_then-Absorbs st_continue o' o f' f (inr (s, e, e')) h quiet =
      rw (e, e') (inr (s, refl, quiet s))
  and_then-Absorbs st_return o' o f' f (inr (s, e, e')) h quiet =
      rw (e, e') (inr (s, refl, quiet s))

  -- The first part is unchanged.
  pub and_then-Absorbs_right :
      (st : StatementType) (o : Outcome S) (f' f : S → Outcome S)
      → ((s : S) → Absorbs st (f' s) (f s))
      → Absorbs st (and_then o f') (and_then o f)
  and_then-Absorbs_right st (some (normal, s)) f' f h = h s
  and_then-Absorbs_right st _ f' f h = inl refl

  pub after_switch-Absorbs :
      (st : StatementType) (o' o : Outcome S)
      → Absorbs st o' o
      → Absorbs st (after_switch o') (after_switch o)
  after_switch-Absorbs st o' o (inl e) = rw e (inl refl)
  after_switch-Absorbs st_continue o' o (inr (s, e, e')) = rw (e, e') (inr (s, refl, refl))
  after_switch-Absorbs st_return o' o (inr (s, e, e')) = rw (e, e') (inr (s, refl, refl))

  -- A loop does not tell `continue` from a normal end.
  pub resume-Absorbs :
      (o' o : Outcome S) (k : S → Outcome S) → Absorbs st_continue o' o → resume o' k ≡ resume o k
  resume-Absorbs o' o k (inl e) = rw e
  resume-Absorbs o' o k (inr (s, e, e')) = rw (e, e')
