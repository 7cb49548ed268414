-- ===== src/Spool/Onset.antt =====
-- The headline of spool.rs: a long outage keeps how it began.
use mikrotik_quality_agent.Base.{
  ℕ, ◌≤◌, List, [], ◌∷◌, ◌++◌, ◌≡◌, refl, sym, ap, ◌∙◌, inl, inr, arith, length, take, length-take,
  length-append, take_prefix, append-nil, subst,
}
use mikrotik_quality_agent.Spool.{Spool, Entry, push}
use mikrotik_quality_agent.Spool.Push.{push_lem, push_all}

module _ {A : Type 0} where
  keeps_prefix :
      (r : ℕ) (es rest ys : List (Entry A))
      → r ≤ length es
      → rest ≡ take r es ++ ys
      → (take r rest ≡ take r es) × (r ≤ length rest)
  keeps_prefix r es rest ys h e = (
    ap (take r) e ∙ take_prefix r es ys h,
    omega (arith, ap length e, length-append (take r es) ys, length-take r es),
  )

  push-onset :
      (s : Spool A) (item : A) (bytes : ℕ)
      → s.cfg.onset_reserve ≤ length s.entries
      → (take s.cfg.onset_reserve (push s item bytes).0.entries
          ≡ take s.cfg.onset_reserve s.entries)
        × (s.cfg.onset_reserve ≤ length (push s item bytes).0.entries)
  push-onset s item bytes h =
      let p = push_lem s item bytes in
      elim p.outcome [
        | inl (_, kept) ↦ keeps_prefix s.cfg.onset_reserve s.entries _ _ h kept.entries
        | inr (_, gone) ↦
            keeps_prefix s.cfg.onset_reserve s.entries _ [] h (gone.entries ∙ sym (append-nil _))
      ]

  -- Once the reserve is filled, its entries stay the first ones of the spool, in order, through any
  -- number of further pushes of any sizes.
  pub push_all-onset :
      (items : List (A × ℕ)) (s : Spool A)
      → s.cfg.onset_reserve ≤ length s.entries
      → take s.cfg.onset_reserve (push_all s items).entries ≡ take s.cfg.onset_reserve s.entries
  unfolding push_all
  push_all-onset [] s h = refl
  push_all-onset ((item, bytes) ∷ items) s h =
      let t = (push s item bytes).0 in
      let (same, enough) = push-onset s item bytes h in
      let config = (push_lem s item bytes).config in
      subst (λ c. take c.onset_reserve (push_all t items).entries ≡ take c.onset_reserve t.entries)
        config (push_all-onset items t (rw config enough))
      ∙ same
