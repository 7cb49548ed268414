-- ===== src/Agent/Enqueue.antt =====
-- What `enqueue` keeps of the spool, and what it loses.
use mikrotik_quality_agent.Base.{
  ℕ, ◌+◌, List, [], ◌∷◌, ◌++◌, take, drop, inl, inr, refl, subst, sym,
}
use mikrotik_quality_agent.Spool.{Spool, Entry}
use mikrotik_quality_agent.Spool.Invariant.{IsValid}
use mikrotik_quality_agent.Spool.Push.{push_lem, push-IsValid}
use mikrotik_quality_agent.Spool.Drain.{Sized, Sized-take}
use mikrotik_quality_agent.Agent.Drain.{Sized-drop}
use mikrotik_quality_agent.Agent.Submit.{enqueue}

module _ {J : Type 0} (size : J → ℕ) where
  Sized-append : (xs ys : List (Entry J)) → Sized size xs → Sized size ys → Sized size (xs ++ ys)
  Sized-append [] ys h g = g
  Sized-append (x ∷ xs) ys (first, h) g = (first, Sized-append xs ys h g)

  -- The spool of an agent: within its ceilings, each entry with the size of its result.
  pub record IsAgentSpool (s : Spool J) : Type 0 where
    pub valid : IsValid s
    pub sized : Sized size s.entries

  enqueue-Sized :
      (s : Spool J) (body : J) → Sized size s.entries → Sized size (enqueue size s body).entries
  enqueue-Sized s body h =
      let p = push_lem s body (size body) in
      let front = Sized-take size s.cfg.onset_reserve s.entries h in
      elim p.outcome [
        | inl (_, kept) ↦ subst (Sized size) (sym kept.entries) (
            Sized-append (take s.cfg.onset_reserve s.entries) _ front (
              Sized-append (drop (s.cfg.onset_reserve + p.k) s.entries) _
                (Sized-drop size (s.cfg.onset_reserve + p.k) s.entries h) (refl, tt)))
        | inr (_, gone) ↦ subst (Sized size) (sym gone.entries) front
      ]

  pub enqueue-IsAgentSpool :
      (s : Spool J) (body : J) → IsAgentSpool s → IsAgentSpool (enqueue size s body)
  enqueue-IsAgentSpool s body h = record {
    valid = push-IsValid s body (size body) h.valid;
    sized = enqueue-Sized s body h.sized;
  }
