-- ===== src/Spool/Invariant.antt =====
-- The spool's well-formedness: the byte count is exact, and both ceilings hold.
use mikrotik_quality_agent.Base.{
  ℕ, zero, suc, ◌+◌, ◌≤◌, ◌<◌, false, Option, none, some, List, [], ◌∷◌, ◌++◌, ◌≡◌, refl, ap, arith,
  length, take, drop, length-append,
}
use mikrotik_quality_agent.Spool.{
  Spool, Entry, remove_at, pop_back, new, would_exceed, discard, push_back, push_front, new_config,
}

unfoldable pub total_bytes : {A : Type 0} → List (Entry A) → ℕ
total_bytes [] = 0
total_bytes (e ∷ es) = e.bytes + total_bytes es

pub record IsValid {A : Type 0} (s : Spool A) : Type 0 where
  pub exact : s.bytes ≡ total_bytes s.entries
  pub few : length s.entries ≤ s.cfg.max_entries
  pub small : s.bytes ≤ s.cfg.max_bytes

-- What `pop_back` does, by the value that it returns.
abbrev pub Popped {ℓ} : {A : Type ℓ} → List A → Option (A × List A) → Type ℓ
Popped es none = es ≡ []
Popped es (some (e, rest)) = es ≡ rest ++ e ∷ []

module _ {ℓ} {A : Type ℓ} where
  pub remove_at_within :
      (es : List A) (i : ℕ)
      → i < length es
      → (e : A) × (remove_at es i ≡ some (e, take i es ++ drop (suc i) es))
        × (es ≡ take i es ++ (e ∷ drop (suc i) es))
  remove_at_within [] i h = absurd (omega arith)
  remove_at_within (e ∷ es) zero h = (e, refl, refl)
  remove_at_within (x ∷ es) (suc i) h =
      let (e, gone, split) = remove_at_within es i (omega arith) in (e, rw gone, ap (◌∷◌ x) split)

  Popped-cons :
      (x : A) (es : List A) (r : Option (A × List A))
      → Popped es r
      → Popped (x ∷ es) (elim r [ none ↦ some (x, []) | some (y, ys) ↦ some (y, x ∷ ys) ])
  Popped-cons x es none h = ap (◌∷◌ x) h
  Popped-cons x es (some (y, ys)) h = ap (◌∷◌ x) h

  pub pop_back-Popped : (es : List A) → Popped es (pop_back es)
  pop_back-Popped [] = refl
  pop_back-Popped (e ∷ es) = Popped-cons e es _ (pop_back-Popped es)

module _ {A : Type 0} where
  pub total_bytes-append :
      (xs ys : List (Entry A)) → total_bytes (xs ++ ys) ≡ total_bytes xs + total_bytes ys
  unfolding total_bytes
  total_bytes-append [] ys = omega arith
  total_bytes-append (x ∷ xs) ys = omega (arith, total_bytes-append xs ys)

  -- Forgetting an entry that the list holds keeps the spool well formed.
  pub discard-IsValid :
      (s : Spool A) (e : Entry A) (xs ys : List (Entry A))
      → IsValid s
      → s.entries ≡ xs ++ (e ∷ ys)
      → IsValid (discard s e (xs ++ ys))
  unfolding total_bytes
  discard-IsValid s e xs ys v h =
      let len = ap length h in
      let bytes = ap total_bytes h in
      omega (
        arith,
        v.exact,
        v.few,
        v.small,
        len,
        bytes,
        total_bytes-append xs (e ∷ ys),
        total_bytes-append xs ys,
        length-append xs (e ∷ ys),
        length-append xs ys,
      )

  pub push_back-IsValid :
      (s : Spool A) (item : A) (bytes : ℕ)
      → IsValid s
      → would_exceed s bytes ≡ false
      → IsValid (push_back s item bytes)
  unfolding would_exceed total_bytes
  push_back-IsValid s item bytes v h =
      let e : Entry A = record { item = item; bytes = bytes } in
      ground (
        arith,
        v.exact,
        v.few,
        v.small,
        total_bytes-append s.entries (e ∷ []),
        length-append s.entries (e ∷ []),
      )

  pub push_front-IsValid :
      (s : Spool A) (item : A) (bytes : ℕ)
      → IsValid s
      → would_exceed s bytes ≡ false
      → IsValid (push_front s item bytes)
  unfolding would_exceed total_bytes
  push_front-IsValid s item bytes v h = ground (arith, v.exact, v.few, v.small)

  pub new-IsValid :
      (max_entries max_bytes reserve : ℕ)
      → IsValid (new {A = A} (new_config max_entries max_bytes reserve))
  unfolding new new_config total_bytes
  new-IsValid max_entries max_bytes reserve = omega arith
