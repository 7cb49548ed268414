-- ===== src/Stats/Sort.antt =====
-- Sorting by a key, as `sort_unstable_by_key`. Which of two elements of the same key comes first is
-- left open there; here the one that came first does.
use mikrotik_quality_agent.Base.{
  ℕ, zero, suc, ◌+◌, ◌≤◌, ◌<◌, Bool, true, false, List, [], ◌∷◌, leb, if◌then◌else◌, length, get_or,
  ◌≡◌, refl, arith, Bool-cases, inl, inr,
}

module _ {A : Type 0} where
  -- What holds of every element.
  abbrev pub All : (A → Type 0) → List A → Type 0
  All P [] = Unit {0}
  All P (a ∷ xs) = P a × All P xs

  pub All-map : (P Q : A → Type 0) (xs : List A) → ((a : A) → P a → Q a) → All P xs → All Q xs
  All-map P Q [] f h = tt
  All-map P Q (a ∷ xs) f (h, hs) = (f a h, All-map P Q xs f hs)

  unfoldable pub total : (A → ℕ) → List A → ℕ
  total f [] = 0
  total f (a ∷ xs) = f a + total f xs

module _ {A : Type 0} (key : A → ℕ) where
  unfoldable pub insert_sorted : A → List A → List A
  insert_sorted a [] = a ∷ []
  insert_sorted a (b ∷ xs) = if leb (key a) (key b) then a ∷ b ∷ xs else b ∷ insert_sorted a xs

  unfoldable pub sort_by_key : List A → List A
  sort_by_key [] = []
  sort_by_key (a ∷ xs) = insert_sorted a (sort_by_key xs)

  All-insert_sorted :
      (P : A → Type 0) (a : A) (xs : List A) → P a → All P xs → All P (insert_sorted a xs)
  unfolding insert_sorted
  All-insert_sorted P a [] h hs = (h, tt)
  All-insert_sorted P a (b ∷ xs) h (hb, hs) =
      elim (leb (key a) (key b))
        as (λ t. All P (if t then a ∷ b ∷ xs else b ∷ insert_sorted a xs)) [
          | true ↦ (h, (hb, hs))
          | false ↦ (hb, All-insert_sorted P a xs h hs)
        ]

  pub All-sort_by_key : (P : A → Type 0) (xs : List A) → All P xs → All P (sort_by_key xs)
  unfolding sort_by_key
  All-sort_by_key P [] h = tt
  All-sort_by_key P (a ∷ xs) (h, hs) =
      All-insert_sorted P a (sort_by_key xs) h (All-sort_by_key P xs hs)

  abbrev pub Sorted : List A → Type 0
  Sorted [] = Unit {0}
  Sorted (a ∷ xs) = All (λ b. key a ≤ key b) xs × Sorted xs

  All-insert_back :
      (P : A → Type 0) (a : A) (xs : List A) → All P (insert_sorted a xs) → P a × All P xs
  unfolding insert_sorted
  All-insert_back P a [] h = h
  All-insert_back P a (b ∷ xs) h = back (leb (key a) (key b)) (All-insert_back P a xs) h
    where
      back :
          (t : Bool)
          → (All P (insert_sorted a xs) → P a × All P xs)
          → All P (if t then a ∷ b ∷ xs else b ∷ insert_sorted a xs)
          → P a × (P b × All P xs)
      back true rest h = h
      back false rest (hb, hs) = let (ha, hx) = rest hs in (ha, (hb, hx))

  pub All-sort_back : (P : A → Type 0) (xs : List A) → All P (sort_by_key xs) → All P xs
  unfolding sort_by_key
  All-sort_back P [] h = tt
  All-sort_back P (a ∷ xs) h =
      let (ha, hs) = All-insert_back P a (sort_by_key xs) h in (ha, All-sort_back P xs hs)

  insert_sorted-Sorted : (a : A) (xs : List A) → Sorted xs → Sorted (insert_sorted a xs)
  unfolding insert_sorted
  insert_sorted-Sorted a [] h = (tt, tt)
  insert_sorted-Sorted a (b ∷ xs) (first, rest) = elim (Bool-cases (leb (key a) (key b))) [
    | inl low ↦ rw low (
      (
        ground (arith, low),
        All-map (λ c. key b ≤ key c) (λ c. key a ≤ key c) xs (λ c h. ground (arith, low)) first,
      ),
      (first, rest),
    )
    | inr high ↦ rw high (
      All-insert_sorted (λ c. key b ≤ key c) a xs (ground (arith, high)) first,
      insert_sorted-Sorted a xs rest,
    )
  ]

  pub sort_by_key-Sorted : (xs : List A) → Sorted (sort_by_key xs)
  unfolding sort_by_key
  sort_by_key-Sorted [] = tt
  sort_by_key-Sorted (a ∷ xs) = insert_sorted-Sorted a (sort_by_key xs) (sort_by_key-Sorted xs)

  -- Sorting keeps what adds up over the elements: their number, and the sum of anything.
  total-insert_sorted :
      (f : A → ℕ) (a : A) (xs : List A) → total f (insert_sorted a xs) ≡ f a + total f xs
  unfolding insert_sorted total
  total-insert_sorted f a [] = refl
  total-insert_sorted f a (b ∷ xs) = ground (arith, total-insert_sorted f a xs)

  pub total-sort_by_key : (f : A → ℕ) (xs : List A) → total f (sort_by_key xs) ≡ total f xs
  unfolding sort_by_key total
  total-sort_by_key f [] = refl
  total-sort_by_key f (a ∷ xs) =
      omega (arith, total-insert_sorted f a (sort_by_key xs), total-sort_by_key f xs)

  length-insert_sorted : (a : A) (xs : List A) → length (insert_sorted a xs) ≡ suc (length xs)
  unfolding insert_sorted
  length-insert_sorted a [] = refl
  length-insert_sorted a (b ∷ xs) = ground (arith, length-insert_sorted a xs)

  pub length-sort_by_key : (xs : List A) → length (sort_by_key xs) ≡ length xs
  unfolding sort_by_key
  length-sort_by_key [] = refl
  length-sort_by_key (a ∷ xs) =
      omega (arith, length-insert_sorted a (sort_by_key xs), length-sort_by_key xs)

-- A sorted list of numbers rises with the index.
pub All-get_or :
    (P : ℕ → Type 0) (xs : List ℕ) (i : ℕ) → All P xs → i < length xs → P (get_or xs i 0)
All-get_or P [] i h lt = absurd (omega arith)
All-get_or P (x ∷ xs) zero (h, hs) lt = h
All-get_or P (x ∷ xs) (suc i) (h, hs) lt = All-get_or P xs i hs (omega arith)

pub get_or_mono :
    (xs : List ℕ) (i j : ℕ)
    → Sorted (λ x. x) xs
    → i ≤ j
    → j < length xs
    → get_or xs i 0 ≤ get_or xs j 0
get_or_mono [] i j s h lt = absurd (omega arith)
get_or_mono (x ∷ xs) zero zero s h lt = omega arith
get_or_mono (x ∷ xs) zero (suc j) (first, rest) h lt =
    All-get_or (λ y. x ≤ y) xs j first (omega arith)
get_or_mono (x ∷ xs) (suc i) zero s h lt = absurd (omega arith)
get_or_mono (x ∷ xs) (suc i) (suc j) (first, rest) h lt =
    get_or_mono xs i j rest (omega arith) (omega arith)
