-- ===== src/Base/Dict.antt =====
-- Hash maps as association lists. The order of the list stands for the order in which the map is
-- iterated, which nothing else may depend on.
use Prim.Native.Nat.{ℕ}
use Prim.Native.String.{String}
use text.Mathlib.Text.{◌==◌ as str_eq}
use text.Mathlib.TextEquality.{eq_iff}
use mathlib.Core.Path.{◌≡◌, refl}
use mathlib.Core.Logic.{◌↔◌}
use mathlib.Core.Bool.{Bool, true, false, ◌||◌}
use mathlib.Core.Option.{Option, none, some}
use mathlib.Core.List.{List, [], ◌∷◌}
use native.Mathlib.Omega.{arith}
use mikrotik_quality_agent.Base.Tests.{if◌then◌else◌, ◌==◌, ==_iff}

pub record Key (K : Type 0) : Type 0 where
  pub same : K → K → Bool
  pub same_iff : (a b : K) → (same a b ≡ true) ↔ (a ≡ b)

instance abbrev pub nat_key : Key ℕ
nat_key = record { same = ◌==◌; same_iff = ==_iff }

instance abbrev pub text_key : Key String
text_key = record { same = str_eq; same_iff = eq_iff }

module _ {K V : Type 0} ⦃k : Key K⦄ where
  unfoldable pub lookup : K → List (K × V) → Option V
  lookup key [] = none
  lookup key ((j, v) ∷ m) = if k.same j key then some v else lookup key m

  -- `HashMap::insert`: the value of a key that is there is replaced.
  unfoldable pub insert : K → V → List (K × V) → List (K × V)
  insert key v [] = (key, v) ∷ []
  insert key v ((j, w) ∷ m) = if k.same j key then (key, v) ∷ m else (j, w) ∷ insert key v m

  unfoldable pub remove : K → List (K × V) → List (K × V)
  remove key [] = []
  remove key ((j, w) ∷ m) = if k.same j key then remove key m else (j, w) ∷ remove key m

  pub lookup-insert :
      (key j : K) (v : V) (m : List (K × V))
      → lookup j (insert key v m) ≡ (if k.same key j then some v else lookup j m)
  unfolding lookup insert
  lookup-insert key j v [] = refl
  lookup-insert key j v ((i, w) ∷ m) =
      ground (arith, k.same_iff i key, k.same_iff i j, k.same_iff key j, lookup-insert key j v m)

  pub lookup-remove :
      (key j : K) (m : List (K × V))
      → lookup j (remove key m) ≡ (if k.same key j then none else lookup j m)
  unfolding lookup remove
  lookup-remove key j [] = ground arith
  lookup-remove key j ((i, w) ∷ m) =
      ground (arith, k.same_iff i key, k.same_iff i j, k.same_iff key j, lookup-remove key j m)

-- The keys of a map, and that none stands in it twice.
module _ {K V : Type 0} ⦃k : Key K⦄ where
  unfoldable pub has_key : K → List (K × V) → Bool
  has_key key [] = false
  has_key key ((j, v) ∷ m) = k.same j key || has_key key m

  abbrev pub KeysDiffer : List (K × V) → Type 0
  KeysDiffer [] = Unit {0}
  KeysDiffer ((j, v) ∷ m) = (has_key j m ≡ false) × KeysDiffer m

  has_key-insert :
      (key j : K) (v : V) (m : List (K × V))
      → has_key j (insert key v m) ≡ (k.same key j || has_key j m)
  unfolding has_key insert
  has_key-insert key j v [] = refl
  has_key-insert key j v ((i, w) ∷ m) =
      ground (arith, k.same_iff i key, k.same_iff i j, k.same_iff key j, has_key-insert key j v m)

  pub insert-KeysDiffer :
      (key : K) (v : V) (m : List (K × V)) → KeysDiffer m → KeysDiffer (insert key v m)
  unfolding has_key insert
  insert-KeysDiffer key v [] h = (refl, tt)
  insert-KeysDiffer key v ((i, w) ∷ m) h = ground (
    arith,
    k.same_iff i key,
    k.same_iff key i,
    has_key-insert key i v m,
    insert-KeysDiffer key v m h.1,
  )
