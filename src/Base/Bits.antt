-- ===== src/Base/Bits.antt =====
-- Facts about `bit_and`, `bit_or` and `bit_xor` at variables: one equation for the lowest digit of
-- each, and what follows from it by induction on a bound.
use Prim.Native.Nat.{
  ℕ, zero, suc, ◌+◌, ◌-◌, ◌*◌, ◌/◌, ◌%◌, ◌^◌, ◌≤◌, ◌<◌, min, max, digits, differ, bit_and, bit_or,
  bit_xor, bit_and-bitwise, bit_or-bitwise, bit_xor-bitwise,
}
use mathlib.Core.Path.{◌≡◌, refl, sym, ap, ap₂, ◌∙◌}
use native.Mathlib.Nat.{pow-suc, one-le-pow, mul_comm, div-div-eq-div-mul}
use native.Mathlib.Omega.{arith}

module _ (z : ℕ → ℕ) (f : ℕ → ℕ → ℕ) where
  -- Any count of digits that covers the first number will do.
  count_irrelevant : (a b n m : ℕ) → a ≤ n → a ≤ m → digits z f n a b ≡ digits z f m a b
  count_irrelevant zero b zero zero p q = refl
  count_irrelevant zero b zero (suc m) p q = refl
  count_irrelevant zero b (suc n) zero p q = refl
  count_irrelevant zero b (suc n) (suc m) p q = refl
  count_irrelevant (suc a) b zero m p q = absurd (omega arith)
  count_irrelevant (suc a) b (suc n) zero p q = absurd (omega arith)
  count_irrelevant (suc a) b (suc n) (suc m) p q =
      ap (λ t. t * 2 + f (suc a % 2) (b % 2))
        (count_irrelevant (suc a / 2) (b / 2) n m (omega arith) (omega arith))

  low_digit :
      (a b : ℕ)
      → digits z f (suc a) (suc a) b
        ≡ digits z f (suc a / 2) (suc a / 2) (b / 2) * 2 + f (suc a % 2) (b % 2)
  low_digit a b =
      ap (λ t. t * 2 + f (suc a % 2) (b % 2))
        (count_irrelevant (suc a / 2) (b / 2) a (suc a / 2) (omega arith) (omega arith))

differ_digits : (x y : ℕ) → x < 2 → y < 2 → differ x y ≡ (x + y) % 2
differ_digits zero y p q = omega arith
differ_digits (suc zero) zero p q = refl
differ_digits (suc zero) (suc zero) p q = refl
differ_digits (suc zero) (suc (suc y)) p q = absurd (omega arith)
differ_digits (suc (suc x)) y p q = absurd (omega arith)

pub bit_xor_low : (a b : ℕ) → bit_xor a b ≡ bit_xor (a / 2) (b / 2) * 2 + (a + b) % 2
bit_xor_low zero b = simp bit_xor-bitwise (omega arith)
bit_xor_low (suc a) b = omega (
  arith,
  bit_xor-bitwise (suc a) b,
  bit_xor-bitwise (suc a / 2) (b / 2),
  low_digit (λ y. y) differ a b,
  differ_digits (suc a % 2) (b % 2) (omega arith) (omega arith),
)

pub bit_and_low : (a b : ℕ) → bit_and a b ≡ bit_and (a / 2) (b / 2) * 2 + min (a % 2) (b % 2)
bit_and_low zero b = simp bit_and-bitwise (omega arith)
bit_and_low (suc a) b = omega (
  arith,
  bit_and-bitwise (suc a) b,
  bit_and-bitwise (suc a / 2) (b / 2),
  low_digit (λ y. 0) min a b,
)

pub bit_or_low : (a b : ℕ) → bit_or a b ≡ bit_or (a / 2) (b / 2) * 2 + max (a % 2) (b % 2)
bit_or_low zero b = simp bit_or-bitwise (omega arith)
bit_or_low (suc a) b = omega (
  arith,
  bit_or-bitwise (suc a) b,
  bit_or-bitwise (suc a / 2) (b / 2),
  low_digit (λ y. y) max a b,
)

-- Exclusive or keeps a width, commutes, and is its own inverse.
pub bit_xor-lt : (k a b : ℕ) → a < 2 ^ k → b < 2 ^ k → bit_xor a b < 2 ^ k
bit_xor-lt zero zero zero p q = omega arith
bit_xor-lt zero zero (suc b) p q = absurd (omega arith)
bit_xor-lt zero (suc a) b p q = absurd (omega arith)
bit_xor-lt (suc k) a b p q =
    let twice = pow-suc 2 k in
    omega (arith, bit_xor_low a b, bit_xor-lt k (a / 2) (b / 2) (omega arith) (omega arith))

xor_comm_below : (n a b : ℕ) → a + b ≤ n → bit_xor a b ≡ bit_xor b a
xor_comm_below zero zero zero h = refl
xor_comm_below zero zero (suc b) h = absurd (omega arith)
xor_comm_below zero (suc a) b h = absurd (omega arith)
xor_comm_below (suc n) zero zero h = refl
xor_comm_below (suc n) zero (suc b) h = omega (
  arith,
  bit_xor_low 0 (suc b),
  bit_xor_low (suc b) 0,
  xor_comm_below n 0 (suc b / 2) (omega arith),
)
xor_comm_below (suc n) (suc a) b h = omega (
  arith,
  bit_xor_low (suc a) b,
  bit_xor_low b (suc a),
  xor_comm_below n (suc a / 2) (b / 2) (omega arith),
)

pub bit_xor_comm : (a b : ℕ) → bit_xor a b ≡ bit_xor b a
bit_xor_comm a b = xor_comm_below (a + b) a b (omega arith)

xor_undo_step :
    (a c : ℕ) → bit_xor (bit_xor (a / 2) (c / 2)) (c / 2) ≡ a / 2 → bit_xor (bit_xor a c) c ≡ a
xor_undo_step a c h =
    let half : bit_xor a c / 2 ≡ bit_xor (a / 2) (c / 2) = omega (arith, bit_xor_low a c) in
    omega
      (arith, bit_xor_low a c, bit_xor_low (bit_xor a c) c, ap (λ t. bit_xor t (c / 2)) half ∙ h)

xor_undo_below : (n a c : ℕ) → a + c ≤ n → bit_xor (bit_xor a c) c ≡ a
xor_undo_below zero zero zero h = refl
xor_undo_below zero zero (suc c) h = absurd (omega arith)
xor_undo_below zero (suc a) c h = absurd (omega arith)
xor_undo_below (suc n) zero zero h = refl
xor_undo_below (suc n) zero (suc c) h =
    xor_undo_step 0 (suc c) (xor_undo_below n 0 (suc c / 2) (omega arith))
xor_undo_below (suc n) (suc a) c h =
    xor_undo_step (suc a) c (xor_undo_below n (suc a / 2) (c / 2) (omega arith))

pub bit_xor_undo : (a c : ℕ) → bit_xor (bit_xor a c) c ≡ a
bit_xor_undo a c = xor_undo_below (a + c) a c (omega arith)

pub bit_xor-right_injective : (a b c : ℕ) → bit_xor a c ≡ bit_xor b c → a ≡ b
bit_xor-right_injective a b c h =
    sym (bit_xor_undo a c) ∙ ap (λ t. bit_xor t c) h ∙ bit_xor_undo b c

pub bit_xor-left_injective : (a b c : ℕ) → bit_xor c a ≡ bit_xor c b → a ≡ b
bit_xor-left_injective a b c h =
    bit_xor-right_injective a b c (bit_xor_comm a c ∙ h ∙ bit_xor_comm c b)

bit_and-zero : (n b : ℕ) → b ≤ n → bit_and b 0 ≡ 0
bit_and-zero zero zero h = refl
bit_and-zero zero (suc b) h = absurd (omega arith)
bit_and-zero (suc n) zero h = refl
bit_and-zero (suc n) (suc b) h =
    omega (arith, bit_and_low (suc b) 0, bit_and-zero n (suc b / 2) (omega arith))

bit_or-zero : (n b : ℕ) → b ≤ n → bit_or b 0 ≡ b
bit_or-zero zero zero h = refl
bit_or-zero zero (suc b) h = absurd (omega arith)
bit_or-zero (suc n) zero h = refl
bit_or-zero (suc n) (suc b) h =
    omega (arith, bit_or_low (suc b) 0, bit_or-zero n (suc b / 2) (omega arith))

halve_pow : (k : ℕ) → (2 ^ suc k / 2 ≡ 2 ^ k) × (2 ^ suc k % 2 ≡ 0) × (2 ^ suc k ≡ 2 ^ k * 2)
halve_pow k = omega (arith, pow-suc 2 k)

-- A mask of one bit reads that bit.
pub bit_and_pow : (k a : ℕ) → bit_and a (2 ^ k) ≡ a / 2 ^ k % 2 * 2 ^ k
bit_and_pow zero a = omega (arith, bit_and_low a 1, bit_and-zero a (a / 2) (omega arith))
bit_and_pow (suc k) a =
    let (half, even, twice) = halve_pow k in
    let split : a / 2 ^ suc k ≡ a / 2 / 2 ^ k =
      ap (◌/◌ a) (twice ∙ mul_comm (2 ^ k) 2) ∙ sym (div-div-eq-div-mul a 2 (2 ^ k)) in
    omega (
      arith,
      bit_and_low a (2 ^ suc k),
      even,
      ap (bit_and (a / 2)) half ∙ bit_and_pow k (a / 2),
      ap (λ t. t % 2 * 2 ^ suc k) split,
      ap (λ t. a / 2 / 2 ^ k % 2 * t) twice,
    )

-- `(q << k) | r` is a sum when `r` fits `k` bits.
pub bit_or_sum : (k q r : ℕ) → r < 2 ^ k → bit_or (q * 2 ^ k) r ≡ q * 2 ^ k + r
bit_or_sum zero q zero h = bit_or-zero (q * 1) (q * 1) (omega arith) ∙ omega arith
bit_or_sum zero q (suc r) h = absurd (omega arith)
bit_or_sum (suc k) q r h =
    let (_, _, twice) = halve_pow k in
    let whole : q * 2 ^ suc k ≡ q * 2 ^ k * 2 = ap (λ t. q * t) twice ∙ omega arith in
    let half : q * 2 ^ suc k / 2 ≡ q * 2 ^ k = omega (arith, whole) in
    omega (
      arith,
      bit_or_low (q * 2 ^ suc k) r,
      whole,
      ap (λ t. bit_or t (r / 2)) half ∙ bit_or_sum k q (r / 2) (omega arith),
    )

mask_fields : (k q r : ℕ) → r < 2 ^ k → bit_and (q * 2 ^ k + r) (2 ^ k - 1) ≡ r
mask_fields zero q r h = bit_and-zero (q * 1 + r) (q * 1 + r) (omega arith) ∙ omega arith
mask_fields (suc k) q r h =
    let (_, _, twice) = halve_pow k in
    let whole : q * 2 ^ suc k ≡ q * 2 ^ k * 2 = ap (λ t. q * t) twice ∙ omega arith in
    let some_bit : 1 ≤ 2 ^ k = one-le-pow k 2 (omega arith) in
    let half : (q * 2 ^ suc k + r) / 2 ≡ q * 2 ^ k + r / 2 = omega (arith, whole) in
    let half_mask : (2 ^ suc k - 1) / 2 ≡ 2 ^ k - 1 = omega arith in
    omega (
      arith,
      bit_and_low (q * 2 ^ suc k + r) (2 ^ suc k - 1),
      whole,
      ap₂ bit_and half half_mask ∙ mask_fields k q (r / 2) (omega arith),
    )

-- A mask of `k` low bits takes the remainder by `2 ^ k`.
pub bit_and_mask : (k a : ℕ) → bit_and a (2 ^ k - 1) ≡ a % 2 ^ k
bit_and_mask k a =
    let some_bit : 1 ≤ 2 ^ k = one-le-pow k 2 (omega arith) in
    ground (arith, mask_fields k (a / 2 ^ k) (a % 2 ^ k))
