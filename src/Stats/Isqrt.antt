-- ===== src/Stats/Isqrt.antt =====
-- `isqrt_u128`: Newton's iteration from above. The sums wrap at 2^128, as in the release build. The
-- largest argument is outside the model: there the first sum wraps to 0, and the source divides by it.
use mikrotik_quality_agent.Base.{
  ℕ, zero, suc, ◌+◌, ◌-◌, ◌*◌, ◌/◌, ◌%◌, ◌^◌, ◌≤◌, ◌<◌, true, false, ltb, ◌==◌, if◌then◌else◌, ◌≡◌,
  refl, ap, ◌∙◌, arith, Bool-cases, inl, inr, le_or_lt,
}
use native.Mathlib.Nat.{
  lt-mul-div-succ, mul-div-le, div_self, mod-eq_of_lt, mul-le-mul, mul-le-mul_left, div-one,
}

-- The `while`, on fuel: `x` falls with every round, so `x + 1` rounds are enough.
unfoldable pub newton : ℕ → ℕ → ℕ → ℕ → ℕ
newton zero n x y = x
newton (suc fuel) n x y = elim (ltb y x) [
  | true ↦ newton fuel n y ((y + n / y) % 2 ^ 128 / 2)
  | false ↦ x
]

unfoldable pub isqrt_u128 : ℕ → ℕ
isqrt_u128 n = if n == 0 then 0 else newton (n + 1) n n ((n + 1) % 2 ^ 128 / 2) % 2 ^ 64

spread : (a d : ℕ) → 4 * (a * (a + d)) + d * d ≡ (a + (a + d)) * (a + (a + d))
spread a d = grind arith

spread' : (a d : ℕ) → 4 * ((a + d) * a) + d * d ≡ (a + d + a) * (a + d + a)
spread' a d = grind arith

-- The geometric mean is not above the arithmetic one.
four_products : (a b : ℕ) → 4 * (a * b) ≤ (a + b) * (a + b)
four_products a b = elim (le_or_lt a b) [
  | inl h ↦ let e : b ≡ a + (b - a) = omega arith in rw e (omega (arith, spread a (b - a)))
  | inr h ↦ let e : a ≡ b + (a - b) = omega arith in rw e (omega (arith, spread' b (a - b)))
]

square_twice : (a : ℕ) → (2 * a) * (2 * a) ≡ 4 * (a * a)
square_twice a = grind arith

square_above : (n : ℕ) → n < (n + 1) * (n + 1)
square_above n = grind arith

-- One round keeps `x` at or above the root.
round_above : (n x : ℕ) → 0 < x → n < ((x + n / x) / 2 + 1) * ((x + n / x) / 2 + 1)
round_above n x h =
    let q = n / x in
    let y = (x + q) / 2 in
    let below : n < x * (q + 1) = lt-mul-div-succ n h in
    let mean = four_products x (q + 1) in
    let wide : (x + (q + 1)) * (x + (q + 1)) ≤ (2 * (y + 1)) * (2 * (y + 1)) =
      mul-le-mul (omega arith) (omega arith) in
    omega (arith, below, mean, wide, square_twice (y + 1))

-- The end of the loop: the mean does not fall, so the square is not above `n`.
end_below : (n x : ℕ) → 0 < x → x ≤ (x + n / x) / 2 → x * x ≤ n
end_below n x h stays =
    let q = n / x in
    let square : x * x ≤ x * q = mul-le-mul_left x (omega (arith, stays)) in
    omega (arith, square, mul-div-le n x)

mean_pos : (n x : ℕ) → 0 < n → 0 < x → 0 < (x + n / x) / 2
mean_pos n x hn hx = elim (le_or_lt x 1) [
  | inl h ↦ let e : x ≡ 1 = omega arith in rw e (omega (arith, div-one n))
  | inr h ↦ omega arith
]

IsRoot : ℕ → ℕ → Type 0
IsRoot n r = (r * r ≤ n) × (n < (r + 1) * (r + 1))

product : (a b : ℕ) → (1 + a) * (1 + b) ≡ 1 + a + b + a * b
product a b = grind arith

-- The sum of a round is not above `n + 1`.
sum-le : (n y : ℕ) → 0 < y → y ≤ n → y + n / y ≤ n + 1
sum-le n y h below =
    let q = n / y in
    elim (le_or_lt q 0) [
      | inl nothing ↦ omega arith
      | inr some_q ↦
          let left : y ≡ 1 + (y - 1) = omega arith in
          let right : q ≡ 1 + (q - 1) = omega arith in
          let parts : y * q ≡ 1 + (y - 1) + (q - 1) + (y - 1) * (q - 1) =
            (λ i. left i * right i) ∙ product (y - 1) (q - 1) in
          omega (arith, parts, mul-div-le n y)
    ]

newton-IsRoot :
    (fuel n x y : ℕ)
    → x < fuel
    → 0 < n
    → n + 1 < 2 ^ 128
    → 0 < x
    → x ≤ n
    → y ≡ (x + n / x) / 2
    → n < (x + 1) * (x + 1)
    → IsRoot n (newton fuel n x y)
unfolding newton IsRoot
newton-IsRoot zero n x y enough hn fits hx below mean above = absurd (omega arith)
newton-IsRoot (suc fuel) n x y enough hn fits hx below mean above = elim (Bool-cases (ltb y x)) [
  | inl falls ↦
      let smaller : y < x = ground arith in
      let positive : 0 < y = rw mean (mean_pos n x hn hx) in
      let sum : (y + n / y) % 2 ^ 128 ≡ y + n / y =
        mod-eq_of_lt (omega (arith, sum-le n y positive (omega arith))) in
      rw (falls, newton)
        (newton-IsRoot fuel n y _ (omega arith) hn fits positive (omega arith) (ap (λ s. s / 2) sum)
          (rw mean (round_above n x hx)))
  | inr stays ↦
      let not_smaller : x ≤ y = ground arith in
      rw (stays, newton) (end_below n x hx (omega (arith, mean)), above)
]

square-lt : (r n : ℕ) → r * r ≤ n → n < 2 ^ 128 → r < 2 ^ 64
square-lt r n h fits = elim (le_or_lt (2 ^ 64) r) [
  | inl big ↦
      let square : 2 ^ 64 * 2 ^ 64 ≤ r * r = mul-le-mul big big in absurd (omega (arith, square))
  | inr small ↦ small
]

abbrev first_mean : ℕ → ℕ
first_mean n = (n + 1) % 2 ^ 128 / 2

isqrt_pos : (n : ℕ) → 0 < n → isqrt_u128 n ≡ newton (n + 1) n n (first_mean n) % 2 ^ 64
unfolding isqrt_u128
isqrt_pos n h =
    let some_n : (n == 0) ≡ false = ground arith in
    ap (λ b. if b then 0 else newton (n + 1) n n (first_mean n) % 2 ^ 64) some_n

isqrt-zero : isqrt_u128 0 ≡ 0
unfolding isqrt_u128
isqrt-zero = refl

-- The integer square root of a number of 128 bits other than the largest, with at most `n + 1` rounds
-- of the loop, is exact: the largest number whose square is not above it.
pub isqrt_u128_lem :
    (n : ℕ)
    → n + 1 < 2 ^ 128
    → (isqrt_u128 n * isqrt_u128 n ≤ n) × (n < (isqrt_u128 n + 1) * (isqrt_u128 n + 1))
unfolding IsRoot
isqrt_u128_lem n h = elim (le_or_lt n 0) [
  | inl none_left ↦ let e : n ≡ 0 = omega arith in rw (e, isqrt-zero) (omega arith, omega arith)
  | inr positive ↦
      let r = newton (n + 1) n n (first_mean n) in
      let sum : (n + 1) % 2 ^ 128 ≡ n + n / n = mod-eq_of_lt h ∙ omega (arith, div_self positive) in
      let root =
        newton-IsRoot (n + 1) n n (first_mean n) (omega arith) positive h positive (omega arith)
          (ap (λ s. s / 2) sum) (square_above n) in
      let same : isqrt_u128 n ≡ r =
        isqrt_pos n positive ∙ mod-eq_of_lt (square-lt r n root.0 (omega arith)) in
      rw same root
]
