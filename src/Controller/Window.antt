-- ===== src/Controller/Window.antt =====
-- How long the backoff waits.
use mikrotik_quality_agent.Base.{
  ℕ, zero, suc, ◌+◌, ◌-◌, ◌*◌, ◌^◌, ◌≤◌, ◌<◌, min, List, [], ◌∷◌, length, ◌≡◌, refl, ◌∙◌, arith,
}
use mikrotik_quality_agent.Controller.{Backoff, ceiling, next_delay, duration_max}

-- A draw within the window.
abbrev pub IsDraw : Backoff → (ℕ → ℕ) → Type 0
IsDraw b draw = (c : ℕ) → c ≤ b.most → draw c ≤ c

one_le_pow : (n : ℕ) → 1 ≤ 2 ^ n
one_le_pow zero = omega arith
one_le_pow (suc n) = omega (arith, one_le_pow n)

le_mul : (d n : ℕ) → 1 ≤ n → d ≤ d * n
le_mul zero n h = omega arith
le_mul (suc d) n h = omega (arith, le_mul d n h, h)

mul_le : (d m n : ℕ) → m ≤ n → d * m ≤ d * n
mul_le zero m n h = omega arith
mul_le (suc d) m n h = omega (arith, mul_le d m n h, h)

pow_le : (m n : ℕ) → m ≤ n → 2 ^ m ≤ 2 ^ n
pow_le zero n h = one_le_pow n
pow_le (suc m) zero h = absurd (omega arith)
pow_le (suc m) (suc n) h = omega (arith, pow_le m n (omega (arith, h)))

min-ceiling : (b : Backoff) → b.base ≤ duration_max → min b.base b.most ≤ ceiling b
unfolding ceiling
min-ceiling b h =
    omega (arith, h, le_mul b.base (2 ^ min b.attempt 20) (one_le_pow (min b.attempt 20)))

ceiling-le : (b : Backoff) → ceiling b ≤ b.most
unfolding ceiling
ceiling-le b = omega arith

-- A delay is never above the cap, and never under the base, or the cap if that is less: whatever is
-- drawn and however many attempts there were.
pub next_delay-bounds :
    (b : Backoff) (draw : ℕ → ℕ)
    → b.base ≤ duration_max
    → IsDraw b draw
    → (min b.base b.most ≤ (next_delay draw b).1) × ((next_delay draw b).1 ≤ b.most)
unfolding next_delay
next_delay-bounds b draw h d =
    let top = ceiling-le b in
    (omega (arith, min-ceiling b h), omega (arith, d (ceiling b) top, top))

-- The window only grows from one failure to the next.
pub ceiling-next_delay :
    (b : Backoff) (draw : ℕ → ℕ) → b.attempt < 2 ^ 32 → ceiling b ≤ ceiling (next_delay draw b).0
unfolding next_delay ceiling
ceiling-next_delay b draw h =
    let k = min b.attempt 20 in
    let l = min (min (b.attempt + 1) (2 ^ 32 - 1)) 20 in
    omega (arith, mul_le b.base (2 ^ k) (2 ^ l) (pow_le k l (omega (arith, h))))

-- The backoff after failures with these draws.
abbrev pub after : Backoff → List (ℕ → ℕ) → Backoff
after b [] = b
after b (draw ∷ draws) = after (next_delay draw b).0 draws

attempt-after :
    (b : Backoff) (draws : List (ℕ → ℕ))
    → b.attempt < 2 ^ 32
    → (min (b.attempt + length draws) (2 ^ 32 - 1) ≡ (after b draws).attempt)
      × ((after b draws).base ≡ b.base)
      × ((after b draws).most ≡ b.most)
unfolding next_delay
attempt-after b [] h = (omega (arith, h), refl, refl)
attempt-after b (draw ∷ draws) h =
    let (counts, base, most) = attempt-after (next_delay draw b).0 draws (omega arith) in
    (omega (arith, counts), base, most)

-- After `n` failures since the last reset the top of the window is the base doubled `n` times, but at
-- most 20 times, within the cap: it neither overflows nor shrinks, however long the outage.
pub ceiling-after :
    (base most : ℕ) (b : Backoff) (draws : List (ℕ → ℕ))
    → b.base ≡ base
    → b.most ≡ most
    → b.attempt ≡ 0
    → most ≤ duration_max
    → ceiling (after b draws) ≡ min (base * 2 ^ min (length draws) 20) most
unfolding ceiling
ceiling-after base most b draws p q r h =
    let (counts, same_base, same_most) = attempt-after b draws (omega (arith, r)) in
    let shift : min (after b draws).attempt 20 ≡ min (length draws) 20 = omega (arith, counts, r) in
    rw shift (rw (same_base ∙ p) (rw (same_most ∙ q) (omega (arith, h))))
