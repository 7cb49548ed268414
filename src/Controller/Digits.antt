-- ===== src/Controller/Digits.antt =====
-- How a session identifier of decimal digits is read.
use mikrotik_quality_agent.Base.{
  ℕ, zero, suc, ◌+◌, ◌-◌, ◌*◌, ◌^◌, ◌≤◌, ◌<◌, Bool, true, false, ◌&&◌, ◌||◌, none, some, List, [],
  ◌∷◌, ltb, ◌==◌, if◌then◌else◌, length, ◌≡◌, refl, ap, ◌∙◌, arith,
}
use mikrotik_quality_agent.Controller.Wire.{
  to_digit, parse_digits, parse_u64, strip_hex, is_nil, trim_start, trim_end, by_prefix,
  parse_session_id,
}

-- Decimal digits, and the number that they write.
abbrev pub Decimal : List ℕ → Type 0
Decimal [] = Unit {0}
Decimal (c ∷ cs) = (48 ≤ c) × (c ≤ 57) × Decimal cs

abbrev pub value : List ℕ → ℕ
value [] = 0
value (c ∷ cs) = (c - 48) * 10 ^ length cs + value cs

pub to_digit_decimal : (c : ℕ) → 48 ≤ c → c ≤ 57 → to_digit 10 c ≡ some (c - 48)
unfolding to_digit
to_digit_decimal c h g = ground arith

pub one_le_pow : (n : ℕ) → 1 ≤ 10 ^ n
one_le_pow zero = omega arith
one_le_pow (suc n) = omega (arith, one_le_pow n)

pub le_mul : (d n : ℕ) → 1 ≤ n → d ≤ d * n
le_mul zero n h = omega arith
le_mul (suc d) n h = omega (arith, le_mul d n h, h)

product : (acc d p : ℕ) → (acc * 10 + d) * p ≡ acc * (p * 10) + d * p
product acc d p = ground arith

pub shift : (acc d n : ℕ) → (acc * 10 + d) * 10 ^ n ≡ acc * 10 ^ suc n + d * 10 ^ n
shift acc d n = product acc d (10 ^ n) ∙ ap (λ q. acc * q + d * 10 ^ n) (power n)
  where
    power : (n : ℕ) → 10 ^ n * 10 ≡ 10 ^ suc n
    power n = omega arith

lt_ltb : (a b : ℕ) → a < b → ltb a b ≡ true
lt_ltb a b h = ground arith

parse_digits_lem :
    (acc : ℕ) (cs : List ℕ)
    → Decimal cs
    → acc * 10 ^ length cs + value cs < 2 ^ 64
    → parse_digits 10 acc cs ≡ some (acc * 10 ^ length cs + value cs)
unfolding parse_digits
parse_digits_lem acc [] h small = ap some (omega arith)
parse_digits_lem acc (c ∷ cs) (low, high, h) small =
    let d = c - 48 in
    let p = 10 ^ length cs in
    let same = shift acc d (length cs) in
    let bound = le_mul (acc * 10 + d) p (one_le_pow (length cs)) in
    rw (to_digit_decimal c low high, parse_digits)
      (rw (lt_ltb (acc * 10 + d) (2 ^ 64) (omega (arith, same, bound, small)), parse_digits)
        (parse_digits_lem (acc * 10 + d) cs h (omega (arith, same, small))
          ∙ ap some (omega (arith, same))))

not_plus : (c : ℕ) → 48 ≤ c → (c == 43) ≡ false
not_plus c h = ground arith

not_x : (b : ℕ) → b ≤ 57 → ((b == 120) || (b == 88)) ≡ false
not_x b h = ground arith

no_hex_and : (a : Bool) → (a && false) ≡ false
no_hex_and true = refl
no_hex_and false = refl

strip_hex-Decimal : (cs : List ℕ) → Decimal cs → strip_hex cs ≡ none
strip_hex-Decimal [] h = refl
strip_hex-Decimal (a ∷ []) h = refl
strip_hex-Decimal (a ∷ b ∷ cs) (low, high, (low_b, high_b, h)) =
    ap (λ t. if (a == 48) && t then some cs else none) (not_x b high_b)
    ∙ ap (λ t. if t then some cs else none) (no_hex_and (a == 48))

module _ (is_space : ℕ → Bool) where
  -- No digit is white space.
  abbrev pub SparesDigits : Type 0
  SparesDigits = (c : ℕ) → 48 ≤ c → c ≤ 57 → is_space c ≡ false

  trim_start-Decimal : SparesDigits → (cs : List ℕ) → Decimal cs → trim_start is_space cs ≡ cs
  trim_start-Decimal spares [] h = refl
  trim_start-Decimal spares (c ∷ cs) (low, high, h) =
      ap (λ t. if t then trim_start is_space cs else c ∷ cs) (spares c low high)

  trim_end-Decimal : SparesDigits → (cs : List ℕ) → Decimal cs → trim_end is_space cs ≡ cs
  trim_end-Decimal spares [] h = refl
  trim_end-Decimal spares (c ∷ cs) (low, high, h) =
      ap (λ t. if is_nil (trim_end is_space cs) && t then [] else c ∷ trim_end is_space cs)
        (spares c low high)
      ∙ ap (λ t. if t then [] else c ∷ trim_end is_space cs)
          (no_hex_and (is_nil (trim_end is_space cs)))
      ∙ ap (◌∷◌ c) (trim_end-Decimal spares cs h)

  -- A session identifier of decimal digits, of a value under 2^64, is read as that decimal number and
  -- not as the hexadecimal one that the same digits would be.
  pub parse_session_id-value :
      (c : ℕ) (cs : List ℕ)
      → SparesDigits
      → Decimal (c ∷ cs)
      → value (c ∷ cs) < 2 ^ 64
      → parse_session_id is_space (c ∷ cs) ≡ some (value (c ∷ cs))
  unfolding parse_session_id parse_u64
  parse_session_id-value c cs spares h small =
      ap (λ t. by_prefix is_space (trim_end is_space t) (strip_hex (trim_end is_space t)))
        (trim_start-Decimal spares (c ∷ cs) h)
      ∙ ap (λ t. by_prefix is_space t (strip_hex t)) (trim_end-Decimal spares (c ∷ cs) h)
      ∙ ap (by_prefix is_space (c ∷ cs)) (strip_hex-Decimal (c ∷ cs) h)
      ∙ ap
          (λ t.
            if t
            then (if is_nil cs then none else parse_digits 10 0 cs)
            else parse_digits 10 0 (c ∷ cs))
          (not_plus c (h.0))
      ∙ parse_digits_lem 0 (c ∷ cs) h (omega (arith, small))
      ∙ ap some (omega arith)
