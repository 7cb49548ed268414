-- ===== src/RouterOs/Verdict.antt =====
-- What a bandwidth test says of the router's own limits.
use Prim.Native.String.{String}
use mikrotik_quality_agent.Base.{
  ℕ, ◌≤◌, ◌<◌, min, max, Bool, true, false, ◌&&◌, Option, none, some, List, leb, not, ◌==◌,
  if◌then◌else◌, length, Result, ok, err, Bool-cases, inl, inr, ◌⊎◌, ◌≡◌, refl, sym, ap, ◌∙◌, arith,
  subst,
}
use mathlib.Core.Option
use mathlib.Core.Option.{none-ne-some, some-injective}
use mikrotik_quality_agent.RouterOs.Btest.{
  tcp, is_udp, BtestConfig, BtestResult, BtestError, CpuVerdict, link_limited, router_contributing,
  router_limited, Field, greater, cpu_verdict, u64_of, u8_of, result_of, read_last, parse, noted,
  run_answer, run, last_row, contains_text, connect_text, done_text, text_of, did_not_run,
  to_request,
}

-- Some load that was reported is at least `n` per cent.
abbrev pub Reaches : ℕ → Option ℕ → Option ℕ → Type 0
Reaches n a b = ((c : ℕ) × (a ≡ some c) × (n ≤ c)) ⊎ ((c : ℕ) × (b ≡ some c) × (n ≤ c))

-- The verdict on two loads.
abbrev pub Judged : Option ℕ → Option ℕ → CpuVerdict → Type 0
Judged a b router_limited = Reaches 90 a b
Judged a b router_contributing = Reaches 70 a b × (¬ Reaches 90 a b)
Judged a b link_limited = ¬ Reaches 70 a b

one_reaches : (n c d : ℕ) → n ≤ max c d → (n ≤ c) ⊎ (n ≤ d)
one_reaches n c d h = ground arith

Reaches-greater : (n c : ℕ) (a b : Option ℕ) → greater a b ≡ some c → n ≤ c → Reaches n a b
Reaches-greater n c none b e h = inr (c, e, h)
Reaches-greater n c (some x) none e h = inl (x, refl, omega (arith, h, some-injective _ _ e))
Reaches-greater n c (some x) (some y) e h =
    elim (one_reaches n x y (omega (arith, h, some-injective _ _ e))) [
      | inl first ↦ inl (x, refl, first)
      | inr second ↦ inr (y, refl, second)
    ]

greater-Reaches : (n c : ℕ) (a b : Option ℕ) → greater a b ≡ some c → Reaches n a b → n ≤ c
greater-Reaches n c none b e (inl (x, f, h)) = absurd (none-ne-some x f)
greater-Reaches n c none b e (inr (y, f, h)) = omega (arith, h, some-injective _ _ (sym f ∙ e))
greater-Reaches n c (some x) none e (inl (z, f, h)) =
    omega (arith, h, some-injective _ _ f, some-injective _ _ e)
greater-Reaches n c (some x) none e (inr (z, f, h)) = absurd (none-ne-some z f)
greater-Reaches n c (some x) (some y) e (inl (z, f, h)) =
    omega (arith, h, some-injective _ _ f, some-injective _ _ e)
greater-Reaches n c (some x) (some y) e (inr (z, f, h)) =
    omega (arith, h, some-injective _ _ f, some-injective _ _ e)

no_loads : (n : ℕ) (a b : Option ℕ) → greater a b ≡ none → ¬ Reaches n a b
no_loads n none b e (inl (x, f, h)) = none-ne-some x f
no_loads n none b e (inr (y, f, h)) = none-ne-some y (sym e ∙ f)
no_loads n (some x) none e w = none-ne-some x (sym e)
no_loads n (some x) (some y) e w = none-ne-some (max x y) (sym e)

leb_le : (a b : ℕ) → leb a b ≡ true → a ≤ b
leb_le a b e = ground arith

leb_gt : (a b : ℕ) → leb a b ≡ false → b < a
leb_gt a b e = ground arith

verdict-Judged : (a b : Option ℕ) (o : Option ℕ) → greater a b ≡ o → Judged a b (cpu_verdict o)
unfolding cpu_verdict
verdict-Judged a b none e = no_loads 70 a b e
verdict-Judged a b (some c) e = elim (Bool-cases (leb 90 c)) [
  | inl full ↦
      subst
        (λ t.
          Judged a b (
            if t then router_limited else (if leb 70 c then router_contributing else link_limited)))
        (sym full) (Reaches-greater 90 c a b e (leb_le 90 c full))
  | inr below ↦
      let not_full : ¬ Reaches 90 a b =
        λ w. absurd (omega (arith, greater-Reaches 90 c a b e w, leb_gt 90 c below)) in
      subst
        (λ t.
          Judged a b (
            if t then router_limited else (if leb 70 c then router_contributing else link_limited)))
        (sym below)
        (elim (Bool-cases (leb 70 c)) [
          | inl busy ↦
              subst (λ t. Judged a b (if t then router_contributing else link_limited)) (sym busy)
                (Reaches-greater 70 c a b e (leb_le 70 c busy), not_full)
          | inr free ↦
              subst (λ t. Judged a b (if t then router_contributing else link_limited)) (sym free)
                (λ w. absurd (omega (arith, greater-Reaches 70 c a b e w, leb_gt 70 c free)))
        ])
]

-- A result that can be trusted for what it says of the router.
pub record IsFair (cfg : BtestConfig) (r : BtestResult) : Type 0 where
  pub judged : Judged r.local_cpu_load r.remote_cpu_load r.cpu_verdict
  pub percents : (c : ℕ) → (r.local_cpu_load ≡ some c) ⊎ (r.remote_cpu_load ≡ some c) → c ≤ 100
  pub tcp_loses_nothing : cfg.protocol ≡ tcp → r.lost_packets ≡ none

module _ (is_space : ℕ → Bool) (cfg : BtestConfig) where
  percent : (f : Field) (c : ℕ) (o : Option ℕ) → Option.map (λ n. min n 100) o ≡ some c → c ≤ 100
  percent f c none e = absurd (none-ne-some c e)
  percent f c (some n) e = omega (arith, some-injective _ _ e)

  result-IsFair : (last : String → Field) → IsFair cfg (result_of is_space cfg last)
  result-IsFair last = record {
    judged =
        verdict-Judged (u8_of is_space (last "local-cpu-load"))
          (u8_of is_space (last "remote-cpu-load")) _ refl;
    percents = λ c w. elim w [
      | inl here ↦ percent (last "local-cpu-load") c _ here
      | inr there ↦ percent (last "remote-cpu-load") c _ there
    ];
    tcp_loses_nothing =
        λ e. ap (λ p. if is_udp p then u64_of is_space (last "lost-packets") else none) e;
  }

  ok_only : {A E : Type 0} (x y : A) → ◌≡◌ {A = Result E A} (ok x) (ok y) → x ≡ y
  ok_only x y e = ap (λ r. elim r [ ok z ↦ z | err w ↦ x ]) e

  is_answer : Result BtestError BtestResult → Bool
  is_answer (ok r) = true
  is_answer (err e) = false

  abbrev refusal : ℕ → (String → Field) → Bool
  refusal n last =
      contains_text connect_text (text_of (last "status"))
      && (not (contains_text done_text (text_of (last "status"))) && (n == 1))

  abbrev pick : (String → Field) → Bool → Result BtestError BtestResult
  pick last b =
      if b then err (did_not_run (text_of (last "status"))) else ok (result_of is_space cfg last)

  read-IsFair :
      (n : ℕ) (o : Option (String → Field)) (r : BtestResult)
      → read_last is_space cfg n o ≡ ok r
      → IsFair cfg r
  unfolding is_answer
  read-IsFair n none r e = absurd (ground (arith, ap is_answer e))
  read-IsFair n (some last) r e = elim (Bool-cases (refusal n last)) [
    | inl wrong ↦ absurd (ground (arith, ap is_answer (sym (ap (pick last) wrong) ∙ e)))
    | inr fine ↦
        subst (IsFair cfg) (ok_only _ _ (sym (ap (pick last) fine) ∙ e)) (result-IsFair last)
  ]

  parse-IsFair :
      (answer : Option (List (String → Field))) (r : BtestResult)
      → parse is_space cfg answer ≡ ok r
      → IsFair cfg r
  unfolding parse is_answer
  parse-IsFair none r e = absurd (ground (arith, ap is_answer e))
  parse-IsFair (some rows) r e = read-IsFair (length rows) (last_row rows) r e

  noted-IsFair : (b : Bool) (r : BtestResult) → IsFair cfg r → IsFair cfg (noted is_space cfg b r)
  noted-IsFair true r h = record {
    judged = h.judged;
    percents = h.percents;
    tcp_loses_nothing = h.tcp_loses_nothing;
  }
  noted-IsFair false r h = h

  run_answer-IsFair :
      (o : Result BtestError BtestResult) (r : BtestResult)
      → ((s : BtestResult) → o ≡ ok s → IsFair cfg s)
      → run_answer is_space cfg o ≡ ok r
      → IsFair cfg r
  unfolding is_answer
  run_answer-IsFair (err w) r h e = absurd (ground (arith, ap is_answer e))
  run_answer-IsFair (ok s) r h e =
      subst (IsFair cfg) (ok_only _ _ e) (noted-IsFair (to_request cfg).1 s (h s refl))

  -- A test that yields a result says of it that the router limited it exactly when a load that was
  -- reported is at least 90 per cent, that it contributed when one is at least 70 but none 90, and
  -- that the link did otherwise; no load is above 100 per cent, and no loss is told of TCP.
  pub run-IsFair :
      (answer : Option (List (String → Field))) (r : BtestResult)
      → run is_space cfg answer ≡ ok r
      → IsFair cfg r
  unfolding run
  run-IsFair answer r e = run_answer-IsFair (parse is_space cfg answer) r (parse-IsFair answer) e
