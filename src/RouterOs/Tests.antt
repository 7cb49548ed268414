-- ===== src/RouterOs/Tests.antt =====
-- Small bandwidth tests.
use Prim.Native.String.{String}
use mikrotik_quality_agent.Base.{
  ℕ, ◌==◌, Bool, false, none, some, List, [], ◌∷◌, ok, if◌then◌else◌, ◌≡◌, refl, arith,
}
use mikrotik_quality_agent.Base.Dict.{text_key}
use mikrotik_quality_agent.Controller.Wire.{to_digit, parse_u64, parse_digits}
use mikrotik_quality_agent.RouterOs.Btest.{
  tcp, receive, BtestConfig, BtestResult, Field, text, neither, router_limited, to_request,
  parse_secs, secs_from, parse, run, cpu_verdict, cpu_saturated, duration_reduced,
}
use mikrotik_quality_agent.RouterOs.Names.{parse_protocol, parse_direction, direction_text}
use mikrotik_quality_agent.RouterOs.Duration.{Part, AreParts, parse_secs-written}
use mikrotik_quality_agent.RouterOs.Verdict.{IsFair, run-IsFair}

abbrev config : BtestConfig
config = record {
  address = "10.0.0.1";
  direction = receive;
  protocol = tcp;
  duration = 120000000000;
  user = "bt";
  password = "secret";
  connection_count = some 4;
  local_tx_speed = none;
  remote_tx_speed = none;
}

shortened : (to_request config).0.duration_s ≡ 45
unfolding to_request
shortened = refl

-- 1m6s
abbrev parts : List Part
parts = record { digits = 49 ∷ []; unit = 109 } ∷ record { digits = 54 ∷ []; unit = 115 } ∷ []

parts-AreParts : AreParts parts
unfolding to_digit
parts-AreParts = (
  (omega arith, omega arith, tt),
  omega arith,
  refl,
  ((omega arith, omega arith, tt), omega arith, refl, tt),
)

parse_secs-written_example : parse_secs (49 ∷ 109 ∷ 54 ∷ 115 ∷ []) ≡ 66
parse_secs-written_example = parse_secs-written parts parts-AreParts (omega arith)

-- A row that reports a local load of 95 per cent.
abbrev row : String → Field
row key = if text_key.same key "local-cpu-load" then text (57 ∷ 53 ∷ []) else neither

abbrev result : BtestResult
result = record {
  protocol = tcp;
  direction = receive;
  tx_bps = none;
  rx_bps = none;
  duration_s = 0;
  local_cpu_load = some 95;
  remote_cpu_load = none;
  lost_packets = none;
  connection_count = none;
  status = [];
  cpu_verdict = router_limited;
  notes = duration_reduced 120 ∷ cpu_saturated 95 ∷ [];
}

saturated : run (λ c. false) config (some (row ∷ [])) ≡ ok result
unfolding run parse cpu_verdict parse_secs secs_from to_request parse_u64 parse_digits to_digit
saturated = refl

run-IsFair_example : IsFair config result
run-IsFair_example = run-IsFair (λ c. false) config (some (row ∷ [])) result saturated

-- A blank is white space here.
abbrev is_blank : ℕ → Bool
is_blank c = c == 32

upper_case : parse_protocol is_blank (32 ∷ 84 ∷ 67 ∷ 80 ∷ 32 ∷ []) ≡ some tcp
unfolding parse_protocol
upper_case = refl

receive_by_name : parse_direction is_blank (direction_text receive) ≡ some receive
unfolding parse_direction
receive_by_name = refl

sctp : parse_protocol is_blank (115 ∷ 99 ∷ 116 ∷ 112 ∷ []) ≡ none
unfolding parse_protocol
sctp = refl
