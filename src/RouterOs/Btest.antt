-- ===== src/RouterOs/Btest.antt =====
-- agent/src/routeros/btest.rs: the request of a bandwidth test and the reading of its result. A text
-- that is parsed is the list of its code points; a row of the answer gives for each key what the JSON
-- value holds; the texts of notes and errors are parameters where they are formatted.
use Prim.Native.String.{String}
use mikrotik_quality_agent.Base.{
  ℕ, ◌+◌, ◌*◌, ◌/◌, ◌%◌, ◌^◌, min, max, Bool, true, false, ◌&&◌, ◌||◌, not, Option, none, some,
  List, [], ◌∷◌, ◌++◌, ltb, leb, ◌==◌, if◌then◌else◌, length, Result, ok, err,
}
use mathlib.Core.Option
use mathlib.Core.Option.{get_or as unwrap_or}
use mikrotik_quality_agent.Controller.Wire.{is_nil, trim_start, trim_end, parse_u64, to_digit}

-- `MAX_REST_DURATION`, in seconds.
abbrev pub max_rest_duration : ℕ
max_rest_duration = 45

abbrev pub cpu_saturated_pct : ℕ
cpu_saturated_pct = 90

abbrev pub cpu_busy_pct : ℕ
cpu_busy_pct = 70

pub data Protocol : Type 0 where
  tcp udp : Protocol

pub data Direction : Type 0 where
  receive transmit both : Direction

pub record BtestConfig : Type 0 where
  pub address : String
  pub direction : Direction
  pub protocol : Protocol
  pub duration : ℕ
  pub user : String
  pub password : String
  pub connection_count : Option ℕ
  pub local_tx_speed : Option ℕ
  pub remote_tx_speed : Option ℕ

-- The body of the request, and whether the note on a reduced duration goes with it.
pub record Request : Type 0 where
  pub address : String
  pub duration_s : ℕ
  pub direction : Direction
  pub protocol : Protocol
  pub user : String
  pub password : String
  pub connection_count : Option ℕ
  pub local_tx_speed : Option ℕ
  pub remote_tx_speed : Option ℕ

abbrev pub is_udp : Protocol → Bool
is_udp tcp = false
is_udp udp = true

-- The whole seconds of the duration, at least one.
abbrev pub asked_secs : BtestConfig → ℕ
asked_secs cfg = max (cfg.duration / 1000000000) 1

unfoldable pub to_request : BtestConfig → Request × Bool
to_request cfg =
    let too_long = ltb max_rest_duration (asked_secs cfg) in
    (
      record {
        address = cfg.address;
        duration_s = if too_long then max_rest_duration else asked_secs cfg;
        direction = cfg.direction;
        protocol = cfg.protocol;
        user = cfg.user;
        password = cfg.password;
        connection_count = if is_udp cfg.protocol then none else cfg.connection_count;
        local_tx_speed = cfg.local_tx_speed;
        remote_tx_speed = cfg.remote_tx_speed;
      },
      too_long,
    )

pub data CpuVerdict : Type 0 where
  link_limited router_contributing router_limited : CpuVerdict

pub data Note : Type 0 where
  duration_reduced : ℕ → Note
  cpu_saturated : ℕ → Note
  cpu_busy : ℕ → Note
  both_contend : Note
  udp_loss_expected : Note

pub record BtestResult : Type 0 where
  pub protocol : Protocol
  pub direction : Direction
  pub tx_bps : Option ℕ
  pub rx_bps : Option ℕ
  pub duration_s : ℕ
  pub local_cpu_load : Option ℕ
  pub remote_cpu_load : Option ℕ
  pub lost_packets : Option ℕ
  pub connection_count : Option ℕ
  pub status : List ℕ
  pub cpu_verdict : CpuVerdict
  pub notes : List Note

pub data BtestError : Type 0 where
  not_a_list : BtestError
  no_results : BtestError
  did_not_run : (status : List ℕ) → BtestError

-- The value of a key: a string, the text of a number, or neither.
pub data Field : Type 0 where
  text : List ℕ → Field
  number : List ℕ → Field
  neither : Field

abbrev pub text_of : Field → List ℕ
text_of (text cs) = cs
text_of (number cs) = cs
text_of neither = []

-- The seconds of a unit.
abbrev pub unit_secs : ℕ → ℕ
unit_secs c =
    if c == 100
    then 86400
    else (if c == 104 then 3600 else (if c == 109 then 60 else (if c == 115 then 1 else 0)))

-- The loop of `parse_secs`, in arithmetic of 64 bits that wraps around, as in a release build.
abbrev pub next_num : ℕ → ℕ → ℕ
next_num num d = (num * 10 + d) % 2 ^ 64

abbrev pub next_total : ℕ → ℕ → ℕ → ℕ
next_total total num c = (total + num * unit_secs c % 2 ^ 64) % 2 ^ 64

unfoldable pub secs_from : ℕ → ℕ → List ℕ → ℕ
secs_from total num [] = total
secs_from total num (c ∷ cs) = elim (to_digit 10 c) [
  | some d ↦ secs_from total (next_num num d) cs
  | none ↦ secs_from (next_total total num c) 0 cs
]

unfoldable pub parse_secs : List ℕ → ℕ
parse_secs cs = secs_from 0 0 cs

-- `str::contains`.
abbrev pub starts_with : List ℕ → List ℕ → Bool
starts_with [] cs = true
starts_with (x ∷ xs) [] = false
starts_with (x ∷ xs) (c ∷ cs) = (x == c) && starts_with xs cs

abbrev pub contains_text : List ℕ → List ℕ → Bool
contains_text needle [] = starts_with needle []
contains_text needle (c ∷ cs) = starts_with needle (c ∷ cs) || contains_text needle cs

abbrev pub connect_text : List ℕ
connect_text = 99 ∷ 111 ∷ 110 ∷ 110 ∷ 101 ∷ 99 ∷ 116 ∷ []

abbrev pub done_text : List ℕ
done_text = 100 ∷ 111 ∷ 110 ∷ 101 ∷ []

abbrev pub greater : Option ℕ → Option ℕ → Option ℕ
greater none b = b
greater (some a) none = some a
greater (some a) (some b) = some (max a b)

unfoldable pub cpu_verdict : Option ℕ → CpuVerdict
cpu_verdict none = link_limited
cpu_verdict (some c) =
    if leb cpu_saturated_pct c
    then router_limited
    else (if leb cpu_busy_pct c then router_contributing else link_limited)

abbrev pub cpu_notes : CpuVerdict → ℕ → List Note
cpu_notes router_limited c = cpu_saturated c ∷ []
cpu_notes router_contributing c = cpu_busy c ∷ []
cpu_notes link_limited c = []

abbrev pub direction_notes : Direction → List Note
direction_notes both = both_contend ∷ []
direction_notes receive = []
direction_notes transmit = []

abbrev pub protocol_notes : Protocol → List Note
protocol_notes udp = udp_loss_expected ∷ []
protocol_notes tcp = []

abbrev pub last_row : {R : Type 0} → List R → Option R
last_row [] = none
last_row (r ∷ []) = some r
last_row (r ∷ s ∷ rows) = last_row (s ∷ rows)

module _ (is_space : ℕ → Bool) where
  abbrev pub u64_of : Field → Option ℕ
  u64_of f =
      let raw = text_of f in
      if is_nil raw then none else parse_u64 10 (trim_end is_space (trim_start is_space raw))

  abbrev pub u8_of : Field → Option ℕ
  u8_of f = Option.map (λ n. min n 100) (u64_of f)

  -- The result that the last row tells.
  abbrev pub result_of : BtestConfig → (String → Field) → BtestResult
  result_of cfg last =
      let local_cpu = u8_of (last "local-cpu-load") in
      let remote_cpu = u8_of (last "remote-cpu-load") in
      let worst = greater local_cpu remote_cpu in
      record {
        protocol = cfg.protocol;
        direction = cfg.direction;
        tx_bps = u64_of (last "tx-total-average");
        rx_bps = u64_of (last "rx-total-average");
        duration_s = parse_secs (text_of (last "duration"));
        local_cpu_load = local_cpu;
        remote_cpu_load = remote_cpu;
        lost_packets = if is_udp cfg.protocol then u64_of (last "lost-packets") else none;
        connection_count = Option.map (λ v. v % 2 ^ 32) (u64_of (last "connection-count"));
        status = text_of (last "status");
        cpu_verdict = cpu_verdict worst;
        notes =
            cpu_notes (cpu_verdict worst) (unwrap_or worst 0)
            ++ (direction_notes cfg.direction ++ protocol_notes cfg.protocol);
      }

  abbrev pub read_last : BtestConfig → ℕ → Option (String → Field) → Result BtestError BtestResult
  read_last cfg n none = err no_results
  read_last cfg n (some last) =
      let status = text_of (last "status") in
      if contains_text connect_text status && (not (contains_text done_text status) && (n == 1))
      then err (did_not_run status)
      else ok (result_of cfg last)

  -- `parse`, of the rows of the answer, or of `none` where it is not a list.
  unfoldable pub parse :
      BtestConfig → Option (List (String → Field)) → Result BtestError BtestResult
  parse cfg none = err not_a_list
  parse cfg (some rows) = read_last cfg (length rows) (last_row rows)

  -- `run`, from the router's answer on.
  abbrev pub noted : BtestConfig → Bool → BtestResult → BtestResult
  noted cfg true r = record r { notes = duration_reduced (asked_secs cfg) ∷ r.notes }
  noted cfg false r = r

  abbrev pub run_answer :
      BtestConfig → Result BtestError BtestResult → Result BtestError BtestResult
  run_answer cfg (err e) = err e
  run_answer cfg (ok r) = ok (noted cfg (to_request cfg).1 r)

  unfoldable pub run : BtestConfig → Option (List (String → Field)) → Result BtestError BtestResult
  run cfg answer = run_answer cfg (parse cfg answer)
