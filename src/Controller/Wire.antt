-- ===== src/Controller/Wire.antt =====
-- agent/src/controller/client.rs: a task as the controller sends it, and what the agent makes of it.
-- A text whose characters matter is the list of its code points; `is_space` is `char::is_whitespace`.
use Prim.Native.String.{String}
use mikrotik_quality_agent.Base.{
  ℕ, ◌+◌, ◌-◌, ◌*◌, ◌^◌, Bool, true, false, ◌&&◌, ◌||◌, Option, none, some, List, [], ◌∷◌, ltb, leb,
  ◌==◌, if◌then◌else◌, Result, ok, err, ◌>>=◌,
}
use mathlib.Core.Option
use mikrotik_quality_agent.Base.Dict.{text_key}
use mikrotik_quality_agent.Controller.{ControllerError, decode_error}
use mikrotik_quality_agent.Plan.{
  Kind, mqp_probe, twamp_probe, tcp_connect, router_os_btest, path_trace, wifi_signal,
  packet_capture, Role, sender, reflector, Task,
}

pub record PeerDto : Type 0 where
  pub agent_id : String
  pub name : String
  pub address : String
  pub probe_port : ℕ

pub record TaskDto (P : Type 0) : Type 0 where
  pub task_id : String
  pub session_id : List ℕ
  pub kind : String
  pub role : String
  pub peer : Option PeerDto
  pub params : P
  pub recurring : Bool
  pub interval_s : Option ℕ
  pub expires_in_s : Option ℕ

-- What the error messages name.
pub data WireFault : Type 0 where
  unknown_kind : String → WireFault
  unknown_role : String → WireFault
  bad_session_id : List ℕ → WireFault

abbrev pub kind_of : String → Option Kind
kind_of s =
    if text_key.same s "mqp_probe"
    then some mqp_probe
    else (if text_key.same s "twamp_probe"
        then some twamp_probe
        else (if text_key.same s "tcp_connect"
            then some tcp_connect
            else (if text_key.same s "routeros_btest"
                then some router_os_btest
                else (if text_key.same s "path_trace"
                    then some path_trace
                    else (if text_key.same s "wifi_signal"
                        then some wifi_signal
                        else (if text_key.same s "packet_capture"
                            then some packet_capture
                            else none))))))

abbrev pub role_of : String → Option Role
role_of s =
    if text_key.same s "sender"
    then some sender
    else (if text_key.same s "reflector" then some reflector else none)

-- `char::to_digit`, for a radix of 10 or 16.
unfoldable pub to_digit : ℕ → ℕ → Option ℕ
to_digit radix c =
    let d =
      if leb 48 c && leb c 57
      then c - 48
      else (if leb 97 c && leb c 122
          then c - 87
          else (if leb 65 c && leb c 90 then c - 55 else 36)) in
    if ltb d radix then some d else none

-- The digits of `u64::from_str_radix`, with its check for overflow.
unfoldable pub parse_digits : ℕ → ℕ → List ℕ → Option ℕ
parse_digits radix acc [] = some acc
parse_digits radix acc (c ∷ cs) = elim (to_digit radix c) [
  | none ↦ none
  | some d ↦ elim (ltb (acc * radix + d) (2 ^ 64)) [
    | true ↦ parse_digits radix (acc * radix + d) cs
    | false ↦ none
  ]
]

abbrev pub is_nil : List ℕ → Bool
is_nil [] = true
is_nil (c ∷ cs) = false

-- `u64::from_str_radix`: one plus sign may stand in front, and there must be a digit.
unfoldable pub parse_u64 : ℕ → List ℕ → Option ℕ
parse_u64 radix [] = none
parse_u64 radix (c ∷ cs) =
    if c == 43
    then (if is_nil cs then none else parse_digits radix 0 cs)
    else parse_digits radix 0 (c ∷ cs)

-- What stands behind `0x` or `0X`.
abbrev pub strip_hex : List ℕ → Option (List ℕ)
strip_hex [] = none
strip_hex (a ∷ []) = none
strip_hex (a ∷ b ∷ cs) = if (a == 48) && ((b == 120) || (b == 88)) then some cs else none

abbrev pub seconds : Option ℕ → Option ℕ
seconds = Option.map (λ s. s * 1000000000)

module _ (is_space : ℕ → Bool) where
  abbrev pub trim_start : List ℕ → List ℕ
  trim_start [] = []
  trim_start (c ∷ cs) = let rest = trim_start cs in if is_space c then rest else c ∷ cs

  abbrev pub trim_end : List ℕ → List ℕ
  trim_end [] = []
  trim_end (c ∷ cs) = let rest = trim_end cs in if is_nil rest && is_space c then [] else c ∷ rest

  abbrev pub by_prefix : List ℕ → Option (List ℕ) → Option ℕ
  by_prefix raw (some hex) = parse_u64 16 hex
  by_prefix raw none = parse_u64 10 raw

  unfoldable pub parse_session_id : List ℕ → Option ℕ
  parse_session_id text = let raw = trim_end (trim_start text) in by_prefix raw (strip_hex raw)

  module _ (message : WireFault → String) where
    abbrev pub needed : {A : Type 0} → WireFault → Option A → Result ControllerError A
    needed fault none = err (decode_error (message fault))
    needed fault (some a) = ok a

    abbrev pub task_of : {P : Type 0} → TaskDto P → Kind → Role → ℕ → Task P
    task_of dto kind role session_id = record {
      task_id = dto.task_id;
      session_id = session_id;
      kind = kind;
      role = role;
      peer =
          Option.map
            (λ (p : PeerDto). record {
              agent_id = p.agent_id;
              name = p.name;
              address = p.address;
              probe_port = p.probe_port;
            })
            dto.peer;
      params = dto.params;
      recurring = dto.recurring;
      interval = seconds dto.interval_s;
    }

    unfoldable pub into_plan : {P : Type 0} → TaskDto P → Result ControllerError (Task P × Option ℕ)
    into_plan dto = do
      kind ← needed (unknown_kind dto.kind) (kind_of dto.kind)
      role ← needed (unknown_role dto.role) (role_of dto.role)
      session_id ← needed (bad_session_id dto.session_id) (parse_session_id dto.session_id)
      ok (task_of dto kind role session_id, seconds dto.expires_in_s)
