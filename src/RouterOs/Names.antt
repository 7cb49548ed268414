-- ===== src/RouterOs/Names.antt =====
-- agent/src/routeros/btest.rs: the names of a protocol and of a direction, as lists of code points.
use mikrotik_quality_agent.Base.{
  ℕ, ◌+◌, Bool, true, false, ◌&&◌, ◌||◌, Option, none, some, List, [], ◌∷◌, map, leb, ◌==◌,
  if◌then◌else◌,
}
use mikrotik_quality_agent.Controller.Wire.{trim_start, trim_end}
use mikrotik_quality_agent.RouterOs.Btest.{Protocol, tcp, udp, Direction, receive, transmit, both}

abbrev pub same_text : List ℕ → List ℕ → Bool
same_text [] [] = true
same_text [] (y ∷ ys) = false
same_text (x ∷ xs) [] = false
same_text (x ∷ xs) (y ∷ ys) = (x == y) && same_text xs ys

-- `to_ascii_lowercase`.
abbrev pub to_lower : ℕ → ℕ
to_lower c = if leb 65 c && leb c 90 then c + 32 else c

-- `as_str`, of a protocol and of a direction.
abbrev pub protocol_text : Protocol → List ℕ
protocol_text tcp = 116 ∷ 99 ∷ 112 ∷ []
protocol_text udp = 117 ∷ 100 ∷ 112 ∷ []

abbrev pub direction_text : Direction → List ℕ
direction_text receive = 114 ∷ 101 ∷ 99 ∷ 101 ∷ 105 ∷ 118 ∷ 101 ∷ []
direction_text transmit = 116 ∷ 114 ∷ 97 ∷ 110 ∷ 115 ∷ 109 ∷ 105 ∷ 116 ∷ []
direction_text both = 98 ∷ 111 ∷ 116 ∷ 104 ∷ []

-- The other spellings of a direction: rx and download, tx and upload, bidirectional.
abbrev pub other_text : Direction → List (List ℕ)
other_text receive = (114 ∷ 120 ∷ []) ∷ (100 ∷ 111 ∷ 119 ∷ 110 ∷ 108 ∷ 111 ∷ 97 ∷ 100 ∷ []) ∷ []
other_text transmit = (116 ∷ 120 ∷ []) ∷ (117 ∷ 112 ∷ 108 ∷ 111 ∷ 97 ∷ 100 ∷ []) ∷ []
other_text both =
    (98 ∷ 105 ∷ 100 ∷ 105 ∷ 114 ∷ 101 ∷ 99 ∷ 116 ∷ 105 ∷ 111 ∷ 110 ∷ 97 ∷ 108 ∷ []) ∷ []

abbrev pub any_text : List ℕ → List (List ℕ) → Bool
any_text cs [] = false
any_text cs (t ∷ ts) = same_text cs t || any_text cs ts

abbrev pub names_direction : List ℕ → Direction → Bool
names_direction cs d = any_text cs (direction_text d ∷ other_text d)

module _ (is_space : ℕ → Bool) where
  abbrev pub plain : List ℕ → List ℕ
  plain cs = map to_lower (trim_end is_space (trim_start is_space cs))

  unfoldable pub parse_protocol : List ℕ → Option Protocol
  parse_protocol cs =
      let t = plain cs in
      if same_text t (protocol_text tcp)
      then some tcp
      else (if same_text t (protocol_text udp) then some udp else none)

  unfoldable pub parse_direction : List ℕ → Option Direction
  parse_direction cs =
      let t = plain cs in
      if names_direction t receive
      then some receive
      else (if names_direction t transmit
          then some transmit
          else (if names_direction t both then some both else none))
