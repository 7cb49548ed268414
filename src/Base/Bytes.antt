-- ===== src/Base/Bytes.antt =====
-- Byte buffers: big-endian numbers (`to_be_bytes`, `from_be_bytes`), slices, and writes in place
-- (`buf[a..b].copy_from_slice(..)`), with their laws.
use Prim.Native.Nat.{ℕ, zero, suc, ◌+◌, ◌*◌, ◌/◌, ◌%◌, ◌^◌, ◌≤◌, ◌<◌}
use mathlib.Core.Path.{◌≡◌, refl, sym, ap, ap₂, ◌∙◌}
use mathlib.Core.List.{List, [], ◌∷◌}
use native.Mathlib.Nat.{
  pow-suc, one-le-pow, div-add-mod, div-div-eq-div-mul, mod-eq_of_lt, mul-le-mul_right,
  mul-add-div_right, div-eq_of_lt,
}
use native.Mathlib.Omega.{arith}
use mikrotik_quality_agent.Base.Lists.{length, take, drop, get_or, set}

-- The `width` lowest bytes of a number, highest first.
abbrev pub to_be_bytes : ℕ → ℕ → List ℕ
to_be_bytes zero v = []
to_be_bytes (suc width) v = v / 256 ^ width % 256 ∷ to_be_bytes width v

abbrev pub from_be_acc : ℕ → List ℕ → ℕ
from_be_acc acc [] = acc
from_be_acc acc (b ∷ bs) = from_be_acc (acc * 256 + b) bs

abbrev pub from_be_bytes : List ℕ → ℕ
from_be_bytes bs = from_be_acc 0 bs

abbrev pub IsBytes : List ℕ → Type 0
IsBytes [] = Unit {0}
IsBytes (b ∷ bs) = (b < 256) × IsBytes bs

-- `buf[from..from + count]`.
abbrev pub slice : ℕ → ℕ → List ℕ → List ℕ
slice from count buf = take count (drop from buf)

abbrev pub overlay : List ℕ → List ℕ → List ℕ
overlay [] buf = buf
overlay (b ∷ bs) [] = []
overlay (b ∷ bs) (x ∷ buf) = b ∷ overlay bs buf

-- `buf[from..from + length bytes].copy_from_slice(bytes)`.
abbrev pub write : ℕ → List ℕ → List ℕ → List ℕ
write zero bytes buf = overlay bytes buf
write (suc from) bytes [] = []
write (suc from) bytes (x ∷ buf) = x ∷ write from bytes buf

pub length-overlay : (bytes buf : List ℕ) → length (overlay bytes buf) ≡ length buf
length-overlay [] buf = refl
length-overlay (b ∷ bytes) [] = refl
length-overlay (b ∷ bytes) (x ∷ buf) = ap suc (length-overlay bytes buf)

pub length-write : (from : ℕ) (bytes buf : List ℕ) → length (write from bytes buf) ≡ length buf
length-write zero bytes buf = length-overlay bytes buf
length-write (suc from) bytes [] = refl
length-write (suc from) bytes (x ∷ buf) = ap suc (length-write from bytes buf)

take-overlay :
    (n : ℕ) (bytes buf : List ℕ)
    → length bytes ≤ n
    → take n (overlay bytes buf) ≡ overlay bytes (take n buf)
take-overlay n [] buf h = refl
take-overlay zero (b ∷ bytes) buf h = absurd (omega arith)
take-overlay (suc n) (b ∷ bytes) [] h = refl
take-overlay (suc n) (b ∷ bytes) (x ∷ buf) h = ap (◌∷◌ b) (take-overlay n bytes buf (omega arith))

-- A write in front of a cut commutes with the cut.
pub take-write :
    (n from : ℕ) (bytes buf : List ℕ)
    → from + length bytes ≤ n
    → take n (write from bytes buf) ≡ write from bytes (take n buf)
take-write n zero bytes buf h = take-overlay n bytes buf (omega arith)
take-write zero (suc from) bytes buf h = absurd (omega arith)
take-write (suc n) (suc from) bytes [] h = refl
take-write (suc n) (suc from) bytes (x ∷ buf) h =
    ap (◌∷◌ x) (take-write n from bytes buf (omega arith))

-- To prove `P` of a buffer of at least `n` bytes, prove it of `n` bytes written out and a rest.
abbrev pub ForEach {ℓ} : ℕ → (List ℕ → Type ℓ) → Type ℓ
ForEach zero P = (rest : List ℕ) → P rest
ForEach (suc n) P = (b : ℕ) → ForEach n (λ buf. P (b ∷ buf))

pub written_out {ℓ} :
    (n : ℕ) (P : List ℕ → Type ℓ) → ForEach n P → (buf : List ℕ) → n ≤ length buf → P buf
written_out zero P each buf h = each buf
written_out (suc n) P each [] h = absurd (omega arith)
written_out (suc n) P each (b ∷ buf) h =
    written_out n (λ rest. P (b ∷ rest)) (each b) buf (omega arith)

pub IsBytes-take : (n : ℕ) (buf : List ℕ) → IsBytes buf → IsBytes (take n buf)
IsBytes-take zero buf h = tt
IsBytes-take (suc n) [] h = tt
IsBytes-take (suc n) (b ∷ buf) h = (h.0, IsBytes-take n buf h.1)

pub IsBytes-drop : (n : ℕ) (buf : List ℕ) → IsBytes buf → IsBytes (drop n buf)
IsBytes-drop zero buf h = h
IsBytes-drop (suc n) [] h = tt
IsBytes-drop (suc n) (b ∷ buf) h = IsBytes-drop n buf h.1

pub IsBytes-slice : (from n : ℕ) (buf : List ℕ) → IsBytes buf → IsBytes (slice from n buf)
IsBytes-slice from n buf h = IsBytes-take n (drop from buf) (IsBytes-drop from buf h)

pub IsBytes-byte : (buf : List ℕ) (i : ℕ) → IsBytes buf → get_or buf i 0 < 256
IsBytes-byte [] i h = omega arith
IsBytes-byte (b ∷ buf) zero h = h.0
IsBytes-byte (b ∷ buf) (suc i) h = IsBytes-byte buf i h.1

pub IsBytes-set : (buf : List ℕ) (i v : ℕ) → IsBytes buf → v < 256 → IsBytes (set buf i v)
IsBytes-set [] i v h p = tt
IsBytes-set (b ∷ buf) zero v h p = (p, h.1)
IsBytes-set (b ∷ buf) (suc i) v h p = (h.0, IsBytes-set buf i v h.1 p)

-- The digit at a place, and those below it.
split_digit : (v p : ℕ) → v % (p * 256) ≡ v / p % 256 * p + v % p
split_digit v p = omega (
  arith,
  div-add-mod v (p * 256),
  ap (λ t. p * 256 * t) (sym (div-div-eq-div-mul v p 256)),
  div-add-mod v p,
  ap (λ t. p * t) (div-add-mod (v / p) 256),
)

pow_step : (width : ℕ) → 256 ^ suc width ≡ 256 ^ width * 256
pow_step width = pow-suc 256 width

from_be_acc-to_be_bytes :
    (width acc v : ℕ) → from_be_acc acc (to_be_bytes width v) ≡ acc * 256 ^ width + v % 256 ^ width
from_be_acc-to_be_bytes zero acc v = omega arith
from_be_acc-to_be_bytes (suc width) acc v = omega (
  arith,
  from_be_acc-to_be_bytes width (acc * 256 + v / 256 ^ width % 256) v,
  ap (λ t. acc * t) (pow_step width),
  ap (λ t. v % t) (pow_step width),
  split_digit v (256 ^ width),
)

-- Reading what was written gives the number back, if it fits the width.
pub from_be_bytes-to_be_bytes :
    (width v : ℕ) → v < 256 ^ width → from_be_bytes (to_be_bytes width v) ≡ v
from_be_bytes-to_be_bytes width v h =
    omega (arith, from_be_acc-to_be_bytes width 0 v, mod-eq_of_lt h)

zero_acc : (b : ℕ) → 0 * 256 + b ≡ b
zero_acc b = omega arith

from_be_acc_split :
    (bs : List ℕ) (acc : ℕ) → from_be_acc acc bs ≡ acc * 256 ^ length bs + from_be_acc 0 bs
from_be_acc_split [] acc = omega arith
from_be_acc_split (b ∷ bs) acc = omega (
  arith,
  from_be_acc_split bs (acc * 256 + b),
  from_be_acc_split bs b,
  ap (λ t. acc * t) (pow_step (length bs)),
  ap (λ t. from_be_acc t bs) (zero_acc b),
)

pub from_be_bytes-lt : (bs : List ℕ) → IsBytes bs → from_be_bytes bs < 256 ^ length bs
from_be_bytes-lt [] h = omega arith
from_be_bytes-lt (b ∷ bs) h = omega (
  arith,
  from_be_acc_split bs (0 * 256 + b),
  pow_step (length bs),
  from_be_bytes-lt bs h.1,
  mul-le-mul_right {m = b} {n = 255} (256 ^ length bs) (omega arith),
)

top_byte :
    (bs : List ℕ) (a acc b : ℕ)
    → IsBytes bs
    → b < 256
    → a ≡ acc * 256 + b
    → from_be_acc a bs / 256 ^ length bs % 256 ≡ b
top_byte bs a acc b h hb e =
    let low = from_be_bytes-lt bs h in
    let whole : from_be_acc a bs / 256 ^ length bs ≡ a =
      ap (λ t. t / 256 ^ length bs) (from_be_acc_split bs a)
      ∙ mul-add-div_right (one-le-pow (length bs) 256 (omega arith)) a (from_be_bytes bs)
      ∙ omega (arith, div-eq_of_lt low) in
    omega arith

-- Writing what was read gives the bytes back.
pub to_be_bytes-from_be_bytes :
    (bs : List ℕ) (acc : ℕ) → IsBytes bs → to_be_bytes (length bs) (from_be_acc acc bs) ≡ bs
to_be_bytes-from_be_bytes [] acc h = refl
to_be_bytes-from_be_bytes (b ∷ bs) acc h =
    ap₂ ◌∷◌ (top_byte bs (acc * 256 + b) acc b h.1 h.0 refl)
      (to_be_bytes-from_be_bytes bs (acc * 256 + b) h.1)
