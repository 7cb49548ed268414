-- ===== src/Probe/Sender/Samples.antt =====
-- The samples of a run and the packets they belong to, for senders of either protocol.
use mikrotik_quality_agent.Base.{
  ℕ, zero, suc, ◌+◌, ◌≤◌, Bool, true, false, Option, none, some, List, [], ◌∷◌, ◌++◌, ◌≡◌, ◌≢◌,
  refl, sym, arith, length, length-set, set,
}
use mathlib.Core.Option.{none-ne-some}
use mikrotik_quality_agent.Probe.Sender.{sent_time, mark_sent, count_sent}
use mikrotik_quality_agent.Stats.Sample.{Sample}

-- Samples numbered from `i` on, each of a packet that was sent and in time.
abbrev pub Samples : {T : Type 0} → List (Option T) → ℕ → ℕ → List Sample → Type 0
Samples sent_at limit i [] = Unit {0}
Samples sent_at limit i (s ∷ samples) =
    (s.arrival_index ≡ i)
    × (sent_time sent_at s.seq ≢ none)
    × (s.rtt_ns ≤ limit)
    × Samples sent_at limit (suc i) samples

pub Samples-append :
    {T : Type 0} (sent_at : List (Option T)) (limit i : ℕ) (samples : List Sample) (s : Sample)
    → Samples sent_at limit i samples
    → s.arrival_index ≡ i + length samples
    → sent_time sent_at s.seq ≢ none
    → s.rtt_ns ≤ limit
    → Samples sent_at limit i (samples ++ s ∷ [])
Samples-append sent_at limit i [] s h at sent quick = (omega (arith, at), sent, quick, tt)
Samples-append sent_at limit i (x ∷ samples) s (here, was, in_time, rest) at sent quick = (
  here,
  was,
  in_time,
  Samples-append sent_at limit (suc i) samples s rest (omega (arith, at)) sent quick,
)

pub sent_time-set :
    {T : Type 0} (sent_at : List (Option T)) (k j : ℕ) (t : T)
    → sent_time sent_at j ≢ none
    → sent_time (set sent_at k (some t)) j ≢ none
sent_time-set [] k j t h = h
sent_time-set (x ∷ sent_at) zero zero t h = λ e. none-ne-some t (sym e)
sent_time-set (x ∷ sent_at) zero (suc j) t h = h
sent_time-set (x ∷ sent_at) (suc k) zero t h = h
sent_time-set (x ∷ sent_at) (suc k) (suc j) t h = sent_time-set sent_at k j t h

pub Samples-set :
    {T : Type 0} (sent_at : List (Option T)) (k : ℕ) (t : T) (limit i : ℕ) (samples : List Sample)
    → Samples sent_at limit i samples
    → Samples (set sent_at k (some t)) limit i samples
Samples-set sent_at k t limit i [] h = tt
Samples-set sent_at k t limit i (s ∷ samples) (here, was, quick, rest) = (
  here,
  sent_time-set sent_at k s.seq t was,
  quick,
  Samples-set sent_at k t limit (suc i) samples rest,
)

pub length-mark_sent :
    {T : Type 0} (sent_at : List (Option T)) (k : ℕ) (t : T) (sends : Bool)
    → length (mark_sent sent_at k t sends) ≡ length sent_at
length-mark_sent sent_at k t true = length-set sent_at k (some t)
length-mark_sent sent_at k t false = refl

pub Samples-mark_sent :
    {T : Type 0} (sent_at : List (Option T)) (k : ℕ) (t : T) (limit : ℕ) (samples : List Sample)
    (sends : Bool)
    → Samples sent_at limit 0 samples
    → Samples (mark_sent sent_at k t sends) limit 0 samples
Samples-mark_sent sent_at k t limit samples true h = Samples-set sent_at k t limit 0 samples h
Samples-mark_sent sent_at k t limit samples false h = h

pub count_sent-le : {T : Type 0} (sent_at : List (Option T)) → count_sent sent_at ≤ length sent_at
unfolding count_sent
count_sent-le [] = omega arith
count_sent-le (none ∷ sent_at) = omega (arith, count_sent-le sent_at)
count_sent-le (some t ∷ sent_at) = omega (arith, count_sent-le sent_at)
