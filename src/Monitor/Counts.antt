-- ===== src/Monitor/Counts.antt =====
-- event_collector.go, pvc_collector.go and coredns_collector.go.
use losant_device.Prelude.{
  ℕ, ◌+◌, ◌*◌, ◌^◌, ◌≤◌, String, Bool, false, ◌&&◌, Option, none, some, List, [], ◌∷◌, length,
  str_eq, arith, if◌then◌else◌, ◌==◌,
}
use losant_device.Prelude.Int.{pos, negsuc, ◌-ℤ◌, ◌≤ℤ◌, ltb_ℤ, -ℤ_parts}
use losant_device.Go.{Time, Duration, after}
use losant_device.Kube.{Deployment}

abbrev pub warning_window : Duration
warning_window = pos (3600 * 10 ^ 9)

-- corev1.Event in the fields read.
pub record Event : Type 0 where
  pub type_name : String
  pub last_timestamp : Time
  pub event_time : Time

-- t.IsZero()
abbrev pub is_zero_time : Time → Bool
is_zero_time (pos n) = n == 0
is_zero_time (negsuc n) = false

-- the time of an event: its LastTimestamp if set, otherwise its EventTime
abbrev pub timestamp : Event → Time
timestamp ev = if is_zero_time ev.last_timestamp then ev.event_time else ev.last_timestamp

abbrev pub is_recent_warning : Time → Event → Bool
is_recent_warning cutoff ev = str_eq ev.type_name "Warning" && after (timestamp ev) cutoff

-- the loop over the events
unfoldable pub count_warnings : Time → ℕ → List Event → ℕ
count_warnings cutoff count [] = count
count_warnings cutoff count (ev ∷ events) =
    count_warnings cutoff (if is_recent_warning cutoff ev then count + 1 else count) events

-- `now` is the instant that time.Now() reads.
unfoldable pub count_recent_warnings : Time → List Event → ℕ
unfolding count_warnings
count_recent_warnings now events = count_warnings (now -ℤ warning_window) 0 events

-- The loop over the claims, which are given by the text of their phase.
unfoldable pub count_degraded : ℕ → List String → ℕ
count_degraded count [] = count
count_degraded count (phase ∷ pvcs) =
    count_degraded (if str_eq phase "Bound" then count else count + 1) pvcs

unfoldable pub count_degraded_pvcs : List String → ℕ
unfolding count_degraded
count_degraded_pvcs = count_degraded 0

unfoldable pub is_core_dns_healthy : Option Deployment → Bool
is_core_dns_healthy none = false
is_core_dns_healthy (some deploy) = ltb_ℤ (pos 0) deploy.available_replicas

later_recent :
    (c d : Time) (ev : Event) (m n : ℕ)
    → c ≤ℤ d
    → m ≤ n
    → (if is_recent_warning d ev then m + 1 else m) ≤ (if is_recent_warning c ev then n + 1 else n)
later_recent c d ev m n le h = ground arith

later_counts_less :
    (c d : Time) (events : List Event) (m n : ℕ)
    → c ≤ℤ d
    → m ≤ n
    → count_warnings d m events ≤ count_warnings c n events
unfolding count_warnings
later_counts_less c d [] m n le h = h
later_counts_less c d (ev ∷ events) m n le h =
    later_counts_less c d events _ _ le (later_recent c d ev m n le h)

-- Over the same events a later reading of the clock counts no more warnings.
pub count_recent_warnings-antitone :
    (now later : Time) (events : List Event)
    → now ≤ℤ later
    → count_recent_warnings later events ≤ count_recent_warnings now events
unfolding count_recent_warnings
count_recent_warnings-antitone now later events h =
    later_counts_less (now -ℤ warning_window) (later -ℤ warning_window) events 0 0
      (omega (arith, -ℤ_parts now warning_window, -ℤ_parts later warning_window)) (omega arith)

-- The count does not exceed the number of events.
count_warnings-le :
    (cutoff : Time) (events : List Event) (n : ℕ)
    → count_warnings cutoff n events ≤ n + length events
unfolding count_warnings
count_warnings-le cutoff [] n = omega arith
count_warnings-le cutoff (ev ∷ events) n =
    let m : ℕ = if is_recent_warning cutoff ev then n + 1 else n in
    let step : m ≤ n + 1 = ground arith in omega (arith, step, count_warnings-le cutoff events m)
