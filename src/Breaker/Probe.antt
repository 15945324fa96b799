-- ===== src/Breaker/Probe.antt =====
-- src/shortener/breaker.py, a `CircuitBreaker` that callers ask while it is open, and one that trips.
use url_shortener_100x.Prelude.{
  ℕ, ◌+◌, ◌≤◌, ◌<◌, ◌≡◌, refl, Bool, true, false, some, arith, Result, ok, List, [], ◌∷◌, ◌++◌,
  length, All,
}
use url_shortener_100x.Breaker.{closed, opened, half_open, CircuitBreaker, allow, record_failure}

-- `allow` for one caller after another.
unfoldable pub asks : CircuitBreaker → List ℕ → CircuitBreaker × List (Result Bool)
asks b [] = (b, [])
asks b (now ∷ nows) =
    let (b', answer) = allow b now in let rest = asks b' nows in (rest.0, answer ∷ rest.1)

abbrev pub IsRefused : Result Bool → Type 0
IsRefused answer = answer ≡ ok false

-- What a run of refusals leaves: only the count of short circuits has moved.
abbrev pub short_circuits : CircuitBreaker → ℕ → CircuitBreaker
short_circuits b n = record b { short_circuited = b.short_circuited + n }

module _ (now : ℕ) (nows : List ℕ) (b : CircuitBreaker) where
  asks-IsRefused :
      allow b now ≡ (short_circuits b 1, ok false)
      → (asks (short_circuits b 1) nows).0 ≡ short_circuits (short_circuits b 1) (length nows)
      → All IsRefused (asks (short_circuits b 1) nows).1
      → ((asks b (now ∷ nows)).0 ≡ short_circuits b (length (now ∷ nows)))
        × All IsRefused (asks b (now ∷ nows)).1
  unfolding asks
  asks-IsRefused e same refused = rw (e, asks) (ground arith, (refl, refused))

half_open_refuses :
    (nows : List ℕ) (b : CircuitBreaker)
    → b.state ≡ half_open
    → ((asks b nows).0 ≡ short_circuits b (length nows)) × All IsRefused (asks b nows).1
half_open_refuses [] b h = (unfold asks in ground arith, unfold asks in tt)
half_open_refuses (now ∷ nows) b h =
    let (same, refused) = half_open_refuses nows (short_circuits b 1) h in
    asks-IsRefused now nows b (unfold allow in ground arith) same refused

-- Until the cooldown is over, an open circuit refuses every caller at once; it stays open with the
-- same opening time, and only the count of short circuits moves.
open_refuses :
    (nows : List ℕ) (b : CircuitBreaker) (t : ℕ)
    → b.state ≡ opened
    → b.opened_at ≡ some t
    → All (λ now. now < t + b.cooldown) nows
    → ((asks b nows).0 ≡ short_circuits b (length nows)) × All IsRefused (asks b nows).1
open_refuses [] b t h o early = (unfold asks in ground arith, unfold asks in tt)
open_refuses (now ∷ nows) b t h o early =
    let (same, refused) = open_refuses nows (short_circuits b 1) t h o early.1 in
    asks-IsRefused now nows b (unfold allow in ground (arith, early.0)) same refused

-- After the cooldown exactly one caller gets through: the first is admitted as the probe, and
-- however many ask after it, at whatever time, each is refused until an outcome is recorded.
pub one_probe :
    (now : ℕ) (nows : List ℕ) (b : CircuitBreaker) (t : ℕ)
    → b.state ≡ opened
    → b.opened_at ≡ some t
    → t + b.cooldown ≤ now
    → ((allow b now).1 ≡ ok true)
      × ((asks (allow b now).0 nows).0.state ≡ half_open)
      × ((asks (allow b now).0 nows).0.probes ≡ b.probes + 1)
      × All IsRefused (asks (allow b now).0 nows).1
one_probe now nows b t h o late =
    let probing : allow b now ≡ (record b { state = half_open; probes = b.probes + 1 }, ok true) =
      unfold allow in ground arith in
    let (same, refused) =
      half_open_refuses nows (record b { state = half_open; probes = b.probes + 1 }) refl in
    rw (probing, same) (refl, refl, refl, refused)

-- `n` failures in a row, each with its clock reading.
unfoldable pub failures : CircuitBreaker → List ℕ → CircuitBreaker
failures b [] = b
failures b (now ∷ nows) = failures (record_failure b now) nows

record_failure_closed :
    (b : CircuitBreaker) (now : ℕ)
    → b.state ≡ closed
    → b.consecutive_failures + 1 < b.failure_threshold
    → record_failure b now ≡ record b { consecutive_failures = b.consecutive_failures + 1 }
unfolding record_failure
record_failure_closed b now h few = ground arith

-- From a success on, fewer failures in a row than the threshold leave the circuit closed, and the
-- failure that reaches the threshold trips it once.
failures_trip :
    (nows : List ℕ) (last : ℕ) (b : CircuitBreaker)
    → b.state ≡ closed
    → b.consecutive_failures + length nows + 1 ≡ b.failure_threshold
    → ((failures b nows).state ≡ closed)
      × (failures b (nows ++ last ∷ []) ≡ record b {
        consecutive_failures = b.failure_threshold;
        state = opened;
        opened_at = some last;
        trips = b.trips + 1;
      })
unfolding failures
failures_trip [] last b h n = (h, unfold record_failure in ground arith)
failures_trip (now ∷ nows) last b h n =
    let ih =
      failures_trip nows last (record b { consecutive_failures = b.consecutive_failures + 1 }) h
        (omega arith) in
    rw (record_failure_closed b now h (omega arith), failures) ih
