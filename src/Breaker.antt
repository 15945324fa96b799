-- ===== src/Breaker.antt =====
-- src/shortener/breaker.py, `CircuitBreaker`. Times are natural numbers in one unit, the unit of
-- `cooldown`; a clock reading is an argument of the operation that reads it.
pub mod Probe
pub mod Guarded
pub mod Invariant
use url_shortener_100x.Prelude.{
  ℕ, ◌+◌, Bool, true, false, Option, none, some, List, [], ◌∷◌, leb, if◌then◌else◌, Result, ok,
  raise, circuit_open_error, type_error,
}

pub data CircuitState : Type 0 where
  closed opened half_open : CircuitState

pub record CircuitBreaker : Type 0 where
  pub failure_threshold : ℕ
  pub cooldown : ℕ
  pub state : CircuitState
  pub consecutive_failures : ℕ
  pub opened_at : Option ℕ
  pub short_circuited : ℕ
  pub trips : ℕ
  pub probes : ℕ

-- `CircuitBreaker(failure_threshold, cooldown_s)`
unfoldable pub new_breaker : ℕ → ℕ → CircuitBreaker
new_breaker failure_threshold cooldown = record {
  failure_threshold = failure_threshold;
  cooldown = cooldown;
  state = closed;
  consecutive_failures = 0;
  opened_at = none;
  short_circuited = 0;
  trips = 0;
  probes = 0;
}

-- `allow`, with the reading of the clock that an open circuit compares with. `opened_at` is set in
-- every open state that the methods reach; without it the subtraction would raise.
unfoldable pub allow : CircuitBreaker → ℕ → CircuitBreaker × Result Bool
allow b now = elim b.state [
  | closed ↦ (b, ok true)
  | opened ↦ elim b.opened_at [
    | none ↦ (b, raise type_error)
    | some t ↦
        if leb (t + b.cooldown) now
        then (record b { state = half_open; probes = b.probes + 1 }, ok true)
        else (record b { short_circuited = b.short_circuited + 1 }, ok false)
  ]
  | half_open ↦ (record b { short_circuited = b.short_circuited + 1 }, ok false)
]

unfoldable pub record_success : CircuitBreaker → CircuitBreaker
record_success b = record b { consecutive_failures = 0; state = closed; opened_at = none }

-- `if self.state is not CircuitState.OPEN: self.trips += 1`
unfoldable pub trips_after : CircuitState → ℕ → ℕ
trips_after opened trips = trips
trips_after closed trips = trips + 1
trips_after half_open trips = trips + 1

unfoldable pub record_failure : CircuitBreaker → ℕ → CircuitBreaker
unfolding trips_after
record_failure b now =
    let failures = b.consecutive_failures + 1 in
    let counted = record b { consecutive_failures = failures } in
    let over_threshold =
      if leb b.failure_threshold failures
      then record counted {
        trips = trips_after b.state b.trips;
        state = opened;
        opened_at = some now;
      }
      else counted in
    elim b.state [
      | half_open ↦ record counted { state = opened; opened_at = some now }
      | closed ↦ over_threshold
      | opened ↦ over_threshold
    ]

-- `call(fn)`: `fn` works on a state of its own; `later` is the clock when it has failed.
module _ {S A : Type 0} where
  unfoldable pub settle : CircuitBreaker → S × Result A → ℕ → CircuitBreaker × S × Result A
  settle b (s, ok a) later = (record_success b, s, ok a)
  settle b (s, raise e) later = (record_failure b later, s, raise e)

  unfoldable pub call :
      CircuitBreaker → (S → S × Result A) → S → ℕ → ℕ → CircuitBreaker × S × Result A
  unfolding allow settle record_success record_failure
  call b fn s now later =
      let (b', allowed) = allow b now in
      elim allowed [
        | raise e ↦ (b', s, raise e)
        | ok permitted ↦
            if permitted then settle b' (fn s) later else (b', s, raise circuit_open_error)
      ]
