-- ===== src/Examples/Breaker.antt =====
-- The theorems on the circuit breaker, with a limiter whose store is down.
use url_shortener_100x.Prelude.{
  ℕ, suc, List, ◌≡◌, refl, none, some, true, false, [], ◌∷◌, arith, Text, All, Result, ok, raise,
  other_error,
}
use url_shortener_100x.Limiter.{Decision}
use url_shortener_100x.Limiter.FailOpen.{FailOpenLimiter}
use url_shortener_100x.Breaker.{CircuitBreaker, closed, opened, half_open, allow}
use url_shortener_100x.Breaker.Invariant.{IsValid}
use url_shortener_100x.Breaker.Probe.{asks, IsRefused, one_probe}
use url_shortener_100x.Breaker.Guarded.{GuardedLimiter, check}
use url_shortener_100x.Breaker.Guarded.Outage.{Asked}
use url_shortener_100x.Breaker.Guarded.Availability.{Answered, Accounted, check-Answered}

abbrev fresh : CircuitBreaker
fresh = record {
  failure_threshold = 2;
  cooldown = 5;
  state = closed;
  consecutive_failures = 0;
  opened_at = none;
  short_circuited = 0;
  trips = 0;
  probes = 0;
}

abbrev tripped : CircuitBreaker
tripped = record {
  failure_threshold = 2;
  cooldown = 5;
  state = opened;
  consecutive_failures = 2;
  opened_at = some 10;
  short_circuited = 0;
  trips = 1;
  probes = 0;
}

fresh-IsValid : IsValid fresh
fresh-IsValid = record {
  positive = omega arith;
  below = λ e. omega arith;
  over = λ other. absurd (other refl);
  has_opened = λ other. absurd (other refl);
}

one_probe_example :
    ((allow tripped 15).1 ≡ ok true)
    × ((asks (allow tripped 15).0 (15 ∷ 99 ∷ [])).0.state ≡ half_open)
    × ((asks (allow tripped 15).0 (15 ∷ 99 ∷ [])).0.probes ≡ 1)
    × All IsRefused (asks (allow tripped 15).0 (15 ∷ 99 ∷ [])).1
one_probe_example = one_probe 15 (15 ∷ 99 ∷ []) tripped 10 refl refl (omega arith)

-- A store that is down, with its calls counted.
abbrev down : ℕ → Text → ℕ → ℕ × Result Decision
down calls client_id cost = (suc calls, raise other_error)

abbrev guarded : GuardedLimiter ℕ
guarded = record {
  limiter = 0;
  fail_open = false;
  breaker = fresh;
  fail_open_count = 0;
  error_count = 0;
}

check-Answered_example :
    Answered down guarded [] 1 (check down guarded [] 1 7 8).1
    × IsValid (check down guarded [] 1 7 8).0.breaker
    × Accounted down (check down guarded [] 1 7 8).0
check-Answered_example = check-Answered down guarded [] 1 7 8 fresh-IsValid refl

abbrev unguarded : FailOpenLimiter ℕ
unguarded = record { limiter = 0; fail_open = false; fail_open_count = 0; error_count = 0 }

-- Three requests: two trip the circuit, and the third is short-circuited.
abbrev outage_requests : List Asked
outage_requests =
    record { client_id = 65 ∷ []; cost = 1; now = 7; later = 8 }
    ∷ record { client_id = 66 ∷ []; cost = 1; now = 9; later = 9 }
    ∷ record { client_id = 65 ∷ []; cost = 2; now = 10; later = 12 }
    ∷ []
