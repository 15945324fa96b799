-- ===== src/Breaker/Guarded.antt =====
-- src/shortener/breaker.py, `BreakerGuardedLimiter`: the breaker in front of a limiter that may fail.
pub mod Availability
pub mod Outage
use url_shortener_100x.Prelude.{
  ℕ, ◌+◌, Bool, true, false, if◌then◌else◌, Text, Result, ok, raise, is_ok,
}
use url_shortener_100x.Limiter.{Decision}
use url_shortener_100x.Limiter.FailOpen.{unread}
use url_shortener_100x.Breaker.{CircuitBreaker, new_breaker, allow, record_success, record_failure}

pub record GuardedLimiter (L : Type 0) : Type 0 where
  pub limiter : L
  pub fail_open : Bool
  pub breaker : CircuitBreaker
  pub fail_open_count : ℕ
  pub error_count : ℕ

-- `BreakerGuardedLimiter(limiter, fail_open, failure_threshold, cooldown_s)`
unfoldable pub new_guarded : {L : Type 0} → L → Bool → ℕ → ℕ → GuardedLimiter L
unfolding new_breaker
new_guarded limiter fail_open failure_threshold cooldown = record {
  limiter = limiter;
  fail_open = fail_open;
  breaker = new_breaker failure_threshold cooldown;
  fail_open_count = 0;
  error_count = 0;
}

module _ {L : Type 0} where
  -- What follows the inner call: `later` is the breaker's clock when it has failed.
  unfoldable pub after_inner :
      GuardedLimiter L → L × Result Decision → ℕ → GuardedLimiter L × Result Decision
  unfolding record_success record_failure
  after_inner g (limiter, ok decision) later =
      (record g { limiter = limiter; breaker = record_success g.breaker }, ok decision)
  after_inner g (limiter, raise e) later = (
    record g {
      limiter = limiter;
      breaker = record_failure g.breaker later;
      error_count = g.error_count + 1;
      fail_open_count = g.fail_open_count + 1;
    },
    ok (unread g.fail_open),
  )

module _ {L : Type 0} (inner : L → Text → ℕ → L × Result Decision) where
  unfoldable pub check : GuardedLimiter L → Text → ℕ → ℕ → ℕ → GuardedLimiter L × Result Decision
  unfolding allow after_inner
  check g client_id cost now later =
      let (breaker, answer) = allow g.breaker now in
      let asked = record g { breaker = breaker } in
      elim answer [
        | raise e ↦ (asked, raise e)
        | ok permitted ↦
            if permitted
            then after_inner asked (inner g.limiter client_id cost) later
            else (record asked { fail_open_count = g.fail_open_count + 1 }, ok (unread g.fail_open))
      ]
