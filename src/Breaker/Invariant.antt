-- ===== src/Breaker/Invariant.antt =====
-- src/shortener/breaker.py, sequences of operations on a `CircuitBreaker`.
use url_shortener_100x.Prelude.{
  ℕ, ◌≤◌, ◌<◌, ◌≡◌, ◌≢◌, Bool, true, none, arith, ok, is_ok, is_ok_lem, List, [], ◌∷◌,
}
use url_shortener_100x.Breaker.{closed, CircuitBreaker, allow, record_success, record_failure}

pub record IsValid (b : CircuitBreaker) : Type 0 where
  pub positive : 0 < b.failure_threshold
  pub below : b.state ≡ closed → b.consecutive_failures < b.failure_threshold
  pub over : b.state ≢ closed → b.failure_threshold ≤ b.consecutive_failures
  pub has_opened : b.state ≢ closed → b.opened_at ≢ none

-- An operation with the clock that it reads.
pub data Op : Type 0 where
  ask : ℕ → Op
  success : Op
  failure : ℕ → Op

unfoldable pub apply : CircuitBreaker → Op → CircuitBreaker
apply b (ask now) = (allow b now).0
apply b success = record_success b
apply b (failure now) = record_failure b now

module _ (b : CircuitBreaker) (now : ℕ) (v : IsValid b) where
  pub allow-IsValid : IsValid (allow b now).0
  unfolding allow
  allow-IsValid = ground (arith, v.below, v.over, v.has_opened)

  pub record_failure-IsValid : IsValid (record_failure b now)
  unfolding record_failure
  record_failure-IsValid = ground (arith, v.below, v.over, v.has_opened)

pub record_success-IsValid : (b : CircuitBreaker) → IsValid b → IsValid (record_success b)
unfolding record_success
record_success-IsValid b v = ground (arith, v.below, v.over, v.has_opened)

apply-IsValid : (b : CircuitBreaker) (o : Op) → IsValid b → IsValid (apply b o)
unfolding apply
apply-IsValid b (ask now) v = allow-IsValid b now v
apply-IsValid b success v = record_success-IsValid b v
apply-IsValid b (failure now) v = record_failure-IsValid b now v

unfoldable pub run : CircuitBreaker → List Op → CircuitBreaker
run b [] = b
run b (o ∷ ops) = run (apply b o) ops

pub allow-is_ok : (b : CircuitBreaker) (now : ℕ) → IsValid b → is_ok (allow b now).1 ≡ true
unfolding allow
allow-is_ok b now v = ground (arith, v.has_opened)

pub allow-returns :
    (b : CircuitBreaker) (now : ℕ) → IsValid b → (answer : Bool) × ((allow b now).1 ≡ ok answer)
allow-returns b now v = is_ok_lem (allow b now).1 (allow-is_ok b now v)

-- After any operations on a fresh breaker, at whatever clock readings, the circuit is closed exactly
-- while the failures in a row are below the threshold, an open one knows when it opened, and so
-- `allow` answers and does not raise.
allow-run :
    (ops : List Op) (b : CircuitBreaker) (now : ℕ)
    → IsValid b
    → IsValid (run b ops) × ((answer : Bool) × ((allow (run b ops) now).1 ≡ ok answer))
unfolding run
allow-run [] b now v = (v, allow-returns b now v)
allow-run (o ∷ ops) b now v = allow-run ops (apply b o) now (apply-IsValid b o v)
