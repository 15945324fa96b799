-- ===== src/Breaker/Guarded/Availability.antt =====
-- src/shortener/breaker.py, the answers and the counters of `BreakerGuardedLimiter.check`.
use url_shortener_100x.Prelude.{
  ℕ, ◌+◌, ◌<◌, ◌≡◌, refl, ◌⊎◌, inl, inr, Bool, true, false, if◌then◌else◌, arith, some, Text,
  Result, ok, raise,
}
use url_shortener_100x.Limiter.{Decision}
use url_shortener_100x.Limiter.FailOpen.{unread}
use url_shortener_100x.Breaker.{opened, CircuitBreaker, allow, record_success, record_failure}
use url_shortener_100x.Breaker.Invariant.{
  IsValid, allow-IsValid, record_success-IsValid, record_failure-IsValid, allow-returns,
}
use url_shortener_100x.Breaker.Guarded.{GuardedLimiter, check, after_inner}

module _ {L : Type 0} (inner : L → Text → ℕ → L × Result Decision) where
  -- The decision is the one of the limiter inside, or the configured answer.
  abbrev pub Answered : GuardedLimiter L → Text → ℕ → Result Decision → Type 0
  Answered g client_id cost (ok d) =
      ((inner g.limiter client_id cost).1 ≡ ok d) ⊎ (d ≡ unread g.fail_open)
  Answered g client_id cost (raise e) = ⊥

  -- The count of requests that were let through unchecked, by cause.
  abbrev pub Accounted : GuardedLimiter L → Type 0
  Accounted g = g.fail_open_count ≡ g.breaker.short_circuited + g.error_count

  module _ (g : GuardedLimiter L) (client_id : Text) (cost now later : ℕ) where
    after_inner-Answered :
        (b : CircuitBreaker) (r : L × Result Decision)
        → inner g.limiter client_id cost ≡ r
        → Answered g client_id cost (after_inner (record g { breaker = b }) r later).1
    unfolding after_inner
    after_inner-Answered b (l, ok d) e = inl (rw e)
    after_inner-Answered b (l, raise x) e = inr refl

    after_inner-IsValid :
        (b : CircuitBreaker) (r : L × Result Decision)
        → IsValid b
        → IsValid (after_inner (record g { breaker = b }) r later).0.breaker
    unfolding after_inner
    after_inner-IsValid b (l, ok d) v = record_success-IsValid b v
    after_inner-IsValid b (l, raise x) v = record_failure-IsValid b later v

    after_inner-Accounted :
        (b : CircuitBreaker) (r : L × Result Decision)
        → Accounted (record g { breaker = b })
        → Accounted (after_inner (record g { breaker = b }) r later).0
    unfolding after_inner record_success record_failure
    after_inner-Accounted b (l, ok d) h = h
    after_inner-Accounted b (l, raise x) h = ground arith

    allow-short_circuited :
        (b : CircuitBreaker) (answer : Bool)
        → (allow b now).1 ≡ ok answer
        → (allow b now).0.short_circuited
          ≡ (if answer then b.short_circuited else b.short_circuited + 1)
    unfolding allow
    allow-short_circuited b answer e = ground arith

    -- The guard raises nothing: its answer is the decision of the limiter inside, or an unread one
    -- that allows exactly if `fail_open` is set. The breaker stays valid, and the requests counted as
    -- let through are those short-circuited and those that failed.
    pub check-Answered :
        IsValid g.breaker
        → Accounted g
        → Answered g client_id cost (check inner g client_id cost now later).1
          × IsValid (check inner g client_id cost now later).0.breaker
          × Accounted (check inner g client_id cost now later).0
    unfolding check
    check-Answered v counted = let (answer, e) = allow-returns g.breaker now v in go answer e
      where
        b : CircuitBreaker
        b = (allow g.breaker now).0

        go :
            (answer : Bool)
            → (allow g.breaker now).1 ≡ ok answer
            → Answered g client_id cost (check inner g client_id cost now later).1
              × IsValid (check inner g client_id cost now later).0.breaker
              × Accounted (check inner g client_id cost now later).0
        go true e =
            let moved = allow-short_circuited g.breaker true e in
            let r = inner g.limiter client_id cost in
            rw (e, check)
              (
                after_inner-Answered b r refl,
                after_inner-IsValid b r (allow-IsValid g.breaker now v),
                after_inner-Accounted b r (omega arith),
              )
        go false e =
            let moved = allow-short_circuited g.breaker false e in
            rw (e, check) (inr refl, allow-IsValid g.breaker now v, omega arith)

    -- Before the cooldown is over, an open circuit answers without the store: the limiter inside is
    -- left as it is, and the answer is the configured one.
    check-open :
        (t : ℕ)
        → g.breaker.state ≡ opened
        → g.breaker.opened_at ≡ some t
        → now < t + g.breaker.cooldown
        → ((check inner g client_id cost now later).0.limiter ≡ g.limiter)
          × ((check inner g client_id cost now later).0.error_count ≡ g.error_count)
          × ((check inner g client_id cost now later).1 ≡ ok (unread g.fail_open))
    unfolding check
    check-open t o at early = ground arith
