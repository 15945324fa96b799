-- ===== src/Breaker/Guarded/Outage.antt =====
-- src/shortener/breaker.py and limiter.py, `BreakerGuardedLimiter` and `FailOpenLimiter` over the requests
-- of an outage, in which the limiter inside raises each time it is called.
use url_shortener_100x.Prelude.{ℕ, Bool, List, [], ◌∷◌, Text, Result, ok, raise}
use url_shortener_100x.Limiter.{Decision}
use url_shortener_100x.Limiter.FailOpen
use url_shortener_100x.Limiter.FailOpen.{FailOpenLimiter}
use url_shortener_100x.Breaker.Guarded.{GuardedLimiter, check}

-- A request, with the readings of the breaker's clock before and after the call.
pub record Asked : Type 0 where
  pub client_id : Text
  pub cost : ℕ
  pub now : ℕ
  pub later : ℕ

-- What the wrapper answers: whether the request is allowed.
unfoldable pub permits : Result Decision → Result Bool
permits (ok d) = ok d.allowed
permits (raise e) = raise e

module _ {L : Type 0} (inner : L → Text → ℕ → L × Result Decision) where
  unfoldable pub guarded_run : GuardedLimiter L → List Asked → GuardedLimiter L × List (Result Bool)
  unfolding permits
  guarded_run g [] = (g, [])
  guarded_run g (r ∷ rs) =
      let (g2, answer) = check inner g r.client_id r.cost r.now r.later in
      let (g3, answers) = guarded_run g2 rs in (g3, permits answer ∷ answers)

  unfoldable pub bare_run : FailOpenLimiter L → List Asked → FailOpenLimiter L × List (Result Bool)
  bare_run f [] = (f, [])
  bare_run f (r ∷ rs) =
      let (f2, decision) = FailOpen.check inner f r.client_id r.cost in
      let (f3, answers) = bare_run f2 rs in (f3, ok decision.allowed ∷ answers)
