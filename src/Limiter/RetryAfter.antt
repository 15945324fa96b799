-- ===== src/Limiter/RetryAfter.antt =====
-- src/shortener/limiter.py, `_retry_after` against later requests.
use url_shortener_100x.Prelude.{
  ℕ, ◌-◌, ◌*◌, ◌≤◌, ◌<◌, ◌≡◌, true, false, Option, some, ◌==◌, arith, if◌then◌else◌, ◌↔◌,
}
use url_shortener_100x.Limiter.{Bucket, infinite, ratio, retry_after, refill, admits, spend, decide}
use url_shortener_100x.Limiter.Budget.{refill-le}

module _ (capacity rate cost : ℕ) (bucket : Option Bucket) (now : ℕ) where
  abbrev pub here : ℕ
  here = refill bucket capacity rate now

  -- What the request leaves behind.
  abbrev pub after : Bucket
  after = record { left = spend here cost; updated_ms = now }

  -- A refused request is told to wait for `(cost - left) / rate` milliseconds (for ever, if nothing
  -- is refilled). If the cost fits the capacity and no other request comes between, the same request
  -- is let through at a later time exactly when that delay has passed.
  pub retry_after_exact :
      (later : ℕ)
      → (decide here cost rate).allowed ≡ false
      → cost ≤ capacity
      → now ≤ later
      → ((decide here cost rate).retry_after
          ≡ (if rate == 0 then infinite else ratio (cost - after.left) rate))
        × ((admits (refill (some after) capacity rate later) cost ≡ true)
            ↔ (cost - after.left ≤ (later - now) * rate))
  unfolding decide admits spend refill retry_after
  retry_after_exact later refused fits order = ground arith

  -- A cost above the capacity is refused at every time, though the delay it is told is finite
  -- wherever the rate is not 0.
  never_admitted :
      (later : ℕ)
      → capacity < cost
      → ((decide here cost rate).allowed ≡ false)
        × (admits (refill (some after) capacity rate later) cost ≡ false)
  unfolding decide admits
  never_admitted later over =
      ground (arith, refill-le capacity rate bucket now, refill-le capacity rate (some after) later)
