-- ===== src/Examples/Limiter.antt =====
-- The theorems on the token bucket, on buckets of a few tokens.
use url_shortener_100x.Prelude.{
  ℕ, ◌+◌, ◌-◌, ◌*◌, ◌≤◌, ◌≡◌, ◌↔◌, refl, Option, some, true, false, List, [], ◌∷◌, arith, ◌==◌,
  if◌then◌else◌,
}
use url_shortener_100x.Prelude.Table
use url_shortener_100x.Prelude.Table.{Table}
use url_shortener_100x.Limiter
use url_shortener_100x.Limiter.{Bucket, infinite, ratio, refill, admits, decide}
use url_shortener_100x.Limiter.Budget.{Request, spent, InOrder, IsWritten, last_ms, spent-le}
use url_shortener_100x.Limiter.RetryAfter.{here, after, retry_after_exact}
use url_shortener_100x.Limiter.Redis.{Hash}
use url_shortener_100x.Limiter.Redis.Agreement.{
  Agree, sqlite_decisions, redis_decisions, redis-eq-sqlite,
}

abbrev requests : List Request
requests =
    record { key = 65 ∷ []; cost = 2; now_ms = 10 }
    ∷ record { key = 66 ∷ []; cost = 1; now_ms = 10 }
    ∷ record { key = 65 ∷ []; cost = 2; now_ms = 12 }
    ∷ []

requests-InOrder : InOrder 10 requests
unfolding InOrder
requests-InOrder = (omega arith, (omega arith, (omega arith, tt)))

unwritten : IsWritten (Table.get {V = Bucket} [] (65 ∷ [])) 10
unfolding IsWritten Table.get
unwritten = tt

spent-le_example : spent 3 1 (65 ∷ []) [] requests ≤ 3 + (last_ms 10 requests - 10) * 1
spent-le_example = spent-le 3 1 (65 ∷ []) requests [] 10 unwritten requests-InOrder

-- A bucket of three with one left, and a cost of two.
abbrev low : Option Bucket
low = some (record { left = 1; updated_ms = 10 })

refused_low : (decide (here 3 1 2 low 10) 2 1).allowed ≡ false
unfolding decide refill
refused_low = refl

retry_after_exact_example :
    ((decide (here 3 1 2 low 10) 2 1).retry_after
      ≡ (if 1 == 0 then infinite else ratio (2 - (after 3 1 2 low 10).left) 1))
    × ((admits (refill (some (after 3 1 2 low 10)) 3 1 12) 2 ≡ true)
        ↔ (2 - (after 3 1 2 low 10).left ≤ (12 - 10) * 1))
retry_after_exact_example =
    retry_after_exact 3 1 2 low 10 12 refused_low (omega arith) (omega arith)

abbrev skewed_table : Table Bucket
skewed_table = (65 ∷ [], record { left = 0; updated_ms = 1000 }) ∷ []

nothing_written : Agree 3 1 [] []
unfolding Table.get
nothing_written k = tt

-- The requests at the readings of one clock, that both the callers and Redis see.
abbrev clocked : List (Request × ℕ)
clocked =
    (record { key = 65 ∷ []; cost = 2; now_ms = 10 }, 10)
    ∷ (record { key = 66 ∷ []; cost = 1; now_ms = 10 }, 10)
    ∷ (record { key = 65 ∷ []; cost = 2; now_ms = 12 }, 12)
    ∷ []

redis-eq-sqlite_example : redis_decisions 3 1 [] clocked ≡ sqlite_decisions 3 1 [] clocked
redis-eq-sqlite_example =
    redis-eq-sqlite 3 1 clocked [] [] (omega arith) nothing_written (refl, (refl, (refl, tt)))

-- A quota of three that is spent.
abbrev spent_bucket : Bucket
spent_bucket = record { left = 0; updated_ms = 1000 }

abbrev spent_hash : Hash
spent_hash = record { bucket = spent_bucket; expires_at = 3601000 }

abbrev spent_db : Table Hash
spent_db = (65 ∷ [], spent_hash) ∷ []
