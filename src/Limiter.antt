-- ===== src/Limiter.antt =====
-- src/shortener/limiter.py: the token bucket on its two stores, and the wrapper that fails open.
-- Tokens are counted in a unit in which the refill per millisecond is a whole number (a thousandth of
-- a token, for a whole number of tokens per second), so that `elapsed / 1000.0 * rate` is exact.
pub mod Budget
pub mod RetryAfter
pub mod Skew
pub mod Redis
pub mod FailOpen
use url_shortener_100x.Prelude.{
  ℕ, ◌+◌, ◌-◌, ◌*◌, ◌/◌, ◌==◌, Bool, true, false, Option, none, some, ltb, leb, if◌then◌else◌, min,
  Text, codes, ◌++◌, Result, ok, raise, other_error,
}
use url_shortener_100x.Prelude.Table
use url_shortener_100x.Prelude.Table.{Table}

-- `tokens_remaining`: `float("nan")` where no bucket was read.
pub data Tokens : Type 0 where
  nan : Tokens
  tokens : ℕ → Tokens

-- `retry_after_s`: `float("inf")`, or that many milliseconds, as a fraction.
pub data Delay : Type 0 where
  infinite : Delay
  ratio : ℕ → ℕ → Delay

abbrev pub no_delay : Delay
no_delay = ratio 0 1

pub record Decision : Type 0 where
  pub allowed : Bool
  pub tokens_remaining : Tokens
  pub retry_after : Delay

-- `_retry_after`; where it is reached the cost is above the tokens, so `max(…, 0.0)` changes nothing.
unfoldable pub retry_after : Bool → ℕ → ℕ → ℕ → Delay
retry_after true cost left rate = no_delay
retry_after false cost left rate = if rate == 0 then infinite else ratio (cost - left) rate

-- A row of `buckets`.
pub record Bucket : Type 0 where
  pub left : ℕ
  pub updated_ms : ℕ

-- The lazy refill of both stores: `none` is a bucket that is not there yet.
unfoldable pub refill : Option Bucket → ℕ → ℕ → ℕ → ℕ
refill none capacity rate now_ms = min capacity (capacity + 0 * rate)
refill (some b) capacity rate now_ms = min capacity (b.left + (now_ms - b.updated_ms) * rate)

unfoldable pub admits : ℕ → ℕ → Bool
admits available cost = leb cost available

unfoldable pub spend : ℕ → ℕ → ℕ
unfolding admits
spend available cost = if admits available cost then available - cost else available

unfoldable pub decide : ℕ → ℕ → ℕ → Decision
unfolding admits spend retry_after
decide available cost rate = record {
  allowed = admits available cost;
  tokens_remaining = tokens (spend available cost);
  retry_after = retry_after (admits available cost) cost (spend available cost) rate;
}

-- `SqliteStore.consume`. The transaction is one step. Where the database refuses (`up` is false) the
-- transaction is rolled back and the exception goes on.
unfoldable pub consume : Bool → Table Bucket → Text → ℕ → ℕ → ℕ → ℕ → Table Bucket × Result Decision
unfolding refill spend decide
consume false table key capacity rate cost now_ms = (table, raise other_error)
consume true table key capacity rate cost now_ms =
    let available = refill (Table.get table key) capacity rate now_ms in
    (
      Table.put table key (record { left = spend available cost; updated_ms = now_ms }),
      ok (decide available cost rate),
    )

-- `RateLimiter` over the SQLite store; the clock's reading is an argument.
pub record RateLimiter : Type 0 where
  pub capacity : ℕ
  pub refill_rate : ℕ
  pub buckets : Table Bucket

abbrev pub bucket_key : Text → Text
bucket_key client_id = codes "rl:" ++ client_id

unfoldable pub check : Bool → RateLimiter → Text → ℕ → ℕ → RateLimiter × Result Decision
unfolding consume
check up l client_id cost now_ms =
    let (buckets, decision) =
      consume up l.buckets (bucket_key client_id) l.capacity l.refill_rate cost now_ms in
    (record l { buckets = buckets }, decision)
