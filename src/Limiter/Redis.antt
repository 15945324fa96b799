-- ===== src/Limiter/Redis.antt =====
-- src/shortener/limiter.py, `LUA_TOKEN_BUCKET` and `RedisStore`: the same bucket under a key that
-- expires. Redis' own clock, in milliseconds, is the argument `server_ms`.
pub mod Agreement
use url_shortener_100x.Prelude.{
  ℕ, ◌+◌, ◌-◌, ◌*◌, ◌/◌, Bool, true, false, Option, none, some, ltb, leb, if◌then◌else◌, Text,
}
use url_shortener_100x.Prelude.Table
use url_shortener_100x.Prelude.Table.{Table}
use url_shortener_100x.Limiter.{Bucket, Decision, refill, spend, decide}

-- The hash under a key, and the time at which Redis drops it.
pub record Hash : Type 0 where
  pub bucket : Bucket
  pub expires_at : ℕ

-- `math.ceil((capacity / rate) * 1000) + 10000`, or an hour for a bucket that is not refilled.
unfoldable pub ttl_ms : ℕ → ℕ → ℕ
ttl_ms capacity rate = if ltb 0 rate then (capacity + rate - 1) / rate + 10000 else 3600000

unfoldable pub not_expired : ℕ → Hash → Option Bucket
not_expired server_ms h = if leb h.expires_at server_ms then none else some h.bucket

-- `HMGET`: an expired key is not there.
unfoldable pub hmget : Table Hash → Text → ℕ → Option Bucket
unfolding not_expired
hmget db key server_ms = elim (Table.get db key) [ none ↦ none | some h ↦ not_expired server_ms h ]

-- The script, with `HMSET` and `PEXPIRE` as one write, and the reply that `RedisStore` makes of it.
unfoldable pub consume : Table Hash → Text → ℕ → ℕ → ℕ → ℕ → ℕ → Table Hash × Decision
unfolding hmget refill spend decide ttl_ms
consume db key capacity rate cost now_ms server_ms =
    let available = refill (hmget db key server_ms) capacity rate now_ms in
    let written : Bucket = record { left = spend available cost; updated_ms = now_ms } in
    (
      Table.put db key (record { bucket = written; expires_at = server_ms + ttl_ms capacity rate }),
      decide available cost rate,
    )
