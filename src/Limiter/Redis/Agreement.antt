-- ===== src/Limiter/Redis/Agreement.antt =====
-- src/shortener/limiter.py, the decisions of the SQLite and of the Redis store side by side.
use native.Mathlib.Nat.{lt-div-mul-add, mul-le-mul_right}
use url_shortener_100x.Prelude.{
  ℕ, ◌+◌, ◌-◌, ◌*◌, ◌/◌, ◌≤◌, ◌<◌, ◌≡◌, refl, true, Option, none, some, leb, arith, ok, List, [],
  ◌∷◌, Text, Result, if_pos, if_neg, Bool-cases, inl, inr, ap, text_dec, All,
}
use url_shortener_100x.Prelude.Table
use url_shortener_100x.Prelude.Table.{Table}
use url_shortener_100x.Limiter
use url_shortener_100x.Limiter.{Bucket, Decision, refill, spend, decide}
use url_shortener_100x.Limiter.Budget.{Request}
use url_shortener_100x.Limiter.Redis.{Hash, ttl_ms, not_expired, consume}

module _ (capacity rate : ℕ) where
  -- The rows of the two stores under one key: each bucket, with the time to live from its write.
  abbrev pub Same : Option Bucket → Option Hash → Type 0
  Same none none = Unit
  Same (some b) (some h) = (h.bucket ≡ b) × (h.expires_at ≡ b.updated_ms + ttl_ms capacity rate)
  Same none (some h) = ⊥
  Same (some b) none = ⊥

  ttl_ms-rate : 0 < rate → ttl_ms capacity rate ≡ (capacity + rate - 1) / rate + 10000
  unfolding ttl_ms
  ttl_ms-rate p = ground arith

  -- Once the time to live is over, the bucket would be full again.
  refill-expired :
      (b : Bucket) (now : ℕ)
      → 0 < rate
      → b.updated_ms + ttl_ms capacity rate ≤ now
      → refill (some b) capacity rate now ≡ capacity
  unfolding refill
  refill-expired b now p h =
      let q = (capacity + rate - 1) / rate in
      let ceiling : capacity ≤ q * rate =
        omega (arith, lt-div-mul-add {a = capacity + rate - 1} {b = rate} p) in
      let waited : q ≤ now - b.updated_ms = omega (arith, ttl_ms-rate p, h) in
      omega (arith, ceiling, mul-le-mul_right rate waited)

  Same-refill :
      (b : Option Bucket) (h : Option Hash) (now : ℕ)
      → 0 < rate
      → Same b h
      → refill (elim h [ none ↦ none | some x ↦ not_expired now x ]) capacity rate now
        ≡ refill b capacity rate now
  unfolding not_expired refill
  Same-refill none none now p s = refl
  Same-refill none (some h) now p s = absurd s
  Same-refill (some b) none now p s = absurd s
  Same-refill (some b) (some h) now p s = elim (Bool-cases (leb h.expires_at now)) [
    | inl over ↦ rw (over, not_expired, refill-expired b now p (ground (arith, s.1))) (omega arith)
    | inr live ↦ rw (live, not_expired, s.0)
  ]

  abbrev pub Agree : Table Bucket → Table Hash → Type 0
  Agree table db = (k : Text) → Same (Table.get table k) (Table.get db k)

  Same-put :
      (table : Table Bucket) (db : Table Hash) (k j : Text) (b : Bucket)
      → Agree table db
      → Same (Table.get (Table.put table k b) j) (
          Table.get
            (Table.put db k
              (record { bucket = b; expires_at = b.updated_ms + ttl_ms capacity rate }))
            j)
  Same-put table db k j b agree = elim (text_dec k j) [
    | yes same ↦
        rw (Table.get-put, Table.get-put, if_pos (text_dec k j) same, if_pos (text_dec k j) same)
          (refl, refl)
    | no other ↦
        rw (Table.get-put, Table.get-put, if_neg (text_dec k j) other, if_neg (text_dec k j) other)
          (agree j)
  ]

  -- The decisions on a list of requests in the one store or the other, each request with the reading
  -- of Redis' own clock, by which it expires keys.
  unfoldable pub sqlite_decisions : Table Bucket → List (Request × ℕ) → List (Result Decision)
  sqlite_decisions table [] = []
  sqlite_decisions table ((r, redis_ms) ∷ rs) =
      let (table', decision) = Limiter.consume true table r.key capacity rate r.cost r.now_ms in
      decision ∷ sqlite_decisions table' rs

  unfoldable pub redis_decisions : Table Hash → List (Request × ℕ) → List (Result Decision)
  redis_decisions db [] = []
  redis_decisions db ((r, redis_ms) ∷ rs) =
      let (db', decision) = consume db r.key capacity rate r.cost r.now_ms redis_ms in
      ok decision ∷ redis_decisions db' rs

  -- Where the bucket is refilled and Redis' own clock reads the caller's `now_ms` at every request,
  -- the key's expiry is not seen: over any such requests, in any order of the readings, the script
  -- decides as the transaction does, from tables that agree.
  pub redis-eq-sqlite :
      (rs : List (Request × ℕ)) (table : Table Bucket) (db : Table Hash)
      → 0 < rate
      → Agree table db
      → All (λ x. x.1 ≡ x.0.now_ms) rs
      → redis_decisions db rs ≡ sqlite_decisions table rs
  unfolding redis_decisions sqlite_decisions consume Limiter.consume
  redis-eq-sqlite [] table db p agree clocks = refl
  redis-eq-sqlite ((r, redis_ms) ∷ rs) table db p agree clocks =
      let available = refill (Table.get table r.key) capacity rate r.now_ms in
      rw
        (
          clocks.0,
          Same-refill (Table.get table r.key) (Table.get db r.key) r.now_ms p (agree r.key),
        )
        (ap (◌∷◌ (ok (decide available r.cost rate))) (
          redis-eq-sqlite rs _ _ p
            (λ j.
              Same-put table db r.key j
                (record { left = spend available r.cost; updated_ms = r.now_ms }) agree)
            clocks.1))
