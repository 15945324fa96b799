-- ===== src/Invalidation.antt =====
-- src/shortener/invalidation.py: the durable log, the bus object that one instance holds, and its
-- poller. The table is shared by the instances; cursors and counters are the bus object's own.
pub mod Log
pub mod Poll
pub mod Overlap
pub mod Propagation
use url_shortener_100x.Prelude.{
  ℕ, zero, suc, ◌+◌, ◌-◌, Option, none, some, List, [], ◌∷◌, ◌++◌, ltb, if◌then◌else◌, length, max,
  Text,
}
use url_shortener_100x.Prelude.Table
use url_shortener_100x.Prelude.Table.{Table}
use url_shortener_100x.Store.Lru
use url_shortener_100x.Store.Lru.{LruCache}

-- A row of `invalidations`, without the time that nothing reads.
pub record Row : Type 0 where
  pub seq : ℕ
  pub code : Text
  pub reason : Text

-- The table in the order of insertion.
abbrev pub InvalidationLog : Type 0
InvalidationLog = List Row

-- `SELECT COALESCE(MAX(seq), 0)`
unfoldable pub head : InvalidationLog → ℕ
head [] = 0
head (r ∷ log) = max r.seq (head log)

-- `publish`: `AUTOINCREMENT` gives one more than the largest number so far. No row is ever deleted.
unfoldable pub publish : InvalidationLog → Text → Text → InvalidationLog × ℕ
unfolding head
publish log code reason =
    let seq = suc (head log) in
    (log ++ record { seq = seq; code = code; reason = reason } ∷ [], seq)

pub record Bus : Type 0 where
  pub cursors : Table ℕ
  pub applied : ℕ
  pub polls : ℕ

-- `SqliteInvalidationBus(path)`
abbrev pub new_bus : Bus
new_bus = record { cursors = []; applied = 0; polls = 0 }

unfoldable pub register : Bus → Text → Option ℕ → Bus × ℕ
register b instance_id from_seq =
    let seq : ℕ = elim from_seq [ none ↦ 0 | some n ↦ n ] in
    (record b { cursors = Table.put b.cursors instance_id seq }, seq)

unfoldable pub cursor : Bus → Text → ℕ
cursor b instance_id = elim (Table.get b.cursors instance_id) [ none ↦ 0 | some n ↦ n ]

-- `SELECT seq, code … WHERE seq > ? ORDER BY seq`: rows stand in the order of their numbers.
unfoldable pub rows_after : InvalidationLog → ℕ → List Row
rows_after [] n = []
rows_after (r ∷ log) n = if ltb n r.seq then r ∷ rows_after log n else rows_after log n

-- `rows[-1][0]`, for rows that are not empty.
unfoldable pub last_seq : List Row → ℕ
last_seq [] = 0
last_seq (r ∷ []) = r.seq
last_seq (r ∷ q ∷ rows) = last_seq (q ∷ rows)

-- The loop over the rows, with `cache.invalidate` for `apply_fn`.
unfoldable pub apply_rows : {V : Type 0} → LruCache V → List Row → LruCache V
apply_rows cache [] = cache
apply_rows cache (r ∷ rows) = apply_rows (Lru.invalidate cache r.code) rows

module _ {V : Type 0} where
  -- `poll`: the cursor moves only after the whole batch.
  unfoldable pub poll : InvalidationLog → Bus → Text → LruCache V → Bus × LruCache V × ℕ
  unfolding cursor rows_after last_seq apply_rows
  poll log b instance_id cache =
      let rows = rows_after log (cursor b instance_id) in
      elim rows [
        | [] ↦ (record b { polls = b.polls + 1 }, cache, 0)
        | r ∷ rest ↦ (
          record {
            cursors = Table.put b.cursors instance_id (last_seq (r ∷ rest));
            applied = b.applied + length (r ∷ rest);
            polls = b.polls + 1;
          },
          apply_rows cache (r ∷ rest),
          length (r ∷ rest),
        )
      ]

  -- A crash after `n` rows of the batch: they are applied, and the cursor has not moved.
  unfoldable pub crash_after : ℕ → LruCache V → List Row → LruCache V
  crash_after zero cache rows = cache
  crash_after (suc n) cache [] = cache
  crash_after (suc n) cache (r ∷ rows) = crash_after n (Lru.invalidate cache r.code) rows

unfoldable pub lag : InvalidationLog → Bus → Text → ℕ
unfolding head cursor
lag log b instance_id = head log - cursor b instance_id

-- `InvalidationPoller(bus, instance_id, cache)` registers from zero.
unfoldable pub new_poller : Bus → Text → Bus
unfolding register
new_poller b instance_id = (register b instance_id none).0
