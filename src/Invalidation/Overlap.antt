-- ===== src/Invalidation/Overlap.antt =====
-- src/shortener/invalidation.py, overlapping polls of one instance: its poller's thread (`_run`) and
-- the handlers that call `drain_now` poll the same cursor, and a failed poll is dropped.
pub mod Rows
pub mod Covered
use url_shortener_100x.Prelude.{
  ℕ, suc, ◌+◌, ◌≤◌, ◌<◌, ◌≡◌, ◌⊎◌, ◌↔◌, refl, Bool, true, false, Option, none, some, List, [], ◌∷◌,
  ◌++◌, arith, ltb, Text, Bool-cases, Option-cases, inl, inr, max, pick, All, All-map, All-pick,
}
use url_shortener_100x.Prelude.Table
use url_shortener_100x.Store.Lru
use url_shortener_100x.Store.Lru.{LruCache}
use url_shortener_100x.Invalidation.{
  Row, InvalidationLog, Bus, head, publish, rows_after, last_seq, cursor, new_poller,
}
use url_shortener_100x.Invalidation.Log.{Ascending, publish-Ascending, rows_after-head}

-- Where a call of `poll` stands: it has read the cursor, or it has rows left to apply of a batch
-- that ends with the row `last`.
pub data Poll : Type 0 where
  reading : (seen : ℕ) → Poll
  applying : (last : ℕ) → (todo : List Row) → Poll

-- The log, one instance's bus and cache, its calls of `poll` under way, and the rows it has ever
-- applied, which no code reads.
pub record Instance (V : Type 0) : Type 0 where
  pub log : InvalidationLog
  pub bus : Bus
  pub cache : LruCache V
  pub polls : List Poll
  pub applied : List Row

-- Any instance publishes; a thread calls `poll`; the n-th call goes on; the n-th call raises.
pub data Event : Type 0 where
  published : (code reason : Text) → Event
  called : Event
  went_on : (n : ℕ) → Event
  raised : (n : ℕ) → Event

module _ {V : Type 0} (instance_id : Text) where
  -- One statement of `poll`: the query, one `apply_fn`, or the new cursor under the lock.
  unfoldable pub go_on : Instance V → Poll → List Poll → Instance V
  unfolding rows_after last_seq Lru.invalidate Table.put
  go_on s (reading seen) others =
      let bus : Bus = record s.bus { polls = s.bus.polls + 1 } in
      let rows = rows_after s.log seen in
      elim rows [
        | [] ↦ record s { bus = bus; polls = others }
        | r ∷ rest ↦ record s {
          bus = bus;
          polls = applying (last_seq (r ∷ rest)) (r ∷ rest) ∷ others;
        }
      ]
  go_on s (applying last (r ∷ todo)) others = record s {
    bus = record s.bus { applied = s.bus.applied + 1 };
    cache = Lru.invalidate s.cache r.code;
    polls = applying last todo ∷ others;
    applied = r ∷ s.applied;
  }
  go_on s (applying last []) others = record s {
    bus = record s.bus { cursors = Table.put s.bus.cursors instance_id last };
    polls = others;
  }

  unfoldable pub step : Instance V → Event → Instance V
  unfolding go_on publish cursor pick
  step s (published code reason) = record s { log = (publish s.log code reason).0 }
  step s called = record s { polls = reading (cursor s.bus instance_id) ∷ s.polls }
  step s (went_on n) = elim (pick s.polls n) [ none ↦ s | some (p, others) ↦ go_on s p others ]
  step s (raised n) = elim (pick s.polls n) [
    | none ↦ s
    | some (p, others) ↦ record s { polls = others }
  ]

  unfoldable pub run : Instance V → List Event → Instance V
  unfolding step
  run s [] = s
  run s (e ∷ es) = run (step s e) es

-- An instance whose poller has just registered.
unfoldable pub registered : {V : Type 0} → InvalidationLog → Bus → Text → LruCache V → Instance V
unfolding new_poller
registered log b instance_id cache = record {
  log = log;
  bus = new_poller b instance_id;
  cache = cache;
  polls = [];
  applied = [];
}
