-- ===== src/Counters.antt =====
-- src/shortener/counters.py, `HitCounter`. A method that takes the lock twice is two steps, `take`
-- and `settle`; `now` is `time.monotonic()` in the unit of `flush_interval`.
pub mod Conservation
use url_shortener_100x.Prelude.{
  ℕ, ◌+◌, Bool, true, false, ◌||◌, Option, none, some, List, [], ◌∷◌, leb, if◌then◌else◌, length,
  Text, text_dec, ite, Result, ok, raise,
}
use url_shortener_100x.Prelude.Table.{Table}
use url_shortener_100x.Store.Links.{LinkStore, Write, record_hits_bulk}

pub record HitCounter : Type 0 where
  pub flush_interval : ℕ
  pub max_pending : ℕ
  pub counts : Table ℕ
  pub last_flush : ℕ
  pub flushes : ℕ
  pub recorded : ℕ

-- `HitCounter(store, flush_interval, max_pending)`
unfoldable pub new_counter : ℕ → ℕ → ℕ → HitCounter
new_counter flush_interval max_pending now = record {
  flush_interval = flush_interval;
  max_pending = max_pending;
  counts = [];
  last_flush = now;
  flushes = 0;
  recorded = 0;
}

-- `counter[key] += n` of `collections.Counter`.
unfoldable pub add : Table ℕ → Text → ℕ → Table ℕ
add [] key n = (key, n) ∷ []
add ((j, m) ∷ counts) key n = ite (text_dec j key) ((j, m + n) ∷ counts) ((j, m) ∷ add counts key n)

-- `counter.update(batch)`
unfoldable pub update : Table ℕ → Table ℕ → Table ℕ
unfolding add
update counts [] = counts
update counts ((key, n) ∷ batch) = update (add counts key n) batch

-- The part of `record` under the lock.
unfoldable pub count_hit : HitCounter → Text → HitCounter
unfolding add
count_hit h code = record h { counts = add h.counts code 1; recorded = h.recorded + 1 }

-- The part of `flush` under the first lock: the batch, if there is one.
unfoldable pub take : HitCounter → ℕ → HitCounter × Option (Table ℕ)
take h now = elim h.counts [
  | [] ↦ (record h { last_flush = now }, none)
  | c ∷ counts ↦ (record h { counts = []; last_flush = now }, some (c ∷ counts))
]

-- The rest of `flush`: write the batch, or put it back. The value is what `flush` returns.
unfoldable pub settle : HitCounter → LinkStore → Table ℕ → Write → HitCounter × LinkStore × ℕ
unfolding record_hits_bulk update
settle h store batch write =
    let (store', result) = record_hits_bulk write store batch in
    elim result [
      | ok n ↦ (record h { flushes = h.flushes + 1 }, store', length batch)
      | raise e ↦ (record h { counts = update h.counts batch }, store', 0)
    ]

unfoldable pub flush : HitCounter → LinkStore → ℕ → Write → HitCounter × LinkStore × ℕ
unfolding take settle
flush h store now write =
    let (h', batch) = take h now in
    elim batch [ none ↦ (h', store, 0) | some b ↦ settle h' store b write ]

unfoldable pub is_due : HitCounter → ℕ → Bool
is_due h now = leb h.max_pending (length h.counts) || leb (h.last_flush + h.flush_interval) now

-- `record`, with no other caller in between.
unfoldable pub record_hit : HitCounter → LinkStore → Text → ℕ → Write → HitCounter × LinkStore
unfolding count_hit is_due flush
record_hit h store code now write =
    let counted = count_hit h code in
    let (h', store', written) = flush counted store now write in
    if is_due counted now then (h', store') else (counted, store)
