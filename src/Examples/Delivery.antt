-- ===== src/Examples/Delivery.antt =====
-- The theorems on hit counts and on the invalidation log, on a few hits and two rows.
use mathlib.Core.List.{Memᴰ}
use url_shortener_100x.Prelude.{
  ℕ, ◌+◌, ◌≡◌, refl, none, true, false, List, [], ◌∷◌, arith, Text, text_dec, if_pos, ◌++◌, pick,
}
use url_shortener_100x.Prelude.Table
use url_shortener_100x.Store.Links.{commits, fails_after, empty_store}
use url_shortener_100x.Store.Lru
use url_shortener_100x.Store.Lru.{LruCache, Entry}
use url_shortener_100x.Counters.{HitCounter}
use url_shortener_100x.Counters.Conservation.{
  Instance, Event, hit, begin, finish, run, total, hits_in, doubled_in, run-total,
}
use url_shortener_100x.Invalidation.{
  Row, InvalidationLog, Bus, poll, lag, cursor, rows_after, new_poller, register, publish, last_seq,
}
use url_shortener_100x.Invalidation.Log.{Ascending}
use url_shortener_100x.Invalidation.Overlap
use url_shortener_100x.Invalidation.Overlap.{registered, called, went_on, raised, published}
use url_shortener_100x.Invalidation.Overlap.Covered.{run-Covered}
use url_shortener_100x.Invalidation.Poll.{named, missed, poll_converges}

abbrev counter : HitCounter
counter = record {
  flush_interval = 2;
  max_pending = 10;
  counts = (65 ∷ [], 3) ∷ [];
  last_flush = 0;
  flushes = 0;
  recorded = 3;
}

abbrev counting : Instance
counting = record { counter = counter; store = empty_store; in_flight = [] }

-- Two flushes overlap; the one that began first fails behind its only row.
abbrev overlapping : List Event
overlapping =
    begin 1
    ∷ hit (65 ∷ [])
    ∷ begin 2
    ∷ hit (66 ∷ [])
    ∷ finish 1 (fails_after 1)
    ∷ finish 0 commits
    ∷ []

run-total_example :
    total (65 ∷ []) (run counting overlapping)
    ≡ total (65 ∷ []) counting
      + hits_in (65 ∷ []) overlapping
      + doubled_in (65 ∷ []) counting overlapping
run-total_example = run-total (65 ∷ []) overlapping counting

abbrev log : InvalidationLog
log =
    record { seq = 1; code = 65 ∷ []; reason = [] }
    ∷ record { seq = 2; code = 66 ∷ []; reason = [] }
    ∷ []

log-Ascending : Ascending 0 log
unfolding Ascending
log-Ascending = (omega arith, (omega arith, tt))

abbrev cache : LruCache ℕ
cache = record {
  capacity = 4;
  entries =
      (66 ∷ [], record { value = 7; expires_ms = none })
      ∷ (67 ∷ [], record { value = 8; expires_ms = none })
      ∷ [];
  hits = 0;
  misses = 0;
}

abbrev bus : Bus
bus = record { cursors = []; applied = 0; polls = 0 }

missed_all : missed log bus (1 ∷ []) cache ≡ log
unfolding rows_after cursor Table.get
missed_all = refl

named_66 : named log (66 ∷ []) ≡ true
unfolding named
named_66 = rw (if_pos (text_dec (66 ∷ []) (66 ∷ [])) refl) (ground arith)

missed_66 : named (missed log bus (1 ∷ []) cache) (66 ∷ []) ≡ true
missed_66 = rw missed_all named_66

poll_converges_example :
    ((Lru.get (poll log bus (1 ∷ []) cache).1 (66 ∷ []) 9).1 ≡ none)
    × ((x : Text)
        → named (missed log bus (1 ∷ []) cache) x ≡ false
        → Table.get (poll log bus (1 ∷ []) cache).1.entries x ≡ Table.get cache.entries x)
    × (lag log (poll log bus (1 ∷ []) cache).0 (1 ∷ []) ≡ 0)
    × (cursor (poll log bus (1 ∷ []) cache).0 (2 ∷ []) ≡ cursor bus (2 ∷ []))
poll_converges_example =
    poll_converges log bus (1 ∷ []) cache 9 (66 ∷ []) (2 ∷ []) log-Ascending missed_66
      (λ e. absurd (ground arith))

-- Two polls read the cursor at once; the first raises after a row, the second ends.
abbrev polls : List Overlap.Event
polls =
    called
    ∷ called
    ∷ went_on 0
    ∷ went_on 0
    ∷ published (68 ∷ []) []
    ∷ raised 0
    ∷ went_on 0
    ∷ went_on 0
    ∷ went_on 0
    ∷ went_on 0
    ∷ went_on 0
    ∷ []

abbrev polled : Overlap.Instance ℕ
polled = Overlap.run (1 ∷ []) (registered log bus (1 ∷ []) cache) polls

abbrev third : Row
third = record { seq = 3; code = 68 ∷ []; reason = [] }

third_logged : polled.log ≡ log ++ third ∷ []
unfolding Overlap.run registered new_poller register cursor rows_after Table.get Table.put
    Lru.invalidate Table.remove publish text_dec pick last_seq
third_logged = refl

at_three : cursor polled.bus (1 ∷ []) ≡ 3
unfolding Overlap.run registered new_poller register cursor rows_after Table.get Table.put
    Lru.invalidate Table.remove publish text_dec pick last_seq
at_three = refl

run-Covered_example : Memᴰ third polled.applied
run-Covered_example =
    run-Covered (1 ∷ []) log bus cache polls third log-Ascending
      (rw third_logged (Memᴰ.tail (Memᴰ.tail (Memᴰ.head refl)))) (rw at_three (omega arith))
