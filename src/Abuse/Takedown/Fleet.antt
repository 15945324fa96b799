-- ===== src/Abuse/Takedown/Fleet.antt =====
-- src/shortener/abuse.py, `TakedownList.add`, with the cache and the poll of other instances
-- (src/shortener/invalidation.py).
use url_shortener_100x.Prelude.{
  ℕ, suc, ◌≤◌, ◌<◌, ◌≡◌, ◌≢◌, refl, ap, true, none, some, [], ◌∷◌, ◌++◌, arith, Text,
}
use url_shortener_100x.Prelude.Table
use url_shortener_100x.Prelude.Table.{Table}
use url_shortener_100x.Store.Lru
use url_shortener_100x.Store.Lru.{LruCache}
use url_shortener_100x.Store.Lru.Reads.{get-invalidate}
use url_shortener_100x.Invalidation
use url_shortener_100x.Invalidation.{Row, InvalidationLog, Bus, head, rows_after, cursor, poll, lag}
use url_shortener_100x.Invalidation.Log.{Ascending, publish-Ascending}
use url_shortener_100x.Invalidation.Poll.{named, poll_converges}
use url_shortener_100x.Abuse.Takedown.{TakedownList, add, contains, reason}

named-after :
    (log : InvalidationLog) (r : Row) (n : ℕ)
    → n < r.seq
    → named (rows_after (log ++ r ∷ []) n) r.code ≡ true
unfolding named rows_after
named-after [] r n later = ground arith
named-after (x ∷ log) r n later = ground (arith, named-after log r n later)

named-published :
    (log : InvalidationLog) (code why : Text) (n : ℕ)
    → n ≤ head log
    → named (rows_after (Invalidation.publish log code why).0 n) code ≡ true
unfolding Invalidation.publish
named-published log code why n below =
    named-after log (record { seq = suc (head log); code = code; reason = why }) n (omega arith)

module _ {V : Type 0} (t : TakedownList) (code why : Text) (cache : LruCache V) where
  -- With the cache's `invalidate` as the purge and a log, `add` lists the code with its reason, lists
  -- no other code, makes it miss in the instance's own cache, and reports the number of a new row of
  -- the log that is above every row before it.
  pub add_complete :
      (log : InvalidationLog) (now : ℕ)
      → Ascending 0 log
      → let (t2, cache2, bus2, report) = add t code why (some Lru.invalidate) cache (some log) in
        (contains t2 code ≡ true)
        × (reason t2 code ≡ why)
        × ((x : Text) → x ≢ code → contains t2 x ≡ contains t x)
        × ((Lru.get cache2 code now).1 ≡ none)
        × (bus2 ≡ some (Invalidation.publish log code why).0)
        × (report.invalidation_seq ≡ some (suc (head log)))
  unfolding add contains reason
  add_complete log now h = (
    ground (arith, Table.get-put t.codes code code why),
    ground (arith, Table.get-put t.codes code code why),
    λ x other. ground (arith, Table.get-put t.codes code x why),
    get-invalidate cache code now,
    refl,
    ap some (publish-Ascending log code why h).1,
  )

  -- Another instance that polls after the takedown, from a cursor not beyond the log, finds its own
  -- cache without the code and has nothing left to apply, whatever its cache held.
  add-poll :
      (log : InvalidationLog) (b : Bus) (i k : Text) (other : LruCache V) (now : ℕ)
      → Ascending 0 log
      → cursor b i ≤ head log
      → k ≢ i
      → (log2 : InvalidationLog) × ((add t code why (some Lru.invalidate) cache (some log)).2
          ≡ some log2)
        × ((Lru.get (poll log2 b i other).1 code now).1 ≡ none)
        × (lag log2 (poll log2 b i other).0 i ≡ 0)
  unfolding add
  add-poll log b i k other now h below apart =
      let log2 = (Invalidation.publish log code why).0 in
      let after =
        poll_converges log2 b i other now code k (publish-Ascending log code why h).0
          (named-published log code why (cursor b i) below) apart in
      (log2, refl, after.0, after.2)
