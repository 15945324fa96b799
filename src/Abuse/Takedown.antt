-- ===== src/Abuse/Takedown.antt =====
-- src/shortener/abuse.py, `TakedownList`: the codes that one instance has withdrawn, in its own
-- memory, and the log that tells the other instances. The constructor gives the bus or none. The
-- time `at` that nothing reads is left out, and so are the sentences of the report.
pub mod Fleet
use url_shortener_100x.Prelude.{
  ℕ, suc, Bool, true, false, Option, none, some, List, [], Text, ◌≡◌, refl,
}
use url_shortener_100x.Prelude.Table
use url_shortener_100x.Prelude.Table.{Table}
use url_shortener_100x.Invalidation
use url_shortener_100x.Invalidation.{InvalidationLog}

pub record TakedownList : Type 0 where
  pub codes : Table Text
  pub local_purges : ℕ
  pub published : ℕ

-- `TakedownList()`
unfoldable pub new_list : TakedownList
new_list = record { codes = []; local_purges = 0; published = 0 }

-- What `add` reports.
pub record Report : Type 0 where
  pub code : Text
  pub reason : Text
  pub local_cache_purged : Bool
  pub invalidation_seq : Option ℕ

-- `self.bus.publish(code, reason)`, where there is a bus.
unfoldable pub publish :
    TakedownList
    → Option InvalidationLog
    → Text
    → Text
    → TakedownList × Option InvalidationLog × Option ℕ
publish t none code reason = (t, none, none)
publish t (some log) code reason =
    let (log2, seq) = Invalidation.publish log code reason in
    (record t { published = suc t.published }, some log2, some seq)

module _ {C : Type 0} where
  -- `purge(code)`, if one is given, on the state `C` that it changes.
  unfoldable pub purge_local :
      TakedownList → Option (C → Text → C) → C → Text → TakedownList × C × Bool
  purge_local t none cache code = (t, cache, false)
  purge_local t (some purge) cache code =
      (record t { local_purges = suc t.local_purges }, purge cache code, true)

  -- The code is marked, then purged here, then published.
  unfoldable pub add :
      TakedownList
      → Text
      → Text
      → Option (C → Text → C)
      → C
      → Option InvalidationLog
      → TakedownList × C × Option InvalidationLog × Report
  unfolding purge_local publish
  add t code reason purge cache bus =
      let marked : TakedownList = record t { codes = Table.put t.codes code reason } in
      let (purged, cache2, here) = purge_local marked purge cache code in
      let (told, bus2, seq) = publish purged bus code reason in
      (
        told,
        cache2,
        bus2,
        record { code = code; reason = reason; local_cache_purged = here; invalidation_seq = seq },
      )

-- `code in takedowns`
unfoldable pub contains : TakedownList → Text → Bool
contains t code = elim (Table.get t.codes code) [ none ↦ false | some r ↦ true ]

unfoldable pub reason : TakedownList → Text → Text
reason t code = elim (Table.get t.codes code) [ none ↦ [] | some r ↦ r ]
