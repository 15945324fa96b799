-- ===== src/App/Reports/Counted.antt =====
-- src/shortener/app.py, what `/metrics` and `/admin/abuse` say after a visit and after a takedown.
use mathlib.Core.Path.{subst}
use url_shortener_100x.Prelude.{
  ℕ, suc, ◌+◌, ◌≡◌, refl, ap, ◌∙◌, Bool, false, Option, none, some, [], ◌∷◌, if◌then◌else◌, Text,
  arith, is_some, Option-cases, Bool-cases, inl, inr, Result, length,
}
use url_shortener_100x.Prelude.Table
use url_shortener_100x.Prelude.Table.{Table}
use url_shortener_100x.Store.Links
use url_shortener_100x.Store.Links.{LinkStore, Link, is_expired, reached}
use url_shortener_100x.Store.Lru
use url_shortener_100x.Store.Lru.{LruCache, hit_ratio}
use url_shortener_100x.Store.Lru.Reads.{get-miss, get-counted}
use url_shortener_100x.Limiter.{Decision}
use url_shortener_100x.Ids.Allocator.{Allocator}
use url_shortener_100x.Invalidation
use url_shortener_100x.Invalidation.Log.{Ascending, publish-Ascending}
use url_shortener_100x.Invalidation.Poll.{poll_lem}
use url_shortener_100x.Abuse.Policy.{ReputationPolicy}
use url_shortener_100x.Abuse.Takedown
use url_shortener_100x.App.{
  Shared, Instance, Reading, load, fetch, deliver, enforce_limit, resolve, takedown,
}
use url_shortener_100x.App.Serve.{look_up-listed_not, resolve-passed, enforce_limit-keeps}
use url_shortener_100x.App.Reports.{metrics, cache_stats, abuse_stats}

-- What two looks count, of which the second is made only if the first misses.
abbrev Looked : LruCache Text → Bool → LruCache Text → Type 0
Looked c held c2 =
    (c2.hits ≡ c.hits + (if held then 1 else 0)) × (c2.misses ≡ c.misses + (if held then 0 else 2))

look-absent :
    (c : LruCache Text) (code : Text) (now_ms : ℕ)
    → Table.get c.entries code ≡ none
    → Lru.get c code now_ms ≡ (record c { misses = c.misses + 1 }, none)
unfolding Lru.get
look-absent c code now_ms absent = rw (absent, Lru.get) refl

load-Looked :
    (c : LruCache Text) (links : LinkStore) (code : Text) (now_ms : ℕ)
    → Table.get c.entries code ≡ none
    → ((load c links code now_ms).0.hits ≡ c.hits)
      × ((load c links code now_ms).0.misses ≡ c.misses + 1)
unfolding load Lru.put
load-Looked c links code now_ms absent =
    let looked = look-absent c code now_ms absent in
    let hit = ap (λ x. x.0.hits) looked in
    let missed = ap (λ x. x.0.misses) looked in
    let nothing = ap (λ x. x.1) looked in
    elim (Option-cases (Links.get links code)) [
      | inl unknown ↦ rw (nothing, unknown, load) (hit, missed)
      | inr (link, known) ↦ elim (Bool-cases (is_expired link now_ms)) [
        | inl over ↦ rw (nothing, known, over, load) (hit, missed)
        | inr fresh ↦ rw (nothing, known, fresh, load) (hit, missed)
      ]
    ]

fetch-Looked :
    (c : LruCache Text) (links : LinkStore) (code : Text) (now_ms : ℕ)
    → Looked c (is_some (Lru.get c code now_ms).1) (fetch c links code now_ms).0
unfolding fetch
fetch-Looked c links code now_ms =
    let (hit, missed) = get-counted c code now_ms in
    elim (Option-cases (Lru.get c code now_ms).1) [
      | inr (target, found) ↦ rw (found, fetch) (rw found at hit, rw found at missed)
      | inl none_found ↦
          let (same, more) =
            load-Looked (Lru.get c code now_ms).0 links code now_ms
              (get-miss c code now_ms none_found) in
          rw (none_found, fetch)
            (
              omega (arith, same, rw none_found at hit),
              omega (arith, more, rw none_found at missed),
            )
    ]

cache-deliver :
    {L : Type 0} (s : Shared) (j : Instance L) (code : Text) (at : Reading) (target : Option Text)
    → (deliver s j code at target).1.cache ≡ j.cache
unfolding deliver
cache-deliver s j code at none = refl
cache-deliver s j code at (some target) = refl

module _ {L G : Type 0} (inner : L → Text → ℕ → L × Result Decision) (s : Shared) (i : Instance L)
    (client code : Text) (at : Reading) where
  -- A visit that the limit lets through, of a code that the instance has not withdrawn, shows in
  -- `/metrics` as one hit where the cache holds the link, and as two misses where it does not, since
  -- `load` looks again.
  pub metrics-resolve :
      (a : Allocator G) (collapsed : ℕ)
      → (enforce_limit inner i client at).1 ≡ none
      → Takedown.contains i.takedowns code ≡ false
      → let (s2, i2, r) = resolve inner s i client code at in
        let held = is_some (Lru.get i.cache code at.now_ms).1 in
        ((metrics s2 i2 a collapsed).cache.hits
          ≡ (metrics s i a collapsed).cache.hits + (if held then 1 else 0))
        × ((metrics s2 i2 a collapsed).cache.misses
            ≡ (metrics s i a collapsed).cache.misses + (if held then 0 else 2))
  unfolding metrics cache_stats
  metrics-resolve a collapsed passed listed_not =
      let limited = (enforce_limit inner i client at).0 in
      let (same_list, same_cache, _) = enforce_limit-keeps inner s i client code at in
      let still = ap (λ t. Takedown.contains t code) same_list ∙ listed_not in
      let found = fetch limited.cache s.links code at.now_ms in
      let kept = cache-deliver s (record limited { cache = found.0 }) code at found.1 in
      let counted =
        subst (λ c. Looked c (is_some (Lru.get c code at.now_ms).1) found.0) same_cache
          (fetch-Looked limited.cache s.links code at.now_ms) in
      rw
        (
          resolve-passed inner s i client code at passed,
          look_up-listed_not s limited code at still,
          kept,
        )
        counted

length-put :
    (d : Table Text) (k v : Text)
    → length (Table.put d k v) ≡ length d + (elim (Table.get d k) [ none ↦ 1 | some w ↦ 0 ])
unfolding Table.put Table.get
length-put [] k v = refl
length-put ((j, w) ∷ d) k v = ground (arith, length-put d k v)

-- After a takedown that an instance handles, its `/admin/abuse` says so: the log has one event more,
-- published and purged here, none of the log is left for this instance to apply, and the code is
-- one of those taken down, counted once however often it is withdrawn.
abuse_stats-takedown :
    {L : Type 0} (s : Shared) (i : Instance L) (code reason : Text) (p : ReputationPolicy)
    → Ascending 0 s.log
    → let (s2, i2, r) = takedown s i code reason in
      let before = abuse_stats s i p in
      let later = abuse_stats s2 i2 p in
      (later.takedowns.bus.newest ≡ suc before.takedowns.bus.newest)
      × (later.takedowns.published_to_bus ≡ suc before.takedowns.published_to_bus)
      × (later.takedowns.local_purges ≡ suc before.takedowns.local_purges)
      × (later.invalidation_lag ≡ 0)
      × (later.takedowns.taken_down
          ≡ before.takedowns.taken_down + (if Takedown.contains i.takedowns code then 0 else 1))
unfolding abuse_stats Takedown.contains takedown Takedown.add
abuse_stats-takedown s i code reason p ordered =
    let log : Invalidation.InvalidationLog = (Invalidation.publish s.log code reason).0 in
    let (ascending, number, newest) = publish-Ascending s.log code reason ordered in
    let (_, _, _, applied) = poll_lem log i.bus i.name (Lru.invalidate i.cache code) ascending in
    (newest ∙ number, refl, refl, applied, ground (arith, length-put i.takedowns.codes code reason))
