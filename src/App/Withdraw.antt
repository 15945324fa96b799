-- ===== src/App/Withdraw.antt =====
-- src/shortener/app.py, `takedown` on one instance and `resolve` on another.
use url_shortener_100x.Prelude.{
  ℕ, ◌≡◌, refl, ◌∙◌, ap, true, false, none, some, List, [], ◌∷◌, arith, Text, Result,
}
use url_shortener_100x.Prelude.Table
use url_shortener_100x.Prelude.Table.{Table}
use url_shortener_100x.Store.Links.{LinkStore}
use url_shortener_100x.Store.Lru
use url_shortener_100x.Store.Lru.{LruCache, Entry}
use url_shortener_100x.Store.Lru.Bounds.{invalidate-IsValid}
use url_shortener_100x.Limiter.{Decision}
use url_shortener_100x.Invalidation
use url_shortener_100x.Invalidation.{Row, InvalidationLog, apply_rows, poll}
use url_shortener_100x.Invalidation.Log.{Ascending, publish-Ascending}
use url_shortener_100x.Invalidation.Poll.{poll_lem, missed}
use url_shortener_100x.Abuse.Takedown
use url_shortener_100x.Abuse.Takedown.Fleet.{add_complete}
use url_shortener_100x.App.{Shared, Instance, Reading, enforce_limit, resolve, takedown, poll_once}
use url_shortener_100x.App.Resolve.{Coherent, lookup}
use url_shortener_100x.App.Serve.{found_response, resolve-lookup}

-- Forgetting an entry leaves the others copies of their links.
pub invalidate-Coherent :
    (c : LruCache Text) (links : LinkStore) (k : Text)
    → Coherent c links
    → Coherent (Lru.invalidate c k) links
unfolding Lru.invalidate
invalidate-Coherent c links k h = record {
  valid = invalidate-IsValid c k h.valid;
  copied = λ code e hit. h.copied code e (ground (arith, Table.get-remove c.entries k code, hit));
}

pub apply_rows-Coherent :
    (rows : List Row) (c : LruCache Text) (links : LinkStore)
    → Coherent c links
    → Coherent (apply_rows c rows) links
unfolding apply_rows
apply_rows-Coherent [] c links h = h
apply_rows-Coherent (r ∷ rows) c links h =
    apply_rows-Coherent rows (Lru.invalidate c r.code) links (invalidate-Coherent c links r.code h)

module _ {L : Type 0} (s : Shared) (i : Instance L) (code reason : Text) where
  -- The shared state after a takedown: the links are as before, and the log has one more row.
  takedown-Shared :
      (takedown s i code reason).0 ≡ record s { log = (Invalidation.publish s.log code reason).0 }
  unfolding takedown Takedown.add
  takedown-Shared = refl

  takedown-takedowns :
      (takedown s i code reason).1.takedowns
      ≡ (Takedown.add i.takedowns code reason (some Lru.invalidate) i.cache (some s.log)).0
  unfolding takedown
  takedown-takedowns = refl

poll_once-cache :
    {L : Type 0} (s : Shared) (j : Instance L)
    → ((poll_once s j).cache ≡ (poll s.log j.bus j.name j.cache).1)
      × ((poll_once s j).takedowns ≡ j.takedowns)
      × ((poll_once s j).interstitials ≡ j.interstitials)
unfolding poll_once
poll_once-cache s j = (refl, refl, refl)

module _ {L : Type 0} (inner : L → Text → ℕ → L × Result Decision) where
  module _ (s : Shared) (i j : Instance L) (client code reason : Text) (at : Reading) where
    abbrev pub after : Shared
    after = record s { log = (Invalidation.publish s.log code reason).0 }

    polled-Coherent :
        Ascending 0 s.log → Coherent j.cache s.links → Coherent (poll_once after j).cache s.links
    polled-Coherent ordered h =
        let polled =
          poll_lem after.log j.bus j.name j.cache (publish-Ascending s.log code reason ordered).0 in
        rw ((poll_once-cache after j).0, polled.0)
          (apply_rows-Coherent (missed after.log j.bus j.name j.cache) j.cache s.links h)

    -- A takedown on one instance lists the code there. On every other instance that has not listed
    -- it, a request after the next poll is answered as before the takedown: its cache has dropped
    -- the code, and it reads the link from the store again.
    pub resolve-takedown :
        Ascending 0 s.log
        → Coherent j.cache s.links
        → Takedown.contains j.takedowns code ≡ false
        → (enforce_limit inner (poll_once (takedown s i code reason).0 j) client at).1 ≡ none
        → (Takedown.contains (takedown s i code reason).1.takedowns code ≡ true)
          × ((resolve inner
                (takedown s i code reason).0
                (poll_once (takedown s i code reason).0 j)
                client
                code
                at).2
              ≡ found_response j.interstitials code (lookup s.links code at.now_ms))
    unfolding takedown Takedown.add poll_once
    resolve-takedown ordered h unlisted passed = (
      ap (λ t. Takedown.contains t code) (takedown-takedowns s i code reason)
          ∙ (add_complete i.takedowns code reason i.cache s.log at.now_ms ordered).0,
      (resolve-lookup inner after (poll_once after j) client code at passed
          (polled-Coherent ordered h) unlisted).0,
    )
