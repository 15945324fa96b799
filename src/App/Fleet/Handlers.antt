-- ===== src/App/Fleet/Handlers.antt =====
-- src/shortener/app.py, what each handler leaves of the links and of its instance's cache.
use url_shortener_100x.Prelude.{
  ℕ, ◌≡◌, inl, inr, refl, sym, ◌∙◌, Option, none, some, Text, arith, Result, Option-cases,
  Bool-cases,
}
use url_shortener_100x.Store.Links.{LinkStore, Write}
use url_shortener_100x.Store.Lru.{LruCache}
use url_shortener_100x.Limiter.{Decision}
use url_shortener_100x.Counters.{record_hit, flush}
use url_shortener_100x.Ids.Allocator.{Allocator}
use url_shortener_100x.Abuse.Takedown
use url_shortener_100x.App.{
  Shared, Instance, Reading, fetch, deliver, look_up, enforce_limit, resolve,
}
use url_shortener_100x.Invalidation.Log.{Ascending}
use url_shortener_100x.App.Resolve.{Coherent, fetch-lookup}
use url_shortener_100x.App.Serve.{
  links-record_hit, links-flush, Coherent-links, look_up-gone, look_up-listed_not, resolve-stopped,
  resolve-passed, enforce_limit-keeps,
}
use url_shortener_100x.Invalidation
use url_shortener_100x.Invalidation.{poll}
use url_shortener_100x.Invalidation.Log.{publish-Ascending}
use url_shortener_100x.Invalidation.Poll.{poll_lem, missed}
use url_shortener_100x.Store.Lru
use url_shortener_100x.Prelude.Table
use url_shortener_100x.Prelude.Table.{Distinct}
use url_shortener_100x.App.{poll_once, takedown, flush_cache}
use url_shortener_100x.App.Withdraw.{invalidate-Coherent, apply_rows-Coherent}
use url_shortener_100x.App.Fleet.{reset_metrics, flush_counters}
use url_shortener_100x.App.Fleet.Kept.{Keeps, IsHttp, get-links}

module _ {L : Type 0} where
  pub record Sound (s : Shared) (i : Instance L) : Type 0 where
    pub coherent : Coherent i.cache s.links
    pub ordered : Ascending 0 s.log
    pub http : IsHttp s.links

  pub record Handled (s s2 : Shared) (i2 : Instance L) : Type 0 where
    pub keeps : Keeps s.links s2.links
    pub sound : Sound s2 i2

module _ {L : Type 0} (s : Shared) (i : Instance L) (h : Sound s i) where
  -- The links are as before, but for the counters, and so is the log.
  pub unmoved :
      (t : LinkStore) (i2 : Instance L)
      → t.links ≡ s.links.links
      → Coherent i2.cache s.links
      → Handled s (record s { links = t }) i2
  unmoved t i2 e c = record {
    keeps = λ code l found. sym (get-links s.links t code (sym e)) ∙ found;
    sound = record {
      coherent = Coherent-links i2.cache s.links t (sym e) c;
      ordered = h.ordered;
      http = λ code l found. h.http code l (get-links s.links t code (sym e) ∙ found);
    };
  }

  module _ (code : Text) (at : Reading) where
    deliver-Handled :
        (cache : LruCache Text) (target : Option Text)
        → Coherent cache s.links
        → let (s2, i2, r) = deliver s (record i { cache = cache }) code at target in Handled s s2 i2
    unfolding deliver
    deliver-Handled cache none c = unmoved s.links (record i { cache = cache }) refl c
    deliver-Handled cache (some target) c =
        unmoved (record_hit i.hits s.links code at.monotonic at.store_write).1 _
          (links-record_hit i.hits s.links code at.monotonic at.store_write) c

    look_up-Handled : let (s2, i2, r) = look_up s i code at in Handled s s2 i2
    look_up-Handled = elim (Bool-cases (Takedown.contains i.takedowns code)) [
      | inl listed ↦ rw (look_up-gone s i code at listed) (unmoved s.links i refl h.coherent)
      | inr listed_not ↦ rw (look_up-listed_not s i code at listed_not) (
          deliver-Handled (fetch i.cache s.links code at.now_ms).0
            (fetch i.cache s.links code at.now_ms).1
            (fetch-lookup i.cache s.links code at.now_ms h.coherent).0)
    ]

  -- Of the instance only the cache matters.
  pub same_cache : (i2 : Instance L) → i2.cache ≡ i.cache → Handled s s i2
  same_cache i2 e = record {
    keeps = λ code l found. found;
    sound = record { coherent = rw e h.coherent; ordered = h.ordered; http = h.http };
  }

  pub flush_counters-Handled :
      (now : ℕ) (write : Write) → let (s2, i2) = flush_counters s i now write in Handled s s2 i2
  unfolding flush_counters
  flush_counters-Handled now write =
      unmoved (flush i.hits s.links now write).1 _ (links-flush i.hits s.links now write) h.coherent

  pub flush_cache-Handled : Handled s s (flush_cache i)
  unfolding flush_cache
  flush_cache-Handled = unmoved s.links (flush_cache i) refl (record {
    valid = record { bounded = omega arith; distinct = unfold Distinct in tt };
    copied = λ code e found. absurd (unfold Table.get in ground (arith, found));
  })

  pub reset_metrics-Handled : {G : Type 0} (a : Allocator G) → Handled s s (reset_metrics i a).0
  unfolding reset_metrics
  reset_metrics-Handled a = unmoved s.links (reset_metrics i a).0 refl (record {
    valid = record { bounded = h.coherent.valid.bounded; distinct = h.coherent.valid.distinct };
    copied = h.coherent.copied;
  })

  pub poll_once-Handled : Handled s s (poll_once s i)
  unfolding poll_once
  poll_once-Handled = unmoved s.links (poll_once s i) refl (
      rw (poll_lem s.log i.bus i.name i.cache h.ordered).0
        (apply_rows-Coherent (missed s.log i.bus i.name i.cache) i.cache s.links h.coherent))

  pub takedown-Handled :
      (code reason : Text) → let (s2, i2, r) = takedown s i code reason in Handled s s2 i2
  unfolding takedown Takedown.add
  takedown-Handled code reason =
      let told = publish-Ascending s.log code reason h.ordered in
      let log = (Invalidation.publish s.log code reason).0 in
      let cache = Lru.invalidate i.cache code in
      record {
        keeps = λ j l found. found;
        sound = record {
          coherent = rw (poll_lem log i.bus i.name cache told.0).0 (
              apply_rows-Coherent (missed log i.bus i.name cache) cache s.links
                (invalidate-Coherent i.cache s.links code h.coherent));
          ordered = told.0;
          http = h.http;
        };
      }

  module _ (inner : L → Text → ℕ → L × Result Decision) (client : Text) (at : Reading) where
    pub limited-Sound : Sound s (enforce_limit inner i client at).0
    limited-Sound = record {
      coherent = rw (enforce_limit-keeps inner s i client client at).1 h.coherent;
      ordered = h.ordered;
      http = h.http;
    }

module _ {L : Type 0} (inner : L → Text → ℕ → L × Result Decision) (s : Shared) (i : Instance L)
    (h : Sound s i) where
  pub resolve-Handled :
      (client code : Text) (at : Reading)
      → let (s2, i2, r) = resolve inner s i client code at in Handled s s2 i2
  resolve-Handled client code at =
      let limited = (enforce_limit inner i client at).0 in
      let sound = limited-Sound s i h inner client at in
      elim (Option-cases (enforce_limit inner i client at).1) [
        | inl passed ↦
            rw (resolve-passed inner s i client code at passed)
              (look_up-Handled s limited sound code at)
        | inr (r, stopped) ↦
            rw (resolve-stopped inner s i client code at r stopped)
              (same_cache s limited sound limited refl)
      ]
