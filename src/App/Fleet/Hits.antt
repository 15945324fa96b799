-- ===== src/App/Fleet/Hits.antt =====
-- src/shortener/app.py and counters.py, the hits of a code over all instances: pending in their
-- counters, or written to the store that they share.
use url_shortener_100x.Prelude.{
  ℕ, ◌+◌, ◌≡◌, ◌<◌, Bool, Option, List, [], ◌∷◌, Text, Result, All, arith,
}
use url_shortener_100x.Prelude.Threads.{sum_below, sum_below-at_index}
use url_shortener_100x.Store.Links.{hits}
use url_shortener_100x.Store.Links.Hits.{left_behind}
use url_shortener_100x.Limiter.{Decision}
use url_shortener_100x.Abuse.Policy.{ReputationPolicy}
use url_shortener_100x.App.{resolve}
use url_shortener_100x.App.Fleet.{
  Event, visit, post, withdraw, poll_round, flush_all, reset, shut_down, World, handle, step, run,
}
use url_shortener_100x.App.Fleet.Targets.{target_of}
use url_shortener_100x.App.Fleet.Uncounted.{
  post_link-Uncounted, takedown-Uncounted, poll_once-Uncounted, flush_cache-Uncounted,
  reset_metrics-Uncounted,
}
use url_shortener_100x.App.Fleet.Recorded.{
  pending, Adds, hits_of, doubled_of, Adds-Uncounted, flush_counters-Adds, resolve-Adds,
}

module _ (code : Text) where
  -- The hits of the code that are written, or pending on one of the first `count` instances.
  abbrev pub all_hits : {L G : Type 0} → ℕ → World L G → ℕ
  all_hits {L} count w =
      hits w.shared.links code + sum_below (pending code {L = L}) count w.instances

  module _ {L G : Type 0} (inner : L → Text → ℕ → L × Result Decision)
      (next : G → Result Text × G) where
    module _ (is_decimal : ℕ → Bool) (hostname : Text → Result (Option Text)) (lower : Text → Text)
        (policy : ReputationPolicy) where
      -- The hits of the code that an event of an instance makes.
      abbrev pub hits_at : World L G → ℕ × Event → ℕ
      hits_at w (n, visit client j at) =
          hits_of code j (resolve inner w.shared (w.instances n) client j at).2
      hits_at w (n, _) = 0

      -- The hits of the code that an event of an instance writes and keeps as well.
      abbrev pub doubled_at : World L G → ℕ × Event → ℕ
      doubled_at w (n, visit client j at) =
          doubled_of code (w.instances n).hits j at
            (target_of (resolve inner w.shared (w.instances n) client j at).2)
      doubled_at w (n, shut_down now write) = left_behind write (w.instances n).hits.counts code
      doubled_at w (n, _) = 0

      abbrev pub after_event : World L G → ℕ × Event → World L G
      after_event w e = step inner next is_decimal hostname lower policy w e

      unfoldable pub hits_in : World L G → List (ℕ × Event) → ℕ
      hits_in w [] = 0
      hits_in w (e ∷ events) = hits_at w e + hits_in (after_event w e) events

      unfoldable pub doubled_in : World L G → List (ℕ × Event) → ℕ
      doubled_in w [] = 0
      doubled_in w (e ∷ events) = doubled_at w e + doubled_in (after_event w e) events

      handle-Adds :
          (w : World L G) (n : ℕ) (event : Event)
          → let (s2, i2, a2) =
              handle inner next is_decimal hostname lower policy w.shared
                (w.instances n)
                (w.allocators n)
                event in
            Adds code w.shared
              (w.instances n)
              s2
              i2
              (hits_at w (n, event) + doubled_at w (n, event))
      unfolding handle
      handle-Adds w n (visit client j at) =
          resolve-Adds code inner w.shared (w.instances n) client j at
      handle-Adds w n (post client target ttl at attempts) =
          Adds-Uncounted code w.shared (w.instances n) _ _ (
            post_link-Uncounted inner next is_decimal hostname lower policy w.shared (w.instances n)
              (w.allocators n) client target ttl at attempts)
      handle-Adds w n (withdraw j reason) =
          Adds-Uncounted code w.shared (w.instances n) _ _
            (takedown-Uncounted w.shared (w.instances n) j reason)
      handle-Adds w n poll_round =
          Adds-Uncounted code w.shared (w.instances n) _ _
            (poll_once-Uncounted w.shared (w.instances n))
      handle-Adds w n flush_all =
          Adds-Uncounted code w.shared (w.instances n) _ _
            (flush_cache-Uncounted w.shared (w.instances n))
      handle-Adds w n reset =
          Adds-Uncounted code w.shared (w.instances n) _ _
            (reset_metrics-Uncounted w.shared (w.instances n) (w.allocators n))
      handle-Adds w n (shut_down now write) =
          omega (arith, flush_counters-Adds code w.shared (w.instances n) now write)

      step-hits :
          (count : ℕ) (w : World L G) (n : ℕ) (event : Event)
          → n < count
          → all_hits count (after_event w (n, event))
            ≡ all_hits count w + hits_at w (n, event) + doubled_at w (n, event)
      unfolding step
      step-hits count w n event small =
          let (s2, i2, a2) =
            handle inner next is_decimal hostname lower policy w.shared (w.instances n)
              (w.allocators n) event in
          omega (
            arith,
            handle-Adds w n event,
            sum_below-at_index (pending code {L = L}) count w.instances n i2 small,
          )

      -- With any number of instances, whatever happens on them and wherever their flushes fail: the
      -- hits of a code that are in the store, and those still pending on some instance, are together
      -- those from before, one for every visit that was sent on to the link, and once more each hit
      -- in a row that a failed batch had already written when it failed.
      pub run-hits :
          (count : ℕ) (events : List (ℕ × Event)) (w : World L G)
          → All (λ e. e.0 < count) events
          → all_hits count (run inner next is_decimal hostname lower policy w events)
            ≡ all_hits count w + hits_in w events + doubled_in w events
      unfolding run hits_in doubled_in
      run-hits count [] w inside = omega arith
      run-hits count ((n, event) ∷ events) w inside = omega (
        arith,
        run-hits count events (after_event w (n, event)) inside.1,
        step-hits count w n event inside.0,
      )
