-- ===== src/App/Fleet.antt =====
-- src/shortener/app.py, the whole service: any number of instances, each with its own cache, list of
-- takedowns and generator, on one link store and one invalidation log.
pub mod Kept
pub mod Handlers
pub mod Creation
pub mod Answer
pub mod Service
pub mod Targets
pub mod Uncounted
pub mod Recorded
pub mod Hits
use url_shortener_100x.Store.Links.{Attempt, Write}
use url_shortener_100x.Prelude.{ℕ, ◌≡◌, Bool, Option, none, some, List, [], ◌∷◌, Text, ℤ, Result}
use url_shortener_100x.Prelude.Threads.{at_index}
use url_shortener_100x.Limiter.{Decision}
use url_shortener_100x.Ids.Allocator.{Allocator}
use url_shortener_100x.Abuse.Policy.{ReputationPolicy}
use url_shortener_100x.Counters.{flush}
use url_shortener_100x.App.{
  Shared, Instance, Reading, Response, resolve, takedown, poll_once, flush_cache,
}
use url_shortener_100x.App.Body.{post_link}

module _ {L G : Type 0} where
  -- `reset_metrics`, but for the counter of `flight`, which no instance here has.
  unfoldable pub reset_metrics : Instance L → Allocator G → Instance L × Allocator G
  reset_metrics i a = (
    record i {
      cache = record i.cache { hits = 0; misses = 0 };
      hits = record i.hits { recorded = 0; flushes = 0 };
      limiter = record i.limiter { fail_open_count = 0; error_count = 0 };
    },
    record a { allocated = 0; collisions = 0 },
  )

-- `_flush_counters`, on a clean shutdown.
unfoldable pub flush_counters : {L : Type 0} → Shared → Instance L → ℕ → Write → Shared × Instance L
flush_counters s i now write =
    let (counter, links, written) = flush i.hits s.links now write in
    (record s { links = links }, record i { hits = counter })

-- What happens to an instance: a request, a round of its poller, or its shutdown.
pub data Event : Type 0 where
  visit : Text → Text → Reading → Event
  post : Text → Text → Option ℤ → Reading → (ℕ → Attempt) → Event
  withdraw : Text → Text → Event
  poll_round : Event
  flush_all : Event
  reset : Event
  shut_down : ℕ → Write → Event

pub record World (L G : Type 0) : Type 0 where
  pub shared : Shared
  pub instances : ℕ → Instance L
  pub allocators : ℕ → Allocator G

module _ {L G : Type 0} where
  -- The world after instance `n` has moved.
  abbrev pub after : World L G → ℕ → Shared → Instance L → Allocator G → World L G
  after w n s i a = record {
    shared = s;
    instances = at_index w.instances n i;
    allocators = at_index w.allocators n a;
  }

module _ {L G : Type 0} (inner : L → Text → ℕ → L × Result Decision)
    (next : G → Result Text × G) where
  module _ (is_decimal : ℕ → Bool) (hostname : Text → Result (Option Text)) (lower : Text → Text)
      (policy : ReputationPolicy) where
    -- The shared state, the instance and its allocator after the event.
    unfoldable pub handle :
        Shared → Instance L → Allocator G → Event → Shared × Instance L × Allocator G
    unfolding resolve post_link takedown poll_once flush_cache reset_metrics flush_counters
    handle s i a (visit client code at) =
        let (s2, i2, r) = resolve inner s i client code at in (s2, i2, a)
    handle s i a (post client target ttl at attempts) =
        let (s2, i2, a2, r) =
          post_link inner next is_decimal hostname lower s i a policy client target ttl at
            attempts in
        (s2, i2, a2)
    handle s i a (withdraw code reason) = let (s2, i2, r) = takedown s i code reason in (s2, i2, a)
    handle s i a poll_round = (s, poll_once s i, a)
    handle s i a flush_all = (s, flush_cache i, a)
    handle s i a reset = let (i2, a2) = reset_metrics i a in (s, i2, a2)
    handle s i a (shut_down now write) = let (s2, i2) = flush_counters s i now write in (s2, i2, a)

    unfoldable pub step : World L G → ℕ × Event → World L G
    unfolding handle
    step w (n, event) =
        let (s, i, a) = handle w.shared (w.instances n) (w.allocators n) event in after w n s i a

    -- Events in the order in which they happen, each at its instance.
    unfoldable pub run : World L G → List (ℕ × Event) → World L G
    unfolding step
    run w [] = w
    run w (e ∷ events) = run (step w e) events
