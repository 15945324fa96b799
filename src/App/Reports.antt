-- ===== src/App/Reports.antt =====
-- src/shortener/app.py, the reports `/metrics` and `/admin/abuse`, with the `stats` of the objects that
-- they show. Sentences and the constants of the configuration are left out; `flight.collapsed` is an
-- argument.
pub mod Counted
use url_shortener_100x.Prelude.{
  ℕ, ◌+◌, ◌-◌, ◌*◌, Bool, true, false, Option, none, some, List, [], ◌∷◌, length, Text, max,
}
use url_shortener_100x.Prelude.Table.{Table}
use url_shortener_100x.Store.Links.{count}
use url_shortener_100x.Store.Lru.{LruCache, hit_ratio, size}
use url_shortener_100x.Counters.{HitCounter}
use url_shortener_100x.Breaker.{CircuitBreaker, CircuitState}
use url_shortener_100x.Breaker.Guarded.{GuardedLimiter}
use url_shortener_100x.Ids.Allocator.{Allocator}
use url_shortener_100x.Invalidation.{InvalidationLog, Bus, head, lag}
use url_shortener_100x.Abuse.Policy.{ReputationPolicy}
use url_shortener_100x.Abuse.Takedown.{TakedownList}
use url_shortener_100x.App.{Shared, Instance}

-- `client_id`, for the header `x-api-key` and the host of the client.
unfoldable pub client_id : Option Text → Option Text → Text → Text
client_id (some (c ∷ key)) host anonymous = c ∷ key
client_id _ (some host) anonymous = host
client_id _ none anonymous = anonymous

pub record CacheStats : Type 0 where
  pub hits : ℕ
  pub misses : ℕ
  pub ratio : ℕ × ℕ
  pub entries : ℕ
  pub capacity : ℕ

unfoldable pub cache_stats : {V : Type 0} → LruCache V → CacheStats
unfolding hit_ratio size
cache_stats c = record {
  hits = c.hits;
  misses = c.misses;
  ratio = hit_ratio c;
  entries = size c;
  capacity = c.capacity;
}

pub record CounterStats : Type 0 where
  pub recorded : ℕ
  pub flushes : ℕ
  pub pending_keys : ℕ
  pub flush_interval : ℕ

unfoldable pub counter_stats : HitCounter → CounterStats
counter_stats h = record {
  recorded = h.recorded;
  flushes = h.flushes;
  pending_keys = length h.counts;
  flush_interval = h.flush_interval;
}

pub record BreakerStats : Type 0 where
  pub state : CircuitState
  pub consecutive_failures : ℕ
  pub trips : ℕ
  pub short_circuited : ℕ
  pub probes : ℕ

unfoldable pub breaker_stats : CircuitBreaker → BreakerStats
breaker_stats b = record {
  state = b.state;
  consecutive_failures = b.consecutive_failures;
  trips = b.trips;
  short_circuited = b.short_circuited;
  probes = b.probes;
}

pub record LimiterStats : Type 0 where
  pub fail_open_count : ℕ
  pub errors : ℕ
  pub breaker : BreakerStats

unfoldable pub limiter_stats : {L : Type 0} → GuardedLimiter L → LimiterStats
unfolding breaker_stats
limiter_stats g = record {
  fail_open_count = g.fail_open_count;
  errors = g.error_count;
  breaker = breaker_stats g.breaker;
}

pub record CodeStats : Type 0 where
  pub allocated : ℕ
  pub collisions : ℕ
  pub max_attempts : ℕ

unfoldable pub code_stats : {G : Type 0} → Allocator G → CodeStats
code_stats a = record {
  allocated = a.allocated;
  collisions = a.collisions;
  max_attempts = a.max_attempts;
}

pub record Metrics : Type 0 where
  pub limiter_enabled : Bool
  pub cache : CacheStats
  pub singleflight_collapsed : ℕ
  pub hit_counter : CounterStats
  pub codes : CodeStats
  pub limiter : LimiterStats
  pub links : ℕ

unfoldable pub metrics : {L G : Type 0} → Shared → Instance L → Allocator G → ℕ → Metrics
unfolding cache_stats counter_stats code_stats limiter_stats count
metrics s i a collapsed = record {
  limiter_enabled = i.limiter_enabled;
  cache = cache_stats i.cache;
  singleflight_collapsed = collapsed;
  hit_counter = counter_stats i.hits;
  codes = code_stats a;
  limiter = limiter_stats i.limiter;
  links = count s.links;
}

pub record BusStats : Type 0 where
  pub newest : ℕ
  pub applied : ℕ
  pub polls : ℕ
  pub instances : Table ℕ

unfoldable pub bus_stats : InvalidationLog → Bus → BusStats
unfolding head
bus_stats log b = record {
  newest = head log;
  applied = b.applied;
  polls = b.polls;
  instances = b.cursors;
}

pub record TakedownStats : Type 0 where
  pub taken_down : ℕ
  pub local_purges : ℕ
  pub published_to_bus : ℕ
  pub bus : BusStats

unfoldable pub takedown_stats : TakedownList → InvalidationLog → Bus → TakedownStats
unfolding bus_stats
takedown_stats t log b = record {
  taken_down = length t.codes;
  local_purges = t.local_purges;
  published_to_bus = t.published;
  bus = bus_stats log b;
}

pub record AbuseStats : Type 0 where
  pub takedowns : TakedownStats
  pub invalidation_lag : ℕ
  pub interstitial_codes : ℕ
  pub blocklisted_domains : ℕ
  pub shortener_domains : ℕ
  pub allow_private_targets : Bool

unfoldable pub abuse_stats : {L : Type 0} → Shared → Instance L → ReputationPolicy → AbuseStats
unfolding takedown_stats lag
abuse_stats s i p = record {
  takedowns = takedown_stats i.takedowns s.log i.bus;
  invalidation_lag = lag s.log i.bus i.name;
  interstitial_codes = length i.interstitials;
  blocklisted_domains = length p.blocklist;
  shortener_domains = length p.shorteners;
  allow_private_targets = p.allow_private;
}
