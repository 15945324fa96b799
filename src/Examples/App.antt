-- ===== src/Examples/App.antt =====
-- The theorems on the handlers, with two instances and one stored link.
use url_shortener_100x.Prelude.{
  ℕ, suc, ◌+◌, is_some, if◌then◌else◌, ◌≡◌, ◌⊎◌, refl, inl, Option, none, some, Bool, true, false,
  [], ◌∷◌, arith, ltb, Text, text_dec, if_pos, Result, ok, raise, other_error,
}
use url_shortener_100x.Prelude.Table
use url_shortener_100x.Store.Links.{commits, LinkStore}
use url_shortener_100x.Store.Lru
use url_shortener_100x.Store.Lru.{new_cache}
use url_shortener_100x.Store.Lru.Bounds.{new_cache-IsValid}
use url_shortener_100x.Limiter.{Decision}
use url_shortener_100x.Breaker.{closed}
use url_shortener_100x.Invalidation.Log.{Ascending}
use url_shortener_100x.Ids.Allocator.{Allocator}
use url_shortener_100x.Abuse.Policy.{Verdict, refuse, host_of, new_policy}
use url_shortener_100x.Abuse.Takedown
use url_shortener_100x.App.{
  Shared, Instance, Reading, gone, destination_refused, enforce_limit, resolve, takedown, poll_once,
}
use url_shortener_100x.App.Resolve.{Coherent, lookup}
use url_shortener_100x.App.Reports.{metrics}
use url_shortener_100x.App.Reports.Counted.{metrics-resolve}
use url_shortener_100x.App.Serve.{found_response, resolve-gone, resolve-lookup}
use url_shortener_100x.App.Create.{create_link}
use url_shortener_100x.App.Create.Refusal.{create_link-Refused}
use url_shortener_100x.App.Withdraw.{resolve-takedown}

abbrev down : ℕ → Text → ℕ → ℕ × Result Decision
down calls client_id cost = (suc calls, raise other_error)

abbrev links : LinkStore
links = record {
  links = (65 ∷ [], record { target = 97 ∷ []; created_ms = 1; expires_ms = some 90 }) ∷ [];
  link_hits = [];
}

abbrev shared : Shared
shared = record { links = links; log = [] }

abbrev instance_one : Instance ℕ
instance_one = record {
  name = 1 ∷ [];
  limiter_enabled = false;
  limiter = record {
    limiter = 0;
    fail_open = true;
    breaker = record {
      failure_threshold = 5;
      cooldown = 5;
      state = closed;
      consecutive_failures = 0;
      opened_at = none;
      short_circuited = 0;
      trips = 0;
      probes = 0;
    };
    fail_open_count = 0;
    error_count = 0;
  };
  takedowns = record { codes = []; local_purges = 0; published = 0 };
  interstitials = [];
  cache = record { capacity = 10; entries = []; hits = 0; misses = 0 };
  hits = record {
    flush_interval = 2;
    max_pending = 10;
    counts = [];
    last_flush = 0;
    flushes = 0;
    recorded = 0;
  };
  bus = record { cursors = []; applied = 0; polls = 0 };
}

abbrev reading : Reading
reading = record {
  breaker_now = 3;
  breaker_later = 4;
  now_ms = 50;
  monotonic = 1;
  store_write = commits;
}

abbrev counting : Allocator ℕ
counting = record { generator = 66; max_attempts = 2; allocated = 0; collisions = 0 }

cold-Coherent : Coherent instance_one.cache shared.links
unfolding Table.get new_cache
cold-Coherent = record {
  valid = new_cache-IsValid 10;
  copied = λ code e hit. absurd (ground arith);
}

passes : (enforce_limit down instance_one (9 ∷ []) reading).1 ≡ none
unfolding enforce_limit
passes = refl

unlisted : Takedown.contains instance_one.takedowns (65 ∷ []) ≡ false
unfolding Takedown.contains Table.get
unlisted = refl

resolve-lookup_example :
    let (s, i, r) = resolve down shared instance_one (9 ∷ []) (65 ∷ []) reading in
    (r ≡ found_response [] (65 ∷ []) (lookup links (65 ∷ []) 50)) × Coherent i.cache s.links
resolve-lookup_example =
    resolve-lookup down shared instance_one (9 ∷ []) (65 ∷ []) reading passes cold-Coherent unlisted

metrics-resolve_example :
    let (s, i, r) = resolve down shared instance_one (9 ∷ []) (65 ∷ []) reading in
    let held = is_some (Lru.get instance_one.cache (65 ∷ []) 50).1 in
    ((metrics s i counting 0).cache.hits
      ≡ (metrics shared instance_one counting 0).cache.hits + (if held then 1 else 0))
    × ((metrics s i counting 0).cache.misses
        ≡ (metrics shared instance_one counting 0).cache.misses + (if held then 0 else 2))
metrics-resolve_example =
    metrics-resolve down shared instance_one (9 ∷ []) (65 ∷ []) reading counting 0 passes unlisted

-- An instance that has withdrawn the code.
abbrev withdrawing : Instance ℕ
withdrawing = record instance_one {
  takedowns = record { codes = (65 ∷ [], 7 ∷ []) ∷ []; local_purges = 1; published = 1 };
}

listed_row : Table.get withdrawing.takedowns.codes (65 ∷ []) ≡ some (7 ∷ [])
unfolding Table.get
listed_row = if_pos (text_dec (65 ∷ []) (65 ∷ [])) refl _ _

listed : Takedown.contains withdrawing.takedowns (65 ∷ []) ≡ true
unfolding Takedown.contains
listed = rw (listed_row, Takedown.contains) refl

resolve-gone_example :
    let (s, i, r) = resolve down shared withdrawing (9 ∷ []) (65 ∷ []) reading in
    (((enforce_limit down withdrawing (9 ∷ []) reading).1 ≡ some r)
      ⊎ (r ≡ gone (Takedown.reason withdrawing.takedowns (65 ∷ []))))
    × (s ≡ shared)
    × (i.cache ≡ withdrawing.cache)
resolve-gone_example = resolve-gone down shared withdrawing (9 ∷ []) (65 ∷ []) reading listed

empty-Ascending : Ascending 0 shared.log
unfolding Ascending
empty-Ascending = tt

passes_later :
    (enforce_limit down
      (poll_once (takedown shared instance_one (65 ∷ []) (7 ∷ [])).0 instance_one)
      (9 ∷ [])
      reading).1
    ≡ none
unfolding enforce_limit poll_once
passes_later = refl

resolve-takedown_example :
    (Takedown.contains (takedown shared instance_one (65 ∷ []) (7 ∷ [])).1.takedowns (65 ∷ [])
      ≡ true)
    × ((resolve down
          (takedown shared instance_one (65 ∷ []) (7 ∷ [])).0
          (poll_once (takedown shared instance_one (65 ∷ []) (7 ∷ [])).0 instance_one)
          (9 ∷ [])
          (65 ∷ [])
          reading).2
        ≡ found_response [] (65 ∷ []) (lookup links (65 ∷ []) 50))
resolve-takedown_example =
    resolve-takedown down shared instance_one instance_one (9 ∷ []) (65 ∷ []) (7 ∷ []) reading
      empty-Ascending cold-Coherent unlisted passes_later

abbrev count_up : ℕ → Result Text × ℕ
count_up n = (ok (n ∷ []), suc n)

abbrev is_digit : ℕ → Bool
is_digit c = ltb c 58

-- A reader that finds no host.
abbrev hostless : Text → Result (Option Text)
hostless url = ok none

abbrev same : Text → Text
same s = s

no_host : host_of is_digit hostless same (97 ∷ []) ≡ ok []
unfolding host_of
no_host = refl

create_link-Refused_example :
    (v : Verdict) × (v.action ≡ refuse)
    × (create_link down count_up is_digit hostless same shared instance_one counting
          (new_policy false)
          (9 ∷ [])
          (97 ∷ [])
          none
          reading
          (λ n. record { clock = 50; write = commits })
        ≡ (
          shared,
          (enforce_limit down instance_one (9 ∷ []) reading).0,
          counting,
          destination_refused v,
        ))
create_link-Refused_example =
    create_link-Refused down count_up is_digit hostless same shared instance_one counting
      (new_policy false) (9 ∷ []) (97 ∷ []) [] none reading
      (λ n. record { clock = 50; write = commits }) passes no_host (inl refl)
