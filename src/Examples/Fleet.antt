-- ===== src/Examples/Fleet.antt =====
-- The theorems on the whole service, with instances that share no generator and no cache.
use url_shortener_100x.Prelude.{
  ℕ, suc, ◌+◌, ◌≡◌, ◌⊎◌, refl, Option, none, some, Bool, true, false, [], ◌∷◌, ◌++◌, List, arith,
  if◌then◌else◌, Text, Result, ok, raise, other_error, text_dec,
}
use url_shortener_100x.Prelude.Table
use url_shortener_100x.Store.Links
use url_shortener_100x.Store.Links.{commits, fails_after, Link, LinkStore, is_expired, empty_store}
use native.Mathlib.Decide.{ℕ_discrete}
use url_shortener_100x.Store.Lru
use url_shortener_100x.Store.Lru.{new_cache}
use url_shortener_100x.Store.Lru.Bounds.{new_cache-IsValid}
use url_shortener_100x.Limiter.{Decision}
use url_shortener_100x.Breaker.{closed}
use url_shortener_100x.Invalidation.{poll, publish}
use url_shortener_100x.Invalidation.Log.{Ascending}
use url_shortener_100x.Ids.Allocator.{allocate}
use url_shortener_100x.Abuse.Policy.{ReputationPolicy, evaluate}
use url_shortener_100x.Abuse.Takedown
use url_shortener_100x.App.{Instance, Reading, Response, created, gone, enforce_limit, resolve}
use url_shortener_100x.App.Serve.{found_response}
use url_shortener_100x.App.Body.{must_be_http, http_prefix, post_link}
use url_shortener_100x.App.Fleet.{Event, post, withdraw, poll_round, visit, shut_down, World, run}
use url_shortener_100x.App.Fleet.Service.{Consistent, post_link-resolve}
use url_shortener_100x.App.Fleet.Hits.{all_hits, hits_in, doubled_in, run-hits}
use url_shortener_100x.App.Fleet.Targets.{target_of, resolve-must_be_http}

abbrev down : ℕ → Text → ℕ → ℕ × Result Decision
down calls client_id cost = (suc calls, raise other_error)

-- A generator that counts, and a reader of host names that finds the host `h`.
abbrev next : ℕ → Result Text × ℕ
next n = (ok (n ∷ []), suc n)

abbrev no_digit : ℕ → Bool
no_digit c = false

abbrev hostname : Text → Result (Option Text)
hostname url = ok (some (104 ∷ []))

abbrev lower : Text → Text
lower text = text

abbrev policy : ReputationPolicy
policy = record { blocklist = []; shorteners = []; low_trust = []; allow_private = true }

abbrev instance_at : ℕ → Instance ℕ
instance_at n = record {
  name = n ∷ [];
  limiter_enabled = false;
  limiter = record {
    limiter = 0;
    fail_open = true;
    breaker = record {
      failure_threshold = 5;
      cooldown = 5;
      state = closed;
      consecutive_failures = 0;
      opened_at = none;
      short_circuited = 0;
      trips = 0;
      probes = 0;
    };
    fail_open_count = 0;
    error_count = 0;
  };
  takedowns = record { codes = []; local_purges = 0; published = 0 };
  interstitials = [];
  cache = record { capacity = 10; entries = []; hits = 0; misses = 0 };
  hits = record {
    flush_interval = 2;
    max_pending = 10;
    counts = [];
    last_flush = 0;
    flushes = 0;
    recorded = 0;
  };
  bus = record { cursors = []; applied = 0; polls = 0 };
}

abbrev world : World ℕ ℕ
world = record {
  shared = record { links = empty_store; log = [] };
  instances = instance_at;
  allocators = λ n. record { generator = n; max_attempts = 3; allocated = 0; collisions = 0 };
}

world-Consistent : Consistent world
unfolding Ascending Table.get new_cache Links.get
world-Consistent n = record {
  coherent = record {
    valid = new_cache-IsValid 10;
    copied = λ code e hit. absurd (ground (arith, hit));
  };
  ordered = tt;
  http = λ code l found. absurd (ground (arith, found));
}

abbrev reading : Reading
reading = record {
  breaker_now = 3;
  breaker_later = 4;
  now_ms = 50;
  monotonic = 1;
  store_write = commits;
}

-- "http://h"
abbrev address : Text
address = http_prefix ++ 104 ∷ []

abbrev link : Link
link = record { code = 1 ∷ []; target = address; created_ms = 40; expires_ms = none; hits = 0 }

posted :
    (post_link down next no_digit hostname lower world.shared
      (instance_at 1)
      (world.allocators 1)
      policy
      (9 ∷ [])
      address
      none
      reading
      (λ n. record { clock = 40; write = commits })).3
    ≡ created link false (111 ∷ 107 ∷ [])
unfolding post_link enforce_limit evaluate allocate Links.create Table.get
posted = refl

-- The first instance withdraws some other code, the second polls.
abbrev events : List (ℕ × Event)
events = (0, withdraw (7 ∷ []) (8 ∷ [])) ∷ (1, poll_round) ∷ []

abbrev history : List (ℕ × Event)
history =
    (1, post (9 ∷ []) address none reading (λ n. record { clock = 40; write = commits })) ∷ events

abbrev after : World ℕ ℕ
after = run down next no_digit hostname lower policy world history

abbrev response : Response
response = (resolve down after.shared (after.instances 0) (9 ∷ []) (1 ∷ []) reading).2

post_link-resolve_example :
    (link.target ≡ address)
    × (must_be_http address ≡ true)
    × (((enforce_limit down (after.instances 0) (9 ∷ []) reading).1 ≡ some response)
        ⊎ ((response ≡ gone (Takedown.reason (after.instances 0).takedowns (1 ∷ [])))
            ⊎ (response
                ≡ found_response
                    (after.instances 0).interstitials
                    (1 ∷ [])
                    (if is_expired link 50 then none else some address))))
post_link-resolve_example =
    post_link-resolve down next no_digit hostname lower policy world 1 (9 ∷ []) address none reading
      (λ n. record { clock = 40; write = commits }) link false (111 ∷ 107 ∷ []) events 0 (9 ∷ [])
      reading world-Consistent posted

sent : target_of response ≡ some address
unfolding run resolve ℕ_discrete Takedown.contains Table.get Takedown.add Table.put text_dec Lru.get
    poll publish evaluate allocate Links.create Lru.invalidate Table.remove Links.get is_expired
    post_link enforce_limit
sent = refl

resolve-must_be_http_example : must_be_http address ≡ true
resolve-must_be_http_example =
    resolve-must_be_http down next no_digit hostname lower policy world history 0 (9 ∷ []) (1 ∷ [])
      address reading world-Consistent sent

-- A visit of the posted link; the commit of its hit fails, and the shutdown writes it again.
abbrev visited : List (ℕ × Event)
visited =
    (1, post (9 ∷ []) address none reading (λ n. record { clock = 40; write = commits }))
    ∷ (0, visit (9 ∷ []) (1 ∷ []) reading)
    ∷ (0, shut_down 2 (fails_after 1))
    ∷ (0, shut_down 3 commits)
    ∷ []

run-hits_example :
    all_hits (1 ∷ []) 2 (run down next no_digit hostname lower policy world visited)
    ≡ all_hits (1 ∷ []) 2 world
      + hits_in (1 ∷ []) down next no_digit hostname lower policy world visited
      + doubled_in (1 ∷ []) down next no_digit hostname lower policy world visited
run-hits_example =
    run-hits (1 ∷ []) down next no_digit hostname lower policy 2 visited world
      (omega arith, (omega arith, (omega arith, (omega arith, tt))))
