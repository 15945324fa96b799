-- ===== src/Lib.antt =====
-- A verification library of the URL shortener: the Python package in src/shortener.
--
-- The program is one FastAPI process per instance. Instances share a link store (SQLite, or
-- PostgreSQL behind the same interface), an invalidation log and the store of the rate limiter.
-- `create_link` passes the limit, judges the destination, and lets the allocator insert the link
-- under a new code. `resolve` passes the limit, looks at the codes that this instance has
-- withdrawn, reads its LRU cache and behind it the link store, counts the hit, and redirects or
-- shows a page first. `takedown` lists a code, drops it from the cache and appends it to the log
-- that the other instances poll.
--
-- Which file models what (paths of the repository; a file's children hold its theorems):
--   Ids.Base62        src/shortener/ids.py      encode_base62, decode_base62
--   Ids.Snowflake     src/shortener/ids.py      SnowflakeGenerator, decode_id
--   Ids.RandomCode    src/shortener/ids.py      RandomCodeGenerator, build_generator
--   Ids.Allocator     src/shortener/ids.py      CodeAllocator
--   Store.Links       src/shortener/store.py    Link, LinkStore
--   Store.Lru         src/shortener/store.py    LruCache
--   Store.SingleFlight  src/shortener/store.py  SingleFlight
--   Store.Postgres    src/shortener/pgstore.py  PgLinkStore
--   Limiter           src/shortener/limiter.py  SqliteStore, RateLimiter, _retry_after
--   Limiter.Redis     src/shortener/limiter.py  LUA_TOKEN_BUCKET, RedisStore
--   Limiter.FailOpen  src/shortener/limiter.py  FailOpenLimiter
--   Breaker           src/shortener/breaker.py  CircuitBreaker
--   Breaker.Guarded   src/shortener/breaker.py  BreakerGuardedLimiter
--   Counters          src/shortener/counters.py HitCounter
--   Invalidation      src/shortener/invalidation.py  SqliteInvalidationBus
--   Invalidation.Overlap      src/shortener/invalidation.py  InvalidationPoller, drain_now
--   Invalidation.Propagation  src/shortener/invalidation.py  RedisPubSubBus, measure_propagation
--   Abuse.Host        src/shortener/abuse.py    registrable_suffix_match, PRIVATE_HOST_PATTERNS
--   Abuse.Policy      src/shortener/abuse.py    host_of, ReputationPolicy
--   Abuse.Takedown    src/shortener/abuse.py    TakedownList
--   Abuse.Page        src/shortener/abuse.py    INTERSTITIAL_HTML, render_interstitial
--   App, App.Create   src/shortener/app.py      enforce_limit, resolve, takedown, create_link
--   App.Body          src/shortener/app.py      CreateRequest
--   App.Fleet         src/shortener/app.py      the handlers of any number of instances over time
--   App.Reports       src/shortener/app.py      /metrics, /admin/abuse, and the stats they show
--   Load.Results      src/shortener/loadtest.py Results, resolve_worker, the division of the keys
--   Load.Closed       src/shortener/loadtest.py resolve_worker, create_worker, seed_links, run
--   Load.OpenLoop     src/shortener/openloop.py poisson_arrivals, run_open_loop, _fire
--   Load.Compare      src/shortener/openloop.py compare
--   Load.Sweep        src/shortener/openloop.py OpenLoopResults, sweep
--   Load.Isolation    src/shortener/openloop.py sweep_isolated
--   Load.Drills       src/shortener/drills.py   _hammer, run_stampede, run_fail_open
--   Prelude           shared helpers: texts, tables, results, numbers, families of threads
--   Examples          the theorems at concrete inputs
--
-- How the code is read. A method is a function from the object's record to the record after it; its
-- Python name is kept. Exceptions are values (`Result`). Texts are lists of code points, a `dict` or
-- a table with a primary key is a list of pairs in the order of insertion. What stands under a lock,
-- or in one transaction, is one step; `HitCounter.flush`, which takes its lock twice, is two. A clock
-- is an argument: one reading, or for the Snowflake generator, which may wait, the list of the
-- readings to come, whose end is a call that still waits.
--
-- Databases. How a write to a link store ends is an argument. SQLite fails before or behind any of the
-- rows or in the commit, and the rows before the failure stay written, since nothing rolls back;
-- PostgreSQL rolls a batch back. The store of the limiter fails as a whole. A table is what the
-- connection that writes sees, rows of an open transaction included; a crash before its commit, and a
-- query that fails and so ends the request, are not modelled, nor is a failing INSERT of PostgreSQL.
--
-- Numbers. Token counts are natural numbers in a unit in which the refill per millisecond is whole, so
-- that the refill is exact; the rounding of floats is not modelled, and a delay is a fraction. Ids are
-- Python integers, and an id from before the epoch is negative. What `_ms` of `PgLinkStore` reads, a
-- product of floats that is cut off, is an argument.
--
-- Fuel. Only `digits_loop` has any: a round divides by 62, so a number is fuel enough for its own
-- digits. The allocator's rounds are its own bound, `max_attempts`.
--
-- Code outside the repository is an argument: `secrets.choice` as the index of its n-th answer,
-- `urllib`'s host name, `str.lower`, which code points are decimal digits, `html.escape`, the
-- client of Redis, the indices and gaps that numpy draws, a percentile.
--
-- Threads. A handler of an instance is one step, in which `flight.do(code, load)` is the call of
-- `load`; `SingleFlight` itself is a step relation of threads that interleave at each access to its
-- object. A run of `App.Fleet` is a list of events, each at one instance. The polls of one instance,
-- from its thread and from its handlers, are steps that overlap.
--
-- Loops that wait. The loops of the load tests and of `measure_propagation` end by the clock; how the
-- clock advances and what the service answers is a list of happenings, at whose end a loop that is
-- not over goes on.
--
-- Not modelled: connections, PRAGMAs, the start and the stop of threads and of processes; set-up from
-- the environment, `healthz` and the page of the sandbox; of the load tests and drills
-- the HTTP requests, numpy's draws, weights and percentiles, `_wait_healthy`, and the command lines.
pub mod Prelude
pub mod Ids
pub mod Limiter
pub mod Breaker
pub mod Counters
pub mod Invalidation
pub mod Load
pub mod Abuse
pub mod App
pub mod Examples
pub mod Store
