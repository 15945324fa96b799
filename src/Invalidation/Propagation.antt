-- ===== src/Invalidation/Propagation.antt =====
-- src/shortener/invalidation.py, `RedisPubSubBus.publish` and `measure_propagation`. Times are whole
-- milliseconds; the pollers' threads poll between two looks at the caches, in any order. An instance
-- has a bus object of its own here: the cursors of two instances never meet.
pub mod Misses
pub mod Verdict
use url_shortener_100x.Prelude.{
  ℕ, zero, suc, ◌+◌, ◌-◌, ◌*◌, ◌/◌, Bool, true, false, Option, none, some, List, [], ◌∷◌, ltb, leb,
  if◌then◌else◌, length, get_elem?, map, max, Text, Result, ok, raise, value_error, other_error,
}
use url_shortener_100x.Prelude.Sorting.{sort}
use url_shortener_100x.Store.Lru
use url_shortener_100x.Store.Lru.{LruCache}
use url_shortener_100x.Invalidation.{InvalidationLog, Bus, publish, poll}

-- `RedisPubSubBus.publish`: the message is a number and a code; an exception of the client is
-- dropped. The client is an argument.
unfoldable pub publish_and_push :
    {S : Type 0}
    → (S → ℕ × Text → S × Result ℕ)
    → S
    → InvalidationLog
    → Text
    → Text
    → S × InvalidationLog × ℕ
unfolding publish
publish_and_push push redis log code reason =
    let (log2, seq) = publish log code reason in
    let (redis2, pushed) = push redis (seq, code) in (redis2, log2, seq)

-- `InvalidationPoller`
pub record Poller : Type 0 where
  pub bus : Bus
  pub instance_id : Text
  pub cache : LruCache Text
  pub interval : ℕ

-- One round of a poller's thread.
unfoldable pub poll_round : InvalidationLog → Poller → Poller
unfolding poll
poll_round log p =
    let (bus, cache, applied) = poll log p.bus p.instance_id p.cache in
    record p { bus = bus; cache = cache }

unfoldable pub poll_at : InvalidationLog → ℕ → List Poller → List Poller
unfolding poll_round
poll_at log n [] = []
poll_at log zero (p ∷ pollers) = poll_round log p ∷ pollers
poll_at log (suc n) (p ∷ pollers) = p ∷ poll_at log n pollers

unfoldable pub poll_each : InvalidationLog → List ℕ → List Poller → List Poller
unfolding poll_at
poll_each log [] pollers = pollers
poll_each log (n ∷ ns) pollers = poll_each log ns (poll_at log n pollers)

-- `for p_ in pollers: p_.cache.put(code, target)`
unfoldable pub put_each : Text → Text → List Poller → List Poller
unfolding Lru.put
put_each code target [] = []
put_each code target (p ∷ pollers) =
    record p { cache = Lru.put p.cache code target none } ∷ put_each code target pollers

-- `all(p_.cache.get(code, now_ms()) is None for p_ in pollers)`, which stops at the first hit.
unfoldable pub all_miss : Text → ℕ → List Poller → List Poller × Bool
unfolding Lru.get
all_miss code now_ms [] = ([], true)
all_miss code now_ms (p ∷ pollers) =
    let (cache, value) = Lru.get p.cache code now_ms in
    let (rest, missed) = all_miss code now_ms pollers in
    elim value [
      | none ↦ (record p { cache = cache } ∷ rest, missed)
      | some v ↦ (record p { cache = cache } ∷ pollers, false)
    ]

-- The time until the loop's condition is read, who polls in it, and the time of day of the look.
pub record Look : Type 0 where
  pub elapsed : ℕ
  pub polled : List ℕ
  pub now_ms : ℕ

-- The `while` loop: the pollers, the time, and whether it was left by its `break`; `none` while it
-- goes on.
unfoldable pub await_misses :
    InvalidationLog → Text → ℕ → ℕ → List Poller → List Look → Option (List Poller × ℕ × Bool)
unfolding poll_each all_miss
await_misses log code deadline now pollers [] = none
await_misses log code deadline now pollers (l ∷ looks) =
    let polled = poll_each log l.polled pollers in
    let (seen, missed) = all_miss code l.now_ms polled in
    let rest = await_misses log code deadline (now + l.elapsed) seen looks in
    if ltb (now + l.elapsed) deadline
    then (if missed then some (seen, now + l.elapsed, true) else rest)
    else some (polled, now + l.elapsed, false)

-- `max(p_.interval_s for p_ in pollers)`, for pollers that there are.
unfoldable pub max_interval : List Poller → ℕ
max_interval [] = 0
max_interval (p ∷ pollers) = max p.interval (max_interval pollers)

-- A probe: its code and target, what happens in its loop, and the time until its latency is read.
pub record Probe : Type 0 where
  pub code : Text
  pub target : Text
  pub looks : List Look
  pub read_after : ℕ

pub record Outcome : Type 0 where
  pub code : Text
  pub latency : ℕ
  pub pollers : List Poller
  pub broke : Bool

-- One turn of the outer loop from the time `t0` on.
unfoldable pub run_probe :
    InvalidationLog → List Poller → ℕ → Text → Probe → Option (InvalidationLog × Outcome)
unfolding await_misses put_each publish max_interval
run_probe log pollers t0 reason p =
    let log2 = (publish log p.code reason).0 in
    elim (await_misses log2 p.code (t0 + max_interval pollers * 8) t0
      (put_each p.code p.target pollers) p.looks) [
        | none ↦ none
        | some (after, now, broke) ↦ some (
          log2,
          record {
            code = p.code;
            latency = now + p.read_after - t0;
            pollers = after;
            broke = broke;
          },
        )
      ]

unfoldable pub run_probes :
    InvalidationLog → List Poller → Text → List (ℕ × Probe) → Option (List Outcome)
unfolding run_probe
run_probes log pollers reason [] = some []
run_probes log pollers reason ((t0, p) ∷ probes) = elim (run_probe log pollers t0 reason p) [
  | none ↦ none
  | some (log2, o) ↦ elim (run_probes log2 o.pollers reason probes) [
    | none ↦ none
    | some outcomes ↦ some (o ∷ outcomes)
  ]
]

abbrev pub latencies : List Outcome → List ℕ
latencies outcomes = sort leb (map (λ o. o.latency) outcomes)

pub record Report : Type 0 where
  pub samples : ℕ
  pub instances : ℕ
  pub poll_interval_ms : ℕ
  pub p50_ms : Option ℕ
  pub p95_ms : Option ℕ
  pub max_ms : ℕ
  pub mean_ms : ℕ × ℕ
  pub expected_mean_ms : ℕ × ℕ
  pub within_sla_bound : Bool

-- `sum(latencies)`
unfoldable pub sum : List ℕ → ℕ
sum [] = 0
sum (x ∷ xs) = x + sum xs

-- `latencies[-1]`
unfoldable pub last : List ℕ → Option ℕ
last [] = none
last (x ∷ []) = some x
last (x ∷ y ∷ xs) = last (y ∷ xs)

-- The result, with its means as quotients: a `ValueError` of `max` without pollers, a `ZeroDivisionError` without a probe.
unfoldable pub report : List Poller → List Outcome → Result Report
unfolding last sum max_interval
report [] outcomes = raise value_error
report (p ∷ pollers) outcomes =
    let sorted = latencies outcomes in
    elim (last sorted) [
      | none ↦ raise other_error
      | some slowest ↦ ok (record {
        samples = length outcomes;
        instances = length (p ∷ pollers);
        poll_interval_ms = max_interval (p ∷ pollers);
        p50_ms = get_elem? sorted (length sorted / 2);
        p95_ms = get_elem? sorted (95 * (length sorted - 1) / 100);
        max_ms = slowest;
        mean_ms = (sum sorted, length sorted);
        expected_mean_ms =
            (max_interval (p ∷ pollers) * length (p ∷ pollers), length (p ∷ pollers) + 1);
        within_sla_bound = leb (slowest * 2) (max_interval (p ∷ pollers) * 3);
      })
    ]

-- `measure_propagation`; `none` while one of its loops goes on.
unfoldable pub measure_propagation :
    InvalidationLog → List Poller → Text → List (ℕ × Probe) → Option (List Outcome × Result Report)
unfolding run_probes report
measure_propagation log pollers reason probes = elim (run_probes log pollers reason probes) [
  | none ↦ none
  | some outcomes ↦ some (outcomes, report pollers outcomes)
]
