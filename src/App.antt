-- ===== src/App.antt =====
-- src/shortener/app.py: the handlers over the state of one instance and the state that all share.
-- The limiter's store is the argument `inner`, and the breaker's and the counter's clocks are
-- readings. One handler runs at a time, so `flight.do(code, load)` is the call of `load`.
pub mod Body
pub mod Create
pub mod Fleet
pub mod Reports
pub mod Resolve
pub mod Serve
pub mod Withdraw
use url_shortener_100x.Prelude.{
  ℕ, ◌+◌, ◌*◌, ◌/◌, Bool, true, false, Option, none, some, List, [], ◌∷◌, if◌then◌else◌, min, max,
  Text, Error, Result, ok, raise,
}
use url_shortener_100x.Prelude.Table
use url_shortener_100x.Prelude.Table.{Table}
use url_shortener_100x.Store.Links
use url_shortener_100x.Store.Links.{Link, LinkStore, Write, is_expired}
use url_shortener_100x.Store.Lru
use url_shortener_100x.Store.Lru.{LruCache}
use url_shortener_100x.Limiter.{Decision, Delay, infinite, ratio}
use url_shortener_100x.Breaker.Guarded
use url_shortener_100x.Breaker.Guarded.{GuardedLimiter}
use url_shortener_100x.Counters.{HitCounter, record_hit}
use url_shortener_100x.Invalidation.{InvalidationLog, Bus, poll}
use url_shortener_100x.Abuse.Policy.{Verdict}
use url_shortener_100x.Abuse.Takedown
use url_shortener_100x.Abuse.Takedown.{TakedownList, Report}

-- What the instances share: the link store and the invalidation log.
pub record Shared : Type 0 where
  pub links : LinkStore
  pub log : InvalidationLog

-- The module's objects in one process; `interstitials` maps a code to the reason.
pub record Instance (L : Type 0) : Type 0 where
  pub name : Text
  pub limiter_enabled : Bool
  pub limiter : GuardedLimiter L
  pub takedowns : TakedownList
  pub interstitials : Table Text
  pub cache : LruCache Text
  pub hits : HitCounter
  pub bus : Bus

-- What a handler reads from outside: the clocks of the breaker before and after the limiter's call,
-- `time.time()` in milliseconds, `time.monotonic()`, and how a write of hit counts to the link
-- store ends.
pub record Reading : Type 0 where
  pub breaker_now : ℕ
  pub breaker_later : ℕ
  pub now_ms : ℕ
  pub monotonic : ℕ
  pub store_write : Write

pub data Response : Type 0 where
  redirect : Text → Response
  interstitial_page : Text → Text → Response
  created : Link → Bool → Text → Response
  gone : Text → Response
  not_found : Response
  too_many_requests : ℕ → Response
  destination_refused : Verdict → Response
  allocation_failed : Response
  invalid_body : Response
  unhandled : Error → Response

-- `str(min(max(int(s), 1), 60) if s != inf else "60")`, for a delay in milliseconds.
unfoldable pub retry_after_header : Delay → ℕ
retry_after_header infinite = 60
retry_after_header (ratio a b) = min (max (a / (b * 1000)) 1) 60

-- `limiter.check(client_id(request))`: the cost of one token, in thousandths.
abbrev pub one_token : ℕ
one_token = 1000

-- What the limiter's answer makes of the request: it goes on, or it ends with a response.
unfoldable pub limit_response : Result Decision → Option Response
unfolding retry_after_header
limit_response (raise e) = some (unhandled e)
limit_response (ok d) =
    if d.allowed then none else some (too_many_requests (retry_after_header d.retry_after))

-- The load function of `resolve`, which reads the cache again.
unfoldable pub load : LruCache Text → LinkStore → Text → ℕ → LruCache Text × Option Text
load cache links code now_ms =
    let (cache2, cached) = Lru.get cache code now_ms in
    elim cached [
      | some target ↦ (cache2, some target)
      | none ↦ elim (Links.get links code) [
        | none ↦ (cache2, none)
        | some link ↦
            if is_expired link now_ms
            then (cache2, none)
            else (Lru.put cache2 code link.target link.expires_ms, some link.target)
      ]
    ]

-- The cache, and `load` where it misses.
unfoldable pub fetch : LruCache Text → LinkStore → Text → ℕ → LruCache Text × Option Text
unfolding load
fetch cache links code now_ms =
    let (cache2, cached) = Lru.get cache code now_ms in
    elim cached [ some target ↦ (cache2, some target) | none ↦ load cache2 links code now_ms ]

-- The last branch of `resolve`.
unfoldable pub answer : Table Text → Text → Text → Response
answer interstitials code target = elim (Table.get interstitials code) [
  | none ↦ redirect target
  | some reason ↦ interstitial_page target reason
]

module _ {L : Type 0} (inner : L → Text → ℕ → L × Result Decision) where
  unfoldable pub enforce_limit : Instance L → Text → Reading → Instance L × Option Response
  unfolding limit_response
  enforce_limit i client at =
      let (limiter, decision) =
        Guarded.check inner i.limiter client one_token at.breaker_now at.breaker_later in
      if i.limiter_enabled
      then (record i { limiter = limiter }, limit_response decision)
      else (i, none)

module _ {L : Type 0} where
  -- `resolve` once the target is known, or known to be missing.
  unfoldable pub deliver :
      Shared → Instance L → Text → Reading → Option Text → Shared × Instance L × Response
  unfolding record_hit answer
  deliver s i code at none = (s, i, not_found)
  deliver s i code at (some target) =
      let (counter, links) = record_hit i.hits s.links code at.monotonic at.store_write in
      (record s { links = links }, record i { hits = counter }, answer i.interstitials code target)

  -- `resolve` after the limit.
  unfoldable pub look_up : Shared → Instance L → Text → Reading → Shared × Instance L × Response
  unfolding fetch deliver
  look_up s i code at =
      let (cache, target) = fetch i.cache s.links code at.now_ms in
      let found = deliver s (record i { cache = cache }) code at target in
      if Takedown.contains i.takedowns code
      then (s, i, gone (Takedown.reason i.takedowns code))
      else found

  unfoldable pub takedown : Shared → Instance L → Text → Text → Shared × Instance L × Report
  takedown s i code reason =
      let (takedowns, cache, bus, report) =
        Takedown.add i.takedowns code reason (some Lru.invalidate) i.cache (some s.log) in
      let log : InvalidationLog = elim bus [ none ↦ s.log | some l ↦ l ] in
      let (drained, purged, applied) = poll log i.bus i.name cache in
      (
        record s { log = log },
        record i {
          takedowns = takedowns;
          interstitials = Table.remove i.interstitials code;
          cache = purged;
          bus = drained;
        },
        report,
      )

  -- One round of the instance's poller.
  unfoldable pub poll_once : Shared → Instance L → Instance L
  poll_once s i =
      let (bus, cache, applied) = poll s.log i.bus i.name i.cache in
      record i { bus = bus; cache = cache }

  unfoldable pub flush_cache : Instance L → Instance L
  flush_cache i = record i { cache = record i.cache { entries = [] } }

module _ {L : Type 0} (inner : L → Text → ℕ → L × Result Decision) where
  unfoldable pub resolve :
      Shared → Instance L → Text → Text → Reading → Shared × Instance L × Response
  unfolding enforce_limit look_up
  resolve s i client code at =
      let (limited, stopped) = enforce_limit inner i client at in
      elim stopped [ some r ↦ (s, limited, r) | none ↦ look_up s limited code at ]
