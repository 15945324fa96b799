-- ===== src/Load/OpenLoop.antt =====
-- src/shortener/openloop.py, `run_open_loop`: the arrivals, the requests that are sent when they are
-- due, and what is recorded of them. Times are whole numbers; the clock never goes back, so what
-- happens says by how much it advances between two readings. The event loop's order is the order of
-- the events.
pub mod Complete
pub mod Recorded
pub mod Charged
use url_shortener_100x.Prelude.{
  ℕ, zero, suc, ◌+◌, ◌-◌, Bool, true, false, ◌&&◌, ◌||◌, not, Option, none, some, List, [], ◌∷◌,
  ◌++◌, ltb, ◌==◌, if◌then◌else◌, length, pick, Text,
}
use url_shortener_100x.Load.Results.{bump, requested}
use url_shortener_100x.Load.Sweep.{OpenLoopResults, Summary, summary}

-- `np.cumsum`
unfoldable pub cumsum : ℕ → List ℕ → List ℕ
cumsum sum [] = []
cumsum sum (gap ∷ gaps) = (sum + gap) ∷ cumsum (sum + gap) gaps

-- `times[times < duration]`
unfoldable pub below : ℕ → List ℕ → List ℕ
below duration [] = []
below duration (at ∷ times) =
    let rest = below duration times in if ltb at duration then at ∷ rest else rest

-- `poisson_arrivals`, for the gaps that the generator draws.
unfoldable pub poisson_arrivals : List ℕ → ℕ → List ℕ
unfolding cumsum below
poisson_arrivals gaps duration = below duration (cumsum 0 gaps)

-- `OpenLoopResults()`
abbrev pub new_results : OpenLoopResults
new_results = record { latencies = []; service = []; drift = []; status_counts = []; errors = 0 }

-- `OpenLoopResults.record`
unfoldable pub record_times : OpenLoopResults → ℕ → ℕ → ℕ → ℕ → OpenLoopResults
unfolding bump
record_times r latency service drift status = record r {
  latencies = r.latencies ++ latency ∷ [];
  service = r.service ++ service ∷ [];
  drift = r.drift ++ drift ∷ [];
  status_counts = bump r.status_counts status;
}

-- `_sleep_until`, its spin: the reading that is not before the deadline; `none` while there is none.
unfoldable pub spin : ℕ → ℕ → List ℕ → Option ℕ
spin deadline now [] = none
spin deadline now (wait ∷ waits) =
    let later = spin deadline (now + wait) waits in
    if ltb (now + wait) deadline then later else some (now + wait)

-- A task of `_fire` that has not ended; `warm_up` says which of the two results it writes to.
pub record Request : Type 0 where
  pub key : Option Text
  pub scheduled_at : ℕ
  pub sent : ℕ
  pub warm_up : Bool

-- The loop's variables, the clock, and the tasks that have not ended, each with its number.
pub record Loop : Type 0 where
  pub t0 : ℕ
  pub now : ℕ
  pub arrivals : List ℕ
  pub index : ℕ
  pub inflight : List ℕ
  pub unfinished : List (ℕ × Request)
  pub results : OpenLoopResults
  pub warm : OpenLoopResults

-- Before the loop, with the clock at `t0`.
abbrev pub started : ℕ → List ℕ → Loop
started t0 arrivals = record {
  t0 = t0;
  now = t0;
  arrivals = arrivals;
  index = 0;
  inflight = [];
  unfinished = [];
  results = new_results;
  warm = new_results;
}

-- The loop goes round once, `waits` apart in its spin and `gap` before `sent`; the n-th task that
-- has not ended is answered, or raises.
pub data Event : Type 0 where
  came_due : (waits : List ℕ) → (gap : ℕ) → Event
  answered : (n elapsed status : ℕ) → Event
  failed : (n : ℕ) → Event

-- `not t.done()`
unfoldable pub is_unfinished : List (ℕ × Request) → ℕ → Bool
is_unfinished [] id = false
is_unfinished ((i, r) ∷ requests) id = (i == id) || is_unfinished requests id

-- `[t for t in inflight if not t.done()]`
unfoldable pub prune : List (ℕ × Request) → List ℕ → List ℕ
unfolding is_unfinished
prune requests [] = []
prune requests (id ∷ ids) =
    let rest = prune requests ids in if is_unfinished requests id then id ∷ rest else rest

abbrev pub max_inflight : ℕ
max_inflight = 4096

-- `_fire`, from the answer on: the times of a request that ends now.
unfoldable pub respond : ℕ → Request → ℕ → ℕ → OpenLoopResults → OpenLoopResults
unfolding record_times
respond t0 r done status sink =
    record_times sink (done - t0 - r.scheduled_at) (done - r.sent) (r.sent - t0 - r.scheduled_at)
      status

-- A change of the results that a request writes to.
unfoldable pub write : Loop → Request → (OpenLoopResults → OpenLoopResults) → Loop
write s r f = if r.warm_up then record s { warm = f s.warm } else record s { results = f s.results }

module _ (warmup : ℕ) (keys : List Text) where
  -- The body of the loop, once the arrival is due.
  unfoldable pub fire : Loop → ℕ → ℕ → Loop
  unfolding prune requested
  fire s at sent =
      let request : Request = record {
        key = requested keys s.index;
        scheduled_at = at;
        sent = sent;
        warm_up = ltb at warmup;
      } in
      let unfinished : List (ℕ × Request) = (s.index, request) ∷ s.unfinished in
      let inflight : List ℕ = s.inflight ++ s.index ∷ [] in
      record s {
        now = sent;
        index = suc s.index;
        unfinished = unfinished;
        inflight =
            if ltb max_inflight (length inflight) then prune unfinished inflight else inflight;
      }

  -- One arrival; nothing happens while it is not due.
  unfoldable pub next_arrival : Loop → List ℕ → ℕ → List ℕ → Loop
  unfolding fire spin
  next_arrival s waits gap [] = s
  next_arrival s waits gap (at ∷ arrivals) = elim (spin (s.t0 + at) s.now waits) [
    | none ↦ s
    | some now ↦ fire (record s { arrivals = arrivals }) at (now + gap)
  ]

  unfoldable pub step : Loop → Event → Loop
  unfolding next_arrival respond write pick
  step s (came_due waits gap) = next_arrival s waits gap s.arrivals
  step s (answered n elapsed status) = elim (pick s.unfinished n) [
    | none ↦ s
    | some ((id, r), rest) ↦
        write (record s { now = s.now + elapsed; unfinished = rest }) r
          (respond s.t0 r (s.now + elapsed) status)
  ]
  step s (failed n) = elim (pick s.unfinished n) [
    | none ↦ s
    | some ((id, r), rest) ↦
        write (record s { unfinished = rest }) r (λ sink. record sink { errors = sink.errors + 1 })
  ]

  unfoldable pub run : Loop → List Event → Loop
  unfolding step
  run s [] = s
  run s (e ∷ events) = run (step s e) events

-- Whether `asyncio.gather(*inflight)` has nothing to wait for.
unfoldable pub is_gathered : List (ℕ × Request) → List ℕ → Bool
unfolding is_unfinished
is_gathered requests [] = true
is_gathered requests (id ∷ ids) = not (is_unfinished requests id) && is_gathered requests ids

-- What the run returns of its results: the summary, and `warmup_requests`.
unfoldable pub report : (List ℕ → ℕ) → Loop → ℕ → Summary × ℕ
unfolding summary
report p99 s rate = (summary p99 s.results rate, length s.warm.latencies)
