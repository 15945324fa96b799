-- ===== src/Examples/Load.antt =====
-- The theorems on the load tests, with a few runs of two rates.
use url_shortener_100x.Prelude.{
  ℕ, ◌+◌, ◌/◌, not, pick, ◌≤◌, ◌<◌, ◌≡◌, ◌⊎◌, refl, true, some, List, [], ◌∷◌, length, All, ltb,
  if◌then◌else◌, ok, raise, value_error, other_error,
}
use url_shortener_100x.Load.Results.{bump, requested}
use url_shortener_100x.Load.Sweep.{Summary, no_requests, measured, Row, make_row, sweep}
use url_shortener_100x.Load.Sweep.Median.{runs_measured, IsMedian, make_row-IsMedian}
use url_shortener_100x.Load.Sweep.Best.{IsBest, IsPoint, sweep-IsBest}
use url_shortener_100x.Load.OpenLoop
use url_shortener_100x.Load.OpenLoop.{came_due, answered, started, spin, is_unfinished, is_gathered}
use url_shortener_100x.Load.OpenLoop.Complete.{is_empty}
use url_shortener_100x.Load.OpenLoop.Recorded.{recorded, waiting, due, Sound}
use url_shortener_100x.Load.OpenLoop.Charged.{run-Charged}
use url_shortener_100x.Load.Isolation.{sweep_isolated}
use url_shortener_100x.Load.Isolation.Teardown.{EndsIdle, sweep_isolated-EndsIdle}

abbrev reps : List Summary
reps = measured 10 30 200 true ∷ no_requests ∷ measured 12 20 200 true ∷ []

make_row-IsMedian_example :
    ((reps ≡ []) × (make_row reps ≡ raise other_error))
    ⊎ (((runs_measured reps ≤ length reps / 2) × (make_row reps ≡ raise value_error))
        ⊎ ((length reps / 2 < runs_measured reps)
            × ((row : Row) × (make_row reps ≡ ok row) × IsMedian reps row)))
make_row-IsMedian_example = make_row-IsMedian reps

-- A server that takes 10 ms at every rate up to 400, and 900 ms above.
abbrev measure : ℕ → ℕ → Summary
measure rate seed = measured rate (if ltb 400 rate then 900 else 10) rate true

abbrev row_at : ℕ → ℕ → Row
row_at rate ms = record {
  point = measured rate ms rate true;
  p99_ms_runs = some ms ∷ [];
  p99_ms_median = ms;
}

swept :
    sweep measure 1 50 6 (200 ∷ 400 ∷ 800 ∷ 1600 ∷ [])
    ≡ ok (row_at 200 10 ∷ row_at 400 10 ∷ row_at 800 900 ∷ [], some (row_at 400 10))
unfolding sweep
swept = refl

sweep-IsBest_example :
    All
      (IsPoint measure 1 50 6 (200 ∷ 400 ∷ 800 ∷ 1600 ∷ []))
      (row_at 200 10 ∷ row_at 400 10 ∷ row_at 800 900 ∷ [])
    × IsBest 50 (row_at 200 10 ∷ row_at 400 10 ∷ row_at 800 900 ∷ []) (some (row_at 400 10))
sweep-IsBest_example =
    sweep-IsBest measure 1 50 6 (200 ∷ 400 ∷ 800 ∷ 1600 ∷ [])
      (row_at 200 10 ∷ row_at 400 10 ∷ row_at 800 900 ∷ []) (some (row_at 400 10)) swept

-- The server on port 8303 never becomes healthy.
sweep_isolated-EndsIdle_example :
    EndsIdle 8300
      (sweep_isolated
        (λ port. ltb port 8303)
        (λ port rate seed. ok (measure rate seed))
        2
        50
        (200 ∷ 400 ∷ [])
        8300).0
sweep_isolated-EndsIdle_example =
    sweep_isolated-EndsIdle (λ port. ltb port 8303) (λ port rate seed. ok (measure rate seed)) 2 50
      (200 ∷ 400 ∷ []) 8300

-- Two arrivals, the first in the warm-up; the second is late and is answered before the first fails.
abbrev happenings : List OpenLoop.Event
happenings =
    came_due (1 ∷ 4 ∷ []) 1
    ∷ came_due (2 ∷ []) 0
    ∷ came_due (30 ∷ []) 2
    ∷ answered 0 7 302
    ∷ OpenLoop.failed 0
    ∷ []

abbrev arrivals : List ℕ
arrivals = 3 ∷ 25 ∷ []

abbrev ended : OpenLoop.Loop
ended = OpenLoop.run 10 ((65 ∷ []) ∷ []) (started 100 arrivals) happenings

ended_results :
    (ended.results.latencies ≡ 20 ∷ [])
    × (ended.results.service ≡ 7 ∷ [])
    × (ended.results.drift ≡ 13 ∷ [])
    × (ended.warm.errors ≡ 1)
    × (ended.unfinished ≡ [])
unfolding OpenLoop.run spin pick is_unfinished OpenLoop.prune requested bump
ended_results = (refl, refl, refl, refl, refl)

run-Charged_example :
    (recorded ended.results
        + waiting not ended.unfinished
        + due (λ at. not (ltb at 10)) ended.arrivals
      ≡ due (λ at. not (ltb at 10)) arrivals)
    × (recorded ended.warm
          + waiting (λ w. w) ended.unfinished
          + due (λ at. ltb at 10) ended.arrivals
        ≡ due (λ at. ltb at 10) arrivals)
    × Sound ended.results
    × Sound ended.warm
    × (is_gathered ended.unfinished ended.inflight ≡ is_empty ended.unfinished)
run-Charged_example = run-Charged 10 ((65 ∷ []) ∷ []) 100 arrivals happenings
