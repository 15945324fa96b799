-- ===== src/Examples/Compare.antt =====
-- The theorems on the workers of the closed loop, and on its comparison with the open loop.
use url_shortener_100x.Prelude.{
  ℕ, ◌+◌, ◌<◌, ◌≡◌, ◌⊎◌, refl, Bool, is_some, true, false, Option, none, some, List, [], ◌∷◌,
  length, Error, Result, ok, raise,
}
use url_shortener_100x.Load.Sweep.{Summary, measured}
use url_shortener_100x.Load.Isolation.Teardown.{EndsIdle}
use url_shortener_100x.Load.Results.{Ending}
use url_shortener_100x.Load.Results.Counts.{count_endings}
use url_shortener_100x.Load.Closed.{Request, Report, create_worker}
use url_shortener_100x.Load.Closed.Run.{Course, worker_turns, merge, run_tasks}
use url_shortener_100x.Load.Closed.Run.Span.{Lasting, Writing}
use url_shortener_100x.Load.Closed.Run.Counts.{count_all, any_ending, Counts, run_tasks-Counts}
use url_shortener_100x.Load.Compare.{Pair, Ratio, compare}
use url_shortener_100x.Load.Compare.Median.{IsMedian}
use url_shortener_100x.Load.Compare.Pairs.{all_paired, compare-IsMedian}

-- A slow answer and two fast ones.
abbrev answers : List Request
answers =
    record { elapsed = 30; status = some 302; overslept = 0 }
    ∷ record { elapsed = 2; status = none; overslept = 0 }
    ∷ record { elapsed = 13; status = some 404; overslept = 0 }
    ∷ []

abbrev posts : List Request
posts =
    record { elapsed = 5; status = some 201; overslept = 1 }
    ∷ record { elapsed = 25; status = some 503; overslept = 0 }
    ∷ record { elapsed = 6; status = none; overslept = 0 }
    ∷ []

-- Two workers and a writer; the turn of the second worker ends first.
abbrev course : Course
course = record {
  seeded = (201, 65 ∷ []) ∷ [];
  drawn = 0 ∷ 0 ∷ [];
  resolves = answers ∷ (record { elapsed = 60; status = some 200; overslept = 0 } ∷ []) ∷ [];
  creates = posts;
  order = 1 ∷ 0 ∷ 0 ∷ 0 ∷ [];
}

abbrev turns : List (List Ending)
turns = worker_turns 15 55 10 (course.resolves)

-- The tasks are over: at 55 the first worker's loop ends, after its turn that began at 42.
course_over : is_some (run_tasks length 5 40 10 (some 20) course) ≡ true
unfolding run_tasks
course_over = refl

run_tasks-Counts_example :
    let result = run_tasks length 5 40 10 (some 20) course in
    let all_lasting = Lasting 45 course.resolves × Writing 45 (some 20) posts in
    (((0 < count_all any_ending (merge course.order turns).1) ⊎ ¬ all_lasting) × (result ≡ none))
    ⊎ ((resolved : Report) × (created : Report) × (count_all any_ending (merge course.order turns).1
          ≡ 0)
        × all_lasting
        × (result ≡ some (resolved, created))
        × Counts resolved (λ p. count_all p turns)
        × Counts created (λ p. count_endings p (create_worker 15 55 (some 20) 10 posts)))
run_tasks-Counts_example = run_tasks-Counts length 5 40 10 (some 20) course

abbrev healthy : ℕ → Bool
healthy port = true

abbrev open_run : ℕ → ℕ → Result Summary
open_run port seed = ok (measured 100 (20 + seed) 200 true)

abbrev closed_report : ℕ → Result Report
closed_report port = ok (record { requests = 300; p99 = 8; errors = 0; non_2xx_3xx = 0 })

compared :
    (all_paired healthy open_run closed_report 3 0 8400 ≡ true)
    × ((pairs : List Pair) × ((compare healthy open_run closed_report 3 8400).1
          ≡ ok (pairs, some (record { open_p99 = 21; closed_p99_less_one = 7 }))))
unfolding all_paired compare
compared = (refl, (_, refl))

compare-IsMedian_example :
    let (trace, result) = compare healthy open_run closed_report 3 8400 in
    let good = all_paired healthy open_run closed_report 3 0 8400 in
    EndsIdle 8400 trace
    × (((e : Error) × (result ≡ raise e) × (good ≡ false))
        ⊎ ((pairs : List Pair) × (m : Option Ratio) × (result ≡ ok (pairs, m))
            × (good ≡ true)
            × (length pairs ≡ 3)
            × IsMedian pairs m))
compare-IsMedian_example = compare-IsMedian healthy open_run closed_report 3 8400
