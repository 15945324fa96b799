-- ===== src/Load/Closed/Run.antt =====
-- src/shortener/loadtest.py, `run`: the workers of a closed loop and their two results.
pub mod Span
pub mod Counts
use url_shortener_100x.Prelude.{
  ℕ, zero, suc, ◌+◌, Bool, true, false, ◌&&◌, Option, none, some, List, [], ◌∷◌, if◌then◌else◌,
  Text, Result, ok, raise, other_error, map,
}
use url_shortener_100x.Load.Results.{Results, new_results, Ending, run_workers}
use url_shortener_100x.Load.Closed.{
  Request, Report, seed_links, zipf_keys, resolve_worker, resolve_stopped, create_worker,
  create_stopped, summary,
}

module _ {ℓ} {A : Type ℓ} where
  -- The next element of the n-th of some lists, and what is left.
  unfoldable pub take_from : ℕ → List (List A) → Option (A × List (List A))
  take_from n [] = none
  take_from zero ([] ∷ lists) = none
  take_from zero ((x ∷ xs) ∷ lists) = some (x, xs ∷ lists)
  take_from (suc n) (xs ∷ lists) = elim (take_from n lists) [
    | none ↦ none
    | some (x, rest) ↦ some (x, xs ∷ rest)
  ]

  -- The event loop's order: whose turn ends next. Also what is left of each list.
  unfoldable pub merge : List ℕ → List (List A) → List A × List (List A)
  unfolding take_from
  merge [] lists = ([], lists)
  merge (n ∷ order) lists = elim (take_from n lists) [
    | none ↦ merge order lists
    | some (x, rest) ↦ let (xs, left) = merge order rest in (x ∷ xs, left)
  ]

  -- Whether the turns of all workers have ended.
  unfoldable pub all_done : List (List A) → Bool
  all_done [] = true
  all_done ([] ∷ lists) = all_done lists
  all_done ((x ∷ xs) ∷ lists) = false

-- What a run is given: the answers to the seeding, the drawn indices, the requests of each worker and
-- of the writer, and the order in which turns end.
pub record Course : Type 0 where
  pub seeded : List (ℕ × Text)
  pub drawn : List ℕ
  pub resolves : List (List Request)
  pub creates : List Request
  pub order : List ℕ

unfoldable pub worker_turns :
    (start_after stop_at now : ℕ) → List (List Request) → List (List Ending)
unfolding resolve_worker
worker_turns start_after stop_at now workers = map (resolve_worker start_after stop_at now) workers

-- Whether every worker's loop is over behind its requests.
unfoldable pub all_stopped : (stop_at now : ℕ) → List (List Request) → Bool
unfolding resolve_stopped
all_stopped stop_at now [] = true
all_stopped stop_at now (requests ∷ workers) =
    resolve_stopped stop_at now requests && all_stopped stop_at now workers

-- Whether `asyncio.gather` returns: the loops of the workers and of the writer are over, and their
-- turns have ended.
unfoldable pub gathered : (stop_at now : ℕ) → Option ℕ → Course → List (List Ending) → Bool
unfolding all_done all_stopped create_stopped
gathered stop_at now interval c left =
    all_done left
    && all_stopped stop_at now c.resolves
    && create_stopped stop_at interval now c.creates

-- The tasks of `run` from the time `t_start` on, and its result once all of them have ended.
unfoldable pub run_tasks :
    (List ℕ → ℕ) → (warmup duration t_start : ℕ) → Option ℕ → Course → Option (Report × Report)
unfolding worker_turns merge gathered create_worker run_workers summary
run_tasks p99 warmup duration t_start interval c =
    let start_after = t_start + warmup in
    let stop_at = t_start + warmup + duration in
    let (ended, left) = merge c.order (worker_turns start_after stop_at t_start c.resolves) in
    let created = create_worker start_after stop_at interval t_start c.creates in
    if gathered stop_at t_start interval c left
    then some
        (summary p99 (run_workers new_results ended), summary p99 (run_workers new_results created))
    else none

-- `run`: a `SystemExit` where no link was created; `none` while a task is not over.
unfoldable pub run :
    (List ℕ → ℕ)
    → (warmup duration t_start : ℕ) → Option ℕ
    → Course
    → Result (Option (Report × Report))
unfolding seed_links zipf_keys run_tasks
run p99 warmup duration t_start interval c = elim (seed_links c.seeded) [
  | [] ↦ raise other_error
  | code ∷ codes ↦ elim (zipf_keys (code ∷ codes) c.drawn) [
    | raise e ↦ raise e
    | ok keys ↦ ok (run_tasks p99 warmup duration t_start interval c)
  ]
]
