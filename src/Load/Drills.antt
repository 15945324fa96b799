-- ===== src/Load/Drills.antt =====
-- src/shortener/drills.py, what the drills make of their samples. A sample's status is -1 where the
-- request raised, here `none`.
pub mod Samples
use url_shortener_100x.Prelude.{
  ℕ, suc, ◌+◌, ◌-◌, ◌++◌, Result, ok, raise, key_error, other_error, Bool, true, false, ◌&&◌, ◌||◌,
  not, Option, none, some, List, [], ◌∷◌, leb, ltb, ◌==◌, if◌then◌else◌, length,
}
use url_shortener_100x.Load.Closed.{Request}

pub record Sample : Type 0 where
  pub ms : ℕ
  pub status : Option ℕ
  pub at : ℕ

-- `s[1] < 0 or s[1] >= 500`
unfoldable pub is_error : Sample → Bool
is_error s = elim s.status [ none ↦ true | some c ↦ leb 500 c ]

-- `s[1] not in (307, 302, -1) and s[1] < 500`
unfoldable pub is_unexpected : Sample → Bool
is_unexpected s = elim s.status [
  | none ↦ false
  | some c ↦ not ((c == 307) || (c == 302)) && ltb c 500
]

-- `sum(1 for s in samples if …)`
unfoldable pub count_samples : (Sample → Bool) → List Sample → ℕ
count_samples p [] = 0
count_samples p (s ∷ samples) = let rest = count_samples p samples in if p s then suc rest else rest

-- `[s[0] for s in samples if lo <= s[2] < hi]`
unfoldable pub times_within : ℕ → ℕ → List Sample → List ℕ
times_within lo hi [] = []
times_within lo hi (s ∷ samples) =
    let rest = times_within lo hi samples in
    if leb lo s.at && ltb s.at hi then s.ms ∷ rest else rest

-- `_window`
unfoldable pub window : ℕ → ℕ → List Sample → List ℕ
unfolding times_within
window lo hi samples = elim (times_within lo hi samples) [ [] ↦ 0 ∷ [] | t ∷ times ↦ t ∷ times ]

-- `passed` of `run_stampede` and of `run_fail_open`.
unfoldable pub stampede_passed : List Sample → Bool
unfolding count_samples is_error
stampede_passed samples = count_samples is_error samples == 0

unfoldable pub fail_open_passed : List Sample → ℕ → Bool
unfolding count_samples is_error
fail_open_passed samples fail_open_count =
    (count_samples is_error samples == 0) && ltb 0 fail_open_count

-- `_hammer` from the time `now` on; a request that raises has the time 0. The list holds the requests
-- that the task makes until `stop_at`.
unfoldable pub hammer : ℕ → ℕ → List Request → List Sample
hammer stop_at now [] = []
hammer stop_at now (r ∷ requests) =
    let done = now + r.elapsed in
    let rest = hammer stop_at done requests in
    let ms : ℕ = elim r.status [ none ↦ 0 | some s ↦ r.elapsed ] in
    if ltb now stop_at then record { ms = ms; status = r.status; at = done } ∷ rest else []

-- The samples of all tasks, each with its own requests; the figures do not look at their order.
unfoldable pub hammers : ℕ → ℕ → List (List Request) → List Sample
unfolding hammer
hammers stop_at now [] = []
hammers stop_at now (requests ∷ tasks) = hammer stop_at now requests ++ hammers stop_at now tasks

pub record StampedeReport : Type 0 where
  pub requests : ℕ
  pub errors_5xx_or_connection : ℕ
  pub unexpected_status : ℕ
  pub p99_ms_before_flush : ℕ
  pub p99_ms_after_flush : ℕ
  pub passed : Bool

-- The result of `run_stampede`, whose cache is flushed at `t_flush`.
unfoldable pub stampede_report : (List ℕ → ℕ) → ℕ → ℕ → List Sample → StampedeReport
unfolding window stampede_passed
stampede_report p99 second t_flush samples = record {
  requests = length samples;
  errors_5xx_or_connection = count_samples is_error samples;
  unexpected_status = count_samples is_unexpected samples;
  p99_ms_before_flush = p99 (window (t_flush - second) t_flush samples);
  p99_ms_after_flush = p99 (window t_flush (t_flush + second) samples);
  passed = stampede_passed samples;
}

-- `run_stampede`: the answer to `POST /links` has a code only with the status 201, and a `KeyError`
-- otherwise.
unfoldable pub run_stampede :
    (List ℕ → ℕ)
    → (second created_status duration t_start t_flush : ℕ) → List (List Request)
    → Result StampedeReport
unfolding hammers stampede_report
run_stampede p99 second created_status duration t_start t_flush tasks =
    if created_status == 201
    then ok (stampede_report p99 second t_flush (hammers (t_start + duration) t_start tasks))
    else raise key_error

pub record FailOpenReport : Type 0 where
  pub requests : ℕ
  pub errors_5xx_or_connection : ℕ
  pub passed : Bool

-- `run_fail_open`: `SystemExit` where the link is not created.
unfoldable pub run_fail_open :
    (created_status duration t_start : ℕ)
    → List (List Request)
    → (fail_open_count : ℕ) → Result FailOpenReport
unfolding hammers fail_open_passed count_samples is_error
run_fail_open created_status duration t_start tasks fail_open_count =
    let samples = hammers (t_start + duration) t_start tasks in
    if created_status == 201
    then ok (record {
      requests = length samples;
      errors_5xx_or_connection = count_samples is_error samples;
      passed = fail_open_passed samples fail_open_count;
    })
    else raise other_error

-- The status that `main` exits with.
abbrev pub exit_status : Bool → ℕ
exit_status passed = if passed then 0 else 1
