-- ===== src/Load/Sweep.antt =====
-- src/shortener/openloop.py, `OpenLoopResults.summary` and the sweeps. A time is a whole number of
-- microseconds, `numpy`'s percentiles and the runs are arguments. `achieved_rate` is compared between
-- runs of one duration only, so the number of requests stands for it.
pub mod Order
pub mod Median
pub mod Best
use url_shortener_100x.Prelude.{
  ℕ, zero, suc, ◌+◌, ◌*◌, ◌/◌, ◌-◌, ◌≡◌, Bool, true, false, ◌&&◌, Option, none, some, List, [], ◌∷◌,
  leb, ltb, ◌==◌, if◌then◌else◌, length, get_elem?, Error, Result, ok, raise, ◌>>=◌, value_error,
  other_error,
}
use url_shortener_100x.Prelude.Sorting.{sort}

-- `r.get("p99_ms", float("inf"))`: `none` is both the missing key and infinity.
abbrev pub Latency : Type 0
Latency = Option ℕ

abbrev pub le_latency : Latency → Latency → Bool
le_latency a none = true
le_latency none (some b) = false
le_latency (some a) (some b) = leb a b

-- `OpenLoopResults`: scheduled to done, sent to done, and scheduled to sent.
pub record OpenLoopResults : Type 0 where
  pub latencies : List ℕ
  pub service : List ℕ
  pub drift : List ℕ
  pub status_counts : List (ℕ × ℕ)
  pub errors : ℕ

-- What `summary` returns, as far as the sweeps read it.
pub data Summary : Type 0 where
  no_requests : Summary
  measured : (requests p99 offered_rate : ℕ) (valid : Bool) → Summary

-- `drift_share < 0.25`, whose divisor is at least a tiny number.
unfoldable pub is_valid : ℕ → ℕ → Bool
is_valid drift_p99 zero = drift_p99 == 0
is_valid drift_p99 (suc p99) = ltb (4 * drift_p99) (suc p99)

-- `summary`, where `p99` is `np.percentile(·, 99)`.
unfoldable pub summary : (List ℕ → ℕ) → OpenLoopResults → ℕ → Summary
unfolding is_valid
summary p99 r offered_rate = elim r.latencies [
  | [] ↦ no_requests
  | l ∷ latencies ↦
      measured (length (l ∷ latencies)) (p99 (l ∷ latencies)) offered_rate
        (is_valid (p99 r.drift) (p99 (l ∷ latencies)))
]

unfoldable pub p99_of : Summary → Latency
p99_of no_requests = none
p99_of (measured requests p99 offered_rate valid) = some p99

unfoldable pub p99s : List Summary → List Latency
unfolding p99_of
p99s [] = []
p99s (r ∷ reps) = p99_of r ∷ p99s reps

-- `reps[[r.get("p99_ms") for r in reps].index(x)]` for a number.
unfoldable pub find_rep : ℕ → List Summary → Result Summary
find_rep m [] = raise value_error
find_rep m (no_requests ∷ reps) = find_rep m reps
find_rep m (measured requests p99 offered_rate valid ∷ reps) =
    let rest = find_rep m reps in
    if p99 == m then ok (measured requests p99 offered_rate valid) else rest

-- A point of the sweep: one of the runs, and the median.
pub record Row : Type 0 where
  pub point : Summary
  pub p99_ms_runs : List Latency
  pub p99_ms_median : ℕ

-- The row of one rate. `[None, …].index(inf)` is a `ValueError`, as infinity is in no such list, and
-- the median of no runs an `IndexError`.
unfoldable pub make_row : List Summary → Result Row
unfolding sort p99s find_rep
make_row reps =
    let runs = sort le_latency (p99s reps) in
    elim (get_elem? runs (length runs / 2)) [
      | none ↦ raise other_error
      | some none ↦ raise value_error
      | some (some m) ↦
          find_rep m reps >>= λ r. ok (record { point = r; p99_ms_runs = runs; p99_ms_median = m })
    ]

-- `r.get("valid") and r["p99_ms_median"] <= budget_ms`
unfoldable pub is_ok_row : ℕ → Row → Bool
is_ok_row budget r = elim r.point [
  | no_requests ↦ false
  | measured requests p99 offered_rate valid ↦ valid && leb r.p99_ms_median budget
]

unfoldable pub achieved : Row → ℕ
achieved r = elim r.point [ no_requests ↦ 0 | measured requests p99 offered_rate valid ↦ requests ]

-- `max(ok, key=lambda r: r["achieved_rate"]) if ok else None`: the first of the greatest.
abbrev pub better : Row → Option Row → Option Row
better r none = some r
better r (some b) = if leb (achieved b) (achieved r) then some r else some b

unfoldable pub best_of : ℕ → List Row → Option Row
unfolding is_ok_row achieved
best_of budget [] = none
best_of budget (r ∷ rows) =
    let rest = best_of budget rows in if is_ok_row budget r then better r rest else rest

-- The runs of one rate, with the seeds `0`, `1`, …
unfoldable pub repetitions : (ℕ → ℕ → Summary) → ℕ → ℕ → ℕ → List Summary
repetitions run_open_loop rate zero seed = []
repetitions run_open_loop rate (suc n) seed =
    run_open_loop rate seed ∷ repetitions run_open_loop rate n (suc seed)

module _ (run_open_loop : ℕ → ℕ → Summary) (repeats budget factor : ℕ) where
  -- The loop over the rates, which stops behind a row far over the budget; `factor` is 6 in `sweep`
  -- and 8 in `sweep_isolated`.
  unfoldable pub sweep_rows : List ℕ → Result (List Row)
  unfolding repetitions make_row
  sweep_rows [] = ok []
  sweep_rows (rate ∷ rates) =
      let rest = sweep_rows rates in
      make_row (repetitions run_open_loop rate repeats 0) >>= λ row.
      if ltb (budget * factor) row.p99_ms_median
      then ok (row ∷ [])
      else rest >>= λ rows. ok (row ∷ rows)

  -- The rows, and the one that is reported as the highest sustainable rate.
  unfoldable pub sweep : List ℕ → Result (List Row × Option Row)
  unfolding sweep_rows best_of
  sweep rates = sweep_rows rates >>= λ rows. ok (rows, best_of budget rows)
