-- ===== src/Load/Compare.antt =====
-- src/shortener/openloop.py, `compare`: an open and a closed run on one fresh server, several times.
-- Whether a server becomes healthy and what the runs return are arguments. A ratio of two latencies
-- is the pair of them.
pub mod Median
pub mod Pairs
use url_shortener_100x.Prelude.{
  ℕ, zero, suc, ◌+◌, ◌*◌, ◌/◌, ◌<◌, Bool, true, false, Option, none, some, List, [], ◌∷◌, ◌++◌, leb,
  ◌==◌, if◌then◌else◌, length, get_elem?, Result, ok, raise, key_error, type_error, other_error,
}
use url_shortener_100x.Prelude.Sorting.{sort}
use url_shortener_100x.Load.Sweep.{Summary, no_requests, measured}
use url_shortener_100x.Load.Closed.{Report}
use url_shortener_100x.Load.Isolation.{Action, remove_data, spawn_server, run_load, stop_server}

-- A quotient of percentiles; its divisor is not 0, and here the successor of what is kept.
pub record Ratio : Type 0 where
  pub open_p99 : ℕ
  pub closed_p99_less_one : ℕ

-- The entry of `pairs`: `None` for a ratio whose divisor is 0.
pub record Pair : Type 0 where
  pub run : ℕ
  pub open_loop : Summary
  pub closed_loop : Report
  pub p99_ratio : Option Ratio

-- `a / b <= c / d`
abbrev pub le_ratio : Ratio → Ratio → Bool
le_ratio p q = leb (p.open_p99 * suc q.closed_p99_less_one) (q.open_p99 * suc p.closed_p99_less_one)

-- The pair of one run: a `KeyError` where the open run has no percentiles, and a `TypeError` where
-- the ratio to print is `None`.
unfoldable pub make_pair : ℕ → Summary → Report → Result Pair
make_pair n no_requests cl = raise key_error
make_pair n (measured requests p99 offered_rate valid) cl = elim cl.p99 [
  | zero ↦ raise type_error
  | suc c ↦ ok (record {
    run = n;
    open_loop = measured requests p99 offered_rate valid;
    closed_loop = cl;
    p99_ratio = some (record { open_p99 = p99; closed_p99_less_one = c });
  })
]

-- The ratios that are true: those that are there and not 0.
unfoldable pub true_ratios : List Pair → List Ratio
true_ratios [] = []
true_ratios (p ∷ pairs) =
    let rest = true_ratios pairs in
    elim p.p99_ratio [ none ↦ rest | some q ↦ if q.open_p99 == 0 then rest else q ∷ rest ]

-- `ratios[len(ratios) // 2] if ratios else None`
unfoldable pub ratio_median : List Pair → Option Ratio
unfolding sort true_ratios
ratio_median pairs =
    let ratios = sort le_ratio (true_ratios pairs) in get_elem? ratios (length ratios / 2)

module _ (is_healthy : ℕ → Bool) (run_open_loop : ℕ → ℕ → Result Summary)
    (closed_run : ℕ → Result Report) where
  -- The `try` of one repetition on a port.
  unfoldable pub measure : ℕ → ℕ → List Action × Result Pair
  unfolding make_pair
  measure seed port =
      let both : List Action = run_load port ∷ run_load port ∷ [] in
      if is_healthy port
      then elim (run_open_loop port seed) [
        | raise e ↦ (run_load port ∷ [], raise e)
        | ok op ↦ elim (closed_run port) [
          | raise e ↦ (both, raise e)
          | ok cl ↦ (both, make_pair seed op cl)
        ]
      ]
      else ([], raise other_error)

  -- One repetition, with its `finally`.
  unfoldable pub paired_run : ℕ → ℕ → List Action × Result Pair
  unfolding measure
  paired_run seed port =
      let (trace, result) = measure seed port in
      (
        remove_data port ∷ spawn_server port ∷ (trace ++ stop_server port ∷ remove_data port ∷ []),
        result,
      )

  -- The loop of `compare`; `port` is the last one used, and an exception ends it.
  unfoldable pub paired_runs : ℕ → ℕ → ℕ → List Action × Result (List Pair)
  unfolding paired_run
  paired_runs zero seed port = ([], ok [])
  paired_runs (suc n) seed port =
      let (trace, result) = paired_run seed (suc port) in
      let (traces, results) = paired_runs n (suc seed) (suc port) in
      elim result [
        | raise e ↦ (trace, raise e)
        | ok pair ↦
            (trace ++ traces, elim results [ raise e ↦ raise e | ok pairs ↦ ok (pair ∷ pairs) ])
      ]

  -- `compare`: the pairs and the median of their ratios.
  unfoldable pub compare : ℕ → ℕ → List Action × Result (List Pair × Option Ratio)
  unfolding paired_runs ratio_median
  compare repeats base_port =
      let (trace, result) = paired_runs repeats 0 base_port in
      (trace, elim result [ raise e ↦ raise e | ok pairs ↦ ok (pairs, ratio_median pairs) ])
