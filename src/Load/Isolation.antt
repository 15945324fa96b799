-- ===== src/Load/Isolation.antt =====
-- src/shortener/openloop.py, `sweep_isolated`: a server process and a directory for each run. What
-- the program does to processes and directories is a list of actions; whether a server becomes
-- healthy and what a run ends with are arguments.
pub mod Teardown
use url_shortener_100x.Prelude.{
  ℕ, zero, suc, ◌+◌, ◌*◌, Bool, true, false, List, [], ◌∷◌, ◌++◌, ltb, if◌then◌else◌, Result, ok,
  raise, other_error, Option, ◌>>=◌,
}
use url_shortener_100x.Load.Sweep.{Summary, Row, make_row, best_of}

-- The actions of one run on a port, whose directory has the port in its name.
pub data Action : Type 0 where
  remove_data spawn_server run_load stop_server : ℕ → Action

module _ (is_healthy : ℕ → Bool) (run_open_loop : ℕ → ℕ → ℕ → Result Summary) where
  -- The `try` of one run: `SystemExit` where the server does not become healthy.
  unfoldable pub attempt : ℕ → ℕ → ℕ → List Action × Result Summary
  attempt rate seed port =
      if is_healthy port
      then (run_load port ∷ [], run_open_loop port rate seed)
      else ([], raise other_error)

  -- One run, with its `finally`.
  unfoldable pub isolated_run : ℕ → ℕ → ℕ → List Action × Result Summary
  unfolding attempt
  isolated_run rate seed port =
      let (trace, result) = attempt rate seed port in
      (
        remove_data port ∷ spawn_server port ∷ (trace ++ stop_server port ∷ remove_data port ∷ []),
        result,
      )

  -- The runs of one rate; `port` is the last one used, and an exception ends the loop.
  unfoldable pub isolated_runs : ℕ → ℕ → ℕ → ℕ → List Action × Result (List Summary × ℕ)
  unfolding isolated_run
  isolated_runs rate zero seed port = ([], ok ([], port))
  isolated_runs rate (suc n) seed port =
      let (trace, result) = isolated_run rate seed (suc port) in
      let (traces, results) = isolated_runs rate n (suc seed) (suc port) in
      elim result [
        | raise e ↦ (trace, raise e)
        | ok point ↦ (
          trace ++ traces,
          elim results [ raise e ↦ raise e | ok (points, last) ↦ ok (point ∷ points, last) ],
        )
      ]

  module _ (repeats budget : ℕ) where
    unfoldable pub sweep_isolated : List ℕ → ℕ → List Action × Result (List Row)
    unfolding isolated_runs make_row
    sweep_isolated [] port = ([], ok [])
    sweep_isolated (rate ∷ rates) port = elim (isolated_runs rate repeats 0 port).1 [
      | raise e ↦ ((isolated_runs rate repeats 0 port).0, raise e)
      | ok (reps, last) ↦
          let (traces, rest) = sweep_isolated rates last in
          elim (make_row reps) [
            | raise e ↦ ((isolated_runs rate repeats 0 port).0, raise e)
            | ok row ↦
                if ltb (budget * 8) row.p99_ms_median
                then ((isolated_runs rate repeats 0 port).0, ok (row ∷ []))
                else (
                  (isolated_runs rate repeats 0 port).0 ++ traces,
                  elim rest [ raise e ↦ raise e | ok rows ↦ ok (row ∷ rows) ],
                )
          ]
    ]

    -- Its result: the rows, and the one that is reported as the highest sustainable rate.
    unfoldable pub isolated_report : List ℕ → ℕ → List Action × Result (List Row × Option Row)
    unfolding sweep_isolated best_of
    isolated_report rates port =
        let (trace, rows) = sweep_isolated rates port in
        (trace, rows >>= λ points. ok (points, best_of budget points))
