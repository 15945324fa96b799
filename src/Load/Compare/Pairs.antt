-- ===== src/Load/Compare/Pairs.antt =====
-- src/shortener/openloop.py, when `compare` returns, and which servers run.
use url_shortener_100x.Prelude.{
  ℕ, zero, suc, ◌≡◌, ◌⊎◌, refl, ◌∙◌, Bool, true, false, ◌&&◌, Option, some, List, ltb, ◌==◌, length,
  arith, Bool-cases, Result-cases, inl, inr, Error, Result, ok, raise, is_ok,
}
use url_shortener_100x.Load.Sweep.{Summary, no_requests, measured}
use url_shortener_100x.Load.Closed.{Report}
use url_shortener_100x.Load.Isolation.Teardown.{idle, replay, replay-append, EndsIdle}
use url_shortener_100x.Load.Compare.Median.{IsMedian, ratio_median-IsMedian}
use url_shortener_100x.Load.Compare.{
  Ratio, Pair, make_pair, ratio_median, measure, paired_run, paired_runs, compare,
}

module _ (is_healthy : ℕ → Bool) (run_open_loop : ℕ → ℕ → Result Summary)
    (closed_run : ℕ → Result Report) where
  abbrev pub has_requests : Result Summary → Bool
  has_requests (ok (measured requests p99 offered_rate valid)) = true
  has_requests _ = false

  abbrev pub has_p99 : Result Report → Bool
  has_p99 (ok r) = ltb 0 r.p99
  has_p99 (raise e) = false

  -- A repetition whose server becomes healthy, whose open run completes a request, and whose closed
  -- run has a percentile that is not 0.
  abbrev pub is_paired : ℕ → ℕ → Bool
  is_paired seed port =
      is_healthy port && has_requests (run_open_loop port seed) && has_p99 (closed_run port)

  unfoldable pub all_paired : ℕ → ℕ → ℕ → Bool
  all_paired zero seed port = true
  all_paired (suc n) seed port = is_paired seed (suc port) && all_paired n (suc seed) (suc port)

  is_ok-make_pair :
      (n : ℕ) (op : Summary) (cl : Report)
      → is_ok (make_pair n op cl) ≡ (has_requests (ok op) && ltb 0 cl.p99)
  unfolding make_pair
  is_ok-make_pair n no_requests cl = refl
  is_ok-make_pair n (measured requests p99 offered_rate valid) cl = ground arith

  is_ok-measure :
      (seed port : ℕ)
      → is_ok (measure is_healthy run_open_loop closed_run seed port).1 ≡ is_paired seed port
  unfolding measure
  is_ok-measure seed port = elim (Bool-cases (is_healthy port)) [
    | inr e ↦ rw (e, measure) refl
    | inl e ↦ elim (Result-cases (run_open_loop port seed)) [
      | inl (x, failed) ↦ rw (e, failed, measure) refl
      | inr (op, came) ↦ elim (Result-cases (closed_run port)) [
        | inl (x, failed) ↦ rw (e, came, failed, measure) (ground arith)
        | inr (cl, back) ↦ rw (e, came, back, measure) (is_ok-make_pair seed op cl)
      ]
    ]
  ]

  is_ok-paired_run :
      (seed port : ℕ)
      → is_ok (paired_run is_healthy run_open_loop closed_run seed port).1 ≡ is_paired seed port
  unfolding paired_run
  is_ok-paired_run seed port = is_ok-measure seed port

  replay-paired_run :
      (seed port : ℕ)
      → replay (idle port) (paired_run is_healthy run_open_loop closed_run seed (suc port)).0
        ≡ some (idle (suc port))
  unfolding paired_run replay measure
  replay-paired_run seed port =
      let later : ltb port (suc port) ≡ true = ground arith in
      let same : (suc port == suc port) ≡ true = ground arith in
      elim (Bool-cases (is_healthy (suc port))) [
        | inr e ↦ rw e (ground (arith, later, same))
        | inl e ↦ elim (Result-cases (run_open_loop (suc port) seed)) [
          | inl (x, failed) ↦ rw (e, failed) (ground (arith, later, same))
          | inr (op, came) ↦ elim (Result-cases (closed_run (suc port))) [
            | inl (x, failed) ↦ rw (e, came, failed) (ground (arith, later, same))
            | inr (cl, back) ↦ rw (e, came, back) (ground (arith, later, same))
          ]
        ]
      ]

  paired_runs-EndsIdle :
      (n seed port : ℕ)
      → EndsIdle port (paired_runs is_healthy run_open_loop closed_run n seed port).0
  unfolding paired_runs
  paired_runs-EndsIdle zero seed port = (port, omega arith, unfold replay in refl)
  paired_runs-EndsIdle (suc n) seed port =
      let once = replay-paired_run seed port in
      let (last, more, rest) = paired_runs-EndsIdle n (suc seed) (suc port) in
      elim (Result-cases (paired_run is_healthy run_open_loop closed_run seed (suc port)).1) [
        | inl (x, failed) ↦ rw (failed, paired_runs) (suc port, omega arith, once)
        | inr (pair, done) ↦
            rw (done, paired_runs)
              (
                last,
                omega (arith, more),
                replay-append (idle port) (idle (suc port))
                      ((paired_run is_healthy run_open_loop closed_run seed (suc port)).0)
                      ((paired_runs is_healthy run_open_loop closed_run n (suc seed) (suc port)).0)
                      once
                    ∙ rest,
              )
      ]

  -- The loop returns a pair for each repetition, or raises in the first that has none.
  AllOrNone : ℕ → ℕ → ℕ → Result (List Pair) → Type 0
  AllOrNone n seed port (ok pairs) = (all_paired n seed port ≡ true) × (length pairs ≡ n)
  AllOrNone n seed port (raise e) = all_paired n seed port ≡ false

  paired_runs-AllOrNone :
      (n seed port : ℕ)
      → AllOrNone n seed port (paired_runs is_healthy run_open_loop closed_run n seed port).1
  unfolding paired_runs AllOrNone all_paired
  paired_runs-AllOrNone zero seed port = (refl, refl)
  paired_runs-AllOrNone (suc n) seed port =
      let once = is_ok-paired_run seed (suc port) in
      let rest = paired_runs-AllOrNone n (suc seed) (suc port) in
      elim (Result-cases (paired_run is_healthy run_open_loop closed_run seed (suc port)).1) [
        | inl (x, failed) ↦ rw (failed, paired_runs, AllOrNone) (ground (arith, rw failed at once))
        | inr (pair, done) ↦
            elim (Result-cases
              (paired_runs is_healthy run_open_loop closed_run n (suc seed) (suc port)).1) [
                | inl (x, failed) ↦
                    rw (done, failed, paired_runs, AllOrNone)
                      (ground (arith, rw done at once, rw failed at rest))
                | inr (pairs, back) ↦
                    rw (done, back, paired_runs, AllOrNone)
                      (
                        ground (arith, rw done at once, rw back at rest),
                        omega (arith, rw back at rest),
                      )
              ]
      ]

-- Whatever becomes of the servers and the runs, `compare` leaves no server running. It returns
-- exactly if each repetition finds a healthy server, a request that its open run completes, and a
-- percentile of its closed run that is not 0; it then has a pair for each repetition, and the median
-- of their ratios that are not 0. Otherwise it raises, and has no pair.
pub compare-IsMedian :
    (is_healthy : ℕ → Bool) (run_open_loop : ℕ → ℕ → Result Summary)
    (closed_run : ℕ → Result Report) (repeats base_port : ℕ)
    → let (trace, result) = compare is_healthy run_open_loop closed_run repeats base_port in
      let good = all_paired is_healthy run_open_loop closed_run repeats 0 base_port in
      EndsIdle base_port trace
      × (((e : Error) × (result ≡ raise e) × (good ≡ false))
          ⊎ ((pairs : List Pair) × (m : Option Ratio) × (result ≡ ok (pairs, m))
              × (good ≡ true)
              × (length pairs ≡ repeats)
              × IsMedian pairs m))
unfolding compare AllOrNone
compare-IsMedian is_healthy run_open_loop closed_run repeats base_port =
    let outcome = paired_runs-AllOrNone is_healthy run_open_loop closed_run repeats 0 base_port in
    (
      paired_runs-EndsIdle is_healthy run_open_loop closed_run repeats 0 base_port,
      elim (Result-cases (paired_runs is_healthy run_open_loop closed_run repeats 0 base_port).1) [
        | inl (e, failed) ↦ inl (e, rw (failed, compare) refl, rw failed at outcome)
        | inr (pairs, done) ↦
            let (good, all) = rw done at outcome in
            inr (
              pairs,
              ratio_median pairs,
              rw (done, compare) refl,
              good,
              all,
              ratio_median-IsMedian pairs,
            )
      ],
    )
