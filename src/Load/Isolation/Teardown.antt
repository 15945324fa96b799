-- ===== src/Load/Isolation/Teardown.antt =====
-- src/shortener/openloop.py, `sweep_isolated`: which servers run at what time.
use mathlib.Core.Option.{some-injective}
use url_shortener_100x.Prelude.{
  ℕ, zero, suc, ◌*◌, ◌≤◌, ◌≡◌, refl, sym, ◌∙◌, ap, Bool, true, false, ◌&&◌, not, Option, none, some,
  List, [], ◌∷◌, ◌++◌, ltb, ◌==◌, if◌then◌else◌, arith, Result, ok, Bool-cases, Option-cases, ◌⊎◌,
  Result-cases, ok_injective, inl, inr,
}
use url_shortener_100x.Load.Sweep.{Summary, make_row}
use url_shortener_100x.Load.Isolation.{
  Action, remove_data, spawn_server, run_load, stop_server, attempt, isolated_run, isolated_runs,
  sweep_isolated,
}

-- The port that was used last, and whether its server runs.
pub record Host : Type 0 where
  pub port : ℕ
  pub running : Bool

abbrev pub idle : ℕ → Host
idle port = record { port = port; running = false }

-- What the actions leave; none where a server is started beside another or on a used port, is
-- measured or stopped when it does not run, or loses its directory while it runs.
abbrev pub act : Host → Action → Option Host
act h (remove_data p) = if h.running then none else some h
act h (spawn_server p) =
    if not h.running && ltb h.port p then some (record { port = p; running = true }) else none
act h (run_load p) = if h.running && (h.port == p) then some h else none
act h (stop_server p) = if h.running && (h.port == p) then some (idle p) else none

unfoldable pub replay : Host → List Action → Option Host
replay h [] = some h
replay h (a ∷ trace) = elim (act h a) [ none ↦ none | some h2 ↦ replay h2 trace ]

pub replay-append :
    (h h2 : Host) (s t : List Action) → replay h s ≡ some h2 → replay h (s ++ t) ≡ replay h2 t
unfolding replay
replay-append h h2 [] t e = ap (λ x. replay x t) (some-injective h h2 e)
replay-append h h2 (a ∷ s) t e = elim (Option-cases (act h a)) [
  | inl stuck ↦ absurd (ground (arith, rw (stuck, replay) at e))
  | inr (h3, moved) ↦ rw (moved, replay) (replay-append h3 h2 s t (rw (moved, replay) at e))
]

-- The actions are in order, and end with no server running and no port used below the first one.
abbrev pub EndsIdle : ℕ → List Action → Type 0
EndsIdle port trace = (last : ℕ) × (port ≤ last) × (replay (idle port) trace ≡ some (idle last))

module _ (is_healthy : ℕ → Bool) (run_open_loop : ℕ → ℕ → ℕ → Result Summary) where
  attempt-trace :
      (rate seed port : ℕ)
      → ((attempt is_healthy run_open_loop rate seed port).0 ≡ run_load port ∷ [])
        ⊎ ((attempt is_healthy run_open_loop rate seed port).0 ≡ [])
  unfolding attempt
  attempt-trace rate seed port = elim (Bool-cases (is_healthy port)) [
    | inl e ↦ inl (rw (e, attempt) refl)
    | inr e ↦ inr (rw (e, attempt) refl)
  ]

  replay-isolated_run :
      (rate seed port : ℕ)
      → replay (idle port) (isolated_run is_healthy run_open_loop rate seed (suc port)).0
        ≡ some (idle (suc port))
  unfolding isolated_run replay
  replay-isolated_run rate seed port =
      let later : ltb port (suc port) ≡ true = ground arith in
      let same : (suc port == suc port) ≡ true = ground arith in
      elim (attempt-trace rate seed (suc port)) [
        | inl e ↦ rw e (ground (arith, later, same))
        | inr e ↦ rw e (ground (arith, later, same))
      ]

  isolated_runs-EndsIdle :
      (rate n seed port : ℕ)
      → let (trace, result) = isolated_runs is_healthy run_open_loop rate n seed port in
        (last : ℕ) × (port ≤ last)
        × (replay (idle port) trace ≡ some (idle last))
        × ((points : List Summary) (l : ℕ) → result ≡ ok (points, l) → l ≡ last)
  unfolding isolated_runs replay
  isolated_runs-EndsIdle rate zero seed port = (
    port,
    omega arith,
    refl,
    λ points l e. sym (ap (λ x. x.1) (ok_injective ([], port) (points, l) e)),
  )
  isolated_runs-EndsIdle rate (suc n) seed port =
      let once = replay-isolated_run rate seed port in
      let (last, more, rest, ends) = isolated_runs-EndsIdle rate n (suc seed) (suc port) in
      elim (Result-cases (isolated_run is_healthy run_open_loop rate seed (suc port)).1) [
        | inl (x, failed) ↦
            rw (failed, isolated_runs)
              (suc port, omega arith, once, λ points l e. absurd (ground (arith, e)))
        | inr (point, done) ↦
            rw (done, isolated_runs)
              (
                last,
                omega (arith, more),
                replay-append (idle port) (idle (suc port))
                      ((isolated_run is_healthy run_open_loop rate seed (suc port)).0)
                      ((isolated_runs is_healthy run_open_loop rate n (suc seed) (suc port)).0) once
                    ∙ rest,
                λ points l e.
                    elim (Result-cases
                      (isolated_runs is_healthy run_open_loop rate n (suc seed) (suc port)).1) [
                        | inl (x, failed) ↦ absurd (ground (arith, rw failed at e))
                        | inr ((rest_points, l2), found) ↦
                            sym (
                              ap (λ x. x.1)
                                (ok_injective (point ∷ rest_points, l2) (points, l)
                                  (rw found at e)))
                            ∙ ends rest_points l2 found
                      ],
              )
      ]

  module _ (repeats budget : ℕ) where
    -- Whatever becomes of the servers and the runs, and also when the sweep ends with an exception:
    -- a server is started only when the one before has been stopped, on a port that was not used, is
    -- measured only while it runs, and none runs at the end.
    pub sweep_isolated-EndsIdle :
        (rates : List ℕ) (port : ℕ)
        → EndsIdle port (sweep_isolated is_healthy run_open_loop repeats budget rates port).0
    unfolding sweep_isolated
    sweep_isolated-EndsIdle [] port = (port, omega arith, unfold replay in refl)
    sweep_isolated-EndsIdle (rate ∷ rates) port =
        let (last, more, replayed, ends) = isolated_runs-EndsIdle rate repeats 0 port in
        elim (Result-cases (isolated_runs is_healthy run_open_loop rate repeats 0 port).1) [
          | inl (e, failed) ↦ rw (failed, sweep_isolated) (last, more, replayed)
          | inr ((reps, l), runs) ↦
              let (end, more2, replayed2) = sweep_isolated-EndsIdle rates l in
              elim (Result-cases (make_row reps)) [
                | inl (e, failed) ↦ rw (runs, failed, sweep_isolated) (last, more, replayed)
                | inr (row, made) ↦ elim (Bool-cases (ltb (budget * 8) row.p99_ms_median)) [
                  | inl over ↦ rw (runs, made, over, sweep_isolated) (last, more, replayed)
                  | inr within ↦
                      let same = ends reps l runs in
                      rw (runs, made, within, sweep_isolated)
                        (
                          end,
                          omega (arith, more, more2, same),
                          replay-append (idle port) (idle last)
                                ((isolated_runs is_healthy run_open_loop rate repeats 0 port).0)
                                ((sweep_isolated is_healthy run_open_loop repeats budget rates l).0)
                                replayed
                              ∙ ap
                                  (λ x. replay (idle x) (
                                    (sweep_isolated is_healthy run_open_loop repeats budget rates
                                      l).0))
                                  (sym same)
                              ∙ replayed2,
                        )
                ]
              ]
        ]
