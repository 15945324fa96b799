-- ===== src/Load/Sweep/Median.antt =====
-- src/shortener/openloop.py, the row that a sweep makes of the runs of one rate.
use url_shortener_100x.Prelude.{
  ℕ, suc, ◌+◌, ◌/◌, ◌≤◌, ◌<◌, ◌≡◌, ◌⊎◌, inl, inr, refl, ◌∙◌, ap, Bool, true, false, none, some,
  List, [], ◌∷◌, ◌==◌, length, get_elem?, arith, Bool-cases, Option-cases, ok, raise, value_error,
  other_error,
}
use url_shortener_100x.Load.Sweep.{
  Latency, le_latency, Summary, no_requests, measured, p99_of, p99s, find_rep, Row, make_row,
}
use url_shortener_100x.Load.Sweep.Order.{le_latency-IsOrder}
use url_shortener_100x.Prelude.Sorting.{
  sort, count_if, count_if-sort, length-sort, get_elem?-sort, count_if-get_elem?, count_if_le,
  count_if_split, get_elem?-none,
}

-- The runs whose 99th percentile is at most m, and those whose is at least m.
abbrev pub runs_up_to : ℕ → List Summary → ℕ
runs_up_to m reps = count_if (λ a. le_latency a (some m)) (p99s reps)

abbrev pub runs_from : ℕ → List Summary → ℕ
runs_from m reps = count_if (λ a. le_latency (some m) a) (p99s reps)

-- The runs that completed a request.
abbrev is_number : Latency → Bool
is_number none = false
is_number (some m) = true

abbrev pub runs_measured : List Summary → ℕ
runs_measured reps = count_if is_number (p99s reps)

length-p99s : (reps : List Summary) → length (p99s reps) ≡ length reps
unfolding p99s
length-p99s [] = refl
length-p99s (r ∷ reps) = ap suc (length-p99s reps)

abbrev is_p99 : ℕ → Latency → Bool
is_p99 m none = false
is_p99 m (some a) = a == m

-- A number among the latencies is that of a run, which is found.
find_rep-some :
    (m : ℕ) (reps : List Summary)
    → 0 < count_if (is_p99 m) (p99s reps)
    → (r : Summary) × (find_rep m reps ≡ ok r)
      × (p99_of r ≡ some m)
      × ((i : ℕ) × (get_elem? reps i ≡ some r))
unfolding find_rep p99s p99_of count_if
find_rep-some m [] h = absurd (omega (arith, h))
find_rep-some m (no_requests ∷ reps) h =
    let (r, found, own, (i, place)) = find_rep-some m reps h in (r, found, own, (suc i, place))
find_rep-some m (measured requests p99 offered_rate valid ∷ reps) h = elim (Bool-cases (p99 == m)) [
  | inl e ↦ (
    measured requests p99 offered_rate valid,
    rw (e, find_rep) refl,
    ap some (ground (arith, e)),
    (0, refl),
  )
  | inr e ↦
      let (r, found, own, (i, place)) = find_rep-some m reps (ground (arith, h, e)) in
      (r, rw (e, find_rep) found, own, (suc i, place))
]

-- The row repeats one of the runs, which has the median as its 99th percentile: more than half of
-- the runs have at most that, and at least half have at least that.
pub record IsMedian (reps : List Summary) (row : Row) : Type 0 where
  pub own : p99_of row.point ≡ some row.p99_ms_median
  pub place : (i : ℕ) × (get_elem? reps i ≡ some row.point)
  pub below : length reps / 2 < runs_up_to row.p99_ms_median reps
  pub above : length reps ≤ length reps / 2 + runs_from row.p99_ms_median reps

unmeasured : (a : Latency) → le_latency none a ≡ true → is_number a ≡ false
unmeasured none h = refl
unmeasured (some a) h = absurd (ground (arith, h))

measured_below : (m : ℕ) (a : Latency) → le_latency a (some m) ≡ true → is_number a ≡ true
measured_below m none h = absurd (ground (arith, h))
measured_below m (some a) h = refl

no_reps : (reps : List Summary) → length reps ≡ 0 → reps ≡ []
no_reps [] h = refl
no_reps (r ∷ reps) h = absurd (omega (arith, h))

module _ (reps : List Summary) where
  runs : List Latency
  runs = sort le_latency (p99s reps)

  length-runs : length runs ≡ length reps
  unfolding runs
  length-runs = length-sort le_latency (p99s reps) ∙ length-p99s reps

  at_middle :
      (m : Latency)
      → get_elem? runs (length runs / 2) ≡ some m
      → (length reps / 2 < count_if (λ a. le_latency a m) (p99s reps))
        × (length reps ≤ length reps / 2 + count_if (λ a. le_latency m a) (p99s reps))
  unfolding runs
  at_middle m e =
      let (below, above) =
        get_elem?-sort le_latency le_latency-IsOrder (p99s reps) (length runs / 2) m e in
      (omega (arith, below, length-runs), omega (arith, above, length-runs, length-p99s reps))

  -- Runs of a rate make a row exactly when more than half of them completed a request; the row then
  -- shows their median. Otherwise the sweep ends with a ValueError, and without any run with an
  -- IndexError.
  pub make_row-IsMedian :
      ((reps ≡ []) × (make_row reps ≡ raise other_error))
      ⊎ (((runs_measured reps ≤ length reps / 2) × (make_row reps ≡ raise value_error))
          ⊎ ((length reps / 2 < runs_measured reps)
              × ((row : Row) × (make_row reps ≡ ok row) × IsMedian reps row)))
  unfolding make_row runs
  make_row-IsMedian = elim (Option-cases (get_elem? runs (length runs / 2))) [
    | inl e ↦
        let small = get_elem?-none runs (length runs / 2) e in
        inl (no_reps reps (omega (arith, small, length-runs)), rw (e, make_row) refl)
    | inr (none, e) ↦
        let none_from = at_middle none e in
        let apart = count_if_split (λ a. le_latency none a) is_number (p99s reps) unmeasured in
        inr (inl (omega (arith, none_from, apart, length-p99s reps), rw (e, make_row) refl))
    | inr (some m, e) ↦
        let (below, above) = at_middle (some m) e in
        let there =
          count_if-get_elem? (is_p99 m) runs (length runs / 2) (some m) (ground arith) e in
        let (r, found, own, place) =
          find_rep-some m reps
            (omega (arith, there, count_if-sort le_latency (is_p99 m) (p99s reps))) in
        let row : Row = record { point = r; p99_ms_runs = runs; p99_ms_median = m } in
        inr (
          inr (
            omega (
              arith,
              below,
              count_if_le (λ a. le_latency a (some m)) is_number (p99s reps) (measured_below m),
            ),
            (
              row,
              rw (e, make_row, found) refl,
              record { own = own; place = place; below = below; above = above },
            ),
          ))
  ]
