-- ===== src/Load/Sweep/Best.antt =====
-- src/shortener/openloop.py, the rows of a sweep and the rate that it reports.
use url_shortener_100x.Prelude.{
  ℕ, suc, ◌*◌, ◌≤◌, ◌≡◌, inl, inr, refl, sym, ◌∙◌, ap, true, false, Option, none, some, List, [],
  ◌∷◌, leb, ltb, get_elem?, All, All-map, arith, Bool-cases, Result-cases, ok_injective, ok,
}
use url_shortener_100x.Load.Sweep.{
  Summary, Row, make_row, is_ok_row, achieved, better, best_of, repetitions, sweep_rows, sweep,
}
use url_shortener_100x.Load.Sweep.Median.{IsMedian, make_row-IsMedian}

-- A row is reported, and it is the best of those that may be; or none may be.
abbrev pub IsBest : ℕ → List Row → Option Row → Type 0
IsBest budget rows none = All (λ r. is_ok_row budget r ≡ false) rows
IsBest budget rows (some b) =
    (is_ok_row budget b ≡ true)
    × ((i : ℕ) × (get_elem? rows i ≡ some b))
    × All (λ r. is_ok_row budget r ≡ true → achieved r ≤ achieved b) rows

IsBest-skip :
    (budget : ℕ) (r : Row) (rows : List Row) (best : Option Row)
    → is_ok_row budget r ≡ false
    → IsBest budget rows best
    → IsBest budget (r ∷ rows) best
IsBest-skip budget r rows none h b = (h, b)
IsBest-skip budget r rows (some x) h (fine, (i, place), greatest) =
    (fine, (suc i, place), (λ k. absurd (ground (arith, h, k)), greatest))

IsBest-better :
    (budget : ℕ) (r : Row) (rows : List Row) (best : Option Row)
    → is_ok_row budget r ≡ true
    → IsBest budget rows best
    → IsBest budget (r ∷ rows) (better r best)
IsBest-better budget r rows none h b = (
  h,
  (0, refl),
  (λ k. omega arith, All-map _ _ rows (λ x bad k. absurd (ground (arith, bad, k))) b),
)
IsBest-better budget r rows (some x) h (fine, (i, place), greatest) =
    elim (Bool-cases (leb (achieved x) (achieved r))) [
      | inl e ↦ rw e (
        h,
        (0, refl),
        (λ k. omega arith, All-map _ _ rows (λ y le k. ground (arith, le k, e)) greatest),
      )
      | inr e ↦ rw e (fine, (suc i, place), (λ k. ground (arith, e), greatest))
    ]

best_of-IsBest : (budget : ℕ) (rows : List Row) → IsBest budget rows (best_of budget rows)
unfolding best_of
best_of-IsBest budget [] = tt
best_of-IsBest budget (r ∷ rows) = elim (Bool-cases (is_ok_row budget r)) [
  | inl e ↦
      rw (e, best_of)
        (IsBest-better budget r rows (best_of budget rows) e (best_of-IsBest budget rows))
  | inr e ↦
      rw (e, best_of)
        (IsBest-skip budget r rows (best_of budget rows) e (best_of-IsBest budget rows))
]

module _ (run_open_loop : ℕ → ℕ → Summary) (repeats budget factor : ℕ) where
  -- The row shows the median of the runs of one of the rates.
  abbrev pub IsPoint : List ℕ → Row → Type 0
  IsPoint rates row =
      (i rate : ℕ) × (get_elem? rates i ≡ some rate)
      × IsMedian (repetitions run_open_loop rate repeats 0) row

  IsPoint-skip :
      (rate : ℕ) (rates : List ℕ) (row : Row) → IsPoint rates row → IsPoint (rate ∷ rates) row
  IsPoint-skip rate rates row (i, other, place, median) = (suc i, other, place, median)

  make_row-ok : (reps : List Summary) (row : Row) → make_row reps ≡ ok row → IsMedian reps row
  make_row-ok reps row h = elim (make_row-IsMedian reps) [
    | inl (empty, e) ↦ absurd (ground (arith, e, h))
    | inr (inl (few, e)) ↦ absurd (ground (arith, e, h))
    | inr (inr (many, (r, e, median))) ↦ rw (ok_injective row r (sym h ∙ e)) median
  ]

  sweep_rows-IsPoint :
      (rates : List ℕ) (rows : List Row)
      → sweep_rows run_open_loop repeats budget factor rates ≡ ok rows
      → All (IsPoint rates) rows
  unfolding sweep_rows
  sweep_rows-IsPoint [] rows h = rw (sym (ok_injective [] rows h)) tt
  sweep_rows-IsPoint (rate ∷ rates) rows h =
      let reps = repetitions run_open_loop rate repeats 0 in
      elim (Result-cases (make_row reps)) [
        | inl (e, failed) ↦ absurd (ground (arith, rw (failed, sweep_rows) at h))
        | inr (row, made) ↦ elim (Bool-cases (ltb (budget * factor) row.p99_ms_median)) [
          | inl over ↦
              rw (sym (ok_injective (row ∷ []) rows (rw (made, sweep_rows, over) at h)))
                (here row made, tt)
          | inr within ↦
              elim (Result-cases (sweep_rows run_open_loop repeats budget factor rates)) [
                | inl (e, failed) ↦
                    absurd (ground (arith, rw (made, sweep_rows, within, failed) at h))
                | inr (rest, more) ↦
                    rw
                      (sym
                        (ok_injective (row ∷ rest) rows (rw (made, sweep_rows, within, more) at h)))
                      (
                        here row made,
                        All-map _ _ rest (IsPoint-skip rate rates)
                            (sweep_rows-IsPoint rates rest more),
                      )
              ]
        ]
      ]
    where
      here :
          (row : Row)
          → make_row (repetitions run_open_loop rate repeats 0) ≡ ok row
          → IsPoint (rate ∷ rates) row
      here row made =
          (0, rate, refl, make_row-ok (repetitions run_open_loop rate repeats 0) row made)

  -- Each row of a sweep that ends without an exception shows the median of the runs of one of its
  -- rates. The reported row is valid and within the budget, and no such row of the sweep completed
  -- more requests; none is reported only if there is no such row.
  pub sweep-IsBest :
      (rates : List ℕ) (rows : List Row) (best : Option Row)
      → sweep run_open_loop repeats budget factor rates ≡ ok (rows, best)
      → All (IsPoint rates) rows × IsBest budget rows best
  unfolding sweep
  sweep-IsBest rates rows best h =
      elim (Result-cases (sweep_rows run_open_loop repeats budget factor rates)) [
        | inl (e, failed) ↦ absurd (ground (arith, rw (failed, sweep) at h))
        | inr (made, e) ↦
            let same = ok_injective (made, best_of budget made) (rows, best) (rw (e, sweep) at h) in
            rw (sym (ap (λ x. x.0) same), sym (ap (λ x. x.1) same))
              (sweep_rows-IsPoint rates made e, best_of-IsBest budget made)
      ]
