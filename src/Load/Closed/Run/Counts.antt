-- ===== src/Load/Closed/Run/Counts.antt =====
-- src/shortener/loadtest.py, the figures of a run and the turns of its workers.
use url_shortener_100x.Prelude.{
  ℕ, zero, suc, ◌+◌, ◌<◌, ◌≡◌, ◌⊎◌, refl, Bool, true, false, Option, none, some, List, [], ◌∷◌,
  if◌then◌else◌, arith, Option-cases, Bool-cases, inl, inr,
}
use url_shortener_100x.Load.Results.{Ending, new_results, run_workers}
use url_shortener_100x.Load.Results.Counts.{
  count_endings, is_counted, is_refused, is_failed, summary-counts,
}
use url_shortener_100x.Load.Closed.Run.Span.{Lasting, Writing, gathered-true, gathered-false}
use url_shortener_100x.Load.Closed.{Report, summary, create_worker}
use url_shortener_100x.Load.Closed.Run.{
  take_from, merge, all_done, Course, worker_turns, gathered, run_tasks,
}

-- The endings of all workers that a test holds of.
unfoldable pub count_all : (Ending → Bool) → List (List Ending) → ℕ
count_all p [] = 0
count_all p (turns ∷ workers) = count_endings p turns + count_all p workers

count_all-take_from :
    (p : Ending → Bool) (n : ℕ) (lists : List (List Ending)) (x : Ending)
    (rest : List (List Ending))
    → take_from n lists ≡ some (x, rest)
    → count_all p lists ≡ (if p x then 1 else 0) + count_all p rest
unfolding take_from count_all count_endings
count_all-take_from p n [] x rest e = absurd (ground (arith, e))
count_all-take_from p zero ([] ∷ lists) x rest e = absurd (ground (arith, e))
count_all-take_from p zero ((y ∷ ys) ∷ lists) x rest e =
    let e₀ : y ≡ x = ground arith in
    let e₁ : ys ∷ lists ≡ rest = ground arith in rw (← e₀, ← e₁) (ground arith)
count_all-take_from p (suc n) (xs ∷ lists) x rest e = elim (Option-cases (take_from n lists)) [
  | inl gone ↦ absurd (ground arith)
  | inr ((y, ys), found) ↦
      let e₀ : y ≡ x = ground arith in
      let e₁ : xs ∷ ys ≡ rest = ground arith in
      rw (← e₀, ← e₁) (omega (arith, count_all-take_from p n lists y ys found))
]

count_all-merge :
    (p : Ending → Bool) (order : List ℕ) (lists : List (List Ending))
    → count_endings p (merge order lists).0 + count_all p (merge order lists).1 ≡ count_all p lists
unfolding merge count_endings
count_all-merge p [] lists = omega arith
count_all-merge p (n ∷ order) lists = elim (Option-cases (take_from n lists)) [
  | inl gone ↦ rw (gone, merge) (count_all-merge p order lists)
  | inr ((x, rest), found) ↦
      rw (found, merge)
        (ground (arith, count_all-merge p order rest, count_all-take_from p n lists x rest found))
]

count_all-all_done :
    (p : Ending → Bool) (lists : List (List Ending)) → all_done lists ≡ true → count_all p lists ≡ 0
unfolding all_done count_all count_endings
count_all-all_done p [] h = refl
count_all-all_done p ([] ∷ lists) h = omega (arith, count_all-all_done p lists h)
count_all-all_done p ((x ∷ xs) ∷ lists) h = absurd (ground (arith, h))

-- The figures of a report, against the endings that it is made of.
abbrev pub Counts : Report → ((Ending → Bool) → ℕ) → Type 0
Counts r count =
    (r.requests ≡ count is_counted)
    × (r.non_2xx_3xx ≡ count is_refused)
    × (r.errors ≡ count is_failed)

summary-Counts :
    (p99 : List ℕ → ℕ) (endings : List Ending)
    → Counts (summary p99 (run_workers new_results endings)) (λ p. count_endings p endings)
unfolding summary
summary-Counts p99 endings =
    let (counted, _, refused, failures) = summary-counts endings in (counted, refused, failures)

abbrev pub any_ending : Ending → Bool
any_ending e = true

not_all_done :
    (lists : List (List Ending)) → all_done lists ≡ false → 0 < count_all any_ending lists
unfolding all_done count_all count_endings
not_all_done [] h = absurd (ground (arith, h))
not_all_done ([] ∷ lists) h = omega (arith, not_all_done lists h)
not_all_done ((x ∷ xs) ∷ lists) h = omega arith

Counts-merge :
    (p99 : List ℕ → ℕ) (order : List ℕ) (lists : List (List Ending))
    → all_done (merge order lists).1 ≡ true
    → Counts (summary p99 (run_workers new_results (merge order lists).0)) (λ p. count_all p lists)
Counts-merge p99 order lists done =
    let (counted, refused, failures) = summary-Counts p99 (merge order lists).0 in
    let all = λ (p : Ending → Bool). count_all-merge p order lists in
    let none_left = λ (p : Ending → Bool). count_all-all_done p (merge order lists).1 done in
    (
      omega (arith, counted, all is_counted, none_left is_counted),
      omega (arith, refused, all is_refused, none_left is_refused),
      omega (arith, failures, all is_failed, none_left is_failed),
    )

-- What keeps a run going: a turn that is left, or requests that end too early.
unfinished :
    (span t_start : ℕ) (interval : Option ℕ) (c : Course) (left : List (List Ending)) {stop_at : ℕ}
    → stop_at ≡ t_start + span
    → gathered stop_at t_start interval c left ≡ false
    → (0 < count_all any_ending left)
      ⊎ ¬ (Lasting span c.resolves × Writing span interval c.creates)
unfinished span t_start interval c left e on =
    elim (gathered-false span t_start interval c left e on) [
      | inl turns_left ↦ inl (not_all_done left turns_left)
      | inr short ↦ inr short
    ]

-- In whatever order the turns of the workers end, the tasks of a run are over exactly when no turn is
-- left and the requests of every worker, and the turns of the writer if there is one, take at least
-- as long as the warm-up and the measured time together. Then their reports count, over all workers
-- that resolve, the responses after the warm-up, those with a status from 400 on, and the exceptions;
-- and the same of the writer, apart.
pub run_tasks-Counts :
    (p99 : List ℕ → ℕ) (warmup duration t_start : ℕ) (interval : Option ℕ) (c : Course)
    → let stop_at = t_start + warmup + duration in
      let turns = worker_turns (t_start + warmup) stop_at t_start c.resolves in
      let result = run_tasks p99 warmup duration t_start interval c in
      let all_lasting =
        Lasting (warmup + duration) c.resolves × Writing (warmup + duration) interval c.creates in
      (((0 < count_all any_ending (merge c.order turns).1) ⊎ ¬ all_lasting) × (result ≡ none))
      ⊎ ((resolved : Report) × (created : Report) × (count_all any_ending (merge c.order turns).1
            ≡ 0)
          × all_lasting
          × (result ≡ some (resolved, created))
          × Counts resolved (λ p. count_all p turns)
          × Counts created (λ p.
            count_endings p (create_worker (t_start + warmup) stop_at interval t_start c.creates)))
unfolding run_tasks
run_tasks-Counts p99 warmup duration t_start interval c =
    let start_after = t_start + warmup in
    let stop_at = t_start + warmup + duration in
    let turns = worker_turns start_after stop_at t_start c.resolves in
    let created = create_worker start_after stop_at interval t_start c.creates in
    let left = (merge c.order turns).1 in
    elim (Bool-cases (gathered stop_at t_start interval c left)) [
      | inr on ↦ inl (
        unfinished (warmup + duration) t_start interval c left (omega arith) on,
        rw (on, run_tasks) refl,
      )
      | inl done ↦
          let (over, lasting) =
            gathered-true (warmup + duration) t_start interval c left (omega arith) done in
          inr (
            summary p99 (run_workers new_results (merge c.order turns).0),
            summary p99 (run_workers new_results created),
            count_all-all_done any_ending left over,
            lasting,
            rw (done, run_tasks) refl,
            Counts-merge p99 c.order turns over,
            summary-Counts p99 created,
          )
    ]
