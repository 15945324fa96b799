-- ===== src/Load/Closed/Run/Span.antt =====
-- src/shortener/loadtest.py, when the tasks of `run` are over, by the time that their requests take.
use url_shortener_100x.Prelude.{
  ℕ, ◌+◌, ◌-◌, ◌≤◌, ◌<◌, ◌≡◌, ◌⊎◌, inl, inr, true, false, Option, none, some, List, [], ◌∷◌, All,
  arith, Bool-cases,
}
use url_shortener_100x.Load.Results.{Ending}
use url_shortener_100x.Load.Closed.{Request, resolve_stopped, loop_stopped, create_stopped}
use url_shortener_100x.Load.Closed.Run.{Course, all_done, all_stopped, gathered}

-- The time that the requests of a worker take, one after the other.
unfoldable pub busy : List Request → ℕ
busy [] = 0
busy (r ∷ requests) = r.elapsed + busy requests

-- The same of the writer, with its sleeps.
unfoldable pub paced : ℕ → List Request → ℕ
paced interval [] = 0
paced interval (r ∷ requests) =
    r.elapsed + (interval - r.elapsed) + r.overslept + paced interval requests

-- The requests of every worker last as long as a run, and so do those of the writer, if it writes.
abbrev pub Lasting : ℕ → List (List Request) → Type 0
Lasting span workers = All (λ requests. span ≤ busy requests) workers

abbrev pub Writing : ℕ → Option ℕ → List Request → Type 0
Writing span none requests = Unit
Writing span (some interval) requests = span ≤ paced interval requests

module _ (stop_at : ℕ) where
  resolve_stopped-true :
      (requests : List Request) (now : ℕ)
      → resolve_stopped stop_at now requests ≡ true
      → stop_at ≤ now + busy requests
  unfolding resolve_stopped busy
  resolve_stopped-true [] now h = ground arith
  resolve_stopped-true (r ∷ requests) now h =
      ground (arith, resolve_stopped-true requests (now + r.elapsed))

  resolve_stopped-false :
      (requests : List Request) (now : ℕ)
      → resolve_stopped stop_at now requests ≡ false
      → now + busy requests < stop_at
  unfolding resolve_stopped busy
  resolve_stopped-false [] now h = ground arith
  resolve_stopped-false (r ∷ requests) now h =
      ground (arith, resolve_stopped-false requests (now + r.elapsed))

  loop_stopped-true :
      (interval : ℕ) (requests : List Request) (now : ℕ)
      → loop_stopped stop_at interval now requests ≡ true
      → stop_at ≤ now + paced interval requests
  unfolding loop_stopped paced
  loop_stopped-true interval [] now h = ground arith
  loop_stopped-true interval (r ∷ requests) now h =
      let later = now + r.elapsed + (interval - r.elapsed) + r.overslept in
      ground (arith, loop_stopped-true interval requests later)

  loop_stopped-false :
      (interval : ℕ) (requests : List Request) (now : ℕ)
      → loop_stopped stop_at interval now requests ≡ false
      → now + paced interval requests < stop_at
  unfolding loop_stopped paced
  loop_stopped-false interval [] now h = ground arith
  loop_stopped-false interval (r ∷ requests) now h =
      let later = now + r.elapsed + (interval - r.elapsed) + r.overslept in
      ground (arith, loop_stopped-false interval requests later)

module _ (span now : ℕ) {stop_at : ℕ} where
  all_stopped-true :
      (workers : List (List Request))
      → stop_at ≡ now + span
      → all_stopped stop_at now workers ≡ true
      → Lasting span workers
  unfolding all_stopped
  all_stopped-true [] e h = tt
  all_stopped-true (requests ∷ workers) e h =
      let here : resolve_stopped stop_at now requests ≡ true = ground arith in
      (
        omega (arith, resolve_stopped-true stop_at requests now here),
        all_stopped-true workers e (ground arith),
      )

  all_stopped-false :
      (workers : List (List Request))
      → stop_at ≡ now + span
      → all_stopped stop_at now workers ≡ false
      → Lasting span workers
      → ⊥
  unfolding all_stopped
  all_stopped-false [] e h lasting = ground arith
  all_stopped-false (requests ∷ workers) e h lasting =
      elim (Bool-cases (resolve_stopped stop_at now requests)) [
        | inl over ↦ all_stopped-false workers e (ground arith) lasting.1
        | inr on ↦ omega (arith, resolve_stopped-false stop_at requests now on, lasting.0)
      ]

  create_stopped-true :
      (interval : Option ℕ) (requests : List Request)
      → stop_at ≡ now + span
      → create_stopped stop_at interval now requests ≡ true
      → Writing span interval requests
  unfolding create_stopped
  create_stopped-true none requests e h = tt
  create_stopped-true (some interval) requests e h =
      omega (arith, loop_stopped-true stop_at interval requests now h)

  create_stopped-false :
      (interval : Option ℕ) (requests : List Request)
      → stop_at ≡ now + span
      → create_stopped stop_at interval now requests ≡ false
      → Writing span interval requests
      → ⊥
  unfolding create_stopped
  create_stopped-false none requests e h writing = ground arith
  create_stopped-false (some interval) requests e h writing =
      omega (arith, loop_stopped-false stop_at interval requests now h, writing)

  module _ (interval : Option ℕ) (c : Course) (left : List (List Ending)) where
    pub gathered-true :
        stop_at ≡ now + span
        → gathered stop_at now interval c left ≡ true
        → (all_done left ≡ true) × (Lasting span c.resolves × Writing span interval c.creates)
    unfolding gathered
    gathered-true e h =
        let resolved : all_stopped stop_at now c.resolves ≡ true = ground arith in
        let created : create_stopped stop_at interval now c.creates ≡ true = ground arith in
        (
          ground arith,
          (
            all_stopped-true c.resolves e resolved,
            create_stopped-true interval c.creates e created,
          ),
        )

    pub gathered-false :
        stop_at ≡ now + span
        → gathered stop_at now interval c left ≡ false
        → (all_done left ≡ false) ⊎ ¬ (Lasting span c.resolves × Writing span interval c.creates)
    unfolding gathered
    gathered-false e h = elim (Bool-cases (all_done left)) [
      | inr on ↦ inl on
      | inl done ↦ elim (Bool-cases (all_stopped stop_at now c.resolves)) [
        | inr on ↦ inr (λ lasting. all_stopped-false c.resolves e on lasting.0)
        | inl over ↦
            let on : create_stopped stop_at interval now c.creates ≡ false = ground arith in
            inr (λ lasting. create_stopped-false interval c.creates e on lasting.1)
      ]
    ]
