-- ===== src/Load/Closed.antt =====
-- src/shortener/loadtest.py, the links that a load test creates and the loops of its workers. Times
-- are whole numbers; how long a request takes, how it ends and how late a sleep ends are arguments. A
-- loop ends when it is `stop_at` by the clock, not when the list of its requests is used up.
pub mod Pace
pub mod Run
use url_shortener_100x.Prelude.{
  ℕ, zero, suc, ◌+◌, ◌-◌, ◌*◌, Bool, true, false, Option, none, some, List, [], ◌∷◌, ◌++◌, ltb, leb,
  ◌==◌, if◌then◌else◌, length, get_elem?, Text, Result, ok, raise, other_error, max,
}
use url_shortener_100x.Load.Results.{Results, Ending, responded, failed, requests, non_2xx_3xx}

-- `seed_links`: what the service answers to each `POST /links`, a status and, for a 201, a code.
unfoldable pub seed_links : List (ℕ × Text) → List Text
seed_links [] = []
seed_links ((status, code) ∷ answers) =
    let rest = seed_links answers in if status == 201 then code ∷ rest else rest

-- `[codes[i] for i in idx]` of `zipf_keys`, for the indices that are drawn; an `IndexError` otherwise.
unfoldable pub zipf_keys : List Text → List ℕ → Result (List Text)
zipf_keys codes [] = ok []
zipf_keys codes (i ∷ idx) =
    let rest = zipf_keys codes idx in
    elim (get_elem? codes i) [
      | none ↦ raise other_error
      | some c ↦ elim rest [ raise e ↦ raise e | ok keys ↦ ok (c ∷ keys) ]
    ]

-- A request of a worker: how long it takes until it is read or raises, its status where it does not,
-- and by how much the sleep behind it, in `create_worker`, is too long.
pub record Request : Type 0 where
  pub elapsed : ℕ
  pub status : Option ℕ
  pub overslept : ℕ

-- What one turn of either loop records, at the time `done`.
unfoldable pub ending : ℕ → Request → ℕ → Ending
ending start_after r done = elim r.status [
  | none ↦ failed
  | some s ↦ responded r.elapsed s (leb start_after done)
]

module _ (start_after stop_at : ℕ) where
  -- `resolve_worker` from the time `now` on.
  unfoldable pub resolve_worker : ℕ → List Request → List Ending
  unfolding ending
  resolve_worker now [] = []
  resolve_worker now (r ∷ requests) =
      let rest = resolve_worker (now + r.elapsed) requests in
      if ltb now stop_at then ending start_after r (now + r.elapsed) ∷ rest else []

  -- The loop of `create_worker`, whose turns begin at least `interval` apart.
  unfoldable pub create_loop : ℕ → ℕ → List Request → List Ending
  unfolding ending
  create_loop interval now [] = []
  create_loop interval now (r ∷ requests) =
      let done = now + r.elapsed in
      let rest = create_loop interval (done + (interval - r.elapsed) + r.overslept) requests in
      if ltb now stop_at then ending start_after r done ∷ rest else []

  -- `create_worker`; the interval is `1.0 / rate_per_s`, and `none` for a rate that is not positive.
  unfoldable pub create_worker : Option ℕ → ℕ → List Request → List Ending
  unfolding create_loop
  create_worker none now requests = []
  create_worker (some interval) now requests = create_loop interval now requests

module _ (stop_at : ℕ) where
  -- Whether the loop of `resolve_worker` is over behind these requests.
  unfoldable pub resolve_stopped : ℕ → List Request → Bool
  resolve_stopped now [] = leb stop_at now
  resolve_stopped now (r ∷ requests) =
      let rest = resolve_stopped (now + r.elapsed) requests in
      if ltb now stop_at then rest else true

  -- The same of the loop of `create_worker`.
  unfoldable pub loop_stopped : ℕ → ℕ → List Request → Bool
  loop_stopped interval now [] = leb stop_at now
  loop_stopped interval now (r ∷ requests) =
      let done = now + r.elapsed in
      let rest = loop_stopped interval (done + (interval - r.elapsed) + r.overslept) requests in
      if ltb now stop_at then rest else true

  unfoldable pub create_stopped : Option ℕ → ℕ → List Request → Bool
  unfolding loop_stopped
  create_stopped none now requests = true
  create_stopped (some interval) now requests = loop_stopped interval now requests

-- `Results.summary`, as far as `compare` reads it: without a latency the percentiles are those of 0.
pub record Report : Type 0 where
  pub requests : ℕ
  pub p99 : ℕ
  pub errors : ℕ
  pub non_2xx_3xx : ℕ

unfoldable pub summary : (List ℕ → ℕ) → Results → Report
unfolding requests non_2xx_3xx
summary p99 r = record {
  requests = requests r;
  p99 = p99 (elim r.latencies [ [] ↦ 0 ∷ [] | l ∷ ls ↦ l ∷ ls ]);
  errors = r.errors;
  non_2xx_3xx = non_2xx_3xx r;
}
