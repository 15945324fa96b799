-- ===== src/Load/Results.antt =====
-- src/shortener/loadtest.py, `Results`, what the workers put into it, and the keys that they read.
-- How a request ends is an argument.
pub mod Counts
pub mod Workers
use url_shortener_100x.Prelude.{
  ℕ, zero, suc, ◌+◌, ◌%◌, Bool, true, false, Option, none, some, List, [], ◌∷◌, ◌++◌, leb, ◌==◌,
  if◌then◌else◌, length, get_elem?,
}

-- `status_counts` maps a status to a number.
pub record Results : Type 0 where
  pub latencies : List ℕ
  pub status_counts : List (ℕ × ℕ)
  pub errors : ℕ

-- `Results()`
abbrev pub new_results : Results
new_results = record { latencies = []; status_counts = []; errors = 0 }

-- `counts[status] = counts.get(status, 0) + 1`
unfoldable pub bump : List (ℕ × ℕ) → ℕ → List (ℕ × ℕ)
bump [] status = (status, 1) ∷ []
bump ((s, n) ∷ counts) status =
    let rest = bump counts status in if s == status then (s, n + 1) ∷ counts else (s, n) ∷ rest

unfoldable pub record_response : Results → ℕ → ℕ → Results
unfolding bump
record_response r ms status = record r {
  latencies = r.latencies ++ ms ∷ [];
  status_counts = bump r.status_counts status;
}

-- How a worker's request ends: a response in `ms`, at a time that is past the warm-up or not, or an
-- exception.
pub data Ending : Type 0 where
  responded : (ms status : ℕ) (warm : Bool) → Ending
  failed : Ending

-- The body of a worker's loop.
unfoldable pub settle : Results → Ending → Results
unfolding record_response
settle r (responded ms status true) = record_response r ms status
settle r (responded ms status false) = r
settle r failed = record r { errors = r.errors + 1 }

-- The loops of all workers, in the order in which their requests end.
unfoldable pub run_workers : Results → List Ending → Results
unfolding settle
run_workers r [] = r
run_workers r (e ∷ endings) = run_workers (settle r e) endings

-- `summary`: `requests` and `non_2xx_3xx`.
unfoldable pub requests : Results → ℕ
requests r = length r.latencies

unfoldable pub sum_where : (ℕ → Bool) → List (ℕ × ℕ) → ℕ
sum_where p [] = 0
sum_where p ((s, n) ∷ counts) = let rest = sum_where p counts in if p s then n + rest else rest

unfoldable pub non_2xx_3xx : Results → ℕ
unfolding sum_where
non_2xx_3xx r = sum_where (leb 400) r.status_counts

module _ {ℓ} {A : Type ℓ} where
  -- `keys[k::step]`, for a step of `gap + 1`.
  unfoldable pub every : ℕ → ℕ → List A → List A
  every gap k [] = []
  every gap zero (x ∷ keys) = x ∷ every gap gap keys
  every gap (suc k) (x ∷ keys) = every gap k keys

  -- `keys[i::concurrency] or keys`
  unfoldable pub worker_keys : ℕ → ℕ → List A → List A
  unfolding every
  worker_keys gap i keys = elim (every gap i keys) [ [] ↦ keys | x ∷ own ↦ x ∷ own ]

  -- `keys[i % n]`, the key of a worker's i-th request; `n` is 0 for no keys.
  unfoldable pub requested : List A → ℕ → Option A
  requested [] i = none
  requested (x ∷ keys) i = get_elem? (x ∷ keys) (i % length (x ∷ keys))
