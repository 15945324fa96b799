-- ===== src/Load/Results/Counts.antt =====
-- src/shortener/loadtest.py, `Results.summary` and the requests that were made.
use url_shortener_100x.Prelude.{
  ℕ, suc, ◌+◌, ◌≡◌, refl, Bool, true, false, List, [], ◌∷◌, leb, ◌==◌, if◌then◌else◌, length-append,
  arith, ap, Bool-cases, inl, inr,
}
use url_shortener_100x.Load.Results.{
  Results, new_results, bump, record_response, Ending, responded, failed, settle, run_workers,
  requests, sum_where, non_2xx_3xx,
}

-- The endings that a test holds of.
unfoldable pub count_endings : (Ending → Bool) → List Ending → ℕ
count_endings p [] = 0
count_endings p (e ∷ endings) = let rest = count_endings p endings in if p e then suc rest else rest

abbrev pub is_counted : Ending → Bool
is_counted (responded ms status warm) = warm
is_counted failed = false

abbrev pub is_refused : Ending → Bool
is_refused (responded ms status true) = leb 400 status
is_refused (responded ms status false) = false
is_refused failed = false

abbrev pub is_failed : Ending → Bool
is_failed (responded ms status warm) = false
is_failed failed = true

==→eq : (a b : ℕ) → (a == b) ≡ true → a ≡ b
==→eq a b h = ground (arith, h)

pub sum_where-bump :
    (p : ℕ → Bool) (counts : List (ℕ × ℕ)) (status : ℕ)
    → sum_where p (bump counts status)
      ≡ (if p status then suc (sum_where p counts) else sum_where p counts)
unfolding sum_where bump
sum_where-bump p [] status = ground arith
sum_where-bump p ((s, n) ∷ counts) status = elim (Bool-cases (s == status)) [
  | inl e ↦ rw (e, bump) (ground (arith, ap p (==→eq s status e)))
  | inr e ↦ rw (e, bump) (ground (arith, sum_where-bump p counts status))
]

abbrev pub any_status : ℕ → Bool
any_status s = true

abbrev one : Bool → ℕ
one b = if b then 1 else 0

settle-counts :
    (e : Ending) (r : Results)
    → (requests (settle r e) ≡ requests r + one (is_counted e))
      × (sum_where any_status (settle r e).status_counts
          ≡ sum_where any_status r.status_counts + one (is_counted e))
      × (non_2xx_3xx (settle r e) ≡ non_2xx_3xx r + one (is_refused e))
      × ((settle r e).errors ≡ r.errors + one (is_failed e))
unfolding settle record_response requests non_2xx_3xx
settle-counts (responded ms status true) r = (
  length-append r.latencies (ms ∷ []),
  omega (arith, sum_where-bump any_status r.status_counts status),
  ground (arith, sum_where-bump (leb 400) r.status_counts status),
  omega arith,
)
settle-counts (responded ms status false) r = (omega arith, omega arith, omega arith, omega arith)
settle-counts failed r = (omega arith, omega arith, omega arith, refl)

run_workers-counts :
    (endings : List Ending) (r : Results)
    → let t = run_workers r endings in
      (requests t ≡ requests r + count_endings is_counted endings)
      × (sum_where any_status t.status_counts
          ≡ sum_where any_status r.status_counts + count_endings is_counted endings)
      × (non_2xx_3xx t ≡ non_2xx_3xx r + count_endings is_refused endings)
      × (t.errors ≡ r.errors + count_endings is_failed endings)
unfolding run_workers count_endings
run_workers-counts [] r = (omega arith, omega arith, omega arith, omega arith)
run_workers-counts (e ∷ endings) r =
    let ih = run_workers-counts endings (settle r e) in
    let once = settle-counts e r in
    (
      ground (arith, ih.0, once.0),
      ground (arith, ih.1, once.1),
      ground (arith, ih.2, once.2),
      ground (arith, ih.3, once.3),
    )

-- However the requests of the workers end and interleave: `requests`, and the sum of the status
-- counts, are the number of responses after the warm-up, `non_2xx_3xx` is the number of those with a
-- status from 400 on, and `errors` is the number of exceptions, those of the warm-up included.
pub summary-counts :
    (endings : List Ending)
    → let t = run_workers new_results endings in
      (requests t ≡ count_endings is_counted endings)
      × (sum_where any_status t.status_counts ≡ requests t)
      × (non_2xx_3xx t ≡ count_endings is_refused endings)
      × (t.errors ≡ count_endings is_failed endings)
unfolding requests sum_where non_2xx_3xx
summary-counts endings =
    let h = run_workers-counts endings new_results in
    (omega (arith, h), omega (arith, h), omega (arith, h), omega (arith, h))
