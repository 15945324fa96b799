-- ===== src/Load/Closed/Pace.antt =====
-- src/shortener/loadtest.py, how many requests the workers make in a run.
use url_shortener_100x.Prelude.{
  ℕ, zero, suc, ◌+◌, ◌-◌, ◌*◌, ◌≤◌, ◌<◌, ◌≡◌, ◌↔◌, refl, none, some, List, [], ◌∷◌, ltb, length,
  arith, Bool-cases, inl, inr,
}
use url_shortener_100x.Load.Closed.{Request, resolve_worker, create_loop, create_worker}

-- How long the first `n` requests take.
unfoldable elapsed_before : ℕ → List Request → ℕ
elapsed_before n [] = 0
elapsed_before zero (r ∷ requests) = 0
elapsed_before (suc n) (r ∷ requests) = r.elapsed + elapsed_before n requests

module _ (start_after stop_at : ℕ) where
  -- A worker begins nothing from the end of the run on.
  create_loop_stopped :
      (interval now : ℕ) (requests : List Request)
      → stop_at ≤ now
      → create_loop start_after stop_at interval now requests ≡ []
  unfolding create_loop
  create_loop_stopped interval now [] h = refl
  create_loop_stopped interval now (r ∷ requests) h = ground (arith, h)

  create_loop_paced :
      (interval now : ℕ) (requests : List Request)
      → now ≤ stop_at
      → length (create_loop start_after stop_at interval now requests) * interval
        ≤ (stop_at - now) + interval
  unfolding create_loop
  create_loop_paced interval now [] h = ground arith
  create_loop_paced interval now (r ∷ requests) h = elim (Bool-cases (ltb now stop_at)) [
    | inl going ↦
        let next : ℕ = now + r.elapsed + (interval - r.elapsed) + r.overslept in
        elim (Bool-cases (ltb next stop_at)) [
          | inl more ↦
              let early : next < stop_at = ground (arith, more) in
              rw (going, create_loop)
                (omega
                  (arith, create_loop_paced interval next requests (omega (arith, early)), early))
          | inr last ↦
              let late : stop_at ≤ next = ground (arith, last) in
              let nothing = create_loop_stopped interval next requests late in
              rw (going, create_loop, nothing) (omega arith)
        ]
    | inr over ↦ rw (over, create_loop) (ground arith)
  ]

  -- A closed loop: a worker sends its n-th request exactly when the requests before it, one after
  -- the other, end before the run does; a slow answer takes the place of later requests.
  resolve_worker-elapsed_before :
      (now n : ℕ) (requests : List Request)
      → (n < length (resolve_worker start_after stop_at now requests))
        ↔ ((n < length requests) × (now + elapsed_before n requests < stop_at))
  unfolding resolve_worker elapsed_before
  resolve_worker-elapsed_before now n [] = ground arith
  resolve_worker-elapsed_before now zero (r ∷ requests) = ground arith
  resolve_worker-elapsed_before now (suc n) (r ∷ requests) =
      ground (arith, resolve_worker-elapsed_before (now + r.elapsed) n requests)

  -- `create_worker` sends nothing for a rate that is not positive; with an interval it sends, however
  -- its requests end, at most one request per interval of the run, and one more.
  create_worker_paced :
      (now : ℕ) (requests : List Request)
      → now ≤ stop_at
      → (create_worker start_after stop_at none now requests ≡ [])
        × ((interval : ℕ)
            → length (create_worker start_after stop_at (some interval) now requests) * interval
              ≤ (stop_at - now) + interval)
  unfolding create_worker
  create_worker_paced now requests h = (refl, λ interval. create_loop_paced interval now requests h)
