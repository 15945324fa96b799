-- ===== src/App/Fleet/Recorded.antt =====
-- src/shortener/app.py and counters.py, the hits of a code that a visit or a flush of one instance
-- records.
use url_shortener_100x.Prelude.{
  ℕ, ◌+◌, ◌≡◌, if◌then◌else◌, ap, inl, inr, Option, none, some, Text, text_dec, ite, Result, arith,
  Option-cases, Bool-cases,
}
use url_shortener_100x.Store.Links.{LinkStore, Write, hits}
use url_shortener_100x.Store.Links.Hits.{batch_hits, left_behind}
use url_shortener_100x.Store.Lru.{LruCache}
use url_shortener_100x.Limiter.{Decision}
use url_shortener_100x.Counters.{HitCounter, count_hit, is_due, record_hit}
use url_shortener_100x.Counters.Conservation.{batch_hits-add, flush-total}
use url_shortener_100x.Abuse.Takedown
use url_shortener_100x.App.{
  Shared, Instance, Reading, Response, fetch, deliver, look_up, enforce_limit, resolve, answer,
}
use url_shortener_100x.App.Serve.{look_up-gone, look_up-listed_not, resolve-stopped, resolve-passed}
use url_shortener_100x.App.Fleet.{flush_counters}
use url_shortener_100x.App.Fleet.Targets.{target_of, enforce_limit-target, answer-target}
use url_shortener_100x.App.Fleet.Uncounted.{Uncounted, counts-enforce_limit}

abbrev count_target : Option Text → ℕ
count_target none = 0
count_target (some target) = 1

-- One for a response that sends the browser to the link, at once or behind a page.
abbrev served : Response → ℕ
served r = count_target (target_of r)

module _ (code : Text) where
  -- The hits of the code that one instance has not written.
  abbrev pub pending : {L : Type 0} → Instance L → ℕ
  pending i = batch_hits i.hits.counts code

  -- The hits of the code that `record` writes and keeps as well: its batch has failed behind them.
  abbrev doubled_by : HitCounter → Text → ℕ → Write → ℕ
  doubled_by h j now write =
      if is_due (count_hit h j) now then left_behind write (count_hit h j).counts code else 0

  record_hit-total :
      (h : HitCounter) (s : LinkStore) (j : Text) (now : ℕ) (write : Write)
      → hits (record_hit h s j now write).1 code
          + batch_hits (record_hit h s j now write).0.counts code
        ≡ hits s code
          + batch_hits h.counts code
          + ite (text_dec j code) 1 0
          + doubled_by h j now write
  unfolding record_hit count_hit
  record_hit-total h s j now write =
      let counted = batch_hits-add h.counts j code 1 in
      elim (Bool-cases (is_due (count_hit h j) now)) [
        | inl due ↦
            rw (due, record_hit)
              (omega (arith, flush-total code (count_hit h j) s now write, counted))
        | inr later ↦ rw (later, record_hit) (omega (arith, counted))
      ]

  -- The same of a visit, which records a hit where it is sent on.
  abbrev pub doubled_of : HitCounter → Text → Reading → Option Text → ℕ
  doubled_of h j at none = 0
  doubled_of h j at (some target) = doubled_by h j at.monotonic at.store_write

  -- How many hits of the code a visit makes.
  abbrev pub hits_of : Text → Response → ℕ
  hits_of j r = ite (text_dec j code) (served r) 0

  hits_of_target :
      (j : Text) (r : Response) (o : Option Text)
      → target_of r ≡ o
      → hits_of j r ≡ ite (text_dec j code) (count_target o) 0
  hits_of_target j r o e = ap (λ o. ite (text_dec j code) (count_target o) 0) e

  none_made : (j : Text) → ite {C = ℕ} (text_dec j code) 0 0 ≡ 0
  none_made j = ground arith

  module _ {L : Type 0} (s : Shared) (i : Instance L) where
    -- A step adds so many hits to the written and the pending ones.
    abbrev pub Adds : Shared → Instance L → ℕ → Type 0
    Adds s2 i2 n = hits s2.links code + pending i2 ≡ hits s.links code + pending i + n

    pub Adds-Uncounted : (s2 : Shared) (i2 : Instance L) → Uncounted s i s2 i2 → Adds s2 i2 0
    unfolding hits
    Adds-Uncounted s2 i2 u = rw (u.stored, u.pending) (omega arith)

    deliver-Adds :
        (j : Text) (at : Reading) (cache : LruCache Text) (target : Option Text)
        → let (s2, i2, r) = deliver s (record i { cache = cache }) j at target in
          Adds s2 i2 (hits_of j r + doubled_of i.hits j at (target_of r))
    unfolding deliver
    deliver-Adds j at cache none = ground arith
    deliver-Adds j at cache (some target) = omega (
      arith,
      record_hit-total i.hits s.links j at.monotonic at.store_write,
      ap (doubled_of i.hits j at) (answer-target i.interstitials j target),
      hits_of_target j (answer i.interstitials j target) (some target)
          (answer-target i.interstitials j target),
    )

    look_up-Adds :
        (j : Text) (at : Reading)
        → let (s2, i2, r) = look_up s i j at in
          Adds s2 i2 (hits_of j r + doubled_of i.hits j at (target_of r))
    look_up-Adds j at = elim (Bool-cases (Takedown.contains i.takedowns j)) [
      | inl listed ↦ rw (look_up-gone s i j at listed) (ground arith)
      | inr listed_not ↦ rw (look_up-listed_not s i j at listed_not) (
          deliver-Adds j at (fetch i.cache s.links j at.now_ms).0
            (fetch i.cache s.links j at.now_ms).1)
    ]

    pub flush_counters-Adds :
        (now : ℕ) (write : Write)
        → let (s2, i2) = flush_counters s i now write in
          Adds s2 i2 (left_behind write i.hits.counts code)
    unfolding flush_counters
    flush_counters-Adds now write = omega (arith, flush-total code i.hits s.links now write)

  pub resolve-Adds :
      {L : Type 0} (inner : L → Text → ℕ → L × Result Decision) (s : Shared) (i : Instance L)
      (client j : Text) (at : Reading)
      → let (s2, i2, r) = resolve inner s i client j at in
        Adds s i s2 i2 (hits_of j r + doubled_of i.hits j at (target_of r))
  resolve-Adds inner s i client j at =
      let limited = (enforce_limit inner i client at).0 in
      let same = counts-enforce_limit inner i client at in
      elim (Option-cases (enforce_limit inner i client at).1) [
        | inl passed ↦ rw (resolve-passed inner s i client j at passed) (
            omega (
              arith,
              look_up-Adds s limited j at,
              ap (λ h. batch_hits h.counts code) same,
              ap (λ h. doubled_of h j at (target_of (look_up s limited j at).2)) same,
            ))
        | inr (r, stopped) ↦ rw (resolve-stopped inner s i client j at r stopped) (
            omega (
              arith,
              ap (λ h. batch_hits h.counts code) same,
              hits_of_target j r none (enforce_limit-target inner i client at r stopped),
              ap (doubled_of i.hits j at) (enforce_limit-target inner i client at r stopped),
              none_made j,
            ))
      ]
