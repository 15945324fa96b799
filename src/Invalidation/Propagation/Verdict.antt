-- ===== src/Invalidation/Propagation/Verdict.antt =====
-- src/shortener/invalidation.py, what the verdict of `measure_propagation` says of its probes.
use mathlib.Core.Option.{some-injective}
use url_shortener_100x.Prelude.{
  ℕ, ◌+◌, ◌-◌, ◌*◌, ◌≤◌, ◌<◌, ◌≡◌, sym, ap, ◌∙◌, Bool, true, false, some, List, [], ◌∷◌, leb, map,
  Text, arith, All, Bool-cases, Option-cases, inl, inr, leb→le, ok, ok_injective,
}
use url_shortener_100x.Prelude.Sorting.{
  IsOrder, sort, IsSorted, sort-IsSorted, count_if-sort, count_if-All, All-count_if, length-sort,
}
use url_shortener_100x.Invalidation.{InvalidationLog, publish}
use url_shortener_100x.Invalidation.Propagation.Misses.{
  Dropped, Left, Kept, await_misses-Left, await_misses-Kept, max_interval-put_each,
}
use url_shortener_100x.Invalidation.Propagation.{
  Poller, put_each, await_misses, max_interval, Probe, Outcome, run_probe, run_probes, latencies,
  Report, last, report, measure_propagation,
}

leb-IsOrder : IsOrder leb
leb-IsOrder = record {
  reflexive = λ a. ground arith;
  transitive = λ a b c h k. ground (arith, h, k);
  total = λ a b h. ground (arith, h);
}

last-All : (l : List ℕ) (m : ℕ) → IsSorted leb l → last l ≡ some m → All (λ x. leb x m ≡ true) l
unfolding last IsSorted
last-All [] m h e = tt
last-All (x ∷ []) m h e = (ground (arith, e), tt)
last-All (x ∷ y ∷ l) m h e =
    let rest = last-All (y ∷ l) m h.1 e in (ground (arith, h.0.0, rest.0), rest)

-- No latency is above the last of the sorted ones.
last-latencies : (l : List ℕ) (m : ℕ) → last (sort leb l) ≡ some m → All (λ x. leb x m ≡ true) l
last-latencies l m e =
    let below = last-All (sort leb l) m (sort-IsSorted leb leb-IsOrder l) e in
    All-count_if (λ x. leb x m) l
      (sym (count_if-sort leb (λ x. leb x m) l)
        ∙ count_if-All (λ x. leb x m) (sort leb l) below
        ∙ length-sort leb l)

-- What a probe says: every instance dropped its code, or it took eight intervals and more.
Told : ℕ → Outcome → Type 0
Told n o = elim o.broke [ true ↦ Dropped o.code o.pollers | false ↦ n * 8 ≤ o.latency ]

Left-Told :
    (n t0 now late : ℕ) (code : Text) (after : List Poller) (broke : Bool)
    → Left code (t0 + n * 8) (some (after, now, broke))
    → Told n (record { code = code; latency = now + late - t0; pollers = after; broke = broke })
unfolding Left Told
Left-Told n t0 now late code after true h = h
Left-Told n t0 now late code after false h = omega (arith, h)

run_probe-Told :
    (log : InvalidationLog) (pollers : List Poller) (t0 : ℕ) (reason : Text) (p : Probe)
    (log2 : InvalidationLog) (o : Outcome)
    → run_probe log pollers t0 reason p ≡ some (log2, o)
    → Told (max_interval pollers) o × (max_interval o.pollers ≡ max_interval pollers)
unfolding run_probe Kept
run_probe-Told log pollers t0 reason p log2 o e =
    let n = max_interval pollers in
    let log1 = (publish log p.code reason).0 in
    let cached = put_each p.code p.target pollers in
    let left = await_misses-Left log1 p.code (t0 + n * 8) t0 cached p.looks in
    let kept = await_misses-Kept log1 p.code (t0 + n * 8) t0 cached p.looks in
    elim (Option-cases (await_misses log1 p.code (t0 + n * 8) t0 cached p.looks)) [
      | inl on ↦ absurd (ground (arith, rw (on, run_probe) at e))
      | inr ((after, now, broke), ended) ↦
          let read : Outcome = record {
            code = p.code;
            latency = now + p.read_after - t0;
            pollers = after;
            broke = broke;
          } in
          let same : read ≡ o =
            ap (λ x. x.1) (some-injective (log1, read) (log2, o) (rw (ended, run_probe) at e)) in
          rw (← same) (
            Left-Told n t0 now p.read_after p.code after broke (rw ended at left),
            (rw ended at kept) ∙ max_interval-put_each p.code p.target pollers,
          )
    ]

run_probes-Told :
    (log : InvalidationLog) (pollers : List Poller) (reason : Text) (probes : List (ℕ × Probe))
    (outcomes : List Outcome)
    → run_probes log pollers reason probes ≡ some outcomes
    → All (Told (max_interval pollers)) outcomes
unfolding run_probes
run_probes-Told log pollers reason [] outcomes e = rw (← some-injective [] outcomes e) tt
run_probes-Told log pollers reason ((t0, p) ∷ probes) outcomes e =
    elim (Option-cases (run_probe log pollers t0 reason p)) [
      | inl on ↦ absurd (ground (arith, rw (on, run_probes) at e))
      | inr ((log2, o), first) ↦
          let (told, same) = run_probe-Told log pollers t0 reason p log2 o first in
          elim (Option-cases (run_probes log2 o.pollers reason probes)) [
            | inl on ↦ absurd (ground (arith, rw (first, on, run_probes) at e))
            | inr (rest, others) ↦
                let all : o ∷ rest ≡ outcomes =
                  some-injective (o ∷ rest) outcomes (rw (first, others, run_probes) at e) in
                rw (← all)
                  (told, rw same at (run_probes-Told log2 o.pollers reason probes rest others))
          ]
    ]

-- The code of the probe was dropped by every instance, within the bound.
unfoldable pub Converged : ℕ → Outcome → Type 0
Converged n o = Dropped o.code o.pollers × (o.latency * 2 ≤ n * 3)

Told-Converged : (n : ℕ) (o : Outcome) → 0 < n → Told n o → o.latency * 2 ≤ n * 3 → Converged n o
unfolding Told Converged
Told-Converged n o positive told bound = elim (Bool-cases o.broke) [
  | inl e ↦ (rw e at told, bound)
  | inr e ↦ absurd (omega (arith, rw e at told))
]

All-Converged :
    (n slowest : ℕ) (outcomes : List Outcome)
    → 0 < n
    → slowest * 2 ≤ n * 3
    → All (Told n) outcomes
    → All (λ x. leb x slowest ≡ true) (map (λ o. o.latency) outcomes)
    → All (Converged n) outcomes
All-Converged n slowest [] positive bound told below = tt
All-Converged n slowest (o ∷ outcomes) positive bound told below = (
  Told-Converged n o positive told.0 (omega (arith, leb→le o.latency slowest below.0, bound)),
  All-Converged n slowest outcomes positive bound told.1 below.1,
)

report-slowest :
    (pollers : List Poller) (outcomes : List Outcome) (r : Report)
    → report pollers outcomes ≡ ok r
    → r.within_sla_bound ≡ true
    → (slowest : ℕ) × (last (latencies outcomes) ≡ some slowest)
      × (slowest * 2 ≤ max_interval pollers * 3)
unfolding report
report-slowest [] outcomes r e within = absurd (ground (arith, e))
report-slowest (p ∷ pollers) outcomes r e within = elim (Option-cases (last (latencies outcomes))) [
  | inl empty ↦ absurd (ground (arith, rw (empty, report) at e))
  | inr (slowest, found) ↦
      let same = ap (λ x. x.within_sla_bound) (ok_injective _ r (rw (found, report) at e)) in
      (slowest, found, leb→le _ _ (same ∙ within))
]

-- For pollers whose greatest interval is not 0: where a result of `measure_propagation` says that it
-- is within the bound, every instance had dropped the code of every probe, after one and a half
-- intervals at most.
pub measure_propagation-Converged :
    (log : InvalidationLog) (pollers : List Poller) (reason : Text) (probes : List (ℕ × Probe))
    (outcomes : List Outcome) (r : Report)
    → 0 < max_interval pollers
    → measure_propagation log pollers reason probes ≡ some (outcomes, ok r)
    → r.within_sla_bound ≡ true
    → All (Converged (max_interval pollers)) outcomes
unfolding measure_propagation
measure_propagation-Converged log pollers reason probes outcomes r positive e within =
    elim (Option-cases (run_probes log pollers reason probes)) [
      | inl on ↦ absurd (ground (arith, rw (on, measure_propagation) at e))
      | inr (done, ran) ↦
          let both =
            some-injective (done, report pollers done) (outcomes, ok r)
              (rw (ran, measure_propagation) at e) in
          let same : done ≡ outcomes = ap (λ x. x.0) both in
          let told = run_probes-Told log pollers reason probes done ran in
          let (slowest, found, bound) = report-slowest pollers done r (ap (λ x. x.1) both) within in
          rw (← same) (
            All-Converged (max_interval pollers) slowest done positive bound told
              (last-latencies (map (λ o. o.latency) done) slowest found))
    ]
