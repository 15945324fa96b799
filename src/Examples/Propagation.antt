-- ===== src/Examples/Propagation.antt =====
-- The theorem on the measured propagation, on two pollers and one probe.
use url_shortener_100x.Prelude.{
  ℕ, ◌≡◌, refl, true, none, some, List, [], ◌∷◌, arith, All, text_dec, ok,
}
use url_shortener_100x.Prelude.Table
use url_shortener_100x.Store.Lru
use url_shortener_100x.Prelude.Sorting.{sort}
use url_shortener_100x.Store.Links.{reached}
use url_shortener_100x.Invalidation.{publish, poll}
use url_shortener_100x.Invalidation.Propagation.{
  Poller, Probe, Outcome, Report, max_interval, measure_propagation,
}
use url_shortener_100x.Invalidation.Propagation.Verdict.{Converged, measure_propagation-Converged}

abbrev poller : ℕ → Poller
poller n = record {
  bus = record { cursors = []; applied = 0; polls = 0 };
  instance_id = n ∷ [];
  cache = record { capacity = 4; entries = []; hits = 0; misses = 0 };
  interval = 100;
}

abbrev pollers : List Poller
pollers = poller 1 ∷ poller 2 ∷ []

-- The second instance polls before the first look, the first one before the second.
abbrev probe : Probe
probe = record {
  code = 112 ∷ [];
  target = 104 ∷ [];
  looks =
      record { elapsed = 60; polled = 1 ∷ []; now_ms = 5 }
      ∷ record { elapsed = 30; polled = 0 ∷ []; now_ms = 6 }
      ∷ [];
  read_after = 2;
}

abbrev outcomes : List Outcome
outcomes = elim (measure_propagation [] pollers [] ((1000, probe) ∷ [])) [
  | none ↦ []
  | some (done, r) ↦ done
]

abbrev verdict : Report
verdict = record {
  samples = 1;
  instances = 2;
  poll_interval_ms = 100;
  p50_ms = some 92;
  p95_ms = some 92;
  max_ms = 92;
  mean_ms = (92, 1);
  expected_mean_ms = (200, 3);
  within_sla_bound = true;
}

measured_once : measure_propagation [] pollers [] ((1000, probe) ∷ []) ≡ some (outcomes, ok verdict)
unfolding measure_propagation publish poll Lru.put Lru.get Lru.invalidate Table.get Table.put
    Table.remove text_dec Lru.evict reached sort
measured_once = refl

interval_100 : max_interval pollers ≡ 100
unfolding max_interval
interval_100 = refl

measure_propagation-Converged_example : All (Converged (max_interval pollers)) outcomes
measure_propagation-Converged_example =
    measure_propagation-Converged [] pollers [] ((1000, probe) ∷ []) outcomes verdict
      (rw interval_100 (omega arith)) measured_once refl
