-- ===== src/Load/Sweep/Order.antt =====
-- src/shortener/openloop.py, the order of the latencies that a sweep sorts.
use url_shortener_100x.Prelude.{◌≡◌, refl, true, false, none, some, arith}
use url_shortener_100x.Prelude.Sorting.{IsOrder}
use url_shortener_100x.Load.Sweep.{Latency, le_latency}

le_latency_refl : (a : Latency) → le_latency a a ≡ true
le_latency_refl none = refl
le_latency_refl (some a) = ground arith

le_latency_trans :
    (a b c : Latency) → le_latency a b ≡ true → le_latency b c ≡ true → le_latency a c ≡ true
le_latency_trans a b none h k = refl
le_latency_trans a none (some c) h k = absurd (ground (arith, k))
le_latency_trans none (some b) (some c) h k = h
le_latency_trans (some a) (some b) (some c) h k = ground arith

le_latency_total : (a b : Latency) → le_latency a b ≡ false → le_latency b a ≡ true
le_latency_total none b h = refl
le_latency_total (some a) none h = absurd (ground (arith, h))
le_latency_total (some a) (some b) h = ground arith

pub le_latency-IsOrder : IsOrder le_latency
le_latency-IsOrder = record {
  reflexive = le_latency_refl;
  transitive = le_latency_trans;
  total = le_latency_total;
}
