-- ===== src/Limiter/Skew.antt =====
-- src/shortener/limiter.py, callers whose clocks disagree: `updated_ms` follows the caller's clock, also
-- backwards.
use url_shortener_100x.Prelude.{ℕ, zero, suc, ◌+◌, List, [], ◌∷◌, Text}
use url_shortener_100x.Prelude.Table
use url_shortener_100x.Prelude.Table.{Table}
use url_shortener_100x.Limiter.Budget.{Request}

module _ (capacity rate : ℕ) (key : Text) (cost : ℕ) where
  abbrev pub request : ℕ → Request
  request now = record { key = key; cost = cost; now_ms = now }

  -- Two callers whose clocks differ by `d`, one after the other, `n` times.
  unfoldable pub alternate : ℕ → ℕ → ℕ → List Request
  alternate t d zero = []
  alternate t d (suc n) = request (t + d) ∷ request t ∷ alternate t d n
