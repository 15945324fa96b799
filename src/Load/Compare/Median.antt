-- ===== src/Load/Compare/Median.antt =====
-- src/shortener/openloop.py, the median of the ratios of `compare`.
use native.Mathlib.Nat.{mul-le-mul_right, le_of_mul-le-mul_right}
use url_shortener_100x.Prelude.{
  ℕ, suc, ◌+◌, ◌*◌, ◌/◌, ◌≤◌, ◌<◌, ◌≡◌, refl, true, Option, none, some, List, [], ◌∷◌, length,
  get_elem?, arith, leb→le, le→leb, Option-cases, inl, inr,
}
use url_shortener_100x.Prelude.Sorting.{
  IsOrder, sort, count_if, get_elem?-sort, length-sort, get_elem?-none,
}
use url_shortener_100x.Load.Compare.{Ratio, Pair, le_ratio, true_ratios, ratio_median}

cross_trans : (a b c d e f : ℕ) → a * d ≤ c * b → c * f ≤ e * d → 0 < d → a * f ≤ e * b
cross_trans a b c d e f h k positive =
    let low : a * d * f ≤ c * b * f = mul-le-mul_right f h in
    let high : c * f * b ≤ e * d * b = mul-le-mul_right b k in
    let both : a * f * d ≤ e * b * d = grind (arith, low, high) in
    le_of_mul-le-mul_right both positive

le_ratio_trans : (p q r : Ratio) → le_ratio p q ≡ true → le_ratio q r ≡ true → le_ratio p r ≡ true
le_ratio_trans p q r h k = le→leb _ _ (
    cross_trans p.open_p99 (suc p.closed_p99_less_one) q.open_p99 (suc q.closed_p99_less_one)
      r.open_p99 (suc r.closed_p99_less_one) (leb→le _ _ h) (leb→le _ _ k) (omega arith))

le_ratio-IsOrder : IsOrder le_ratio
le_ratio-IsOrder = record {
  reflexive = λ p. ground arith;
  transitive = le_ratio_trans;
  total = λ p q h. ground (arith, h);
}

-- More than half of the true ratios are at most the median, and at least half at least.
abbrev pub IsMedian : List Pair → Option Ratio → Type 0
IsMedian pairs none = true_ratios pairs ≡ []
IsMedian pairs (some q) =
    let ratios = true_ratios pairs in
    (length ratios / 2 < count_if (λ p. le_ratio p q) ratios)
    × (length ratios ≤ length ratios / 2 + count_if (λ p. le_ratio q p) ratios)

no_ratios : (ratios : List Ratio) → length ratios ≤ length ratios / 2 → ratios ≡ []
no_ratios [] h = refl
no_ratios (p ∷ ratios) h = absurd (omega (arith, h))

pub ratio_median-IsMedian : (pairs : List Pair) → IsMedian pairs (ratio_median pairs)
unfolding ratio_median
ratio_median-IsMedian pairs =
    let ratios = true_ratios pairs in
    let sorted = sort le_ratio ratios in
    let same = length-sort le_ratio ratios in
    elim (Option-cases (get_elem? sorted (length sorted / 2))) [
      | inl e ↦
          let short = get_elem?-none sorted (length sorted / 2) e in
          rw e (no_ratios ratios (omega (arith, short, same)))
      | inr (q, e) ↦
          let (below, above) =
            get_elem?-sort le_ratio le_ratio-IsOrder ratios (length sorted / 2) q e in
          rw e (omega (arith, below, same), omega (arith, above, same))
    ]
