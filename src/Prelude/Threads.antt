-- ===== src/Prelude/Threads.antt =====
-- Families indexed by a number, such as the threads of a process: an update, and a sum over the
-- first `n`.
use mathlib.Core.Logic.{ite, ◌≢◌}
use mathlib.Core.Path.{◌≡◌, refl}
use native.Mathlib.Decide.{dec_lt, ℕ_discrete}
use native.Mathlib.Omega.{arith}
use Prim.Native.Nat.{ℕ, zero, suc, ◌+◌, ◌≤◌, ◌<◌}

abbrev pub at_index {ℓ} : {A : Type ℓ} → (ℕ → A) → ℕ → A → ℕ → A
at_index f i a j = ite (ℕ_discrete i j) a (f j)

module _ {ℓ} {A : Type ℓ} (weight : A → ℕ) where
  unfoldable pub sum_below : ℕ → (ℕ → A) → ℕ
  sum_below zero f = 0
  sum_below (suc n) f = sum_below n f + weight (f n)

  sum_below-at_index_above :
      (n : ℕ) (f : ℕ → A) (i : ℕ) (a : A) → n ≤ i → sum_below n (at_index f i a) ≡ sum_below n f
  unfolding sum_below
  sum_below-at_index_above zero f i a above = refl
  sum_below-at_index_above (suc n) f i a above = ground (arith, sum_below-at_index_above n f i a)

  -- One member goes from its weight to another.
  pub sum_below-at_index :
      (n : ℕ) (f : ℕ → A) (i : ℕ) (a : A)
      → i < n
      → sum_below n (at_index f i a) + weight (f i) ≡ sum_below n f + weight a
  unfolding sum_below
  sum_below-at_index zero f i a small = absurd (omega arith)
  sum_below-at_index (suc n) f i a small = elim (dec_lt i n) [
    | yes inside ↦ ground (arith, sum_below-at_index n f i a inside)
    | no last ↦ ground (arith, sum_below-at_index_above n f i a)
  ]

  -- A sum of nothing but zeros, and otherwise a member that is not.
  pub sum_below-zero : (n : ℕ) (f : ℕ → A) → sum_below n f ≡ 0 → (i : ℕ) → i < n → weight (f i) ≡ 0
  unfolding sum_below
  sum_below-zero zero f h i small = absurd (omega arith)
  sum_below-zero (suc n) f h i small = elim (dec_lt i n) [
    | yes inside ↦ sum_below-zero n f (omega arith) i inside
    | no last ↦ ground arith
  ]

  pub sum_below-positive :
      (n : ℕ) (f : ℕ → A) → 0 < sum_below n f → (i : ℕ) × (i < n) × (weight (f i) ≢ 0)
  unfolding sum_below
  sum_below-positive zero f h = absurd (omega (arith, h))
  sum_below-positive (suc n) f h = elim (ℕ_discrete (weight (f n)) 0) [
    | no more ↦ (n, omega arith, more)
    | yes zero_last ↦
        let (i, small, more) = sum_below-positive n f (omega arith) in
        (i, omega (arith, small), more)
  ]
