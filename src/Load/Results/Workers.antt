-- ===== src/Load/Results/Workers.antt =====
-- src/shortener/loadtest.py, the division of the keys among the workers.
use native.Mathlib.Nat.{mod-add-div', mod-lt, mod-eq_of_lt}
use native.Mathlib.Numerals.{unary_clauses}
use url_shortener_100x.Prelude.{
  ℕ, zero, suc, ◌+◌, ◌*◌, ◌/◌, ◌%◌, ◌<◌, ◌≡◌, refl, ◌∙◌, ap, some, List, [], ◌∷◌, length, get_elem?,
  arith, inl, inr, List-cases,
}
use url_shortener_100x.Load.Results.{every, worker_keys, requested}

module _ {ℓ} {A : Type ℓ} where
  -- The j-th key of a slice.
  get_elem?-every :
      (gap k j : ℕ) (keys : List A)
      → get_elem? (every gap k keys) j ≡ get_elem? keys (k + j * suc gap)
  unfolding every
  get_elem?-every gap k j [] = refl
  get_elem?-every gap zero zero (x ∷ keys) = ap (get_elem? (x ∷ keys)) zero_eq
    where
      zero_eq : ◌≡◌ {A = ℕ} 0 (0 + 0 * suc gap)
      zero_eq = omega arith
  get_elem?-every gap zero (suc j) (x ∷ keys) =
      get_elem?-every gap gap j keys ∙ ap (get_elem? (x ∷ keys)) next_eq
    where
      next_eq : suc (gap + j * suc gap) ≡ 0 + suc j * suc gap
      next_eq = simp unary_clauses (omega arith)
  get_elem?-every gap (suc k) j (x ∷ keys) =
      get_elem?-every gap k j keys ∙ ap (get_elem? (x ∷ keys)) next_eq
    where
      next_eq : suc (k + j * suc gap) ≡ suc k + j * suc gap
      next_eq = omega arith

  -- With `gap + 1` workers the p-th key is the p / (gap + 1)-th of worker p % (gap + 1).
  every-place :
      (gap p : ℕ) (keys : List A)
      → get_elem? (every gap (p % suc gap) keys) (p / suc gap) ≡ get_elem? keys p
  every-place gap p keys =
      get_elem?-every gap (p % suc gap) (p / suc gap) keys ∙ ap (get_elem? keys) place
    where
      place : p % suc gap + p / suc gap * suc gap ≡ p
      place = mod-add-div' p (suc gap)

  get_elem?-length : (keys : List A) (i : ℕ) (x : A) → get_elem? keys i ≡ some x → i < length keys
  get_elem?-length [] i x e = absurd (ground (arith, e))
  get_elem?-length (y ∷ keys) zero x e = omega arith
  get_elem?-length (y ∷ keys) (suc i) x e = omega (arith, get_elem?-length keys i x e)

  get_elem?-some : (keys : List A) (i : ℕ) → i < length keys → (x : A) × (get_elem? keys i ≡ some x)
  get_elem?-some [] i h = absurd (omega (arith, h))
  get_elem?-some (y ∷ keys) zero h = (y, refl)
  get_elem?-some (y ∷ keys) (suc i) h = get_elem?-some keys i (omega (arith, h))

  requested-place :
      (keys : List A) (i : ℕ) (x : A) → get_elem? keys i ≡ some x → requested keys i ≡ some x
  unfolding requested
  requested-place [] i x e = e
  requested-place (y ∷ keys) i x e =
      ap (get_elem? (y ∷ keys)) (mod-eq_of_lt (get_elem?-length (y ∷ keys) i x e)) ∙ e

  worker_keys-place :
      (gap w i : ℕ) (keys : List A) (x : A)
      → get_elem? (every gap w keys) i ≡ some x
      → get_elem? (worker_keys gap w keys) i ≡ some x
  unfolding worker_keys
  worker_keys-place gap w i keys x e = elim (List-cases (every gap w keys)) [
    | inl empty ↦ absurd (ground (arith, rw empty at e))
    | inr (y, own, slice) ↦ rw (slice, worker_keys) (rw slice at e)
  ]

  requested-any : (y : A) (keys : List A) (i : ℕ) → (x : A) × (requested (y ∷ keys) i ≡ some x)
  unfolding requested
  requested-any y keys i =
      get_elem?-some (y ∷ keys) (i % length (y ∷ keys)) (mod-lt i (omega arith))

  -- With gap + 1 workers on any keys, each key is asked for in the first round of one of them, the
  -- p-th by worker p % (gap + 1); and a worker always has a key to ask for, however many workers
  -- there are.
  requested-worker_keys :
      (gap : ℕ) (y : A) (keys : List A)
      → ((p : ℕ) (x : A)
          → get_elem? (y ∷ keys) p ≡ some x
          → (p % suc gap < suc gap)
            × (requested (worker_keys gap (p % suc gap) (y ∷ keys)) (p / suc gap) ≡ some x))
        × ((w i : ℕ) → (x : A) × (requested (worker_keys gap w (y ∷ keys)) i ≡ some x))
  unfolding worker_keys
  requested-worker_keys gap y keys = (
    λ p x e. (
      mod-lt p (omega arith),
      requested-place (worker_keys gap (p % suc gap) (y ∷ keys)) (p / suc gap) x (
          worker_keys-place gap (p % suc gap) (p / suc gap) (y ∷ keys) x
            (every-place gap p (y ∷ keys) ∙ e)),
    ),
    λ w i. elim (List-cases (every gap w (y ∷ keys))) [
      | inl empty ↦ rw (empty, worker_keys) (requested-any y keys i)
      | inr (z, own, slice) ↦ rw (slice, worker_keys) (requested-any z own i)
    ],
  )
