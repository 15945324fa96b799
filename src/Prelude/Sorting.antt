-- ===== src/Prelude/Sorting.antt =====
-- `sorted`, by an order that is a Boolean test, and what stands at a position of a sorted list.
use mathlib.Core.Option.{some-injective}
use Prim.Native.Nat.{ℕ, zero, suc, ◌+◌, ◌≤◌, ◌<◌}
use mathlib.Core.Path.{◌≡◌, refl, sym, ap, ◌∙◌}
use mathlib.Core.Bool.{Bool, true, false}
use mathlib.Core.Logic.{inl, inr}
use mathlib.Core.Option.{none, some}
use mathlib.Core.List.{List, [], ◌∷◌}
use native.Mathlib.Omega.{arith}
use url_shortener_100x.Prelude.Tests.{if◌then◌else◌, Bool-cases}
use url_shortener_100x.Prelude.Lists.{length, get_elem?, All, All-map}

-- A total order, as a test.
pub record IsOrder {A : Type 0} (le : A → A → Bool) : Type 0 where
  pub reflexive : (a : A) → le a a ≡ true
  pub transitive : (a b c : A) → le a b ≡ true → le b c ≡ true → le a c ≡ true
  pub total : (a b : A) → le a b ≡ false → le b a ≡ true

module _ {A : Type 0} where
  unfoldable pub count_if : (A → Bool) → List A → ℕ
  count_if p [] = 0
  count_if p (a ∷ l) = let rest = count_if p l in if p a then suc rest else rest

  All-get_elem? :
      (P : A → Type 0) (l : List A) (k : ℕ) (m : A) → All P l → get_elem? l k ≡ some m → P m
  All-get_elem? P [] k m h e = absurd (ground (arith, e))
  All-get_elem? P (a ∷ l) zero m h e = rw (sym (some-injective a m e)) h.0
  All-get_elem? P (a ∷ l) (suc k) m h e = All-get_elem? P l k m h.1 e

  pub count_if-All : (p : A → Bool) (l : List A) → All (λ a. p a ≡ true) l → count_if p l ≡ length l
  unfolding count_if
  count_if-All p [] h = refl
  count_if-All p (a ∷ l) h = ground (arith, h.0, count_if-All p l h.1)

  pub count_if_le :
      (p q : A → Bool) (l : List A)
      → ((a : A) → p a ≡ true → q a ≡ true)
      → count_if p l ≤ count_if q l
  unfolding count_if
  count_if_le p q [] h = omega arith
  count_if_le p q (a ∷ l) h = ground (arith, h a, count_if_le p q l h)

  All-true : (l : List A) → All (λ b. ◌≡◌ {A = Bool} true true) l
  All-true [] = tt
  All-true (a ∷ l) = (refl, All-true l)

  pub All-count_if : (p : A → Bool) (l : List A) → count_if p l ≡ length l → All (λ a. p a ≡ true) l
  unfolding count_if
  All-count_if p [] h = tt
  All-count_if p (a ∷ l) h = elim (Bool-cases (p a)) [
    | inl e ↦ (e, All-count_if p l (ground (arith, e, h)))
    | inr e ↦ absurd (
        ground (
          arith,
          e,
          h,
          count_if_le p (λ b. true) l (λ b k. refl),
          count_if-All (λ b. true) l (All-true l),
        ))
  ]

  pub count_if-get_elem? :
      (p : A → Bool) (l : List A) (k : ℕ) (m : A)
      → p m ≡ true
      → get_elem? l k ≡ some m
      → 0 < count_if p l
  unfolding count_if
  count_if-get_elem? p [] k m h e = absurd (ground (arith, e))
  count_if-get_elem? p (a ∷ l) zero m h e =
      let here : p a ≡ true = ap p (some-injective a m e) ∙ h in ground (arith, here)
  count_if-get_elem? p (a ∷ l) (suc k) m h e = ground (arith, count_if-get_elem? p l k m h e)

  pub count_if_split :
      (p q : A → Bool) (l : List A)
      → ((a : A) → p a ≡ true → q a ≡ false)
      → count_if p l + count_if q l ≤ length l
  unfolding count_if
  count_if_split p q [] h = omega arith
  count_if_split p q (a ∷ l) h = ground (arith, h a, count_if_split p q l h)

  pub get_elem?-none : (l : List A) (k : ℕ) → get_elem? l k ≡ none → length l ≤ k
  get_elem?-none [] k e = omega arith
  get_elem?-none (a ∷ l) zero e = absurd (ground (arith, e))
  get_elem?-none (a ∷ l) (suc k) e = omega (arith, get_elem?-none l k e)

module _ {A : Type 0} (le : A → A → Bool) where
  unfoldable pub insert : A → List A → List A
  insert a [] = a ∷ []
  insert a (b ∷ l) = let rest = insert a l in if le a b then a ∷ b ∷ l else b ∷ rest

  unfoldable pub sort : List A → List A
  unfolding insert
  sort [] = []
  sort (a ∷ l) = insert a (sort l)

  unfoldable pub IsSorted : List A → Type 0
  IsSorted [] = Unit
  IsSorted (a ∷ l) = All (λ b. le a b ≡ true) l × IsSorted l

  count_if-insert :
      (p : A → Bool) (a : A) (l : List A) → count_if p (insert a l) ≡ count_if p (a ∷ l)
  unfolding count_if insert
  count_if-insert p a [] = refl
  count_if-insert p a (b ∷ l) = ground (arith, count_if-insert p a l)

  -- Sorting keeps how many elements have a property.
  pub count_if-sort : (p : A → Bool) (l : List A) → count_if p (sort l) ≡ count_if p l
  unfolding count_if sort
  count_if-sort p [] = refl
  count_if-sort p (a ∷ l) = ground (arith, count_if-insert p a (sort l), count_if-sort p l)

  length-insert : (a : A) (l : List A) → length (insert a l) ≡ suc (length l)
  unfolding insert
  length-insert a [] = refl
  length-insert a (b ∷ l) = ground (arith, length-insert a l)

  pub length-sort : (l : List A) → length (sort l) ≡ length l
  unfolding sort
  length-sort [] = refl
  length-sort (a ∷ l) = omega (arith, length-insert a (sort l), length-sort l)

  insert-All : (a : A) (P : A → Type 0) (l : List A) → P a → All P l → All P (insert a l)
  unfolding insert
  insert-All a P [] h k = (h, tt)
  insert-All a P (b ∷ l) h k = elim (Bool-cases (le a b)) [
    | inl e ↦ rw (e, insert) (h, k)
    | inr e ↦ rw (e, insert) (k.0, insert-All a P l h k.1)
  ]

  module _ (order : IsOrder le) where
    insert-IsSorted : (a : A) (l : List A) → IsSorted l → IsSorted (insert a l)
    unfolding insert IsSorted
    insert-IsSorted a [] h = (tt, tt)
    insert-IsSorted a (b ∷ l) h = elim (Bool-cases (le a b)) [
      | inl e ↦
          rw (e, insert)
            (
              (
                e,
                All-map (λ c. le b c ≡ true) (λ c. le a c ≡ true) l
                    (λ c k. order.transitive a b c e k) h.0,
              ),
              h,
            )
      | inr e ↦
          rw (e, insert)
            (insert-All a (λ c. le b c ≡ true) l (order.total a b e) h.0, insert-IsSorted a l h.1)
    ]

    pub sort-IsSorted : (l : List A) → IsSorted (sort l)
    unfolding sort IsSorted
    sort-IsSorted [] = tt
    sort-IsSorted (a ∷ l) = insert-IsSorted a (sort l) (sort-IsSorted l)

    -- At position k of a sorted list: more than k elements are at most that
    -- one, and all but k at least.
    get_elem?-IsSorted :
        (l : List A) (k : ℕ) (m : A)
        → IsSorted l
        → get_elem? l k ≡ some m
        → (k < count_if (λ a. le a m) l) × (length l ≤ k + count_if (λ a. le m a) l)
    unfolding IsSorted count_if
    get_elem?-IsSorted [] k m h e = absurd (ground (arith, e))
    get_elem?-IsSorted (a ∷ l) zero m h e =
        let same = some-injective a m e in
        let here : le a m ≡ true = sym (ap (λ c. le a c) same) ∙ order.reflexive a in
        let there : le m a ≡ true = sym (ap (λ c. le c a) same) ∙ order.reflexive a in
        let rest =
          count_if-All (λ c. le m c) l
            (All-map (λ c. le a c ≡ true) (λ c. le m c ≡ true) l
              (λ c k. sym (ap (λ x. le x c) same) ∙ k) h.0) in
        (ground (arith, here), ground (arith, there, rest))
    get_elem?-IsSorted (a ∷ l) (suc k) m h e =
        let (below, above) = get_elem?-IsSorted l k m h.1 e in
        let first = All-get_elem? (λ c. le a c ≡ true) l k m h.0 e in
        (ground (arith, below, first), ground (arith, above))

    pub get_elem?-sort :
        (l : List A) (k : ℕ) (m : A)
        → get_elem? (sort l) k ≡ some m
        → (k < count_if (λ a. le a m) l) × (length l ≤ k + count_if (λ a. le m a) l)
    get_elem?-sort l k m e =
        let (below, above) = get_elem?-IsSorted (sort l) k m (sort-IsSorted l) e in
        let low = count_if-sort (λ a. le a m) l in
        let high = count_if-sort (λ a. le m a) l in
        (omega (arith, below, low), omega (arith, above, high, length-sort l))
