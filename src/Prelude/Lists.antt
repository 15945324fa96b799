-- ===== src/Prelude/Lists.antt =====
-- Lists measured by native numbers, predicates over lists, and texts as lists of code points.
use Prim.Native.Nat.{ℕ, zero, suc, ◌+◌}
use Prim.Native.Char.{code}
use Prim.Native.String.{String}
use mathlib.Core.Path.{◌≡◌}
use mathlib.Core.List.{List, [], ◌∷◌, ◌++◌}
use mathlib.Core.Logic.{inl, inr}
use mathlib.Core.Option.{Option, none, some}
use url_shortener_100x.Prelude.Tests.{Option-cases}
use native.Mathlib.Decide.{ℕ_discrete}
use native.Mathlib.Omega.{arith}

module _ {ℓ} {A : Type ℓ} where
  abbrev pub length : List A → ℕ
  length [] = 0
  length (x ∷ xs) = suc (length xs)

  abbrev pub get_elem? : List A → ℕ → Option A
  get_elem? [] i = none
  get_elem? (x ∷ xs) zero = some x
  get_elem? (x ∷ xs) (suc i) = get_elem? xs i

  -- The n-th element and the others.
  unfoldable pub pick : List A → ℕ → Option (A × List A)
  pick [] n = none
  pick (x ∷ xs) zero = some (x, xs)
  pick (x ∷ xs) (suc n) = elim (pick xs n) [ none ↦ none | some (y, ys) ↦ some (y, x ∷ ys) ]

  pub length-append : (xs ys : List A) → length (xs ++ ys) ≡ length xs + length ys
  length-append [] ys = omega arith
  length-append (x ∷ xs) ys = omega (arith, length-append xs ys)

module _ {ℓ κ} {A : Type ℓ} where
  abbrev pub All : (A → Type κ) → List A → Type κ
  All P [] = Unit
  All P (x ∷ xs) = P x × All P xs

  pub All-append : (P : A → Type κ) (xs ys : List A) → All P xs → All P ys → All P (xs ++ ys)
  All-append P [] ys hx hy = hy
  All-append P (x ∷ xs) ys hx hy = (hx.0, All-append P xs ys hx.1 hy)

  pub All-pick :
      (P : A → Type κ) (xs : List A) (n : ℕ) (x : A) (rest : List A)
      → All P xs
      → pick xs n ≡ some (x, rest)
      → P x × All P rest
  unfolding pick
  All-pick P [] n x rest h e = absurd (ground (arith, e))
  All-pick P (y ∷ ys) zero x rest h e =
      let e₀ : y ≡ x = ground arith in let e₁ : ys ≡ rest = ground arith in rw (← e₀, ← e₁) h
  All-pick P (y ∷ ys) (suc n) x rest h e = elim (Option-cases (pick ys n)) [
    | inl gone ↦ absurd (ground arith)
    | inr ((z, zs), found) ↦
        let e₀ : z ≡ x = ground arith in
        let e₁ : y ∷ zs ≡ rest = ground arith in
        let (hz, hzs) = All-pick P ys n z zs h.1 found in rw (← e₀, ← e₁) (hz, (h.0, hzs))
  ]

  -- A predicate that each element passes on to another.
  pub All-map : (P Q : A → Type κ) (xs : List A) → ((x : A) → P x → Q x) → All P xs → All Q xs
  All-map P Q [] f h = h
  All-map P Q (x ∷ xs) f h = (f x h.0, All-map P Q xs f h.1)

-- Python's `str`: its code points.
abbrev pub Text : Type 0
Text = List ℕ

unfoldable pub text_dec : Discrete Text
unfolding ℕ_discrete
text_dec = hlevel ℕ_discrete

-- A literal's code points.
abbrev pub codes : String → Text
codes String.[] = []
codes (String.◌∷◌ c s) = code c ∷ codes s
