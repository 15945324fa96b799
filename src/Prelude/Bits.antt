-- ===== src/Prelude/Bits.antt =====
-- `|` of fields that do not overlap, as a sum, and `&` with a mask of ones, as a remainder.
use Prim.Native.Nat.{
  ℕ, zero, suc, ◌+◌, ◌*◌, ◌/◌, ◌%◌, ◌^◌, ◌≤◌, ◌<◌, ◌-◌, max, min, bit_and, bit_or, digits,
  bit_or-bitwise, bit_and-bitwise,
}
use mathlib.Core.Path.{◌≡◌, refl, sym, ap, ◌∙◌}
use native.Mathlib.Omega.{arith}
use native.Mathlib.Nat.{pow-suc, mod-add-div, add-mul-mod_self_left, mod-eq_of_lt, mod-lt}

-- A binary operation on bits, and what it makes of the second number once the first is used up.
module _ (rest : ℕ → ℕ) (op : ℕ → ℕ → ℕ) where
  abbrev combine : ℕ → ℕ → ℕ → ℕ
  combine rounds x y = digits rest op rounds x y

  -- A round more than there are digits changes nothing.
  combine_one_more : (rounds x y : ℕ) → x ≤ rounds → combine (suc rounds) x y ≡ combine rounds x y
  combine_one_more zero zero y enough = refl
  combine_one_more zero (suc x) y enough = absurd (omega arith)
  combine_one_more (suc rounds) zero y enough = refl
  combine_one_more (suc rounds) (suc x) y enough =
      let halves = combine_one_more rounds (suc x / 2) (y / 2) (omega arith) in
      ap (λ high. high * 2 + op (suc x % 2) (y % 2)) halves

  combine_more : (extra rounds x y : ℕ) → rounds ≡ x + extra → combine rounds x y ≡ combine x x y
  combine_more zero rounds x y e =
      let exact : rounds ≡ x = omega arith in ap (λ n. combine n x y) exact
  combine_more (suc extra) rounds x y e =
      let more : rounds ≡ suc (x + extra) = omega arith in
      ap (λ n. combine n x y) more
      ∙ combine_one_more (x + extra) x y (omega arith)
      ∙ combine_more extra (x + extra) x y refl

  -- The lowest bit apart from the others, for an operation that is `combine` with enough rounds.
  lowest_bit :
      (f : ℕ → ℕ → ℕ)
      → ((x y : ℕ) → f x y ≡ combine x x y)
      → ((y : ℕ) → rest y ≡ rest (y / 2) * 2 + op 0 (y % 2))
      → (x y : ℕ) → f x y ≡ f (x / 2) (y / 2) * 2 + op (x % 2) (y % 2)
  lowest_bit f is_f ends zero y = omega (arith, is_f 0 y, is_f 0 (y / 2), ends y)
  lowest_bit f is_f ends (suc x) y =
      let fewer = combine_more (x - suc x / 2) x (suc x / 2) (y / 2) (omega arith) in
      is_f (suc x) y
      ∙ ap (λ high. high * 2 + op (suc x % 2) (y % 2)) (fewer ∙ sym (is_f (suc x / 2) (y / 2)))

or_lowest : (x y : ℕ) → bit_or x y ≡ bit_or (x / 2) (y / 2) * 2 + max (x % 2) (y % 2)
or_lowest = lowest_bit (λ y. y) max bit_or bit_or-bitwise (λ y. omega arith)

and_lowest : (x y : ℕ) → bit_and x y ≡ bit_and (x / 2) (y / 2) * 2 + min (x % 2) (y % 2)
and_lowest = lowest_bit (λ y. 0) min bit_and bit_and-bitwise (λ y. omega arith)

-- Nothing on the right: both laws at once, for every number up to a bound.
nothing_right : (bound x : ℕ) → x ≤ bound → (bit_or x 0 ≡ x) × (bit_and x 0 ≡ 0)
nothing_right zero x small =
    let e : x ≡ 0 = omega arith in rw e (bit_or-bitwise 0 0, bit_and-bitwise 0 0)
nothing_right (suc bound) zero small = (bit_or-bitwise 0 0, bit_and-bitwise 0 0)
nothing_right (suc bound) (suc x) small =
    let (or_half, and_half) = nothing_right bound (suc x / 2) (omega arith) in
    (omega (arith, or_lowest (suc x) 0, or_half), omega (arith, and_lowest (suc x) 0, and_half))

shift_one_more : (x y : ℕ) → bit_or x (y / 2) ≡ x + y / 2 → bit_or (x * 2) y ≡ x * 2 + y
shift_one_more x y known =
    let half : x * 2 / 2 ≡ x = omega arith in omega (arith, rw half at (or_lowest (x * 2) y), known)

-- `(a << k) | b`, for `b` below `1 << k`.
pub bit_or-shifted : (k a b : ℕ) → b < 2 ^ k → bit_or (a * 2 ^ k) b ≡ a * 2 ^ k + b
bit_or-shifted zero a b below =
    let e : b ≡ 0 = omega arith in
    rw (e, (nothing_right (a * 1) (a * 1) (omega arith)).0) (omega arith)
bit_or-shifted (suc k) a b below =
    let e : a * 2 ^ suc k ≡ a * 2 ^ k * 2 = rw pow-suc (omega arith) in
    let power = rw pow-suc at below in
    rw e (shift_one_more (a * 2 ^ k) b (bit_or-shifted k a (b / 2) (omega arith)))

-- A remainder by an even number keeps the lowest bit.
lowest-mod : (x p : ℕ) → 0 < p → x / 2 % p * 2 + x % 2 ≡ x % (p * 2)
lowest-mod x p positive =
    let low : ℕ = x / 2 % p * 2 + x % 2 in
    let whole : x ≡ low + p * 2 * (x / 2 / p) = omega (arith, mod-add-div (x / 2) p) in
    sym (
      ap (λ n. n % (p * 2)) whole
      ∙ add-mul-mod_self_left low (p * 2) (x / 2 / p)
      ∙ mod-eq_of_lt (omega (arith, mod-lt (x / 2) positive)))

-- `a & ((1 << k) - 1)`.
pub bit_and-mask : (k a m : ℕ) → m + 1 ≡ 2 ^ k → bit_and a m ≡ a % 2 ^ k
bit_and-mask zero a m ones =
    let e : m ≡ 0 = omega arith in rw (e, (nothing_right a a (omega arith)).1) (omega arith)
bit_and-mask (suc k) a m ones =
    let power = rw pow-suc at ones in
    let half = bit_and-mask k (a / 2) (m / 2) (omega arith) in
    rw pow-suc (omega (arith, and_lowest a m, half, lowest-mod a (2 ^ k) (omega arith)))
