-- ===== src/Store/SingleFlight/Progress.antt =====
-- src/shortener/store.py, `SingleFlight.do`: no waiter is left waiting.
use url_shortener_100x.Prelude.{
  ℕ, zero, suc, ◌+◌, ◌*◌, ◌<◌, ◌≤◌, ◌≡◌, ◌≢◌, ◌⊎◌, inl, inr, refl, false, Option, some, arith, Text,
  Result, Bool-cases, Option-cases,
}
use native.Mathlib.Decide.{dec_lt}
use url_shortener_100x.Prelude.Table
use url_shortener_100x.Prelude.Threads.{
  sum_below, sum_below-at_index, sum_below-zero, sum_below-positive,
}
use url_shortener_100x.Store.SingleFlight.{
  SingleFlight, Pc, entering, leading, ran, popped, joined, counting, waiting, finished, Move, lead,
  join, read_count, write_count, wake, call, pop, set, System, Step, pick, Reach, here, next,
}
use url_shortener_100x.Store.SingleFlight.Facts.{leads, here-Facts}
use url_shortener_100x.Store.SingleFlight.Invariant.{Reach-Inv}

-- The steps that a thread has still to make.
abbrev pub remaining : {V : Type 0} → Pc V → ℕ
remaining (entering k) = 4
remaining (leading k a) = 3
remaining (joined a) = 3
remaining (ran k a) = 2
remaining (counting a n) = 2
remaining (popped a) = 1
remaining (waiting a) = 1
remaining (finished a r) = 0

Move-remaining :
    {V : Type 0} {f f' : SingleFlight V} {p p' : Pc V}
    → Move f p f' p'
    → remaining p ≡ suc (remaining p')
Move-remaining (lead e) = refl
Move-remaining (join e) = refl
Move-remaining read_count = refl
Move-remaining write_count = refl
Move-remaining (wake d) = refl
Move-remaining (call answer) = refl
Move-remaining pop = refl
Move-remaining set = refl

start-remaining :
    (V : Type 0) (keys : ℕ → Text) (n : ℕ)
    → sum_below {A = Pc V} remaining n (λ i. entering (keys i)) ≡ 4 * n
unfolding sum_below
start-remaining V keys zero = refl
start-remaining V keys (suc n) = ground (arith, start-remaining V keys n)

-- Each step is one step less.
Reach-remaining :
    {V : Type 0} {n : ℕ} {keys : ℕ → Text} {m : ℕ} {s : System V}
    → Reach n keys m s
    → m + sum_below remaining n s.pc ≡ 4 * n
Reach-remaining {V} {n} {keys} here = omega (arith, start-remaining V keys n)
Reach-remaining (next {s} r (pick i {p} small mv)) =
    omega
      (arith, Reach-remaining r, Move-remaining mv, sum_below-at_index remaining _ s.pc i p small)

-- Threads that do not run stay where they are.
Reach-idle :
    {V : Type 0} {n : ℕ} {keys : ℕ → Text} {m : ℕ} {s : System V}
    → Reach n keys m s
    → (j : ℕ) → n ≤ j
    → s.pc j ≡ entering (keys j)
Reach-idle here j above = refl
Reach-idle (next r (pick i small mv)) j above = ground (arith, Reach-idle r j)

-- Some move of a thread, whatever `fn` answers.
abbrev Moves : {V : Type 0} → SingleFlight V → Pc V → Type 0
Moves {V} f p = (f' : SingleFlight V) × (p' : Pc V) × Move f p f' p'

module _ {V : Type 0} (answer : Result V) where
  -- A thread that is to end a call is never blocked.
  leads-Moves : (f : SingleFlight V) (p : Pc V) (a : ℕ) → leads p ≡ some a → Moves f p
  leads-Moves f (leading k b) a e = (_, _, call answer)
  leads-Moves f (ran k b) a e = (_, _, pop)
  leads-Moves f (popped b) a e = (_, _, set)
  leads-Moves f q a e = absurd (ground arith)

  -- Nor is any other thread, but one that waits for a call that has not ended.
  moves :
      (f : SingleFlight V) (p : Pc V)
      → remaining p ≢ 0
      → Moves f p ⊎ ((a : ℕ) × (p ≡ waiting a) × ((f.cell a).done ≡ false))
  moves f (entering k) e = elim (Option-cases (Table.get f.calls k)) [
    | inl free ↦ inl (_, _, lead free)
    | inr (a, found) ↦ inl (_, _, join found)
  ]
  moves f (leading k a) e = inl (_, _, call answer)
  moves f (ran k a) e = inl (_, _, pop)
  moves f (popped a) e = inl (_, _, set)
  moves f (joined a) e = inl (_, _, read_count)
  moves f (counting a n) e = inl (_, _, write_count)
  moves f (waiting a) e = elim (Bool-cases (f.cell a).done) [
    | inl d ↦ inl (_, _, wake d)
    | inr d ↦ inr (a, refl, d)
  ]
  moves f (finished a r) e = absurd (e refl)

module _ {V : Type 0} {n : ℕ} {keys : ℕ → Text} {m : ℕ} {s : System V} (r : Reach n keys m s)
    (answer : Result V) where
  -- While a thread is at work some thread has a step: one that waits is waited for by another that
  -- is not blocked.
  unfinished_steps : (i : ℕ) → i < n → remaining (s.pc i) ≢ 0 → (t : System V) × Step n s t
  unfinished_steps i small more = elim (moves answer s.flight (s.pc i) more) [
    | inl (f, p, mv) ↦ (_, pick i small mv)
    | inr (a, waits, pending) ↦
        let inv = Reach-Inv r in
        elim (inv.led a (here-Facts inv i waits)) [
          | inl closed ↦ absurd (ground arith)
          | inr (j, leader) ↦
              let inside = running-lt j a leader in
              let found = leads-Moves answer s.flight (s.pc j) a leader in
              (_, pick j inside found.2)
        ]
  ]
    where
      running-lt : (j a : ℕ) → leads (s.pc j) ≡ some a → j < n
      running-lt j a leader = elim (dec_lt j n) [
        | yes inside ↦ inside
        | no outside ↦ absurd (ground (arith, Reach-idle r j))
      ]

  -- n threads each call do once, in any interleaving, and fn ends each time it runs. Then a run is
  -- never longer than 4 n steps, never stops before that, and ends with every thread back from its
  -- call.
  pub all_finish :
      (m ≤ 4 * n)
      × (m < 4 * n → (t : System V) × Step n s t)
      × (m ≡ 4 * n → (i : ℕ) → i < n → (a : ℕ) × (o : Option (Result V)) × (s.pc i ≡ finished a o))
  all_finish =
      let left = Reach-remaining r in
      (
        omega (arith, left),
        λ short.
            let (i, small, more) = sum_below-positive remaining n s.pc (omega (arith, left)) in
            unfinished_steps i small more,
        λ done i small.
            ended (s.pc i) (sum_below-zero remaining n s.pc (omega (arith, left)) i small),
      )
    where
      ended : (p : Pc V) → remaining p ≡ 0 → (a : ℕ) × (o : Option (Result V)) × (p ≡ finished a o)
      ended (finished a o) e = (a, o, refl)
      ended p e = absurd (ground arith)
