-- ===== src/Store/SingleFlight/Facts.antt =====
-- src/shortener/store.py, `SingleFlight`: what a thread's locals say about the shared object, and that a
-- step of any thread keeps it.
use url_shortener_100x.Prelude.{
  ℕ, ◌+◌, ◌<◌, ◌≤◌, ◌≡◌, ◌≢◌, ◌⊎◌, refl, sym, if_pos, if_neg, true, false, Option, none, some,
  arith, Text,
}
use native.Mathlib.Decide.{ℕ_discrete}
use url_shortener_100x.Prelude.Table
use url_shortener_100x.Prelude.Threads.{at_index}
use url_shortener_100x.Store.SingleFlight.{
  SingleFlight, Pc, entering, leading, ran, popped, joined, counting, waiting, finished, Move, lead,
  join, read_count, write_count, wake, call, pop, set, with_call, with_outcome, without_key,
  with_done, with_count,
}

-- The call that a thread has to end.
abbrev pub leads : {V : Type 0} → Pc V → Option ℕ
leads (leading k a) = some a
leads (ran k a) = some a
leads (popped a) = some a
leads _ = none

-- What a thread's locals say about the object.
abbrev pub Facts : {V : Type 0} → SingleFlight V → Pc V → Type 0
Facts f (entering k) = Unit
Facts f (leading k a) =
    (Table.get f.calls k ≡ some a) × (a < f.allocated) × ((f.cell a).done ≡ false)
Facts f (ran k a) =
    (Table.get f.calls k ≡ some a)
    × (a < f.allocated)
    × ((f.cell a).done ≡ false)
    × ((f.cell a).outcome ≢ none)
Facts f (popped a) = (a < f.allocated) × ((f.cell a).done ≡ false) × ((f.cell a).outcome ≢ none)
Facts f (joined a) = a < f.allocated
Facts f (counting a n) = a < f.allocated
Facts f (waiting a) = a < f.allocated
Facts f (finished a r) =
    (a < f.allocated) × ((f.cell a).done ≡ true) × ((f.cell a).outcome ≡ r) × (r ≢ none)

pub record Inv {V : Type 0} (f : SingleFlight V) (pc : ℕ → Pc V) : Type 0 where
  pub facts : (i : ℕ) → Facts f (pc i)
  pub fresh : (k : Text) (a : ℕ) → Table.get f.calls k ≡ some a → a < f.allocated
  pub unique : (i j a : ℕ) → leads (pc i) ≡ some a → leads (pc j) ≡ some a → i ≡ j
  pub led :
      (a : ℕ) → a < f.allocated → ((f.cell a).done ≡ true) ⊎ ((i : ℕ) × (leads (pc i) ≡ some a))
  pub settled : (a : ℕ) → a < f.allocated → (f.cell a).done ≡ true → (f.cell a).outcome ≢ none

module _ {V : Type 0} {f : SingleFlight V} {pc : ℕ → Pc V} (inv : Inv f pc) (i : ℕ) where
  -- Another thread's facts survive a change of the object that keeps what they read.
  Facts-frame :
      (f' : SingleFlight V) (q : Pc V)
      → f.allocated ≤ f'.allocated
      → ((a : ℕ) → a < f.allocated → leads q ≡ some a → (f'.cell a ≡ f.cell a))
      → ((a : ℕ) → (f.cell a).done ≡ true → a < f.allocated → f'.cell a ≡ f.cell a)
      → ((k : Text) (a : ℕ)
          → leads q ≡ some a
          → Table.get f.calls k ≡ some a
          → Table.get f'.calls k ≡ some a)
      → Facts f q
      → Facts f' q
  Facts-frame f' (entering k) more led over calls h = tt
  Facts-frame f' (leading k a) more led over calls h =
      (calls k a refl h.0, omega (arith, h.1), rw (led a h.1 refl) h.2)
  Facts-frame f' (ran k a) more led over calls h =
      (calls k a refl h.0, omega (arith, h.1), rw (led a h.1 refl) h.2, rw (led a h.1 refl) h.3)
  Facts-frame f' (popped a) more led over calls h =
      (omega (arith, h.0), rw (led a h.0 refl) h.1, rw (led a h.0 refl) h.2)
  Facts-frame f' (joined a) more led over calls h = omega (arith, h)
  Facts-frame f' (counting a n) more led over calls h = omega (arith, h)
  Facts-frame f' (waiting a) more led over calls h = omega (arith, h)
  Facts-frame f' (finished a r) more led over calls h =
      (omega (arith, h.0), rw (over a h.1 h.0) h.1, rw (over a h.1 h.0) h.2, h.3)

  Facts-at_index :
      (f' : SingleFlight V) (p' : Pc V)
      → Facts f' p'
      → ((j : ℕ) → i ≢ j → Facts f' (pc j))
      → (j : ℕ) → Facts f' (at_index pc i p' j)
  Facts-at_index f' p' mine others j = elim (ℕ_discrete i j) [
    | yes e ↦ rw (if_pos (ℕ_discrete i j) e) mine
    | no ne ↦ rw (if_neg (ℕ_discrete i j) ne) (others j ne)
  ]

  pub here-Facts : {p : Pc V} → pc i ≡ p → Facts f p
  here-Facts e = rw (sym e) (inv.facts i)

  pub Move-Facts :
      {p p' : Pc V} {f' : SingleFlight V}
      → Move f p f' p'
      → pc i ≡ p
      → (j : ℕ) → Facts f' (at_index pc i p' j)
  Move-Facts (lead {k} free) e =
      Facts-at_index (with_call f k) (leading k f.allocated)
        (ground (arith, Table.get-put f.calls k k f.allocated), omega arith, ground arith)
        (λ j ne.
          Facts-frame (with_call f k) (pc j) (omega arith) (λ a small h. ground arith)
            (λ a d small. ground arith)
            (λ k' a h found. ground (arith, Table.get-put f.calls k k' f.allocated)) (inv.facts j))
  Move-Facts (join {k} {a} found) e =
      Facts-at_index f (joined a) (inv.fresh k a found) (λ j ne. inv.facts j)
  Move-Facts (read_count {a}) e =
      Facts-at_index f (counting a f.collapsed) (here-Facts e) (λ j ne. inv.facts j)
  Move-Facts (write_count {a} {n}) e =
      Facts-at_index (with_count f (n + 1)) (waiting a) (here-Facts e) (λ j ne.
        Facts-frame (with_count f (n + 1)) (pc j) (omega arith) (λ b small h. refl)
          (λ b d small. refl) (λ k' b h found. found) (inv.facts j))
  Move-Facts (wake {a} d) e =
      let small = here-Facts e in
      Facts-at_index f (finished a (f.cell a).outcome) (small, d, refl, inv.settled a small d)
        (λ j ne. inv.facts j)
  Move-Facts (call {k} {a} answer) e =
      let mine = here-Facts e in
      Facts-at_index (with_outcome f a answer) (ran k a)
        (mine.0, mine.1, ground (arith, mine.2), ground arith)
        (λ j ne.
          Facts-frame (with_outcome f a answer) (pc j) (omega arith)
            (λ b small h. ground (arith, inv.unique i j a)) (λ b d small. ground (arith, mine.2))
            (λ k' b h found. found) (inv.facts j))
  Move-Facts (pop {k} {a}) e =
      let mine = here-Facts e in
      Facts-at_index (without_key f k) (popped a) (mine.1, mine.2, mine.3)
        (λ j ne.
          Facts-frame (without_key f k) (pc j) (omega arith) (λ b small h. refl) (λ b d small. refl)
            (λ k' b h found.
              ground (arith, Table.get-remove f.calls k k', mine.0, inv.unique i j a))
            (inv.facts j))
  Move-Facts (set {a}) e =
      let mine = here-Facts e in
      Facts-at_index (with_done f a) (finished a (f.cell a).outcome)
        (mine.0, ground arith, ground arith, mine.2)
        (λ j ne.
          Facts-frame (with_done f a) (pc j) (omega arith)
            (λ b small h. ground (arith, inv.unique i j a)) (λ b d small. ground (arith, mine.1))
            (λ k' b h found. found) (inv.facts j))
