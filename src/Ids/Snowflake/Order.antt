-- ===== src/Ids/Snowflake/Order.antt =====
-- src/shortener/ids.py, the ids that generators issue one after another.
use mathlib.Core.Path.{subst}
use url_shortener_100x.Prelude.{
  ℕ, zero, suc, ◌≤◌, ◌≡◌, ◌≢◌, refl, List, [], ◌∷◌, All, All-map, ℤ, pos, negsuc,
}
use url_shortener_100x.Ids.Snowflake.{
  Generator, Call, issued, refused, waiting, next_id, epoch_ms, decode_id,
}
use url_shortener_100x.Ids.Snowflake.Step.{floor_id, IsValid, Sound, next_id-Sound}

-- The ids of `n` calls in a row; a call that raises issues none, and a call that waits ends the row.
unfoldable pub run : ℕ → Generator → List ℕ → List ℤ
run zero g clock = []
run (suc n) g clock = elim (next_id g clock) [
  | issued id g' rest ↦ id ∷ run n g' rest
  | refused e g' rest ↦ run n g' rest
  | waiting ↦ []
]

-- Each id is a number that is at least the bound, and more than the id before it.
abbrev pub Increasing : ℕ → List ℤ → Type 0
Increasing bound [] = Unit
Increasing bound (pos n ∷ ids) = (bound ≤ n) × Increasing (suc n) ids
Increasing bound (negsuc n ∷ ids) = ⊥

-- The id is a number that `decode_id` gives to the instance.
abbrev pub IssuedBy : ℕ → ℤ → Type 0
IssuedBy instance_id (pos n) = (decode_id n).instance_id ≡ instance_id
IssuedBy instance_id (negsuc n) = ⊥

abbrev RunSound : ℕ → Type 0
RunSound n =
    (g : Generator) (clock : List ℕ)
    → IsValid g
    → All (λ r. epoch_ms ≤ r) clock
    → Increasing (floor_id g) (run n g clock) × All (IssuedBy g.instance_id) (run n g clock)

run_step :
    (n : ℕ)
    → RunSound n
    → (g : Generator) (clock : List ℕ) (c : Call ℤ) → next_id g clock ≡ c
    → IsValid g
    → Sound g c
    → Increasing (floor_id g) (run (suc n) g clock)
      × All (IssuedBy g.instance_id) (run (suc n) g clock)
unfolding run
run_step n ih g clock waiting e valid s = rw (e, run) (tt, tt)
run_step n ih g clock (refused x g' rest) e valid s = rw (e, run, s.0) (ih g rest valid s.1)
run_step n ih g clock (issued id g' rest) e valid s =
    let (up, mine) = ih g' rest s.valid s.clock in
    rw (e, run, s.id_eq)
      (
        (s.above, rw s.floor at up),
        (s.reads_back, subst (λ i. All (IssuedBy i) (run n g' rest)) s.same_instance mine),
      )

run_lem : (n : ℕ) → RunSound n
unfolding run
run_lem zero g clock valid ps = (tt, tt)
run_lem (suc n) g clock valid ps =
    run_step n (run_lem n) g clock (next_id g clock) refl valid (next_id-Sound g valid clock ps)

-- The ids of one generator grow strictly, whatever the clock does after the epoch, so no id is
-- issued twice; and each decodes to the generator's instance.
pub run-Increasing :
    (n : ℕ) (g : Generator) (clock : List ℕ)
    → IsValid g
    → All (λ r. epoch_ms ≤ r) clock
    → Increasing (floor_id g) (run n g clock) × All (IssuedBy g.instance_id) (run n g clock)
run-Increasing n g clock valid ps = run_lem n g clock valid ps

IssuedBy-ne : (i j : ℕ) (a b : ℤ) → i ≢ j → IssuedBy i a → IssuedBy j b → a ≢ b
IssuedBy-ne i j (pos m) (pos n) ne p q e = let m-eq-n : m ≡ n = cc in ne (cc)
IssuedBy-ne i j (negsuc m) b ne p q e = absurd p
IssuedBy-ne i j (pos m) (negsuc n) ne p q e = absurd q

IssuedBy-All-ne :
    (i j : ℕ) (a : ℤ) (ids : List ℤ)
    → i ≢ j
    → IssuedBy i a
    → All (IssuedBy j) ids
    → All (λ b. a ≢ b) ids
IssuedBy-All-ne i j a [] ne p qs = tt
IssuedBy-All-ne i j a (b ∷ ids) ne p qs =
    (IssuedBy-ne i j a b ne p qs.0, IssuedBy-All-ne i j a ids ne p qs.1)

-- Whatever two instances with different ids issue, on clocks of their own, no id is issued by both.
pub run-disjoint :
    (m n : ℕ) (g h : Generator) (clock_g clock_h : List ℕ)
    → IsValid g
    → IsValid h
    → All (λ r. epoch_ms ≤ r) clock_g
    → All (λ r. epoch_ms ≤ r) clock_h
    → g.instance_id ≢ h.instance_id
    → All (λ a. All (λ b. a ≢ b) (run n h clock_h)) (run m g clock_g)
run-disjoint m n g h clock_g clock_h vg vh pg ph ne =
    All-map (IssuedBy g.instance_id) (λ a. All (λ b. a ≢ b) (run n h clock_h)) (run m g clock_g)
      (λ a p.
        IssuedBy-All-ne g.instance_id h.instance_id a (run n h clock_h) ne p
          (run_lem n h clock_h vh ph).1)
      (run_lem m g clock_g vg pg).1
