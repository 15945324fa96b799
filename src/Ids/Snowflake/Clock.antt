-- ===== src/Ids/Snowflake/Clock.antt =====
-- src/shortener/ids.py, `SnowflakeGenerator.next_id` and its clock: waits and refusals.
use url_shortener_100x.Prelude.{
  ℕ, suc, ◌-◌, ◌≤◌, ◌<◌, ◌≡◌, ◌≢◌, refl, Option, none, some, List, [], ◌∷◌, arith, ltb, All, ◌⊎◌,
  inl, inr, Bool-cases, Option-cases, true, false, runtime_error, Bool, ℤ,
}
use url_shortener_100x.Ids.Snowflake.{
  Generator, Call, issued, refused, waiting, wait_for, advance, check_clock, issue, next_id,
}

module _ (P : ℕ → Type 0) (bound : ℕ) where
  stop :
      (now : ℕ) (clock : List ℕ) (later : ℕ) (rest : List ℕ)
      → ltb now bound ≡ false
      → ◌≡◌ {A = Option (ℕ × List ℕ)} (some (now, clock)) (some (later, rest))
      → P now
      → All P clock
      → (bound ≤ later) × P later × All P rest
  stop now clock later rest late e p ps =
      let e₀ : now ≡ later = ground arith in
      let e₁ : clock ≡ rest = ground arith in (ground arith, rw e₀ at p, rw e₁ at ps)

-- A wait returns a reading that is not below the bound, and only readings of the clock.
pub wait_for_lem :
    (P : ℕ → Type 0) (bound now : ℕ) (clock : List ℕ) (later : ℕ) (rest : List ℕ)
    → wait_for bound now clock ≡ some (later, rest)
    → P now
    → All P clock
    → (bound ≤ later) × P later × All P rest
unfolding wait_for
wait_for_lem P bound now [] later rest h p ps = elim (Bool-cases (ltb now bound)) [
  | inl early ↦ absurd (ground arith)
  | inr late ↦ stop P bound now [] later rest late (ground arith) p ps
]
wait_for_lem P bound now (r ∷ clock) later rest h p ps = elim (Bool-cases (ltb now bound)) [
  | inl early ↦ wait_for_lem P bound r clock later rest (ground arith) ps.0 ps.1
  | inr late ↦ stop P bound now (r ∷ clock) later rest late (ground arith) p ps
]

-- Some reading is at least the bound.
unfoldable pub Reaches : ℕ → List ℕ → Type 0
Reaches bound [] = ⊥
Reaches bound (r ∷ clock) = (bound ≤ r) ⊎ Reaches bound clock

wait_for-Reaches :
    (bound now : ℕ) (clock : List ℕ) → Reaches bound (now ∷ clock) → wait_for bound now clock ≢ none
unfolding wait_for Reaches
wait_for-Reaches bound now [] h = ground arith
wait_for-Reaches bound now (r ∷ clock) h = ground (arith, wait_for-Reaches bound r clock)

abbrev is_issued : {A : Type 0} → Call A → Bool
is_issued (issued a g clock) = true
is_issued (refused e g clock) = false
is_issued waiting = false

is_issued_lem :
    {A : Type 0} (c : Call A)
    → is_issued c ≡ true
    → (a : A) × (g : Generator) × (clock : List ℕ) × (c ≡ issued a g clock)
is_issued_lem (issued a g clock) h = (a, g, clock, refl)
is_issued_lem (refused e g clock) h = cc
is_issued_lem waiting h = cc

module _ (g : Generator) (last : ℕ) where
  advance-ends :
      (now : ℕ) (clock : List ℕ)
      → Reaches (suc last) (now ∷ clock)
      → is_issued (advance g last now clock) ≡ true
  unfolding advance issue
  advance-ends now clock h = ground (arith, wait_for-Reaches (suc last) now clock h)

  Reaches-weaken : (clock : List ℕ) → Reaches (suc last) clock → Reaches last clock
  unfolding Reaches
  Reaches-weaken [] h = h
  Reaches-weaken (r ∷ clock) h = ground (arith, Reaches-weaken clock)

  keep :
      (now : ℕ) (clock : List ℕ) (later : ℕ) (rest : List ℕ)
      → ◌≡◌ {A = Option (ℕ × List ℕ)} (some (now, clock)) (some (later, rest))
      → Reaches (suc last) (now ∷ clock)
      → Reaches (suc last) (later ∷ rest)
  keep now clock later rest e r =
      let e₀ : now ≡ later = ground arith in
      let e₁ : clock ≡ rest = ground arith in rw (← e₀, ← e₁) r

  past :
      (now x : ℕ) (clock : List ℕ)
      → now < last
      → Reaches (suc last) (now ∷ x ∷ clock)
      → Reaches (suc last) (x ∷ clock)
  unfolding Reaches
  past now x clock h (inl le) = absurd (omega arith)
  past now x clock h (inr r) = r

  -- What a wait for `last` leaves still reaches past it.
  Reaches-wait_for :
      (now : ℕ) (clock : List ℕ) (later : ℕ) (rest : List ℕ)
      → wait_for last now clock ≡ some (later, rest)
      → Reaches (suc last) (now ∷ clock)
      → Reaches (suc last) (later ∷ rest)
  unfolding wait_for Reaches
  Reaches-wait_for now [] later rest h r = elim (Bool-cases (ltb now last)) [
    | inl early ↦ absurd (ground arith)
    | inr late ↦ keep now [] later rest (ground arith) r
  ]
  Reaches-wait_for now (x ∷ clock) later rest h r = elim (Bool-cases (ltb now last)) [
    | inl early ↦
        Reaches-wait_for x clock later rest (ground arith) (past now x clock (ground arith) r)
    | inr late ↦ keep now (x ∷ clock) later rest (ground arith) r
  ]

  check_clock-issues :
      (now : ℕ) (clock : List ℕ)
      → ltb 5000 (last - now) ≡ false
      → Reaches (suc last) (now ∷ clock)
      → is_issued (check_clock g last now clock) ≡ true
  unfolding check_clock
  check_clock-issues now clock near r = elim (Bool-cases (ltb now last)) [
    | inr late ↦ rw (late, check_clock) (advance-ends now clock r)
    | inl early ↦ elim (Option-cases (wait_for last now clock)) [
      | inl stuck ↦ absurd (wait_for-Reaches last now clock (Reaches-weaken (now ∷ clock) r) stuck)
      | inr ((later, rest), found) ↦
          rw (early, check_clock, near, found)
            (advance-ends later rest (Reaches-wait_for now clock later rest found r))
    ]
  ]

-- The first time that a generator may stamp with sequence 0 whatever it issued before.
unfoldable pub past_last : Generator → ℕ
past_last g = elim g.last_ms [ none ↦ 0 | some last ↦ suc last ]

-- The clock stands more than five seconds before the last id.
unfoldable pub is_far_behind : Generator → ℕ → Bool
is_far_behind g now = elim g.last_ms [ none ↦ false | some last ↦ ltb 5000 (last - now) ]

-- A clock that stepped back by more than five seconds is refused, and the state stays; with any
-- other reading the call issues an id, if the clock at some time passes the last id's time.
pub next_id_returns :
    (g : Generator) (now : ℕ) (clock : List ℕ)
    → Reaches (past_last g) (now ∷ clock)
    → (is_far_behind g now ≡ true → next_id g (now ∷ clock) ≡ refused runtime_error g clock)
      × (is_far_behind g now ≡ false
          → (id : ℤ) × (g' : Generator) × (rest : List ℕ) × (next_id g (now ∷ clock)
              ≡ issued id g' rest))
unfolding next_id is_far_behind past_last check_clock
next_id_returns g now clock r =
    (ground arith, λ near. is_issued_lem (next_id g (now ∷ clock)) (go g.last_ms refl near))
  where
    go :
        (o : Option ℕ)
        → g.last_ms ≡ o
        → is_far_behind g now ≡ false
        → is_issued (next_id g (now ∷ clock)) ≡ true
    go none e near = ground arith
    go (some last) e near =
        rw (e, next_id)
          (check_clock-issues g last now clock (rw (e, is_far_behind) at near)
            (rw (e, past_last) at r))
