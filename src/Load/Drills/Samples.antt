-- ===== src/Load/Drills/Samples.antt =====
-- src/shortener/drills.py, the verdict of a drill and the samples behind it.
use url_shortener_100x.Prelude.{
  ℕ, ◌+◌, ◌≡◌, ◌<◌, Bool, true, false, none, some, List, [], ◌∷◌, ◌||◌, ◌==◌, length, All, arith,
  Option-cases, Bool-cases, inl, inr,
}
use url_shortener_100x.Load.Drills.{
  Sample, is_error, is_unexpected, count_samples, stampede_passed, fail_open_passed,
}

-- The answer of a link that is there.
abbrev is_redirect : Sample → Bool
is_redirect s = elim s.status [ none ↦ false | some c ↦ (c == 307) || (c == 302) ]

-- Every sample counts once: as an error, as unexpected, or as a redirect.
count_samples-length :
    (samples : List Sample)
    → count_samples is_error samples
        + (count_samples is_unexpected samples + count_samples is_redirect samples)
      ≡ length samples
unfolding count_samples is_error is_unexpected
count_samples-length [] = omega arith
count_samples-length (s ∷ samples) = elim (Option-cases s.status) [
  | inl e ↦ ground (arith, e, count_samples-length samples)
  | inr (c, e) ↦ ground (arith, e, count_samples-length samples)
]

-- A request that was answered, with a status below 500.
abbrev IsAnswered : Sample → Type 0
IsAnswered s = (c : ℕ) × (s.status ≡ some c) × (c < 500)

is_error-IsAnswered : (s : Sample) → is_error s ≡ false → IsAnswered s
unfolding is_error
is_error-IsAnswered s h = elim (Option-cases s.status) [
  | inl e ↦ absurd (ground (arith, e, h))
  | inr (c, e) ↦ (c, e, ground (arith, e, h))
]

count_samples-IsAnswered :
    (samples : List Sample) → count_samples is_error samples ≡ 0 → All IsAnswered samples
unfolding count_samples
count_samples-IsAnswered [] h = tt
count_samples-IsAnswered (s ∷ samples) h = elim (Bool-cases (is_error s)) [
  | inl e ↦ absurd (ground (arith, e, h))
  | inr e ↦ (is_error-IsAnswered s e, count_samples-IsAnswered samples (ground (arith, e, h)))
]

-- A drill that passes had every request answered with a status below 500, and each of its samples
-- is a redirect or counted as unexpected; one of the limiter has failed open at least once.
passed-IsAnswered :
    (samples : List Sample) (fail_open_count : ℕ)
    → (stampede_passed samples ≡ true
        → All IsAnswered samples
          × (count_samples is_unexpected samples + count_samples is_redirect samples
              ≡ length samples))
      × (fail_open_passed samples fail_open_count ≡ true
          → (stampede_passed samples ≡ true) × (0 < fail_open_count))
unfolding stampede_passed fail_open_passed
passed-IsAnswered samples fail_open_count = (
  λ h.
      let zero_errors : count_samples is_error samples ≡ 0 = ground (arith, h) in
      (
        count_samples-IsAnswered samples zero_errors,
        omega (arith, zero_errors, count_samples-length samples),
      ),
  λ h. (ground (arith, h), ground (arith, h)),
)
