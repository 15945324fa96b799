-- ===== src/Store/SingleFlight/Answers.antt =====
-- src/shortener/store.py, `SingleFlight.do`: what `fn` ended with for each call, read off the steps of a
-- run, beside what the call holds.
use url_shortener_100x.Prelude.{
  ℕ, ◌<◌, ◌≤◌, ◌≡◌, refl, Option, none, some, arith, Text, Result, ite,
}
use native.Mathlib.Decide.{ℕ_discrete}
use url_shortener_100x.Store.SingleFlight.{
  SingleFlight, Pc, leading, Move, lead, join, read_count, write_count, wake, call, pop, set,
  System, pick, Reach, here, next,
}
use url_shortener_100x.Store.SingleFlight.Facts.{here-Facts}
use url_shortener_100x.Store.SingleFlight.Invariant.{Reach-Inv}

-- After a step: the answer of the `fn` that ends in it, and those before.
abbrev pub answered :
    {V : Type 0} {f f' : SingleFlight V} {p p' : Pc V}
    → Move f p f' p'
    → (ℕ → Option (Result V))
    → ℕ
    → Option (Result V)
answered (call {a} answer) before b = ite (ℕ_discrete a b) (some answer) (before b)
answered mv before b = before b

-- The answer of the last `fn` of a run that ran for the call at an address.
unfoldable pub fn_ended :
    {V : Type 0} {n : ℕ} {keys : ℕ → Text} {m : ℕ} {s : System V}
    → Reach n keys m s
    → ℕ
    → Option (Result V)
fn_ended here b = none
fn_ended (next r (pick i small mv)) b = answered mv (fn_ended r) b

-- A call holds what its `fn` ended with, and no `fn` has run for a call that is not there yet.
abbrev pub Holds : {V : Type 0} → SingleFlight V → (ℕ → Option (Result V)) → ℕ → Type 0
Holds f ended a =
    (a < f.allocated → (f.cell a).outcome ≡ ended a) × (f.allocated ≤ a → ended a ≡ none)

Move-Holds :
    {V : Type 0} {f f' : SingleFlight V} {p p' : Pc V} (ended : ℕ → Option (Result V))
    (mv : Move f p f' p')
    → ((k : Text) (b : ℕ) → p ≡ leading k b → b < f.allocated)
    → (a : ℕ) → Holds f ended a
    → Holds f' (answered mv ended) a
Move-Holds ended (lead {k} free) led a h =
    (λ small. ground (arith, h.0, h.1), λ big. h.1 (omega (arith, big)))
Move-Holds ended (call {k} {a = b} answer) led a h =
    let inside = led k b refl in (λ small. ground (arith, h.0), λ big. ground (arith, h.1))
Move-Holds ended (set {a = b}) led a h = (λ small. ground (arith, h.0), h.1)
Move-Holds ended (join found) led a h = h
Move-Holds ended read_count led a h = h
Move-Holds ended write_count led a h = h
Move-Holds ended (wake d) led a h = h
Move-Holds ended pop led a h = h

pub Reach-Holds :
    {V : Type 0} {n : ℕ} {keys : ℕ → Text} {m : ℕ} {s : System V} (r : Reach n keys m s) (a : ℕ)
    → Holds s.flight (fn_ended r) a
unfolding fn_ended
Reach-Holds here a = (λ small. refl, λ big. refl)
Reach-Holds (next r (pick i small mv)) a =
    Move-Holds (fn_ended r) mv (λ k b e. (here-Facts (Reach-Inv r) i e).1) a (Reach-Holds r a)
