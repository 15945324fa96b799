-- ===== src/Store/SingleFlight/Sharing.antt =====
-- src/shortener/store.py, `SingleFlight.do`: who runs `fn`, and what the callers get.
use url_shortener_100x.Prelude.{
  ℕ, ◌≡◌, Option, some, refl, arith, Text, Result, Option-cases, inl, inr,
}
use url_shortener_100x.Prelude.Table
use url_shortener_100x.Store.SingleFlight.{SingleFlight, Pc, leading, ran, finished, System, Reach}
use url_shortener_100x.Store.SingleFlight.Facts.{leads, Facts, here-Facts}
use url_shortener_100x.Store.SingleFlight.Answers.{fn_ended, Reach-Holds}
use url_shortener_100x.Store.SingleFlight.Invariant.{Reach-Inv}

-- The thread runs `fn`, or has just run it, for the key.
pub data Runs {V : Type 0} (k : Text) : Pc V → ℕ → Type 0 where
  running : {a : ℕ} → Runs k (leading k a) a
  returned : {a : ℕ} → Runs k (ran k a) a

module _ {V : Type 0} {n : ℕ} {keys : ℕ → Text} {m : ℕ} {s : System V} (r : Reach n keys m s) where
  Runs-calls :
      (f : SingleFlight V) {k : Text} {p : Pc V} {a : ℕ}
      → Runs k p a
      → Facts f p
      → (Table.get f.calls k ≡ some a) × (leads p ≡ some a)
  Runs-calls f running h = (h.0, refl)
  Runs-calls f returned h = (h.0, refl)

  -- In every state that threads reach which each call `do` once, at most one thread runs `fn` for
  -- a key: two that run it are the same thread.
  pub one_leader : (k : Text) (i j a b : ℕ) → Runs k (s.pc i) a → Runs k (s.pc j) b → i ≡ j
  one_leader k i j a b x y =
      let inv = Reach-Inv r in
      let hx = Runs-calls s.flight x (inv.facts i) in
      let hy = Runs-calls s.flight y (inv.facts j) in ground (arith, inv.unique i j a, hx, hy)

  -- In every state that threads reach which each call `do` once, two that have come back from the
  -- same call have the same outcome, and it is the value or the exception that the `fn` which ran for
  -- that call ended with.
  pub same_outcome :
      (i j a : ℕ) (x y : Option (Result V))
      → s.pc i ≡ finished a x
      → s.pc j ≡ finished a y
      → (x ≡ y) × ((answer : Result V) × (fn_ended r a ≡ some answer) × (x ≡ some answer))
  same_outcome i j a x y hi hj =
      let inv = Reach-Inv r in
      let fi = here-Facts inv i hi in
      let fj = here-Facts inv j hj in
      let held = (Reach-Holds r a).0 fi.0 in
      elim (Option-cases x) [
        | inl e ↦ absurd (fi.3 e)
        | inr (answer, e) ↦ (ground arith, (answer, ground arith, e))
      ]
