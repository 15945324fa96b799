-- ===== src/Store/SingleFlight/Invariant.antt =====
-- src/shortener/store.py, `SingleFlight`: the invariant of the threads and the object they share.
use url_shortener_100x.Prelude.{
  ℕ, ◌<◌, ◌≡◌, ◌≢◌, ◌⊎◌, inl, inr, refl, true, none, some, arith, Text,
}
use native.Mathlib.Decide.{ℕ_discrete}
use url_shortener_100x.Prelude.Table
use url_shortener_100x.Prelude.Threads.{at_index}
use url_shortener_100x.Store.SingleFlight.{
  SingleFlight, Pc, leading, ran, popped, Move, lead, join, read_count, write_count, wake, call,
  pop, set, System, pick, start, Reach, here, next,
}
use url_shortener_100x.Store.SingleFlight.Facts.{leads, Facts, Inv, here-Facts, Move-Facts}

module _ {V : Type 0} {f : SingleFlight V} {pc : ℕ → Pc V} (inv : Inv f pc) (i : ℕ) where
  Move-fresh :
      {p p' : Pc V} {f' : SingleFlight V}
      → Move f p f' p'
      → pc i ≡ p
      → (k : Text) (a : ℕ) → Table.get f'.calls k ≡ some a
      → a < f'.allocated
  Move-fresh (lead {k} _) e j a h =
      ground (arith, inv.fresh j a, Table.get-put f.calls k j f.allocated)
  Move-fresh (pop {k}) e j a h = ground (arith, inv.fresh j a, Table.get-remove f.calls k j)
  Move-fresh mv e j a h = inv.fresh j a h

  leads-lt : (q : Pc V) (a : ℕ) → Facts f q → leads q ≡ some a → a < f.allocated
  leads-lt (leading k b) a h e = ground (arith, h.1)
  leads-lt (ran k b) a h e = ground (arith, h.1)
  leads-lt (popped b) a h e = ground (arith, h.0)
  leads-lt q a h e = absurd (ground arith)

  Move-unique :
      {p p' : Pc V} {f' : SingleFlight V}
      → Move f p f' p'
      → pc i ≡ p
      → (x y a : ℕ) → leads (at_index pc i p' x) ≡ some a
      → leads (at_index pc i p' y) ≡ some a
      → x ≡ y
  Move-unique (lead {k} free) e x y a hx hy =
      ground
        (arith, inv.unique x y a, leads-lt (pc x) a (inv.facts x), leads-lt (pc y) a (inv.facts y))
  Move-unique mv e x y a hx hy = ground (arith, inv.unique x y a)

  Move-led :
      {p p' : Pc V} {f' : SingleFlight V}
      → Move f p f' p'
      → pc i ≡ p
      → (a : ℕ) → a < f'.allocated
      → ((f'.cell a).done ≡ true) ⊎ ((j : ℕ) × (leads (at_index pc i p' j) ≡ some a))
  Move-led (lead {k} free) e a small = elim (ℕ_discrete f.allocated a) [
    | yes same ↦ inr (i, ground arith)
    | no other ↦ elim (inv.led a (omega arith)) [
      | inl d ↦ inl (ground arith)
      | inr (j, h) ↦ inr (j, ground arith)
    ]
  ]
  Move-led (set {a = b}) e a small = elim (ℕ_discrete b a) [
    | yes same ↦ inl (ground arith)
    | no other ↦ elim (inv.led a small) [
      | inl d ↦ inl (ground arith)
      | inr (j, h) ↦ inr (j, ground arith)
    ]
  ]
  Move-led (call {a = b} answer) e a small = elim (inv.led a small) [
    | inl d ↦ inl (ground arith)
    | inr (j, h) ↦ inr (j, ground arith)
  ]
  Move-led (join found) e a small = elim (inv.led a small) [
    | inl d ↦ inl d
    | inr (j, h) ↦ inr (j, ground arith)
  ]
  Move-led read_count e a small = elim (inv.led a small) [
    | inl d ↦ inl d
    | inr (j, h) ↦ inr (j, ground arith)
  ]
  Move-led write_count e a small = elim (inv.led a small) [
    | inl d ↦ inl d
    | inr (j, h) ↦ inr (j, ground arith)
  ]
  Move-led (wake x) e a small = elim (inv.led a small) [
    | inl d ↦ inl d
    | inr (j, h) ↦ inr (j, ground arith)
  ]
  Move-led pop e a small = elim (inv.led a small) [
    | inl d ↦ inl d
    | inr (j, h) ↦ inr (j, ground arith)
  ]

  Move-settled :
      {p p' : Pc V} {f' : SingleFlight V}
      → Move f p f' p'
      → pc i ≡ p
      → (a : ℕ) → a < f'.allocated
      → (f'.cell a).done ≡ true
      → (f'.cell a).outcome ≢ none
  Move-settled (lead {k} free) e a small d = ground (arith, inv.settled a)
  Move-settled (call {a = b} answer) e a small d = ground (arith, inv.settled a)
  Move-settled (set {a = b}) e a small d = ground (arith, inv.settled a, here-Facts inv i e)
  Move-settled (join found) e a small d = inv.settled a small d
  Move-settled read_count e a small d = inv.settled a small d
  Move-settled write_count e a small d = inv.settled a small d
  Move-settled (wake x) e a small d = inv.settled a small d
  Move-settled pop e a small d = inv.settled a small d

  Move-Inv :
      {p p' : Pc V} {f' : SingleFlight V} → Move f p f' p' → pc i ≡ p → Inv f' (at_index pc i p')
  Move-Inv mv e = record {
    facts = Move-Facts inv i mv e;
    fresh = Move-fresh mv e;
    unique = Move-unique mv e;
    led = Move-led mv e;
    settled = Move-settled mv e;
  }

start-Inv : {V : Type 0} (keys : ℕ → Text) → Inv {V = V} (start keys).flight (start keys).pc
unfolding Table.get
start-Inv keys = record {
  facts = λ i. tt;
  fresh = λ k a h. absurd (ground arith);
  unique = λ i j a hi hj. absurd (ground arith);
  led = λ a small. absurd (omega arith);
  settled = λ a small d. absurd (omega arith);
}

-- Every state that threads reach has the invariant.
pub Reach-Inv :
    {V : Type 0} {n : ℕ} {keys : ℕ → Text} {m : ℕ} {s : System V}
    → Reach n keys m s
    → Inv s.flight s.pc
Reach-Inv {keys} here = start-Inv keys
Reach-Inv (next r (pick i small mv)) = Move-Inv (Reach-Inv r) i mv refl
