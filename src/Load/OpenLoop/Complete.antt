-- ===== src/Load/OpenLoop/Complete.antt =====
-- src/shortener/openloop.py, every request of a run is recorded once, with its times from the moment
-- it was due.
use url_shortener_100x.Prelude.{
  ℕ, zero, suc, ◌≡◌, refl, ap, ◌∙◌, Bool, true, false, ◌||◌, some, List, [], ◌∷◌, ◌++◌, ◌==◌, pick,
  arith, Bool-cases, Option-cases, inl, inr,
}
use url_shortener_100x.Load.OpenLoop.{Request, Loop, is_unfinished, prune, is_gathered}

unfoldable pub has : List ℕ → ℕ → Bool
has [] id = false
has (i ∷ ids) id = (i == id) || has ids id

pub has-append : (ids : List ℕ) (i id : ℕ) → has (ids ++ i ∷ []) id ≡ ((i == id) || has ids id)
unfolding has
has-append [] i id = ground arith
has-append (j ∷ ids) i id = ground (arith, has-append ids i id)

==→eq : (a b : ℕ) → (a == b) ≡ true → a ≡ b
==→eq a b h = ground (arith, h)

pub has-prune :
    (requests : List (ℕ × Request)) (ids : List ℕ) (id : ℕ)
    → is_unfinished requests id ≡ true
    → has (prune requests ids) id ≡ has ids id
unfolding has prune
has-prune requests [] id h = refl
has-prune requests (i ∷ ids) id h = elim (Bool-cases (i == id)) [
  | inl e ↦
      let same : is_unfinished requests i ≡ true = rw (==→eq i id e) h in
      rw (same, prune) (ground (arith, e))
  | inr e ↦ ground (arith, has-prune requests ids id h, e)
]

pub is_unfinished-pick :
    (requests : List (ℕ × Request)) (n : ℕ) (p : ℕ × Request) (rest : List (ℕ × Request)) (id : ℕ)
    → pick requests n ≡ some (p, rest)
    → is_unfinished rest id ≡ true
    → is_unfinished requests id ≡ true
unfolding pick is_unfinished
is_unfinished-pick [] n p rest id e h = absurd (ground (arith, e))
is_unfinished-pick ((i, r) ∷ requests) zero p rest id e h =
    let e₁ : requests ≡ rest = ground arith in ground (arith, rw (← e₁) at h)
is_unfinished-pick ((i, r) ∷ requests) (suc n) p rest id e h =
    elim (Option-cases (pick requests n)) [
      | inl gone ↦ absurd (ground arith)
      | inr ((q, qs), found) ↦
          let e₁ : (i, r) ∷ qs ≡ rest = ground arith in
          let inside : ((i == id) || is_unfinished qs id) ≡ true =
            ap (λ l. is_unfinished l id) e₁ ∙ h in
          ground (arith, is_unfinished-pick requests n q qs id found, inside)
    ]

-- Every task that has not ended is among those that the loop still holds.
unfoldable pub Held : Loop → Type 0
Held s = (id : ℕ) → is_unfinished s.unfinished id ≡ true → has s.inflight id ≡ true

is_gathered-Held :
    (requests : List (ℕ × Request)) (ids : List ℕ) (id : ℕ)
    → has ids id ≡ true
    → is_unfinished requests id ≡ true
    → is_gathered requests ids ≡ false
unfolding has is_gathered
is_gathered-Held requests [] id h u = absurd (ground (arith, h))
is_gathered-Held requests (i ∷ ids) id h u = elim (Bool-cases (i == id)) [
  | inl e ↦
      let same : is_unfinished requests i ≡ true = rw (==→eq i id e) u in
      rw (same, is_gathered) (ground arith)
  | inr e ↦ ground (arith, is_gathered-Held requests ids id, e)
]

abbrev pub is_empty : List (ℕ × Request) → Bool
is_empty [] = true
is_empty (x ∷ xs) = false

is_gathered_nothing : (ids : List ℕ) → is_gathered [] ids ≡ true
unfolding is_gathered is_unfinished
is_gathered_nothing [] = refl
is_gathered_nothing (id ∷ ids) = is_gathered_nothing ids

pub is_gathered-is_empty :
    (s : Loop) → Held s → is_gathered s.unfinished s.inflight ≡ is_empty s.unfinished
unfolding Held is_unfinished
is_gathered-is_empty s h = all s.unfinished refl
  where
    all :
        (requests : List (ℕ × Request))
        → s.unfinished ≡ requests
        → is_gathered s.unfinished s.inflight ≡ is_empty s.unfinished
    all [] e = rw e (is_gathered_nothing s.inflight)
    all ((i, r) ∷ requests) e =
        let first : is_unfinished s.unfinished i ≡ true = rw e (ground arith) in
        is_gathered-Held s.unfinished s.inflight i (h i first) first ∙ rw e refl
