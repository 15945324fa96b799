-- ===== src/Invalidation/Propagation/Misses.antt =====
-- src/shortener/invalidation.py, how the loop of a probe is left.
use url_shortener_100x.Prelude.{
  ℕ, zero, suc, ◌+◌, ◌≤◌, ◌≡◌, refl, ◌∙◌, Bool, true, false, Option, none, some, List, [], ◌∷◌, ltb,
  Text, arith, All, Bool-cases, Option-cases, inl, inr,
}
use url_shortener_100x.Prelude.Table
use url_shortener_100x.Store.Lru
use url_shortener_100x.Store.Lru.{LruCache, Entry}
use url_shortener_100x.Store.Lru.Reads.{get-miss}
use url_shortener_100x.Invalidation.{InvalidationLog}
use url_shortener_100x.Invalidation.Propagation.{
  Poller, poll_round, poll_at, poll_each, put_each, all_miss, Look, await_misses, max_interval,
}

-- No instance holds the code.
abbrev pub Dropped : Text → List Poller → Type 0
Dropped code pollers = All (λ p. Table.get p.cache.entries code ≡ none) pollers

all_miss-Dropped :
    (code : Text) (now_ms : ℕ) (pollers : List Poller)
    → (all_miss code now_ms pollers).1 ≡ true
    → Dropped code (all_miss code now_ms pollers).0
unfolding all_miss
all_miss-Dropped code now_ms [] h = tt
all_miss-Dropped code now_ms (p ∷ pollers) h = elim (Option-cases (Lru.get p.cache code now_ms).1) [
  | inl miss ↦
      rw (miss, all_miss)
        (
          get-miss p.cache code now_ms miss,
          all_miss-Dropped code now_ms pollers (rw (miss, all_miss) at h),
        )
  | inr (v, hit) ↦ absurd (ground (arith, rw (hit, all_miss) at h))
]

-- The loop was left with the code dropped everywhere, or after its deadline.
unfoldable pub Left : Text → ℕ → Option (List Poller × ℕ × Bool) → Type 0
Left code deadline none = Unit
Left code deadline (some (after, now, true)) = Dropped code after
Left code deadline (some (after, now, false)) = deadline ≤ now

pub await_misses-Left :
    (log : InvalidationLog) (code : Text) (deadline now : ℕ) (pollers : List Poller)
    (looks : List Look)
    → Left code deadline (await_misses log code deadline now pollers looks)
unfolding await_misses Left
await_misses-Left log code deadline now pollers [] = tt
await_misses-Left log code deadline now pollers (l ∷ looks) =
    let polled = poll_each log l.polled pollers in
    elim (Bool-cases (ltb (now + l.elapsed) deadline)) [
      | inr late ↦ rw (late, await_misses, Left) (ground (arith, late))
      | inl early ↦ elim (Bool-cases (all_miss code l.now_ms polled).1) [
        | inl missed ↦
            rw (early, missed, await_misses, Left) (all_miss-Dropped code l.now_ms polled missed)
        | inr held ↦
            rw (early, held, await_misses, Left)
              (await_misses-Left log code deadline (now + l.elapsed)
                (all_miss code l.now_ms polled).0 looks)
      ]
    ]

max_interval-poll_at :
    (log : InvalidationLog) (n : ℕ) (pollers : List Poller)
    → max_interval (poll_at log n pollers) ≡ max_interval pollers
unfolding max_interval poll_at poll_round
max_interval-poll_at log n [] = refl
max_interval-poll_at log zero (p ∷ pollers) = refl
max_interval-poll_at log (suc n) (p ∷ pollers) = omega (arith, max_interval-poll_at log n pollers)

max_interval-poll_each :
    (log : InvalidationLog) (ns : List ℕ) (pollers : List Poller)
    → max_interval (poll_each log ns pollers) ≡ max_interval pollers
unfolding poll_each
max_interval-poll_each log [] pollers = refl
max_interval-poll_each log (n ∷ ns) pollers =
    max_interval-poll_each log ns (poll_at log n pollers) ∙ max_interval-poll_at log n pollers

pub max_interval-put_each :
    (code target : Text) (pollers : List Poller)
    → max_interval (put_each code target pollers) ≡ max_interval pollers
unfolding max_interval put_each
max_interval-put_each code target [] = refl
max_interval-put_each code target (p ∷ pollers) =
    omega (arith, max_interval-put_each code target pollers)

max_interval-all_miss :
    (code : Text) (now_ms : ℕ) (pollers : List Poller)
    → max_interval (all_miss code now_ms pollers).0 ≡ max_interval pollers
unfolding max_interval all_miss
max_interval-all_miss code now_ms [] = refl
max_interval-all_miss code now_ms (p ∷ pollers) =
    elim (Option-cases (Lru.get p.cache code now_ms).1) [
      | inl miss ↦ rw (miss, all_miss) (omega (arith, max_interval-all_miss code now_ms pollers))
      | inr (v, hit) ↦ rw (hit, all_miss) refl
    ]

unfoldable pub Kept : ℕ → Option (List Poller × ℕ × Bool) → Type 0
Kept n none = Unit
Kept n (some (after, now, broke)) = max_interval after ≡ n

pub await_misses-Kept :
    (log : InvalidationLog) (code : Text) (deadline now : ℕ) (pollers : List Poller)
    (looks : List Look)
    → Kept (max_interval pollers) (await_misses log code deadline now pollers looks)
unfolding await_misses Kept
await_misses-Kept log code deadline now pollers [] = tt
await_misses-Kept log code deadline now pollers (l ∷ looks) =
    let polled = poll_each log l.polled pollers in
    let same = max_interval-poll_each log l.polled pollers in
    let seen = max_interval-all_miss code l.now_ms polled ∙ same in
    elim (Bool-cases (ltb (now + l.elapsed) deadline)) [
      | inr late ↦ rw (late, await_misses, Kept) same
      | inl early ↦ elim (Bool-cases (all_miss code l.now_ms polled).1) [
        | inl missed ↦ rw (early, missed, await_misses, Kept) seen
        | inr held ↦
            rw (early, held, await_misses, ← seen)
              (await_misses-Kept log code deadline (now + l.elapsed)
                (all_miss code l.now_ms polled).0 looks)
      ]
    ]
