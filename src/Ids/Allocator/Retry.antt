-- ===== src/Ids/Allocator/Retry.antt =====
-- src/shortener/ids.py, the outcomes of `CodeAllocator.allocate`.
use url_shortener_100x.Prelude.{
  ℕ, zero, suc, ◌+◌, ◌≤◌, ◌<◌, ◌≡◌, ◌≢◌, ◌⊎◌, refl, List, [], ◌∷◌, arith, Text, text_dec, ite,
  Option, none, some, All, inl, inr, Result, ok, raise, runtime_error, key_error, value_error,
  type_error, circuit_open_error, other_error,
}
use url_shortener_100x.Store.Links.{Link, LinkStore, Attempt, commits, get}
use url_shortener_100x.Store.Links.Laws.{create-Ends}
use url_shortener_100x.Ids.Allocator.{Allocator, Outcome, attempt, allocate}

-- The answers of the generator to `n` calls in a row.
unfoldable pub draws : {G : Type 0} → (G → Result Text × G) → ℕ → G → List (Result Text)
draws next zero g = []
draws next (suc n) g = (next g).0 ∷ draws next n (next g).1

abbrev pub IsTaken : LinkStore → Result Text → Type 0
IsTaken s (ok code) = get s code ≢ none
IsTaken s (raise e) = ⊥

module _ {G : Type 0} where
  -- The link is stored under a code that was free, and no other row has changed.
  pub record Stored (target : Text) (n : ℕ) (a : Allocator G) (s : LinkStore) (a' : Allocator G)
      (s' : LinkStore) (link : Link) : Type 0 where
    pub fresh : get s link.code ≡ none
    pub aim : link.target ≡ target
    pub reads : (j : Text) → get s' j ≡ ite (text_dec link.code j) (some link) (get s j)
    pub counted : a'.allocated ≡ a.allocated + 1
    pub collided : (a.collisions ≤ a'.collisions) × (a'.collisions < a.collisions + n)

  -- Every one of the codes was taken; the store is as it was.
  pub record Exhausted (next : G → Result Text × G) (n : ℕ) (a : Allocator G) (s : LinkStore)
      (a' : Allocator G) (s' : LinkStore) : Type 0 where
    pub unchanged : s' ≡ s
    pub uncounted : a'.allocated ≡ a.allocated
    pub collided : a'.collisions ≡ a.collisions + n
    pub all_taken : All (IsTaken s) (draws next n a.generator)

  -- A write of one of the attempts has failed. The store is as it was, or has the row of one link to
  -- the target more, under a code that was free.
  pub record Failed (target : Text) (at : ℕ → Attempt) (n : ℕ) (a : Allocator G) (s : LinkStore)
      (a' : Allocator G) (s' : LinkStore) : Type 0 where
    pub failing : (k : ℕ) × (k < n) × ((at k).write ≢ commits)
    pub uncounted : a'.allocated ≡ a.allocated
    pub left :
        (s' ≡ s)
        ⊎ ((link : Link) × (get s link.code ≡ none)
            × (link.target ≡ target)
            × ((j : Text) → get s' j ≡ ite (text_dec link.code j) (some link) (get s j)))

  abbrev pub Promised :
      Text
      → (G → Result Text × G)
      → (ℕ → Attempt)
      → ℕ
      → Allocator G
      → LinkStore
      → Outcome G
      → Type 0
  Promised target next at n a s (a', s', ok link) = Stored target n a s a' s' link
  Promised target next at n a s (a', s', raise runtime_error) = Exhausted next n a s a' s'
  Promised target next at n a s (a', s', raise other_error) = Failed target at n a s a' s'
  Promised target next at n a s (a', s', raise e) = ⊥

  widen :
      (next : G → Result Text × G) (at : ℕ → Attempt) (n : ℕ) (a : Allocator G) (s : LinkStore)
      (code target : Text) (l : Link) (out : Outcome G)
      → (next a.generator).0 ≡ ok code
      → get s code ≡ some l
      → Promised target next at n
          (record a { generator = (next a.generator).1; collisions = a.collisions + 1 })
          s
          out
      → Promised target next at (suc n) a s out
  unfolding draws
  widen next at n a s code target l (a', s', ok link) e t p = record {
    fresh = p.fresh;
    aim = p.aim;
    reads = p.reads;
    counted = p.counted;
    collided = omega (arith, p.collided);
  }
  widen next at n a s code target l (a', s', raise runtime_error) e t p = record {
    unchanged = p.unchanged;
    uncounted = p.uncounted;
    collided = omega (arith, p.collided);
    all_taken = rw e (λ free. cc, p.all_taken);
  }
  widen next at n a s code target l (a', s', raise value_error) e t p = p
  widen next at n a s code target l (a', s', raise key_error) e t p = p
  widen next at n a s code target l (a', s', raise type_error) e t p = p
  widen next at n a s code target l (a', s', raise circuit_open_error) e t p = p
  widen next at n a s code target l (a', s', raise other_error) e t p = record {
    failing = (p.failing.0, omega (arith, p.failing.1), p.failing.2);
    uncounted = p.uncounted;
    left = p.left;
  }

  module _ (next : G → Result Text × G) (target : Text) (ttl : Option ℕ) (at : ℕ → Attempt) where
    attempt-Promised :
        (n : ℕ) (a : Allocator G) (s : LinkStore)
        → ((g : G) → (code : Text) × ((next g).0 ≡ ok code))
        → Promised target next at n a s (attempt next target ttl at n a s)
    unfolding attempt draws
    attempt-Promised zero a s never = record {
      unchanged = refl;
      uncounted = refl;
      collided = omega arith;
      all_taken = tt;
    }
    attempt-Promised (suc n) a s never =
        let (code, e) = never a.generator in
        elim (create-Ends s code target ttl none (at n)) [
          | inl (s2, made, row) ↦
              rw (e, attempt, made)
                (record {
                  fresh = row.free;
                  aim = refl;
                  reads = row.reads;
                  counted = refl;
                  collided = omega arith;
                })
          | inr (inl (l, taken, made)) ↦
              let again = record a {
                generator = (next a.generator).1;
                collisions = a.collisions + 1;
              } in
              rw (e, attempt, made)
                (widen next at n a s code target l (attempt next target ttl at n again s) e taken
                  (attempt-Promised n again s never))
          | inr (inr (s2, made, fails, after)) ↦
              rw (e, attempt, made)
                (record {
                  failing = (n, omega arith, fails);
                  uncounted = refl;
                  left = elim after [
                    | inl same ↦ inl same
                    | inr row ↦ inr (_, row.free, refl, row.reads)
                  ];
                })
        ]

    -- With a generator that returns codes, `allocate` stores the link under a code that was free and
    -- touches no other row; or every code that it drew was taken, it raises `RuntimeError` after
    -- exactly `max_attempts` collisions, and the store is as before; or the write of one of its
    -- attempts has failed, it raises that error, and the store is as before or has one row more, of a
    -- link to the target under a code that was free.
    pub allocate-Promised :
        (a : Allocator G) (s : LinkStore)
        → ((g : G) → (code : Text) × ((next g).0 ≡ ok code))
        → Promised target next at a.max_attempts a s (allocate next target ttl at a s)
    unfolding allocate
    allocate-Promised a s never = attempt-Promised a.max_attempts a s never
