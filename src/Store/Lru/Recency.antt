-- ===== src/Store/Lru/Recency.antt =====
-- src/shortener/store.py, sequences of operations on an `LruCache`, and what they evict.
use url_shortener_100x.Prelude.{
  ℕ, suc, ◌+◌, ◌≤◌, ◌<◌, ◌≡◌, refl, Option, none, some, List, [], ◌∷◌, ◌++◌, arith, length, Text,
  ◌≢◌, ◌∙◌, All, Option-cases, Bool-cases, inl, inr, if◌then◌else◌,
}
use url_shortener_100x.Prelude.Table
use url_shortener_100x.Prelude.Table.{Table, Distinct}
use url_shortener_100x.Store.Links.{reached}
use url_shortener_100x.Store.Lru.{Entry, LruCache, move_to_end, evict, get, put, invalidate}
use url_shortener_100x.Store.Lru.Bounds.{
  IsValid, evict-fits, Distinct-remove, get-IsValid, put-IsValid, invalidate-IsValid,
}
use url_shortener_100x.Store.Lru.Reads.{
  get-evict, evict-append_one, get-evict_moved, live, get-eq-live, entries-put,
}

-- An operation on the cache, with the time of a read.
pub data Op (V : Type 0) : Type 0 where
  read : Text → ℕ → Op V
  write : Text → V → Option ℕ → Op V
  drop : Text → Op V

abbrev pub op_key : {V : Type 0} → Op V → Text
op_key (read k now) = k
op_key (write k v expires_ms) = k
op_key (drop k) = k

module _ {V : Type 0} where
  unfoldable pub apply : LruCache V → Op V → LruCache V
  apply c (read k now) = (get c k now).0
  apply c (write k v expires_ms) = put c k v expires_ms
  apply c (drop k) = invalidate c k

  unfoldable pub run : LruCache V → List (Op V) → LruCache V
  run c [] = c
  run c (o ∷ ops) = run (apply c o) ops

  -- `e` is among the `n` most recently used entries, under `k`.
  abbrev Recent : ℕ → Table (Entry V) → Text → Entry V → Type 0
  Recent n d k e = Table.get (evict n d) k ≡ some e

  module _ (k : Text) (e : Entry V) where
    Recent-suc : (n : ℕ) (d : Table (Entry V)) → Distinct d → Recent n d k e → Recent (suc n) d k e
    unfolding evict Table.get Distinct
    Recent-suc n [] u h = h
    Recent-suc n ((j, w) ∷ d) u h =
        ground (arith, Recent-suc n d u.1, get-evict n d k e u.1, evict-fits (suc n) d)

    evict-evict : (n m : ℕ) (d : Table (Entry V)) → n ≤ m → evict n (evict m d) ≡ evict n d
    unfolding evict
    evict-evict n m [] h = refl
    evict-evict n m (x ∷ d) h = ground (arith, evict-evict n m d h)

    Recent-remove :
        (n : ℕ) (d : Table (Entry V)) (j : Text)
        → j ≢ k
        → Distinct d
        → Recent n d k e
        → Recent n (Table.remove d j) k e
    unfolding evict Table.get Table.remove Distinct
    Recent-remove n [] j ne u h = h
    Recent-remove n ((i, w) ∷ d) j ne u h = ground (
      arith,
      Recent-remove n d j ne u.1,
      get-evict n d k e u.1,
      evict-fits n (Table.remove d j),
      evict-fits n ((i, w) ∷ Table.remove d j),
      Table.length-remove d j,
      Table.get-remove d j k,
    )

    Recent-move :
        (n : ℕ) (d : Table (Entry V)) (j : Text) (f : Entry V)
        → j ≢ k
        → Distinct d
        → Recent n d k e
        → Recent (suc n) (Table.remove d j ++ (j, f) ∷ []) k e
    Recent-move n d j f ne u h = rw evict-append_one (
        Table.get-append (evict n (Table.remove d j)) ((j, f) ∷ []) k e
          (Recent-remove n d j ne u h))

    -- One operation that is not about `k` makes at most one entry more recent.
    Recent-apply :
        (n : ℕ) (c : LruCache V) (o : Op V)
        → IsValid c
        → op_key o ≢ k
        → suc n ≤ c.capacity
        → Recent n c.entries k e
        → Recent (suc n) (apply c o).entries k e
    unfolding apply get move_to_end invalidate
    Recent-apply n c (drop j) valid ne fits h =
        Recent-suc n (Table.remove c.entries j) (Distinct-remove c.entries j valid.distinct)
          (Recent-remove n c.entries j ne valid.distinct h)
    Recent-apply n c (write j v expires_ms) valid ne fits h =
        rw (entries-put, evict-evict, fits) (Recent-move n c.entries j _ ne valid.distinct h)
    Recent-apply n c (read j now) valid ne fits h = elim (Option-cases (Table.get c.entries j)) [
      | inl miss ↦ rw (miss, apply, get) (Recent-suc n c.entries valid.distinct h)
      | inr (f, hit) ↦ elim (Bool-cases (reached f.expires_ms now)) [
        | inl old ↦
            rw (hit, apply, get, old)
              (Recent-suc n (Table.remove c.entries j) (Distinct-remove c.entries j valid.distinct)
                (Recent-remove n c.entries j ne valid.distinct h))
        | inr fresh ↦ rw (hit, apply, get, fresh) (Recent-move n c.entries j f ne valid.distinct h)
      ]
    ]

  pub apply-IsValid : (c : LruCache V) (o : Op V) → IsValid c → IsValid (apply c o)
  unfolding apply
  apply-IsValid c (read k now) h = get-IsValid c k now h
  apply-IsValid c (write k v expires_ms) h = put-IsValid c k v expires_ms h
  apply-IsValid c (drop k) h = invalidate-IsValid c k h

  pub capacity-apply : (c : LruCache V) (o : Op V) → (apply c o).capacity ≡ c.capacity
  unfolding apply get put invalidate
  capacity-apply c (read k now) = ground arith
  capacity-apply c (write k v expires_ms) = refl
  capacity-apply c (drop k) = refl

  -- Every sequence of operations keeps the bound and the distinct keys.
  run-IsValid :
      (ops : List (Op V)) (c : LruCache V)
      → IsValid c
      → IsValid (run c ops) × ((run c ops).capacity ≡ c.capacity)
  unfolding run
  run-IsValid [] c h = (h, refl)
  run-IsValid (o ∷ ops) c h =
      let ih = run-IsValid ops (apply c o) (apply-IsValid c o h) in
      (ih.0, ih.1 ∙ capacity-apply c o)

  Recent-run :
      (ops : List (Op V)) (n : ℕ) (c : LruCache V) (k : Text) (e : Entry V)
      → IsValid c
      → All (λ o. op_key o ≢ k) ops
      → n + length ops ≤ c.capacity
      → Recent n c.entries k e
      → Table.get (run c ops).entries k ≡ some e
  unfolding run
  Recent-run [] n c k e valid ne fits h = get-evict n c.entries k e valid.distinct h
  Recent-run (o ∷ ops) n c k e valid ne fits h =
      Recent-run ops (suc n) (apply c o) k e (apply-IsValid c o valid) ne.1
        (rw capacity-apply (omega arith)) (Recent-apply k e n c o valid ne.0 (omega arith) h)

  -- A written key survives any fewer than `capacity` operations on other keys: the next read of it
  -- returns its value, unless it has expired by then.
  pub get-run-put :
      (c : LruCache V) (k : Text) (v : V) (expires_ms : Option ℕ) (ops : List (Op V)) (now : ℕ)
      → IsValid c
      → All (λ o. op_key o ≢ k) ops
      → length ops < c.capacity
      → (get (run (put c k v expires_ms) ops) k now).1
        ≡ (if reached expires_ms now then none else some v)
  get-run-put c k v expires_ms ops now valid ne fits = rw (get-eq-live, kept) (unfold live in refl)
    where
      new : Entry V
      new = record { value = v; expires_ms = expires_ms }

      first : Recent 1 (put c k v expires_ms).entries k new
      first =
          rw (entries-put, evict-evict k new 1 c.capacity _ (omega arith))
            (get-evict_moved 1 c.entries k new (omega arith))

      kept : Table.get (run (put c k v expires_ms) ops).entries k ≡ some new
      kept =
          Recent-run ops 1 (put c k v expires_ms) k new (put-IsValid c k v expires_ms valid) ne
            (unfold put in omega arith) first
