-- ===== src/Store/Lru/Bounds.antt =====
-- src/shortener/store.py, the size and the keys of an `LruCache`.
use url_shortener_100x.Prelude.{
  ℕ, ◌≤◌, ◌<◌, ◌≡◌, refl, Option, none, some, [], ◌∷◌, ◌++◌, arith, length, length-append, Text,
  Option-cases, Bool-cases, inl, inr,
}
use url_shortener_100x.Prelude.Table
use url_shortener_100x.Prelude.Table.{Table, Distinct}
use url_shortener_100x.Store.Links.{reached}
use url_shortener_100x.Store.Lru.{
  Entry, LruCache, new_cache, move_to_end, evict, get, put, invalidate,
}

pub record IsValid {ℓ} {V : Type ℓ} (c : LruCache V) : Type ℓ where
  pub bounded : length c.entries ≤ c.capacity
  pub distinct : Distinct c.entries

module _ {ℓ} {V : Type ℓ} where
  pub Distinct-remove : (d : Table V) (k : Text) → Distinct d → Distinct (Table.remove d k)
  unfolding Distinct Table.remove
  Distinct-remove [] k h = h
  Distinct-remove ((j, v) ∷ d) k h = ground (arith, Distinct-remove d k h.1, Table.get-remove d k j)

  Distinct-append_one :
      (d : Table V) (k : Text) (v : V)
      → Table.get d k ≡ none
      → Distinct d
      → Distinct (d ++ (k, v) ∷ [])
  unfolding Distinct Table.get
  Distinct-append_one [] k v h u = (refl, tt)
  Distinct-append_one ((j, w) ∷ d) k v h u = ground (
    arith,
    Distinct-append_one d k v (ground arith) u.1,
    Table.get-append_none d ((k, v) ∷ []) j u.0,
  )

  -- A key that is put and moved to the end leaves the others as they were.
  pub remove-put :
      (d : Table V) (k : Text) (v : V) → Table.remove (Table.put d k v) k ≡ Table.remove d k
  unfolding Table.remove Table.put
  remove-put [] k v = ground arith
  remove-put ((j, w) ∷ d) k v = ground (arith, remove-put d k v)

  pub length-remove-lt :
      (d : Table V) (k : Text) (v : V)
      → Table.get d k ≡ some v
      → length (Table.remove d k) < length d
  unfolding Table.get Table.remove
  length-remove-lt [] k v h = absurd (ground arith)
  length-remove-lt ((j, w) ∷ d) k v h =
      ground (arith, length-remove-lt d k v, Table.length-remove d k)

module _ {ℓ} {V : Type ℓ} where
  pub length-evict : (n : ℕ) (d : Table (Entry V)) → length (evict n d) ≤ n
  unfolding evict
  length-evict n [] = omega arith
  length-evict n (x ∷ d) = ground (arith, length-evict n d)

  pub evict-fits : (n : ℕ) (d : Table (Entry V)) → length d ≤ n → evict n d ≡ d
  unfolding evict
  evict-fits n [] h = refl
  evict-fits n (x ∷ d) h = ground arith

  pub Distinct-evict : (n : ℕ) (d : Table (Entry V)) → Distinct d → Distinct (evict n d)
  unfolding evict Distinct
  Distinct-evict n [] h = h
  Distinct-evict n (x ∷ d) h = ground (arith, Distinct-evict n d h.1)

  pub Distinct-moved :
      (d : Table (Entry V)) (k : Text) (e : Entry V)
      → Distinct d
      → Distinct (Table.remove d k ++ (k, e) ∷ [])
  Distinct-moved d k e h =
      Distinct-append_one (Table.remove d k) k e (ground (arith, Table.get-remove d k k))
        (Distinct-remove d k h)

  pub length-move_to_end :
      (d : Table (Entry V)) (k : Text) (e : Entry V)
      → Table.get d k ≡ some e
      → length (move_to_end d k e) ≤ length d
  unfolding move_to_end
  length-move_to_end d k e h =
      omega (arith, length-remove-lt d k e h, length-append (Table.remove d k) ((k, e) ∷ []))

  pub new_cache-IsValid : (n : ℕ) → IsValid (new_cache {V = V} n)
  unfolding new_cache Distinct
  new_cache-IsValid n = record { bounded = omega arith; distinct = tt }

  pub put-IsValid :
      (c : LruCache V) (k : Text) (v : V) (expires_ms : Option ℕ)
      → IsValid c
      → IsValid (put c k v expires_ms)
  unfolding put
  put-IsValid c k v expires_ms h =
      let e : Entry V = record { value = v; expires_ms = expires_ms } in
      record {
        bounded = length-evict c.capacity _;
        distinct =
            Distinct-evict c.capacity (move_to_end (Table.put c.entries k e) k e)
              (unfold move_to_end in rw remove-put (Distinct-moved c.entries k e h.distinct));
      }

  pub invalidate-IsValid : (c : LruCache V) (k : Text) → IsValid c → IsValid (invalidate c k)
  unfolding invalidate
  invalidate-IsValid c k h = record {
    bounded = omega (arith, Table.length-remove c.entries k, h.bounded);
    distinct = Distinct-remove c.entries k h.distinct;
  }

  pub get-IsValid : (c : LruCache V) (k : Text) (now : ℕ) → IsValid c → IsValid (get c k now).0
  unfolding get
  get-IsValid c k now h = elim (Option-cases (Table.get c.entries k)) [
    | inl miss ↦ rw (miss, get) (record { bounded = h.bounded; distinct = h.distinct })
    | inr (e, hit) ↦ elim (Bool-cases (reached e.expires_ms now)) [
      | inl old ↦
          rw (hit, get, old)
            (record {
              bounded = omega (arith, Table.length-remove c.entries k, h.bounded);
              distinct = Distinct-remove c.entries k h.distinct;
            })
      | inr live ↦
          rw (hit, get, live)
            (record {
              bounded = omega (arith, length-move_to_end c.entries k e hit, h.bounded);
              distinct = Distinct-moved c.entries k e h.distinct;
            })
    ]
  ]
