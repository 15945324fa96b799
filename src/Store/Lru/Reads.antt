-- ===== src/Store/Lru/Reads.antt =====
-- src/shortener/store.py, `LruCache.get` after a write, an invalidation or an eviction.
use url_shortener_100x.Prelude.{
  ℕ, zero, suc, ◌<◌, ◌≡◌, refl, Option, none, some, [], ◌∷◌, ◌++◌, arith, length-append, Text,
  text_dec, ite, if_pos, ◌≢◌, if◌then◌else◌, Option-cases, Bool-cases, inl, inr, is_some, ◌+◌,
}
use url_shortener_100x.Prelude.Table
use url_shortener_100x.Prelude.Table.{Table, Distinct}
use url_shortener_100x.Store.Links.{reached}
use url_shortener_100x.Store.Lru.{Entry, LruCache, move_to_end, evict, get, put, invalidate}
use url_shortener_100x.Store.Lru.Bounds.{IsValid, remove-put, Distinct-moved}

module _ {ℓ} {V : Type ℓ} where
  -- The entry that a key has after the key was moved to the end.
  pub get-moved :
      (d : Table V) (k j : Text) (e : V)
      → Table.get (Table.remove d k ++ (k, e) ∷ []) j ≡ ite (text_dec k j) (some e) (Table.get d j)
  unfolding Table.get Table.remove
  get-moved [] k j e = refl
  get-moved ((i, w) ∷ d) k j e = ground (arith, get-moved d k j e)

module _ {ℓ} {V : Type ℓ} where
  -- Eviction only forgets.
  pub get-evict :
      (n : ℕ) (d : Table (Entry V)) (k : Text) (e : Entry V)
      → Distinct d
      → Table.get (evict n d) k ≡ some e
      → Table.get d k ≡ some e
  unfolding evict Table.get Distinct
  get-evict n [] k e u h = h
  get-evict n ((j, w) ∷ d) k e u h = ground (arith, get-evict n d k e u.1)

  pub evict-append_one :
      (n : ℕ) (d : Table (Entry V)) (x : Text × Entry V)
      → evict (suc n) (d ++ x ∷ []) ≡ evict n d ++ x ∷ []
  unfolding evict
  evict-append_one n [] x = ground arith
  evict-append_one n (y ∷ d) x = ground (arith, evict-append_one n d x, length-append d (x ∷ []))

  absent-evict :
      (n : ℕ) (d : Table (Entry V)) (k : Text)
      → Table.get d k ≡ none
      → Table.get (evict n d) k ≡ none
  unfolding evict Table.get
  absent-evict n [] k h = refl
  absent-evict n ((j, w) ∷ d) k h = ground (arith, absent-evict n d k)

  -- The entry that was just moved to the end stays, if the capacity is not 0.
  pub get-evict_moved :
      (n : ℕ) (d : Table (Entry V)) (k : Text) (e : Entry V)
      → 0 < n
      → Table.get (evict n (Table.remove d k ++ (k, e) ∷ [])) k ≡ some e
  get-evict_moved zero d k e p = absurd (omega arith)
  get-evict_moved (suc n) d k e p =
      let gone : Table.get (Table.remove d k) k ≡ none = ground (arith, Table.get-remove d k k) in
      rw (evict-append_one, Table.get-append_none, absent-evict n (Table.remove d k) k gone)
        (unfold Table.get in if_pos (text_dec k k) refl _ _)

  -- What a later `get` returns is decided by the entry under the key.
  unfoldable pub live : Option (Entry V) → ℕ → Option V
  live none now_ms = none
  live (some e) now_ms = if reached e.expires_ms now_ms then none else some e.value

  pub get-eq-live :
      (c : LruCache V) (k : Text) (now : ℕ) → (get c k now).1 ≡ live (Table.get c.entries k) now
  unfolding get live
  get-eq-live c k now = ground arith

  pub entries-put :
      (c : LruCache V) (k : Text) (v : V) (expires_ms : Option ℕ)
      → (put c k v expires_ms).entries
        ≡ evict c.capacity
            (Table.remove c.entries k ++ (k, record { value = v; expires_ms = expires_ms }) ∷ [])
  unfolding put move_to_end
  entries-put c k v expires_ms = rw remove-put

  -- A read straight after a write of the same key returns the value, unless it has expired by then.
  pub get-put_self :
      (c : LruCache V) (k : Text) (v : V) (expires_ms : Option ℕ) (now : ℕ)
      → 0 < c.capacity
      → (get (put c k v expires_ms) k now).1 ≡ (if reached expires_ms now then none else some v)
  get-put_self c k v expires_ms now p =
      rw (get-eq-live, entries-put, get-evict_moved c.capacity c.entries k _ p)
        (unfold live in refl)

  -- After an invalidation the key misses.
  pub get-invalidate : (c : LruCache V) (k : Text) (now : ℕ) → (get (invalidate c k) k now).1 ≡ none
  unfolding invalidate live
  get-invalidate c k now = rw get-eq-live (ground (arith, Table.get-remove c.entries k k))

  -- A write of one key can hide another key, by evicting it, and never changes what it holds.
  pub get-put_other :
      (c : LruCache V) (k j : Text) (v : V) (expires_ms : Option ℕ) (e : Entry V)
      → IsValid c
      → k ≢ j
      → Table.get (put c k v expires_ms).entries j ≡ some e
      → Table.get c.entries j ≡ some e
  get-put_other c k j v expires_ms e valid ne h =
      let new : Entry V = record { value = v; expires_ms = expires_ms } in
      let kept =
        get-evict c.capacity (Table.remove c.entries k ++ (k, new) ∷ []) j e
          (Distinct-moved c.entries k new valid.distinct) (rw entries-put at h) in
      ground (arith, get-moved c.entries k j new, kept)

  -- What stands under a key after a write of it is what was written.
  pub get-put_here :
      (c : LruCache V) (k : Text) (v : V) (expires_ms : Option ℕ) (e : Entry V)
      → IsValid c
      → Table.get (put c k v expires_ms).entries k ≡ some e
      → e ≡ record { value = v; expires_ms = expires_ms }
  get-put_here c k v expires_ms e valid h =
      let new : Entry V = record { value = v; expires_ms = expires_ms } in
      let kept =
        get-evict c.capacity (Table.remove c.entries k ++ (k, new) ∷ []) k e
          (Distinct-moved c.entries k new valid.distinct) (rw entries-put at h) in
      ground (arith, get-moved c.entries k k new, kept)

module _ {ℓ} {V : Type ℓ} where
  -- After a look that misses, the key has no entry.
  pub get-miss :
      (c : LruCache V) (k : Text) (now_ms : ℕ)
      → (get c k now_ms).1 ≡ none
      → Table.get (get c k now_ms).0.entries k ≡ none
  unfolding get
  get-miss c k now_ms h = elim (Option-cases (Table.get c.entries k)) [
    | inl absent ↦ rw (absent, get) absent
    | inr (e, there) ↦ elim (Bool-cases (reached e.expires_ms now_ms)) [
      | inl gone ↦ rw (there, gone, get) (ground (arith, Table.get-remove c.entries k k))
      | inr live ↦ absurd (ground (arith, rw (there, live, get) at h))
    ]
  ]

  -- A look counts one hit or one miss.
  pub get-counted :
      (c : LruCache V) (k : Text) (now_ms : ℕ)
      → let held = is_some (get c k now_ms).1 in
        ((get c k now_ms).0.hits ≡ c.hits + (if held then 1 else 0))
        × ((get c k now_ms).0.misses ≡ c.misses + (if held then 0 else 1))
  unfolding get
  get-counted c k now_ms = elim (Option-cases (Table.get c.entries k)) [
    | inl absent ↦ rw (absent, get) (omega arith, refl)
    | inr (e, there) ↦ elim (Bool-cases (reached e.expires_ms now_ms)) [
      | inl gone ↦ rw (there, gone, get) (omega arith, refl)
      | inr live ↦ rw (there, live, get) (refl, omega arith)
    ]
  ]
