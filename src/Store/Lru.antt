-- ===== src/Store/Lru.antt =====
-- src/shortener/store.py, `LruCache`: the ordered dictionary is a list, least recently used first.
pub mod Bounds
pub mod Reads
pub mod Recency
use url_shortener_100x.Prelude.{
  ℕ, ◌+◌, Option, none, some, List, [], ◌∷◌, ◌++◌, ltb, if◌then◌else◌, length, Text,
}
use url_shortener_100x.Prelude.Table
use url_shortener_100x.Prelude.Table.{Table}
use url_shortener_100x.Store.Links.{reached}

-- `(value, expires_ms)`
pub record Entry {ℓ} (V : Type ℓ) : Type ℓ where
  pub value : V
  pub expires_ms : Option ℕ

pub record LruCache {ℓ} (V : Type ℓ) : Type ℓ where
  pub capacity : ℕ
  pub entries : Table (Entry V)
  pub hits : ℕ
  pub misses : ℕ

module _ {ℓ} {V : Type ℓ} where
  -- `LruCache(capacity)`
  unfoldable pub new_cache : ℕ → LruCache V
  new_cache capacity = record { capacity = capacity; entries = []; hits = 0; misses = 0 }

  -- `OrderedDict.move_to_end(key)`, for the entry under the key.
  unfoldable pub move_to_end : Table (Entry V) → Text → Entry V → Table (Entry V)
  move_to_end d key e = Table.remove d key ++ (key, e) ∷ []

  -- `while len(d) > capacity: d.popitem(last=False)`
  unfoldable pub evict : ℕ → Table (Entry V) → Table (Entry V)
  evict capacity [] = []
  evict capacity (x ∷ d) = if ltb capacity (length (x ∷ d)) then evict capacity d else x ∷ d

  unfoldable pub get : LruCache V → Text → ℕ → LruCache V × Option V
  unfolding move_to_end
  get c key now_ms = elim (Table.get c.entries key) [
    | none ↦ (record c { misses = c.misses + 1 }, none)
    | some e ↦
        if reached e.expires_ms now_ms
        then (record c { entries = Table.remove c.entries key; misses = c.misses + 1 }, none)
        else (record c { entries = move_to_end c.entries key e; hits = c.hits + 1 }, some e.value)
  ]

  unfoldable pub put : LruCache V → Text → V → Option ℕ → LruCache V
  unfolding move_to_end
  put c key value expires_ms =
      let e : Entry V = record { value = value; expires_ms = expires_ms } in
      record c { entries = evict c.capacity (move_to_end (Table.put c.entries key e) key e) }

  -- `self._data.pop(key, None)`
  unfoldable pub invalidate : LruCache V → Text → LruCache V
  invalidate c key = record c { entries = Table.remove c.entries key }

  -- `hit_ratio` as a fraction; 0 / 0 is read as 0 by the source.
  unfoldable pub hit_ratio : LruCache V → ℕ × ℕ
  hit_ratio c = (c.hits, c.hits + c.misses)

  unfoldable pub size : LruCache V → ℕ
  size c = length c.entries
