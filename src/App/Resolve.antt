-- ===== src/App/Resolve.antt =====
-- src/shortener/app.py, the reading part of `resolve`: the cache, and the link store behind it.
use url_shortener_100x.Prelude.{
  ℕ, ◌≡◌, inl, inr, refl, sym, ◌∙◌, ap, Option, none, some, [], ◌∷◌, ◌++◌, arith, if◌then◌else◌,
  Text, text_dec, Bool-cases, Option-cases,
}
use url_shortener_100x.Prelude.Table
use url_shortener_100x.Prelude.Table.{Table}
use url_shortener_100x.Store.Links
use url_shortener_100x.Store.Links.{Link, LinkStore, is_expired, reached}
use url_shortener_100x.Store.Lru
use url_shortener_100x.Store.Lru.{LruCache, Entry, move_to_end}
use url_shortener_100x.Store.Lru.Bounds.{IsValid, get-IsValid, put-IsValid}
use url_shortener_100x.Store.Lru.Reads.{get-eq-live, live, get-put_other, get-put_here, get-moved}
use url_shortener_100x.App.{load, fetch}

-- What `resolve` means to answer: the target of the stored link, unless it has expired.
unfoldable pub lookup : LinkStore → Text → ℕ → Option Text
lookup links code now_ms = elim (Links.get links code) [
  | none ↦ none
  | some link ↦ if is_expired link now_ms then none else some link.target
]

-- An entry of the cache repeats the target and the expiry of a stored link.
abbrev pub Copied : LinkStore → Text → Entry Text → Type 0
Copied links code e =
    (l : Link) × (Links.get links code ≡ some l)
    × (l.target ≡ e.value)
    × (l.expires_ms ≡ e.expires_ms)

pub record Coherent (cache : LruCache Text) (links : LinkStore) : Type 0 where
  pub valid : IsValid cache
  pub copied :
      (code : Text) (e : Entry Text) → Table.get cache.entries code ≡ some e → Copied links code e

entries-missed :
    (c : LruCache Text) (k : Text) (now : ℕ)
    → Table.get c.entries k ≡ none
    → (Lru.get c k now).0.entries ≡ c.entries
unfolding Lru.get
entries-missed c k now miss = rw (miss, Lru.get) refl

entries-found :
    (c : LruCache Text) (k : Text) (now : ℕ) (x : Entry Text)
    → Table.get c.entries k ≡ some x
    → (Lru.get c k now).0.entries ≡ (
        if reached x.expires_ms now
        then Table.remove c.entries k
        else Table.remove c.entries k ++ (k, x) ∷ [])
unfolding Lru.get
entries-found c k now x found = rw (found, Lru.get) (ground arith)

-- A read adds no entry and changes none.
entries-get :
    (c : LruCache Text) (k j : Text) (now : ℕ) (e : Entry Text)
    → Table.get (Lru.get c k now).0.entries j ≡ some e
    → Table.get c.entries j ≡ some e
entries-get c k j now e h = elim (Option-cases (Table.get c.entries k)) [
  | inl miss ↦ rw (entries-missed c k now miss) at h
  | inr (x, found) ↦
      let h2 = rw (entries-found c k now x found) at h in
      ground (arith, found, h2, get-moved c.entries k j x, Table.get-remove c.entries k j)
]

get-Coherent :
    (c : LruCache Text) (links : LinkStore) (k : Text) (now : ℕ)
    → Coherent c links
    → Coherent (Lru.get c k now).0 links
get-Coherent c links k now h = record {
  valid = get-IsValid c k now h.valid;
  copied = λ code e hit. h.copied code e (entries-get c k code now e hit);
}

pub lookup-stored :
    (links : LinkStore) (code : Text) (now : ℕ) (l : Link)
    → Links.get links code ≡ some l
    → lookup links code now ≡ (if is_expired l now then none else some l.target)
unfolding lookup
lookup-stored links code now l h = rw (h, lookup) refl

hit-lookup :
    (c : LruCache Text) (links : LinkStore) (code : Text) (now : ℕ) (t : Text)
    → Coherent c links
    → (Lru.get c code now).1 ≡ some t
    → lookup links code now ≡ some t
unfolding live is_expired
hit-lookup c links code now t h hit = elim (Option-cases (Table.get c.entries code)) [
  | inl miss ↦ absurd (ground (arith, get-eq-live c code now))
  | inr (x, found) ↦
      let (l, stored, same, time) = h.copied code x found in
      ground (arith, lookup-stored links code now l stored, get-eq-live c code now, same, time)
]

module _ (c : LruCache Text) (links : LinkStore) (code : Text) (now : ℕ) where
  load-hit :
      (t : Text)
      → (Lru.get c code now).1 ≡ some t
      → load c links code now ≡ ((Lru.get c code now).0, some t)
  unfolding load
  load-hit t h = rw (h, load) refl

  load-missed :
      (Lru.get c code now).1 ≡ none
      → Links.get links code ≡ none
      → load c links code now ≡ ((Lru.get c code now).0, none)
  unfolding load
  load-missed h e = rw (h, e, load) refl

  load-stored :
      (l : Link)
      → (Lru.get c code now).1 ≡ none
      → Links.get links code ≡ some l
      → load c links code now ≡ (
          if is_expired l now
          then ((Lru.get c code now).0, none)
          else (Lru.put (Lru.get c code now).0 code l.target l.expires_ms, some l.target))
  unfolding load
  load-stored l h e = rw (h, e, load) refl

put-Coherent :
    (c : LruCache Text) (links : LinkStore) (code : Text) (l : Link)
    → Coherent c links
    → Links.get links code ≡ some l
    → Coherent (Lru.put c code l.target l.expires_ms) links
put-Coherent c links code l h stored = record {
  valid = put-IsValid c code l.target l.expires_ms h.valid;
  copied = λ j e hit. elim (text_dec code j) [
    | yes same ↦
        let new : e ≡ record { value = l.target; expires_ms = l.expires_ms } =
          get-put_here c code l.target l.expires_ms e h.valid (rw (sym same) at hit) in
        (l, ap (Links.get links) (sym same) ∙ stored, rw new refl, rw new refl)
    | no other ↦ h.copied j e (get-put_other c code j l.target l.expires_ms e h.valid other hit)
  ];
}

-- What a step of the read leaves and answers.
abbrev Reads : LinkStore → Text → ℕ → LruCache Text × Option Text → Type 0
Reads links code now (cache, target) = Coherent cache links × (target ≡ lookup links code now)

load-Reads :
    (c : LruCache Text) (links : LinkStore) (code : Text) (now : ℕ)
    → Coherent c links
    → Reads links code now (load c links code now)
unfolding lookup
load-Reads c links code now h = elim (Option-cases (Lru.get c code now).1) [
  | inr (t, hit) ↦
      rw (load-hit c links code now t hit)
        (get-Coherent c links code now h, sym (hit-lookup c links code now t h hit))
  | inl miss ↦ elim (Option-cases (Links.get links code)) [
    | inl absent ↦
        rw (load-missed c links code now miss absent)
          (get-Coherent c links code now h, rw (absent, lookup) refl)
    | inr (l, stored) ↦ elim (Bool-cases (is_expired l now)) [
      | inl old ↦
          rw (load-stored c links code now l miss stored, old)
            (get-Coherent c links code now h, rw (lookup-stored links code now l stored, old) refl)
      | inr new ↦
          rw (load-stored c links code now l miss stored, new)
            (
              put-Coherent (Lru.get c code now).0 links code l (get-Coherent c links code now h)
                  stored,
              rw (lookup-stored links code now l stored, new) refl,
            )
    ]
  ]
]

module _ (c : LruCache Text) (links : LinkStore) (code : Text) (now : ℕ) where
  fetch-hit :
      (t : Text)
      → (Lru.get c code now).1 ≡ some t
      → fetch c links code now ≡ ((Lru.get c code now).0, some t)
  unfolding fetch
  fetch-hit t h = rw (h, fetch) refl

  fetch-missed :
      (Lru.get c code now).1 ≡ none
      → fetch c links code now ≡ load (Lru.get c code now).0 links code now
  unfolding fetch
  fetch-missed h = rw (h, fetch) refl

  -- The cache in front of the store is not seen: a coherent cache stays coherent, and the target is
  -- the one of the stored link that has not expired, or there is none.
  pub fetch-lookup :
      Coherent c links
      → Coherent (fetch c links code now).0 links
        × ((fetch c links code now).1 ≡ lookup links code now)
  fetch-lookup h = elim (Option-cases (Lru.get c code now).1) [
    | inr (t, hit) ↦
        rw (fetch-hit t hit)
          (get-Coherent c links code now h, sym (hit-lookup c links code now t h hit))
    | inl miss ↦
        rw (fetch-missed miss)
          (load-Reads (Lru.get c code now).0 links code now (get-Coherent c links code now h))
  ]
