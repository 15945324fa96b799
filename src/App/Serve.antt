-- ===== src/App/Serve.antt =====
-- src/shortener/app.py, the responses of `resolve`.
use url_shortener_100x.Prelude.{
  ℕ, ◌≡◌, ◌⊎◌, inl, inr, refl, sym, ◌∙◌, ap, true, false, Option, none, some, [], ◌∷◌, Text, Result,
  Option-cases, Bool-cases,
}
use url_shortener_100x.Prelude.Table.{Table}
use url_shortener_100x.Store.Links
use url_shortener_100x.Store.Links.{
  LinkStore, Write, commits, fails_after, first_rows, execute_many, record_hits_bulk,
}
use url_shortener_100x.Store.Lru.{LruCache}
use url_shortener_100x.Counters.{HitCounter, count_hit, is_due, record_hit, flush, settle, take}
use url_shortener_100x.Limiter.{Decision}
use url_shortener_100x.Abuse.Takedown
use url_shortener_100x.App.{
  Shared, Instance, Reading, Response, gone, not_found, fetch, answer, deliver, look_up,
  enforce_limit, resolve,
}
use url_shortener_100x.App.Resolve.{Coherent, lookup, fetch-lookup}

links-execute_many : (items : Table ℕ) (s : LinkStore) → (execute_many s items).links ≡ s.links
unfolding execute_many Links.upsert_hits
links-execute_many [] s = refl
links-execute_many ((code, n) ∷ items) s = links-execute_many items (Links.upsert_hits s code n)

links-record_hits_bulk :
    (write : Write) (s : LinkStore) (items : Table ℕ)
    → (record_hits_bulk write s items).0.links ≡ s.links
unfolding record_hits_bulk
links-record_hits_bulk write s [] = refl
links-record_hits_bulk (fails_after n) s (c ∷ items) =
    links-execute_many (first_rows n (c ∷ items)) s
links-record_hits_bulk commits s (c ∷ items) = links-execute_many (c ∷ items) s

links-settle :
    (h : HitCounter) (s : LinkStore) (batch : Table ℕ) (write : Write)
    → (settle h s batch write).1.links ≡ s.links
unfolding settle record_hits_bulk
links-settle h s [] write = refl
links-settle h s (c ∷ batch) (fails_after n) = links-execute_many (first_rows n (c ∷ batch)) s
links-settle h s (c ∷ batch) commits = links-execute_many (c ∷ batch) s

pub links-flush :
    (h : HitCounter) (s : LinkStore) (now : ℕ) (write : Write)
    → (flush h s now write).1.links ≡ s.links
unfolding flush
links-flush h s now write = elim (Option-cases (take h now).1) [
  | inl e ↦ rw (e, flush) refl
  | inr (b, e) ↦ rw (e, flush) (links-settle (take h now).0 s b write)
]

-- Counting a hit touches no link.
pub links-record_hit :
    (h : HitCounter) (s : LinkStore) (code : Text) (now : ℕ) (write : Write)
    → (record_hit h s code now write).1.links ≡ s.links
unfolding record_hit
links-record_hit h s code now write = elim (Bool-cases (is_due (count_hit h code) now)) [
  | inl e ↦ rw (e, record_hit) (links-flush (count_hit h code) s now write)
  | inr e ↦ rw (e, record_hit) refl
]

-- The store's links, and nothing else of it, decide whether a cache is coherent with it.
pub Coherent-links :
    (c : LruCache Text) (s t : LinkStore) → s.links ≡ t.links → Coherent c s → Coherent c t
unfolding Links.get
Coherent-links c s t e h = record {
  valid = h.valid;
  copied = λ code x hit.
      let (l, stored, same, time) = h.copied code x hit in (l, (rw e at stored), same, time);
}

-- What `resolve` says of a code that is not withdrawn.
abbrev pub found_response : Table Text → Text → Option Text → Response
found_response interstitials code none = not_found
found_response interstitials code (some target) = answer interstitials code target

module _ {L : Type 0} (s : Shared) (i : Instance L) (code : Text) (at : Reading) where
  pub look_up-gone :
      Takedown.contains i.takedowns code ≡ true
      → look_up s i code at ≡ (s, i, gone (Takedown.reason i.takedowns code))
  unfolding look_up
  look_up-gone h = rw (h, look_up) refl

  pub look_up-listed_not :
      Takedown.contains i.takedowns code ≡ false
      → look_up s i code at ≡ (
          let (cache, target) = fetch i.cache s.links code at.now_ms in
          deliver s (record i { cache = cache }) code at target)
  unfolding look_up
  look_up-listed_not h = rw (h, look_up) refl

  deliver-Coherent :
      (cache : LruCache Text) (target : Option Text)
      → Coherent cache s.links
      → let (s2, i2, r) = deliver s (record i { cache = cache }) code at target in
        (r ≡ found_response i.interstitials code target) × Coherent i2.cache s2.links
  unfolding deliver
  deliver-Coherent cache none h = (refl, h)
  deliver-Coherent cache (some target) h = (
    refl,
    Coherent-links cache s.links _
        (sym (links-record_hit i.hits s.links code at.monotonic at.store_write)) h,
  )

  -- A code that is not withdrawn gets the stored target if there is one that has not expired, as a
  -- redirect or behind the page that warns of it, and else a 404; whatever the cache holds, as long
  -- as it is coherent with the store, and it stays so.
  look_up-lookup :
      Coherent i.cache s.links
      → Takedown.contains i.takedowns code ≡ false
      → let (s2, i2, r) = look_up s i code at in
        (r ≡ found_response i.interstitials code (lookup s.links code at.now_ms))
        × Coherent i2.cache s2.links
  look_up-lookup h listed_not =
      let (kept, same) = fetch-lookup i.cache s.links code at.now_ms h in
      let (told, coherent) =
        deliver-Coherent (fetch i.cache s.links code at.now_ms).0
          (fetch i.cache s.links code at.now_ms).1 kept in
      rw (look_up-listed_not listed_not)
        (told ∙ ap (found_response i.interstitials code) same, coherent)

module _ {L : Type 0} (inner : L → Text → ℕ → L × Result Decision) where
  module _ (s : Shared) (i : Instance L) (client code : Text) (at : Reading) where
    pub enforce_limit-keeps :
        ((enforce_limit inner i client at).0.takedowns ≡ i.takedowns)
        × ((enforce_limit inner i client at).0.cache ≡ i.cache)
        × ((enforce_limit inner i client at).0.interstitials ≡ i.interstitials)
    unfolding enforce_limit
    enforce_limit-keeps = elim (Bool-cases i.limiter_enabled) [
      | inl e ↦ rw (e, enforce_limit) (refl, refl, refl)
      | inr e ↦ rw (e, enforce_limit) (refl, refl, refl)
    ]

    pub resolve-stopped :
        (r : Response)
        → (enforce_limit inner i client at).1 ≡ some r
        → resolve inner s i client code at ≡ (s, (enforce_limit inner i client at).0, r)
    unfolding resolve
    resolve-stopped r h = rw (h, resolve) refl

    pub resolve-passed :
        (enforce_limit inner i client at).1 ≡ none
        → resolve inner s i client code at ≡ look_up s (enforce_limit inner i client at).0 code at
    unfolding resolve
    resolve-passed h = rw (h, resolve) refl

    -- A request for a withdrawn code is stopped by the limit or told that the link is gone, with the
    -- reason of the takedown; the cache, with its counters, and the link store are left as they were.
    pub resolve-gone :
        Takedown.contains i.takedowns code ≡ true
        → let (s2, i2, r) = resolve inner s i client code at in
          (((enforce_limit inner i client at).1 ≡ some r)
            ⊎ (r ≡ gone (Takedown.reason i.takedowns code)))
          × (s2 ≡ s)
          × (i2.cache ≡ i.cache)
    resolve-gone h =
        let (same_list, same_cache, same_pages) = enforce_limit-keeps in
        elim (Option-cases (enforce_limit inner i client at).1) [
          | inr (r, stopped) ↦ rw (resolve-stopped r stopped) (inl stopped, refl, same_cache)
          | inl passed ↦
              let limited = (enforce_limit inner i client at).0 in
              let listed = ap (λ t. Takedown.contains t code) same_list ∙ h in
              rw (resolve-passed passed ∙ look_up-gone s limited code at listed)
                (inr (ap (λ t. gone (Takedown.reason t code)) same_list), refl, same_cache)
        ]

    -- A request that the limit lets through is answered with the stored target if the code is not
    -- withdrawn and the link has not expired, and with a 404 if there is none.
    pub resolve-lookup :
        (enforce_limit inner i client at).1 ≡ none
        → Coherent i.cache s.links
        → Takedown.contains i.takedowns code ≡ false
        → let (s2, i2, r) = resolve inner s i client code at in
          (r ≡ found_response i.interstitials code (lookup s.links code at.now_ms))
          × Coherent i2.cache s2.links
    resolve-lookup passed h listed_not =
        let (same_list, same_cache, same_pages) = enforce_limit-keeps in
        let limited = (enforce_limit inner i client at).0 in
        let kept =
          look_up-lookup s limited code at (rw same_cache h)
            (ap (λ t. Takedown.contains t code) same_list ∙ listed_not) in
        rw (resolve-passed passed) (
          kept.0
              ∙ ap (λ pages. found_response pages code (lookup s.links code at.now_ms)) same_pages,
          kept.1,
        )
