-- ===== src/Store/Postgres/Sweep.antt =====
-- src/shortener/pgstore.py, `purge_expired`, and what readers see of it.
use url_shortener_100x.Prelude.{
  ℕ, ◌+◌, ◌≤◌, ◌≡◌, refl, ap, ◌∙◌, true, Option, none, some, [], ◌∷◌, arith, if◌then◌else◌, length,
  Text, Option-cases, Bool-cases, inl, inr,
}
use url_shortener_100x.Prelude.Table
use url_shortener_100x.Prelude.Table.{Table, Distinct}
use url_shortener_100x.Store.Links.{Link, is_expired}
use url_shortener_100x.Store.Postgres.{
  PgRow, PgLinkStore, dt, ms_or_none, is_past, kept_rows, gone_codes, purge_expired, get, hits,
  count,
}

-- A row of the table that the sweep takes.
abbrev swept : ℕ → Option PgRow → Option PgRow
swept time none = none
swept time (some r) = if is_past time r then none else some r

kept_rows-absent :
    (time : ℕ) (rows : Table PgRow) (code : Text)
    → Table.get rows code ≡ none
    → Table.get (kept_rows time rows) code ≡ none
unfolding kept_rows Table.get
kept_rows-absent time [] code h = refl
kept_rows-absent time ((c, r) ∷ rows) code h = ground (arith, kept_rows-absent time rows code)

get-kept_rows :
    (time : ℕ) (rows : Table PgRow) (code : Text)
    → Distinct rows
    → Table.get (kept_rows time rows) code ≡ swept time (Table.get rows code)
unfolding kept_rows Table.get Distinct
get-kept_rows time [] code u = refl
get-kept_rows time ((c, r) ∷ rows) code u =
    ground (arith, get-kept_rows time rows code u.1, kept_rows-absent time rows c u.0)

length-kept_rows :
    (time : ℕ) (rows : Table PgRow)
    → length (kept_rows time rows) + length (gone_codes time rows) ≡ length rows
unfolding kept_rows gone_codes
length-kept_rows time [] = refl
length-kept_rows time ((c, r) ∷ rows) = ground (arith, length-kept_rows time rows)

abbrev link_of : (ℕ → ℕ) → Text → PgRow → Link
link_of ms_of code r = record {
  code = code;
  target = r.target;
  created_ms = ms_of r.created_at;
  expires_ms = ms_or_none ms_of r.expires_at;
  hits = 0;
}

get-row :
    (ms_of : ℕ → ℕ) (s : PgLinkStore) (code : Text) (o : Option PgRow)
    → Table.get s.links code ≡ o
    → get ms_of s code ≡ elim o [ none ↦ none | some r ↦ some (link_of ms_of code r) ]
unfolding get
get-row ms_of s code none e = rw (e, get) refl
get-row ms_of s code (some r) e = rw (e, get) refl

-- A row that a sweep takes is a link that has expired, then and later.
is_expired-link_of :
    (ms_of : ℕ → ℕ)
    → ((t ms : ℕ) → t ≤ dt ms → ms_of t ≤ ms)
    → (code : Text) (now later : ℕ) (r : PgRow) → now ≤ later
    → is_past (dt now) r ≡ true
    → is_expired (link_of ms_of code r) later ≡ true
unfolding is_past is_expired
is_expired-link_of ms_of not_later code now later r h past = elim (Option-cases r.expires_at) [
  | inl e ↦ absurd (ground arith)
  | inr (t, e) ↦ ground (arith, not_later t now)
]

-- What a reader at a time makes of the store's answer.
abbrev pub unexpired : Option Link → ℕ → Option Link
unexpired none time = none
unexpired (some l) time = if is_expired l time then none else some l

module _ (s : PgLinkStore) (now database_now : ℕ) where
  abbrev pub after : PgLinkStore
  after = (purge_expired s (some now) database_now).0

  after-rows : after.links ≡ kept_rows (dt now) s.links
  unfolding purge_expired
  after-rows = refl

  -- `ms_of` is `int(dt.timestamp() * 1000)`. It may lose a part of a millisecond, and never gains
  -- one: a time that is not after a millisecond is not read as a later one.
  module _ (ms_of : ℕ → ℕ) (not_later : (t ms : ℕ) → t ≤ dt ms → ms_of t ≤ ms) where
    found-after :
        Distinct s.links
        → (code : Text) (later : ℕ) → now ≤ later
        → unexpired (get ms_of after code) later ≡ unexpired (get ms_of s code) later
    found-after u code later h = elim (Option-cases (Table.get s.links code)) [
      | inl e ↦
          rw
            (
              get-row ms_of after code none (kept code ∙ ap (swept (dt now)) e),
              get-row ms_of s code none e,
            )
            refl
      | inr (r, e) ↦ elim (Bool-cases (is_past (dt now) r)) [
        | inl past ↦
            rw
              (
                get-row ms_of after code none (kept code ∙ ap (swept (dt now)) e ∙ rw past refl),
                get-row ms_of s code (some r) e,
                is_expired-link_of ms_of not_later code now later r h past,
              )
              refl
        | inr stays ↦
            rw
              (
                get-row ms_of after code (some r)
                    (kept code ∙ ap (swept (dt now)) e ∙ rw stays refl),
                get-row ms_of s code (some r) e,
              )
              refl
      ]
    ]
      where
        kept : (c : Text) → Table.get after.links c ≡ swept (dt now) (Table.get s.links c)
        kept c = ap (λ rows. Table.get rows c) after-rows ∙ get-kept_rows (dt now) s.links c u

    -- On a table with distinct codes a sweep deletes as many rows as it says, and changes no count of
    -- hits. It takes expired rows only: at its time and at every later time each code is found as
    -- before.
    pub purge_expired-found :
        Distinct s.links
        → (count after + (purge_expired s (some now) database_now).1 ≡ count s)
          × ((code : Text) → hits after code ≡ hits s code)
          × ((code : Text) (later : ℕ)
              → now ≤ later
              → unexpired (get ms_of after code) later ≡ unexpired (get ms_of s code) later)
    unfolding purge_expired count hits
    purge_expired-found u = (
      length-kept_rows (dt now) s.links,
      λ code. refl,
      λ code later h. found-after u code later h,
    )
