-- ===== src/Store/Postgres.antt =====
-- src/shortener/pgstore.py, `PgLinkStore`. A `TIMESTAMPTZ` is its microseconds since 1970. The number
-- that `_dt` gives is exact for times before the year 2242; what `_ms` reads, a product of floats that
-- is cut off, is the argument `ms_of`. A transaction is one step that is rolled back where it fails,
-- and `up` is false where the database refuses the batch. Other errors of the database leave a method
-- as an uncaught exception, and are not modelled.
pub mod Conformance
pub mod Sweep
use url_shortener_100x.Prelude.{
  ℕ, ◌+◌, ◌*◌, ◌/◌, Bool, true, false, Option, none, some, List, [], ◌∷◌, leb, if◌then◌else◌,
  length, Text, Result, ok, raise, key_error, other_error,
}
use url_shortener_100x.Prelude.Table
use url_shortener_100x.Prelude.Table.{Table}
use url_shortener_100x.Store.Links.{Link, now_or, expiry}

-- A row of `links`, without its primary key.
pub record PgRow : Type 0 where
  pub target : Text
  pub created_at : ℕ
  pub expires_at : Option ℕ

pub record PgLinkStore : Type 0 where
  pub links : Table PgRow
  pub link_hits : Table ℕ

-- `_dt`, on a number and on `None`.
abbrev pub dt : ℕ → ℕ
dt ms = ms * 1000

abbrev pub dt_or_none : Option ℕ → Option ℕ
dt_or_none none = none
dt_or_none (some ms) = some (dt ms)

-- `_ms`, where `ms_of` is `int(dt.timestamp() * 1000)`.
abbrev pub ms_or_none : (ℕ → ℕ) → Option ℕ → Option ℕ
ms_or_none ms_of none = none
ms_or_none ms_of (some time) = some (ms_of time)

-- `INSERT … ON CONFLICT (code) DO NOTHING RETURNING code`: whether the row won.
unfoldable pub insert_row : PgLinkStore → Text → PgRow → PgLinkStore × Bool
insert_row s code row = elim (Table.get s.links code) [
  | none ↦ (record s { links = Table.put s.links code row }, true)
  | some _ ↦ (s, false)
]

unfoldable pub create :
    PgLinkStore → Text → Text → Option ℕ → Option ℕ → ℕ → PgLinkStore × Result Link
unfolding now_or expiry insert_row
create s code target ttl_seconds now_arg clock =
    let now_ms = now_or now_arg clock in
    let expires = expiry ttl_seconds now_ms in
    let (s2, won) =
      insert_row s code
        (record { target = target; created_at = dt now_ms; expires_at = dt_or_none expires }) in
    if won
    then (
      s2,
      ok (record {
        code = code;
        target = target;
        created_ms = now_ms;
        expires_ms = expires;
        hits = 0;
      }),
    )
    else (s2, raise key_error)

unfoldable pub get : (ℕ → ℕ) → PgLinkStore → Text → Option Link
get ms_of s code = elim (Table.get s.links code) [
  | none ↦ none
  | some r ↦ some (record {
    code = code;
    target = r.target;
    created_ms = ms_of r.created_at;
    expires_ms = ms_or_none ms_of r.expires_at;
    hits = 0;
  })
]

unfoldable pub hits : PgLinkStore → Text → ℕ
hits s code = elim (Table.get s.link_hits code) [ none ↦ 0 | some n ↦ n ]

-- `INSERT … ON CONFLICT (code) DO UPDATE SET hits = link_hits.hits + EXCLUDED.hits`
unfoldable pub upsert_hits : PgLinkStore → Text → ℕ → PgLinkStore
unfolding hits
upsert_hits s code n = record s { link_hits = Table.put s.link_hits code (hits s code + n) }

unfoldable pub execute_many : PgLinkStore → Table ℕ → PgLinkStore
execute_many s [] = s
execute_many s ((code, n) ∷ items) = execute_many (upsert_hits s code n) items

unfoldable pub record_hits_bulk : Bool → PgLinkStore → Table ℕ → PgLinkStore × Result ℕ
record_hits_bulk up s [] = (s, ok 0)
record_hits_bulk false s (c ∷ items) = (s, raise other_error)
record_hits_bulk true s (c ∷ items) = (execute_many s (c ∷ items), ok (length (c ∷ items)))

unfoldable pub record_hit : Bool → PgLinkStore → Text → PgLinkStore × Result ℕ
unfolding record_hits_bulk
record_hit up s code = record_hits_bulk up s ((code, 1) ∷ [])

unfoldable pub count : PgLinkStore → ℕ
count s = length s.links

-- `expires_at IS NOT NULL AND expires_at <= time`
unfoldable pub is_past : ℕ → PgRow → Bool
is_past time r = elim r.expires_at [ none ↦ false | some t ↦ leb t time ]

-- The rows that a sweep leaves, and the codes that it returns.
unfoldable pub kept_rows : ℕ → Table PgRow → Table PgRow
kept_rows time [] = []
kept_rows time ((code, r) ∷ rows) =
    let rest = kept_rows time rows in if is_past time r then rest else (code, r) ∷ rest

unfoldable pub gone_codes : ℕ → Table PgRow → List Text
gone_codes time [] = []
gone_codes time ((code, r) ∷ rows) =
    let rest = gone_codes time rows in if is_past time r then code ∷ rest else rest

-- `purge_expired`; `database_now` is `NOW()`.
unfoldable pub purge_expired : PgLinkStore → Option ℕ → ℕ → PgLinkStore × ℕ
unfolding kept_rows gone_codes is_past
purge_expired s now_ms database_now =
    let time : ℕ = elim now_ms [ none ↦ database_now | some ms ↦ dt ms ] in
    (record s { links = kept_rows time s.links }, length (gone_codes time s.links))
