-- ===== src/Store/Links.antt =====
-- src/shortener/store.py, `Link` and `LinkStore`: the two tables, and each method as a function from
-- the tables before to the tables after with the value that it returns or the exception.
-- A clock reading is an argument, and so is how a write ends (`Write`). The tables are what the
-- connection that writes sees: rows of a transaction that is still open are among them, and its next
-- commit makes them durable. A query that fails leaves `get`, `hits` and `count` as an exception that
-- no caller catches, and is not modelled.
pub mod Laws
pub mod Hits
use url_shortener_100x.Prelude.{
  ℕ, ◌+◌, ◌*◌, Bool, true, false, Option, none, some, List, [], ◌∷◌, ◌++◌, leb, if◌then◌else◌,
  length, Text, Error, Result, ok, raise, other_error, key_error, zero, suc,
}
use url_shortener_100x.Prelude.Table
use url_shortener_100x.Prelude.Table.{Table}

pub record Link : Type 0 where
  pub code : Text
  pub target : Text
  pub created_ms : ℕ
  pub expires_ms : Option ℕ
  pub hits : ℕ

-- `expires_ms is not None and now_ms >= expires_ms`
unfoldable pub reached : Option ℕ → ℕ → Bool
reached none now_ms = false
reached (some t) now_ms = leb t now_ms

unfoldable pub is_expired : Link → ℕ → Bool
unfolding reached
is_expired l now_ms = reached l.expires_ms now_ms

-- A row of `links`, without its primary key.
pub record Row : Type 0 where
  pub target : Text
  pub created_ms : ℕ
  pub expires_ms : Option ℕ

pub record LinkStore : Type 0 where
  pub links : Table Row
  pub link_hits : Table ℕ

-- `CREATE TABLE IF NOT EXISTS` on a new path.
abbrev pub empty_store : LinkStore
empty_store = record { links = []; link_hits = [] }

-- `now_ms or int(time.time() * 1000)`: both `None` and 0 read the clock.
unfoldable pub now_or : Option ℕ → ℕ → ℕ
now_or none clock = clock
now_or (some zero) clock = clock
now_or (some (suc n)) clock = suc n

-- `now_ms + ttl_seconds * 1000 if ttl_seconds else None`
unfoldable pub expiry : Option ℕ → ℕ → Option ℕ
expiry none now_ms = none
expiry (some zero) now_ms = none
expiry (some (suc t)) now_ms = some (now_ms + suc t * 1000)

-- How the statements of a write and its `commit` end: they write everything, or raise behind the
-- first `n` rows. An `n` that is not below the number of rows is a failure of `commit`.
pub data Write : Type 0 where
  commits : Write
  fails_after : ℕ → Write

-- What a call of `create` meets: the time that it reads, and how its write ends.
pub record Attempt : Type 0 where
  pub clock : ℕ
  pub write : Write

-- A new row: `s2` is the store with it. A failure of `commit` leaves it in the open transaction.
unfoldable pub insert : Write → LinkStore → LinkStore → Link → LinkStore × Result Link
insert commits s s2 link = (s2, ok link)
insert (fails_after zero) s s2 link = (s, raise other_error)
insert (fails_after (suc n)) s s2 link = (s2, raise other_error)

-- The primary key is there: `IntegrityError`, unless the statement fails before it is looked at.
unfoldable pub refuse_insert : Write → LinkStore → LinkStore × Result Link
refuse_insert (fails_after zero) s = (s, raise other_error)
refuse_insert (fails_after (suc n)) s = (s, raise key_error)
refuse_insert commits s = (s, raise key_error)

unfoldable pub create :
    LinkStore → Text → Text → Option ℕ → Option ℕ → Attempt → LinkStore × Result Link
unfolding now_or expiry insert refuse_insert
create s code target ttl_seconds now_arg at =
    let now_ms = now_or now_arg at.clock in
    let expires = expiry ttl_seconds now_ms in
    elim (Table.get s.links code) [
      | none ↦
          insert at.write s
            (record s {
              links =
                  Table.put s.links code
                    (record { target = target; created_ms = now_ms; expires_ms = expires });
            })
            (record {
              code = code;
              target = target;
              created_ms = now_ms;
              expires_ms = expires;
              hits = 0;
            })
      | some _ ↦ refuse_insert at.write s
    ]

-- `Link(*row)`, whose `hits` is the default 0.
unfoldable pub get : LinkStore → Text → Option Link
get s code = elim (Table.get s.links code) [
  | none ↦ none
  | some r ↦ some (record {
    code = code;
    target = r.target;
    created_ms = r.created_ms;
    expires_ms = r.expires_ms;
    hits = 0;
  })
]

-- `SELECT hits`, and 0 where there is no row.
unfoldable pub hits : LinkStore → Text → ℕ
hits s code = elim (Table.get s.link_hits code) [ none ↦ 0 | some n ↦ n ]

-- One `INSERT … ON CONFLICT(code) DO UPDATE SET hits = hits + excluded.hits`.
unfoldable pub upsert_hits : LinkStore → Text → ℕ → LinkStore
unfolding hits
upsert_hits s code n = record s { link_hits = Table.put s.link_hits code (hits s code + n) }

unfoldable pub execute_many : LinkStore → Table ℕ → LinkStore
execute_many s [] = s
execute_many s ((code, n) ∷ items) = execute_many (upsert_hits s code n) items

-- The first `n` rows of a batch.
unfoldable pub first_rows : ℕ → Table ℕ → Table ℕ
first_rows zero items = []
first_rows (suc n) [] = []
first_rows (suc n) (c ∷ items) = c ∷ first_rows n items

-- Nothing rolls back: the rows before the failure stay in the transaction of the connection, and
-- its next commit writes them.
unfoldable pub record_hits_bulk : Write → LinkStore → Table ℕ → LinkStore × Result ℕ
unfolding execute_many first_rows
record_hits_bulk write s [] = (s, ok 0)
record_hits_bulk (fails_after n) s (c ∷ items) =
    (execute_many s (first_rows n (c ∷ items)), raise other_error)
record_hits_bulk commits s (c ∷ items) = (execute_many s (c ∷ items), ok (length (c ∷ items)))

unfoldable pub record_hit : Write → LinkStore → Text → LinkStore × Result ℕ
unfolding record_hits_bulk
record_hit write s code = record_hits_bulk write s ((code, 1) ∷ [])

unfoldable pub count : LinkStore → ℕ
count s = length s.links
