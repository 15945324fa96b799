-- ===== src/Store/Postgres/Conformance.antt =====
-- src/shortener/pgstore.py beside src/shortener/store.py: the two link stores under one history of
-- calls, as tests/test_pgstore.py runs them. The two part where a batch fails, which Postgres rolls
-- back: the batches of a history are written, and so are its new rows.
use url_shortener_100x.Prelude.{
  ℕ, ◌≡◌, refl, ap, ◌∙◌, true, Option, none, some, List, [], ◌∷◌, arith, length, Text, Result, ok,
  Option-cases, inl, inr,
}
use url_shortener_100x.Prelude.Table
use url_shortener_100x.Prelude.Table.{Table}
use url_shortener_100x.Store.Links
use url_shortener_100x.Store.Links.{Link, LinkStore, Row, commits}
use url_shortener_100x.Store.Postgres.{
  PgRow, PgLinkStore, dt, dt_or_none, ms_or_none, insert_row, create, get, hits, upsert_hits,
  execute_many, record_hits_bulk, count,
}

-- The row that Postgres holds where SQLite holds `r`.
abbrev pub stamped : Row → PgRow
stamped r = record {
  target = r.target;
  created_at = dt r.created_ms;
  expires_at = dt_or_none r.expires_ms;
}

unfoldable pub stamped_rows : Table Row → Table PgRow
stamped_rows [] = []
stamped_rows ((code, r) ∷ rows) = (code, stamped r) ∷ stamped_rows rows

unfoldable pub stamped_store : LinkStore → PgLinkStore
unfolding stamped_rows
stamped_store s = record { links = stamped_rows s.links; link_hits = s.link_hits }

abbrev stamped_or_none : Option Row → Option PgRow
stamped_or_none none = none
stamped_or_none (some r) = some (stamped r)

get-stamped_rows :
    (rows : Table Row) (code : Text)
    → Table.get (stamped_rows rows) code ≡ stamped_or_none (Table.get rows code)
unfolding stamped_rows Table.get
get-stamped_rows [] code = refl
get-stamped_rows ((c, r) ∷ rows) code = ground (arith, get-stamped_rows rows code)

put-stamped_rows :
    (rows : Table Row) (code : Text) (r : Row)
    → Table.put (stamped_rows rows) code (stamped r) ≡ stamped_rows (Table.put rows code r)
unfolding stamped_rows Table.put
put-stamped_rows [] code r = refl
put-stamped_rows ((c, q) ∷ rows) code r = ground (arith, put-stamped_rows rows code r)

length-stamped_rows : (rows : Table Row) → length (stamped_rows rows) ≡ length rows
unfolding stamped_rows
length-stamped_rows [] = refl
length-stamped_rows ((c, r) ∷ rows) = omega (arith, length-stamped_rows rows)

-- A call of the interface with the clock that it may read, and its answer.
pub data Op : Type 0 where
  creates : Text → Text → Option ℕ → Option ℕ → ℕ → Op
  reads : Text → Op
  flushes : Table ℕ → Op
  counts_hits : Text → Op
  counts_links : Op

pub data Reply : Type 0 where
  made : Result Link → Reply
  link : Option Link → Reply
  written : Result ℕ → Reply
  number : ℕ → Reply

unfoldable pub sqlite_step : LinkStore → Op → LinkStore × Reply
sqlite_step s (creates code target ttl now_arg clock) =
    let (s2, r) =
      Links.create s code target ttl now_arg (record { clock = clock; write = commits }) in
    (s2, made r)
sqlite_step s (reads code) = (s, link (Links.get s code))
sqlite_step s (flushes items) =
    let (s2, r) = Links.record_hits_bulk commits s items in (s2, written r)
sqlite_step s (counts_hits code) = (s, number (Links.hits s code))
sqlite_step s counts_links = (s, number (Links.count s))

unfoldable pub pg_step : (ℕ → ℕ) → PgLinkStore → Op → PgLinkStore × Reply
pg_step ms_of s (creates code target ttl now_arg clock) =
    let (s2, r) = create s code target ttl now_arg clock in (s2, made r)
pg_step ms_of s (reads code) = (s, link (get ms_of s code))
pg_step ms_of s (flushes items) = let (s2, r) = record_hits_bulk true s items in (s2, written r)
pg_step ms_of s (counts_hits code) = (s, number (hits s code))
pg_step ms_of s counts_links = (s, number (count s))

unfoldable pub sqlite_replies : LinkStore → List Op → List Reply
unfolding sqlite_step
sqlite_replies s [] = []
sqlite_replies s (o ∷ ops) = let (s2, r) = sqlite_step s o in r ∷ sqlite_replies s2 ops

unfoldable pub pg_replies : (ℕ → ℕ) → PgLinkStore → List Op → List Reply
unfolding pg_step
pg_replies ms_of s [] = []
pg_replies ms_of s (o ∷ ops) = let (s2, r) = pg_step ms_of s o in r ∷ pg_replies ms_of s2 ops

-- An answer of SQLite with each time of a link as `_ms` reads it back from Postgres.
abbrev pub reread : (ℕ → ℕ) → Link → Link
reread ms_of l = record l {
  created_ms = ms_of (dt l.created_ms);
  expires_ms = ms_or_none ms_of (dt_or_none l.expires_ms);
}

abbrev pub reread_or_none : (ℕ → ℕ) → Option Link → Option Link
reread_or_none ms_of none = none
reread_or_none ms_of (some l) = some (reread ms_of l)

abbrev pub reread_reply : (ℕ → ℕ) → Reply → Reply
reread_reply ms_of (link l) = link (reread_or_none ms_of l)
reread_reply ms_of r = r

unfoldable pub reread_replies : (ℕ → ℕ) → List Reply → List Reply
reread_replies ms_of [] = []
reread_replies ms_of (r ∷ rs) = reread_reply ms_of r ∷ reread_replies ms_of rs

module _ (s : LinkStore) (code : Text) where
  get-stamped :
      (ms_of : ℕ → ℕ) → get ms_of (stamped_store s) code ≡ reread_or_none ms_of (Links.get s code)
  unfolding get stamped_store Links.get
  get-stamped ms_of = elim (Option-cases (Table.get s.links code)) [
    | inl e ↦ ground (arith, get-stamped_rows s.links code, e)
    | inr (r, e) ↦ ground (arith, get-stamped_rows s.links code, e)
  ]

  hits-stamped : hits (stamped_store s) code ≡ Links.hits s code
  unfolding hits stamped_store Links.hits
  hits-stamped = refl

  upsert_hits-stamped :
      (n : ℕ) → upsert_hits (stamped_store s) code n ≡ stamped_store (Links.upsert_hits s code n)
  unfolding upsert_hits stamped_store Links.upsert_hits
  upsert_hits-stamped n = refl

  create-stamped :
      (target : Text) (ttl now_arg : Option ℕ) (clock : ℕ)
      → create (stamped_store s) code target ttl now_arg clock ≡ (
          let (s2, r) =
            Links.create s code target ttl now_arg (record { clock = clock; write = commits }) in
          (stamped_store s2, r))
  unfolding create insert_row stamped_store Links.create Links.insert Links.refuse_insert
  create-stamped target ttl now_arg clock = elim (Option-cases (Table.get s.links code)) [
    | inl e ↦
        let now_ms = Links.now_or now_arg clock in
        let row : Row = record {
          target = target;
          created_ms = now_ms;
          expires_ms = Links.expiry ttl now_ms;
        } in
        let paired : PgLinkStore → ℕ → PgLinkStore × Result Link = λ t n. (
          t,
          ok (record {
            code = code;
            target = target;
            created_ms = n;
            expires_ms = Links.expiry ttl n;
            hits = 0;
          }),
        ) in
        rw (get-stamped_rows, e, create, Links.create, insert_row)
          (ap (λ rows. paired (record { links = rows; link_hits = s.link_hits }) now_ms)
            (put-stamped_rows s.links code row))
    | inr (r, e) ↦ rw (get-stamped_rows, e, create, Links.create, insert_row) refl
  ]

count-stamped : (s : LinkStore) → count (stamped_store s) ≡ Links.count s
unfolding count stamped_store Links.count
count-stamped s = length-stamped_rows s.links

execute_many-stamped :
    (items : Table ℕ) (s : LinkStore)
    → execute_many (stamped_store s) items ≡ stamped_store (Links.execute_many s items)
unfolding execute_many Links.execute_many
execute_many-stamped [] s = refl
execute_many-stamped ((code, n) ∷ items) s =
    ap (λ t. execute_many t items) (upsert_hits-stamped s code n)
    ∙ execute_many-stamped items (Links.upsert_hits s code n)

record_hits_bulk-stamped :
    (items : Table ℕ) (s : LinkStore)
    → record_hits_bulk true (stamped_store s) items
      ≡ (let (s2, r) = Links.record_hits_bulk commits s items in (stamped_store s2, r))
unfolding record_hits_bulk Links.record_hits_bulk
record_hits_bulk-stamped [] s = refl
record_hits_bulk-stamped (c ∷ items) s =
    ap (λ t. (t, ok (length (c ∷ items)))) (execute_many-stamped (c ∷ items) s)

-- One call: the same answer, up to the reading of the times, and stores that still hold the same.
step-stamped :
    (ms_of : ℕ → ℕ) (o : Op) (s : LinkStore)
    → pg_step ms_of (stamped_store s) o
      ≡ (let (s2, r) = sqlite_step s o in (stamped_store s2, reread_reply ms_of r))
unfolding pg_step sqlite_step
step-stamped ms_of (creates code target ttl now_arg clock) s =
    ap (λ x. (x.0, made x.1)) (create-stamped s code target ttl now_arg clock)
step-stamped ms_of (reads code) s = ap (λ x. (stamped_store s, link x)) (get-stamped s code ms_of)
step-stamped ms_of (flushes items) s =
    ap (λ x. (x.0, written x.1)) (record_hits_bulk-stamped items s)
step-stamped ms_of (counts_hits code) s =
    ap (λ x. (stamped_store s, number x)) (hits-stamped s code)
step-stamped ms_of counts_links s = ap (λ x. (stamped_store s, number x)) (count-stamped s)

-- Under any history of calls in which the databases fail in no write, the two stores give the same
-- answers, the refusals of `create` included, from stores that hold the same rows. One thing differs:
-- each time of a link that Postgres gives is what `_ms` reads back from the time that SQLite gives.
pub replies-stamped :
    (ms_of : ℕ → ℕ) (ops : List Op) (s : LinkStore)
    → pg_replies ms_of (stamped_store s) ops ≡ reread_replies ms_of (sqlite_replies s ops)
unfolding pg_replies sqlite_replies reread_replies
replies-stamped ms_of [] s = refl
replies-stamped ms_of (o ∷ ops) s =
    ap (λ x. x.1 ∷ pg_replies ms_of x.0 ops) (step-stamped ms_of o s)
    ∙ ap (◌∷◌ (reread_reply ms_of (sqlite_step s o).1))
        (replies-stamped ms_of ops (sqlite_step s o).0)
