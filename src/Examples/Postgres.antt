-- ===== src/Examples/Postgres.antt =====
-- The theorems on the PostgreSQL store, with a link that expires and one that does not.
use url_shortener_100x.Prelude.{
  ℕ, ◌+◌, ◌*◌, ◌/◌, ◌≤◌, ◌≡◌, refl, none, some, [], ◌∷◌, Text, List, arith,
}
use url_shortener_100x.Prelude.Table
use url_shortener_100x.Prelude.Table.{Distinct}
use url_shortener_100x.Store.Links.{LinkStore}
use url_shortener_100x.Store.Postgres.{PgLinkStore, dt, count, get, hits, purge_expired}
use url_shortener_100x.Store.Postgres.Conformance.{
  Op, creates, reads, flushes, counts_links, stamped_store, reread_replies, pg_replies,
  sqlite_replies, replies-stamped,
}
use url_shortener_100x.Store.Postgres.Sweep.{after, unexpired, purge_expired-found}

abbrev history : List Op
history =
    creates (65 ∷ []) (97 ∷ []) (some 60) none 5
    ∷ reads (65 ∷ [])
    ∷ creates (65 ∷ []) (98 ∷ []) none (some 7) 6
    ∷ flushes ((65 ∷ [], 3) ∷ [])
    ∷ counts_links
    ∷ []

abbrev sqlite : LinkStore
sqlite = record {
  links = (66 ∷ [], record { target = 99 ∷ []; created_ms = 1; expires_ms = none }) ∷ [];
  link_hits = (66 ∷ [], 4) ∷ [];
}

abbrev postgres : PgLinkStore
postgres = record {
  links =
      (66 ∷ [], record { target = 99 ∷ []; created_at = 1000; expires_at = none })
      ∷ (67 ∷ [], record { target = 99 ∷ []; created_at = 1000; expires_at = some 9000 })
      ∷ [];
  link_hits = (67 ∷ [], 4) ∷ [];
}

-- One that loses a millisecond of every odd one, as the floats do here and there.
abbrev lossy : ℕ → ℕ
lossy t = t / 2000 * 2

lossy_not_later : (t ms : ℕ) → t ≤ dt ms → lossy t ≤ ms
lossy_not_later t ms h = omega arith

replies-stamped_example :
    pg_replies lossy (stamped_store sqlite) history
    ≡ reread_replies lossy (sqlite_replies sqlite history)
replies-stamped_example = replies-stamped lossy history sqlite

postgres-Distinct : Distinct postgres.links
unfolding Distinct Table.get
postgres-Distinct = (ground arith, (refl, tt))

purge_expired-found_example :
    (count (after postgres 9 0) + (purge_expired postgres (some 9) 0).1 ≡ count postgres)
    × ((code : Text) → hits (after postgres 9 0) code ≡ hits postgres code)
    × ((code : Text) (later : ℕ)
        → 9 ≤ later
        → unexpired (get lossy (after postgres 9 0) code) later
          ≡ unexpired (get lossy postgres code) later)
purge_expired-found_example =
    purge_expired-found postgres 9 0 lossy lossy_not_later postgres-Distinct
