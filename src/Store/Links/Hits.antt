-- ===== src/Store/Links/Hits.antt =====
-- src/shortener/store.py, `record_hits_bulk`: what a batch adds.
use url_shortener_100x.Prelude.{ℕ, ◌+◌, ◌≡◌, [], ◌∷◌, arith, Text, text_dec, ite}
use url_shortener_100x.Prelude.Table
use url_shortener_100x.Prelude.Table.{Table}
use url_shortener_100x.Store.Links.{
  LinkStore, Write, commits, fails_after, first_rows, hits, upsert_hits, execute_many,
}

-- What a batch holds for a code.
unfoldable pub batch_hits : Table ℕ → Text → ℕ
batch_hits [] code = 0
batch_hits ((j, n) ∷ items) code = ite (text_dec j code) n 0 + batch_hits items code

-- The hits of a code that are in the store although `record_hits_bulk` has raised.
unfoldable pub left_behind : Write → Table ℕ → Text → ℕ
unfolding first_rows batch_hits
left_behind commits items code = 0
left_behind (fails_after n) items code = batch_hits (first_rows n items) code

hits-upsert_hits :
    (s : LinkStore) (code j : Text) (n : ℕ)
    → hits (upsert_hits s code n) j ≡ hits s j + ite (text_dec code j) n 0
unfolding hits upsert_hits
hits-upsert_hits s code j n = ground (arith, Table.get-put s.link_hits code j (hits s code + n))

-- A batch adds to every code what it holds for it, whether the code had a row or not.
pub hits-execute_many :
    (items : Table ℕ) (s : LinkStore) (j : Text)
    → hits (execute_many s items) j ≡ hits s j + batch_hits items j
unfolding execute_many batch_hits
hits-execute_many [] s j = grind arith
hits-execute_many ((code, n) ∷ items) s j =
    ground (arith, hits-upsert_hits s code j n, hits-execute_many items (upsert_hits s code n) j)
