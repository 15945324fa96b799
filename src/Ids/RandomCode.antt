-- ===== src/Ids/RandomCode.antt =====
-- src/shortener/ids.py, `RandomCodeGenerator`, and the factory `build_generator`.
-- `secrets.choice` is the argument `choose`: the index into the alphabet of its n-th answer. What the
-- code relies on is that it answers with an element, so that the index is below 62.
pub mod Keyspace
use url_shortener_100x.Prelude.{
  ℕ, zero, suc, ◌+◌, ◌^◌, List, [], ◌∷◌, leb, if◌then◌else◌, Text, codes, text_dec, ite, ℤ, pos,
  negsuc, Result, ok, raise, value_error, ◌>>=◌,
}
use url_shortener_100x.Ids.Base62.{alphabet, base, char_at}
use url_shortener_100x.Ids.Snowflake

-- `drawn` counts the answers of `choose` so far.
pub record Generator : Type 0 where
  pub code_length : ℕ
  pub drawn : ℕ

-- `RandomCodeGenerator(length)`
unfoldable pub new_generator : ℤ → Result Generator
new_generator (negsuc n) = raise value_error
new_generator (pos n) =
    if leb 1 n then ok (record { code_length = n; drawn = 0 }) else raise value_error

module _ (choose : ℕ → ℕ) where
  -- The characters for the answers from `drawn` on.
  unfoldable pub draw : ℕ → ℕ → Text
  draw zero drawn = []
  draw (suc n) drawn = char_at alphabet (choose drawn) ∷ draw n (suc drawn)

  unfoldable pub next_code : Generator → Text × Generator
  unfolding draw
  next_code g = (draw g.code_length g.drawn, record g { drawn = g.drawn + g.code_length })

unfoldable pub keyspace : Generator → ℕ
keyspace g = base ^ g.code_length

-- The two classes that `build_generator` can return.
pub data AnyGenerator : Type 0 where
  random : Generator → AnyGenerator
  snowflake : Snowflake.Generator → AnyGenerator

unfoldable pub build_generator : Text → ℤ → ℤ → Result AnyGenerator
unfolding new_generator Snowflake.new_generator
build_generator scheme instance_id length =
    ite (text_dec scheme (codes "random")) (new_generator length >>= λ g. ok (random g)) (
      ite (text_dec scheme (codes "snowflake"))
        (Snowflake.new_generator instance_id >>= λ g. ok (snowflake g)) (raise value_error))
