-- ===== src/Ids/Allocator.antt =====
-- src/shortener/ids.py, `CodeAllocator`: generate a code and insert it, again where the key is taken.
-- The generator is the argument `next`; `at n` is what the store's `create` meets when n attempts are
-- left after this one.
pub mod Retry
use url_shortener_100x.Prelude.{
  ℕ, zero, suc, ◌+◌, Option, none, some, leb, if◌then◌else◌, Text, ℤ, pos, negsuc, Error, Result,
  ok, raise, value_error, runtime_error, key_error,
}
use url_shortener_100x.Store.Links.{Link, LinkStore, Attempt, create}

-- The allocator's counters beside what a call works on: its generator and the store.
pub record Allocator (G : Type 0) : Type 0 where
  pub generator : G
  pub max_attempts : ℕ
  pub allocated : ℕ
  pub collisions : ℕ

-- `CodeAllocator(generator, max_attempts)`
unfoldable pub new_allocator : {G : Type 0} → G → ℤ → Result (Allocator G)
new_allocator generator (negsuc n) = raise value_error
new_allocator generator (pos n) =
    if leb 1 n
    then ok (record { generator = generator; max_attempts = n; allocated = 0; collisions = 0 })
    else raise value_error

abbrev pub Outcome : Type 0 → Type 0
Outcome G = Allocator G × LinkStore × Result Link

module _ {G : Type 0} where
  -- The body of the `for` loop; `continue` is the next round, `retry`.
  unfoldable pub after_create : Allocator G → LinkStore × Result Link → Outcome G → Outcome G
  after_create a (store, ok link) retry = (record a { allocated = a.allocated + 1 }, store, ok link)
  after_create a (store, raise key_error) retry = retry
  after_create a (store, raise e) retry = (a, store, raise e)

  module _ (next : G → Result Text × G) (target : Text) (ttl_seconds : Option ℕ)
      (at : ℕ → Attempt) where
    unfoldable pub attempt : ℕ → Allocator G → LinkStore → Outcome G
    unfolding after_create
    attempt zero a store = (a, store, raise runtime_error)
    attempt (suc n) a store =
        let drawn = next a.generator in
        let a' = record a { generator = drawn.1 } in
        elim drawn.0 [
          | raise e ↦ (a', store, raise e)
          | ok code ↦
              let made = create store code target ttl_seconds none (at n) in
              let retry = attempt n (record a' { collisions = a'.collisions + 1 }) made.0 in
              after_create a' made retry
        ]

    unfoldable pub allocate : Allocator G → LinkStore → Outcome G
    unfolding attempt
    allocate a store = attempt a.max_attempts a store
