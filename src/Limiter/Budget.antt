-- ===== src/Limiter/Budget.antt =====
-- src/shortener/limiter.py, the costs that one key is let through with over many requests.
use native.Mathlib.Nat.{add-mul}
use url_shortener_100x.Prelude.{
  ℕ, ◌+◌, ◌-◌, ◌*◌, ◌≤◌, ◌≡◌, ◌≢◌, true, Option, none, some, if◌then◌else◌, arith, List, [], ◌∷◌,
  Text, text_dec, ite, if_pos, if_neg,
}
use url_shortener_100x.Prelude.Table
use url_shortener_100x.Prelude.Table.{Table}
use url_shortener_100x.Limiter.{Bucket, refill, admits, spend, consume}

-- A request as the store sees it: one transaction after another, from whatever process.
pub record Request : Type 0 where
  pub key : Text
  pub cost : ℕ
  pub now_ms : ℕ

-- The cost that a request is let through with.
unfoldable pub charge : Option Bucket → ℕ → ℕ → ℕ → ℕ → ℕ
unfolding refill admits
charge bucket capacity rate cost now_ms =
    if admits (refill bucket capacity rate now_ms) cost then cost else 0

module _ (capacity rate : ℕ) where
  abbrev pub serve : Table Bucket → Request → Table Bucket
  serve table r = (consume true table r.key capacity rate r.cost r.now_ms).0

  -- What the requests under one key are let through with, all keys interleaved.
  unfoldable pub spent : Text → Table Bucket → List Request → ℕ
  unfolding charge
  spent key table [] = 0
  spent key table (r ∷ rs) =
      ite (text_dec r.key key) (charge (Table.get table key) capacity rate r.cost r.now_ms) 0
      + spent key (serve table r) rs

-- The clocks of the requests do not go backwards.
unfoldable pub InOrder : ℕ → List Request → Type 0
InOrder now [] = Unit
InOrder now (r ∷ rs) = (now ≤ r.now_ms) × InOrder r.now_ms rs

unfoldable pub last_ms : ℕ → List Request → ℕ
last_ms now [] = now
last_ms now (r ∷ rs) = last_ms r.now_ms rs

now-le-last_ms : (now : ℕ) (rs : List Request) → InOrder now rs → now ≤ last_ms now rs
unfolding InOrder last_ms
now-le-last_ms now [] h = omega arith
now-le-last_ms now (r ∷ rs) h = omega (arith, now-le-last_ms r.now_ms rs h.1)

-- What a key has in hand at a time, no later than which its bucket was written.
unfoldable pub IsWritten : Option Bucket → ℕ → Type 0
IsWritten none now = Unit
IsWritten (some b) now = b.updated_ms ≤ now

module _ (capacity rate : ℕ) where
  -- One request: what it is charged and what is left do not exceed what was there.
  charge-le :
      (bucket : Option Bucket) (cost now : ℕ)
      → charge bucket capacity rate cost now + spend (refill bucket capacity rate now) cost
        ≡ refill bucket capacity rate now
  unfolding charge spend
  charge-le bucket cost now = ground arith

  pub refill-le : (bucket : Option Bucket) (now : ℕ) → refill bucket capacity rate now ≤ capacity
  unfolding refill
  refill-le none now = omega arith
  refill-le (some b) now = omega arith

  -- Time refills at most the rate.
  refill-later :
      (bucket : Option Bucket) (now later : ℕ)
      → IsWritten bucket now
      → now ≤ later
      → refill bucket capacity rate later ≤ refill bucket capacity rate now + (later - now) * rate
  unfolding refill IsWritten
  refill-later none now later w h = omega arith
  refill-later (some b) now later w h =
      let split : later - b.updated_ms ≡ (now - b.updated_ms) + (later - now) = omega arith in
      rw (split, add-mul) (omega arith)

  get-serve :
      (table : Table Bucket) (r : Request) (key : Text)
      → Table.get (serve capacity rate table r) key
        ≡ ite
            (text_dec r.key key)
            (some (record {
              left = spend (refill (Table.get table r.key) capacity rate r.now_ms) r.cost;
              updated_ms = r.now_ms;
            }))
            (Table.get table key)
  unfolding consume
  get-serve table r key = Table.get-put table r.key key _

  IsWritten-later :
      (bucket : Option Bucket) (now later : ℕ)
      → IsWritten bucket now
      → now ≤ later
      → IsWritten bucket later
  unfolding IsWritten
  IsWritten-later none now later w h = tt
  IsWritten-later (some b) now later w h = omega arith

  telescope : (a b c : ℕ) → a ≤ b → b ≤ c → (b - a) * rate + (c - b) * rate ≡ (c - a) * rate
  telescope a b c h k = let split : c - a ≡ (b - a) + (c - b) = omega arith in rw (split, add-mul)

  -- What is left right after a request is what it was left with.
  refill-written :
      (left now : ℕ)
      → refill (some (record { left = left; updated_ms = now })) capacity rate now ≤ left
  unfolding refill
  refill-written left now = let still : now - now ≡ 0 = omega arith in rw still (omega arith)

  pub get-serve_self :
      (table : Table Bucket) (r : Request) (key : Text)
      → r.key ≡ key
      → Table.get (serve capacity rate table r) key
        ≡ some (record {
          left = spend (refill (Table.get table key) capacity rate r.now_ms) r.cost;
          updated_ms = r.now_ms;
        })
  get-serve_self table r key same = ground (arith, get-serve table r key)

  get-serve_other :
      (table : Table Bucket) (r : Request) (key : Text)
      → r.key ≢ key
      → Table.get (serve capacity rate table r) key ≡ Table.get table key
  get-serve_other table r key other = ground (arith, get-serve table r key)

  Bounded : Text → Table Bucket → ℕ → List Request → Type 0
  Bounded key table now rs =
      IsWritten (Table.get table key) now
      → InOrder now rs
      → spent capacity rate key table rs
        ≤ refill (Table.get table key) capacity rate now + (last_ms now rs - now) * rate

  spent-charged :
      (key : Text) (table : Table Bucket) (now : ℕ) (r : Request) (rs : List Request)
      → Bounded key (serve capacity rate table r) r.now_ms rs
      → r.key ≡ key
      → Bounded key table now (r ∷ rs)
  unfolding Bounded spent InOrder last_ms
  spent-charged key table now r rs ih same w ordered =
      let here = refill (Table.get table key) capacity rate r.now_ms in
      let written = get-serve_self table r key same in
      let later = rw written at (ih (rw written (unfold IsWritten in omega arith)) ordered.1) in
      rw (if_pos (text_dec r.key key) same) (
        omega (
          arith,
          later,
          refill-written (spend here r.cost) r.now_ms,
          charge-le (Table.get table key) r.cost r.now_ms,
          refill-later (Table.get table key) now r.now_ms w ordered.0,
          telescope now r.now_ms (last_ms r.now_ms rs) ordered.0
              (now-le-last_ms r.now_ms rs ordered.1),
        ))

  spent-other :
      (key : Text) (table : Table Bucket) (now : ℕ) (r : Request) (rs : List Request)
      → Bounded key (serve capacity rate table r) r.now_ms rs
      → r.key ≢ key
      → Bounded key table now (r ∷ rs)
  unfolding Bounded spent InOrder last_ms
  spent-other key table now r rs ih other w ordered =
      let same : Table.get (serve capacity rate table r) key ≡ Table.get table key =
        get-serve_other table r key other in
      let w' = IsWritten-later (Table.get table key) now r.now_ms w ordered.0 in
      rw (if_neg (text_dec r.key key) other) (
        omega (
          arith,
          rw same at (ih (rw same w') ordered.1),
          refill-later (Table.get table key) now r.now_ms w ordered.0,
          telescope now r.now_ms (last_ms r.now_ms rs) ordered.0
              (now-le-last_ms r.now_ms rs ordered.1),
        ))

  spent_bound :
      (key : Text) (rs : List Request) (table : Table Bucket) (now : ℕ) → Bounded key table now rs
  unfolding spent Bounded
  spent_bound key [] table now w ordered = omega arith
  spent_bound key (r ∷ rs) table now w ordered = elim (text_dec r.key key) [
    | yes same ↦
        spent-charged key table now r rs (spent_bound key rs (serve capacity rate table r) r.now_ms)
          same w ordered
    | no other ↦
        spent-other key table now r rs (spent_bound key rs (serve capacity rate table r) r.now_ms)
          other w ordered
  ]

  -- Whatever requests arrive, from however many processes and under however many keys, as long as
  -- their clock readings do not go backwards a key spends at most the capacity and the refill for
  -- the time between the first reading and the last.
  pub spent-le :
      (key : Text) (rs : List Request) (table : Table Bucket) (now : ℕ)
      → IsWritten (Table.get table key) now
      → InOrder now rs
      → spent capacity rate key table rs ≤ capacity + (last_ms now rs - now) * rate
  unfolding Bounded
  spent-le key rs table now w ordered =
      omega (arith, spent_bound key rs table now w ordered, refill-le (Table.get table key) now)
