-- ===== src/Ids/Snowflake.antt =====
-- src/shortener/ids.py, `SnowflakeGenerator` and `decode_id`.
-- The clock is the list of the readings that it is going to give, in milliseconds since 1970; a call
-- takes readings from the front and returns the rest. A call under the lock is one step.
pub mod Layout
pub mod Clock
pub mod Step
pub mod Order
use Prim.Native.Nat.{bit_and, bit_or}
use url_shortener_100x.Prelude.{
  ℕ, zero, suc, ◌+◌, ◌-◌, ◌*◌, ◌/◌, ◌^◌, Option, none, some, List, [], ◌∷◌, ◌==◌, ltb, leb,
  if◌then◌else◌, Text, ℤ, pos, negsuc, Result, ok, raise, Error, value_error, runtime_error,
}
use url_shortener_100x.Ids.Base62.{encode_base62}

abbrev pub epoch_ms : ℕ
epoch_ms = 1_735_689_600_000

abbrev pub instance_bits : ℕ
instance_bits = 10

abbrev pub sequence_bits : ℕ
sequence_bits = 12

abbrev pub max_instance : ℕ
max_instance = 2 ^ instance_bits - 1

abbrev pub max_sequence : ℕ
max_sequence = 2 ^ sequence_bits - 1

-- `_last_ms` is -1 before the first id: `none`.
pub record Generator : Type 0 where
  pub instance_id : ℕ
  pub last_ms : Option ℕ
  pub sequence : ℕ

-- `SnowflakeGenerator(instance_id)`
unfoldable pub new_generator : ℤ → Result Generator
new_generator (negsuc n) = raise value_error
new_generator (pos n) =
    if leb n max_instance
    then ok (record { instance_id = n; last_ms = none; sequence = 0 })
    else raise value_error

-- `((now - EPOCH_MS) << 22) | (instance_id << 12) | sequence`. Before the epoch the shifted
-- difference is -m for a multiple m of 2 ^ 22, and `|` with bits below it adds them.
unfoldable pub compose_id : ℕ → ℕ → ℕ → ℤ
compose_id now instance_id sequence =
    if leb epoch_ms now
    then pos (
        bit_or
          (bit_or ((now - epoch_ms) * 2 ^ (instance_bits + sequence_bits))
            (instance_id * 2 ^ sequence_bits))
          sequence)
    else negsuc (
        (epoch_ms - now) * 2 ^ (instance_bits + sequence_bits)
        - bit_or (instance_id * 2 ^ sequence_bits) sequence
        - 1)

-- `while now < bound: now = self._now()`: the first reading that is not below the bound with the
-- readings after it; `none` while the loop still waits when the readings end.
unfoldable pub wait_for : ℕ → ℕ → List ℕ → Option (ℕ × List ℕ)
wait_for bound now [] = if ltb now bound then none else some (now, [])
wait_for bound now (r ∷ rs) =
    let rest = wait_for bound r rs in if ltb now bound then rest else some (now, r ∷ rs)

-- A call of `next_id` issues an id and leaves a new state and the later readings, refuses and leaves
-- the state alone, or is still waiting for the clock.
pub data Call (A : Type 0) : Type 0 where
  issued : A → Generator → List ℕ → Call A
  refused : Error → Generator → List ℕ → Call A
  waiting : Call A

-- The end of the body: `self._last_ms = now; return …`.
unfoldable pub issue : Generator → ℕ → ℕ → List ℕ → Call ℤ
issue g now sequence clock =
    issued (compose_id now g.instance_id sequence)
      (record g { last_ms = some now; sequence = sequence }) clock

-- From `if now == self._last_ms`, for a reading that is not below `last`.
unfoldable pub advance : Generator → ℕ → ℕ → List ℕ → Call ℤ
unfolding issue wait_for
advance g last now clock =
    if now == last
    then (if ltb max_sequence (g.sequence + 1)
        then elim (wait_for (suc last) now clock) [
          | none ↦ waiting
          | some (later, rest) ↦ issue g later 0 rest
        ]
        else issue g now (g.sequence + 1) clock)
    else issue g now 0 clock

-- From `if now < self._last_ms`.
unfoldable pub check_clock : Generator → ℕ → ℕ → List ℕ → Call ℤ
unfolding advance wait_for
check_clock g last now clock =
    if ltb now last
    then (if ltb 5000 (last - now)
        then refused runtime_error g clock
        else elim (wait_for last now clock) [
          | none ↦ waiting
          | some (later, rest) ↦ advance g last later rest
        ])
    else advance g last now clock

unfoldable pub next_id : Generator → List ℕ → Call ℤ
unfolding check_clock issue
next_id g [] = waiting
next_id g (now ∷ clock) = elim g.last_ms [
  | none ↦ issue g now 0 clock
  | some last ↦ check_clock g last now clock
]

-- The state is written before the id is rendered, so a negative id raises after the step.
unfoldable pub render : Call ℤ → Call Text
render (issued id g clock) = elim (encode_base62 id) [
  | ok code ↦ issued code g clock
  | raise e ↦ refused e g clock
]
render (refused e g clock) = refused e g clock
render waiting = waiting

unfoldable pub next_code : Generator → List ℕ → Call Text
unfolding next_id render
next_code g clock = render (next_id g clock)

pub record Fields : Type 0 where
  pub timestamp_ms : ℕ
  pub instance_id : ℕ
  pub sequence : ℕ

unfoldable pub decode_id : ℕ → Fields
decode_id snowflake = record {
  timestamp_ms = snowflake / 2 ^ (instance_bits + sequence_bits) + epoch_ms;
  instance_id = bit_and (snowflake / 2 ^ sequence_bits) max_instance;
  sequence = bit_and snowflake max_sequence;
}
