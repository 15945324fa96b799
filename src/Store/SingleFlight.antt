-- ===== src/Store/SingleFlight.antt =====
-- src/shortener/store.py, `SingleFlight`: threads that each call `do` once, interleaved at every
-- access to what they share. What `fn` does is left open: it returns a value, or raises.
pub mod Facts
pub mod Invariant
pub mod Answers
pub mod Sharing
pub mod Progress
use url_shortener_100x.Prelude.{
  ℕ, suc, ◌+◌, ◌<◌, ◌≡◌, Bool, true, false, Option, none, some, [], Text, Result,
}
use url_shortener_100x.Prelude.Table
use url_shortener_100x.Prelude.Table.{Table}
use url_shortener_100x.Prelude.Threads.{at_index}

module _ (V : Type 0) where
  -- `_Call`: `value` and `error` as one outcome, `none` while neither is set.
  pub record Call : Type 0 where
    pub done : Bool
    pub outcome : Option (Result V)

  -- The object: `_calls` holds addresses of `_Call` objects, which stand in `cell`.
  pub record SingleFlight : Type 0 where
    pub calls : Table ℕ
    pub cell : ℕ → Call
    pub allocated : ℕ
    pub collapsed : ℕ

  -- Where a thread stands in `do`, with its live locals.
  pub data Pc : Type 0 where
    entering : Text → Pc
    leading : Text → ℕ → Pc
    ran : Text → ℕ → Pc
    popped : ℕ → Pc
    joined : ℕ → Pc
    counting : ℕ → ℕ → Pc
    waiting : ℕ → Pc
    finished : ℕ → Option (Result V) → Pc

abbrev pub new_call : {V : Type 0} → Call V
new_call = record { done = false; outcome = none }

-- `SingleFlight()`
abbrev pub new_flight : {V : Type 0} → SingleFlight V
new_flight = record { calls = []; cell = λ a. new_call; allocated = 0; collapsed = 0 }

-- What a step writes to the object.
module _ {V : Type 0} (f : SingleFlight V) where
  -- `call = self._calls[key] = self._Call()`
  abbrev pub with_call : Text → SingleFlight V
  with_call k = record f {
    calls = Table.put f.calls k f.allocated;
    cell = at_index f.cell f.allocated new_call;
    allocated = suc f.allocated;
  }

  -- `call.value = …` or `call.error = exc`
  abbrev pub with_outcome : ℕ → Result V → SingleFlight V
  with_outcome a answer = record f {
    cell = at_index f.cell a (record { done = (f.cell a).done; outcome = some answer });
  }

  -- `self._calls.pop(key, None)`
  abbrev pub without_key : Text → SingleFlight V
  without_key k = record f { calls = Table.remove f.calls k }

  -- `call.done.set()`
  abbrev pub with_done : ℕ → SingleFlight V
  with_done a = record f {
    cell = at_index f.cell a (record { done = true; outcome = (f.cell a).outcome });
  }

  abbrev pub with_count : ℕ → SingleFlight V
  with_count n = record f { collapsed = n }

-- One step of one thread. `self.collapsed += 1` is under no lock: a read, then a write.
pub data Move {V : Type 0} (f : SingleFlight V) : Pc V → SingleFlight V → Pc V → Type 0 where
  lead :
      {k : Text}
      → Table.get f.calls k ≡ none
      → Move f (entering k) (with_call f k) (leading k f.allocated)
  join : {k : Text} {a : ℕ} → Table.get f.calls k ≡ some a → Move f (entering k) f (joined a)
  read_count : {a : ℕ} → Move f (joined a) f (counting a f.collapsed)
  write_count : {a n : ℕ} → Move f (counting a n) (with_count f (n + 1)) (waiting a)
  wake : {a : ℕ} → (f.cell a).done ≡ true → Move f (waiting a) f (finished a (f.cell a).outcome)
  call :
      {k : Text} {a : ℕ} (answer : Result V)
      → Move f (leading k a) (with_outcome f a answer) (ran k a)
  pop : {k : Text} {a : ℕ} → Move f (ran k a) (without_key f k) (popped a)
  set : {a : ℕ} → Move f (popped a) (with_done f a) (finished a (f.cell a).outcome)

-- The object and its threads, of which the first `n` run.
pub record System (V : Type 0) : Type 0 where
  pub flight : SingleFlight V
  pub pc : ℕ → Pc V

pub data Step {V : Type 0} (n : ℕ) (s : System V) : System V → Type 0 where
  pick :
      (i : ℕ) {f : SingleFlight V} {p : Pc V}
      → i < n
      → Move s.flight (s.pc i) f p
      → Step n s (record { flight = f; pc = at_index s.pc i p })

-- Thread `i` calls `do` with the key `keys i`.
abbrev pub start : {V : Type 0} → (ℕ → Text) → System V
start keys = record { flight = new_flight; pc = λ i. entering (keys i) }

pub data Reach {V : Type 0} (n : ℕ) (keys : ℕ → Text) : ℕ → System V → Type 0 where
  here : Reach n keys 0 (start keys)
  next : {m : ℕ} {s t : System V} → Reach n keys m s → Step n s t → Reach n keys (suc m) t
