-- ===== src/Examples/SingleFlight.antt =====
-- The theorems on `SingleFlight`, with two threads that ask for the same key.
use url_shortener_100x.Prelude.{
  ℕ, ◌*◌, ◌≤◌, ◌<◌, ◌≡◌, refl, Option, none, some, [], ◌∷◌, arith, Text, Result, ok,
}
use native.Mathlib.Decide.{ℕ_discrete}
use url_shortener_100x.Prelude.Table
use url_shortener_100x.Store.SingleFlight.{
  finished, lead, join, read_count, write_count, wake, call, pop, set, System, Step, pick, Reach,
  here, next,
}
use url_shortener_100x.Store.SingleFlight.Answers.{fn_ended}
use url_shortener_100x.Store.SingleFlight.Sharing.{running, one_leader, same_outcome}
use url_shortener_100x.Store.SingleFlight.Progress.{all_finish}

abbrev keys : ℕ → Text
keys i = 65 ∷ []

free : Table.get {V = ℕ} [] (65 ∷ []) ≡ none
unfolding Table.get
free = refl

held : Table.get {V = ℕ} (Table.put [] (65 ∷ []) 0) (65 ∷ []) ≡ some 0
held = ground (arith, Table.get-put {V = ℕ} [] (65 ∷ []) (65 ∷ []) 0)

-- The first thread leads and the second has joined it.
abbrev joining : (s : System ℕ) × Reach 2 keys 2 s
unfolding ℕ_discrete
joining =
    (_, next (next here (pick 0 (omega arith) (lead free))) (pick 1 (omega arith) (join held)))

-- Both have come back, with the value that the first one's `fn` returned.
abbrev ended : (s : System ℕ) × Reach 2 keys 8 s
unfolding ℕ_discrete
ended =
    let called = next joining.1 (pick 0 (omega arith) (call (ok 7))) in
    let counted =
      next (next called (pick 1 (omega arith) read_count)) (pick 1 (omega arith) write_count) in
    let closed = next (next counted (pick 0 (omega arith) pop)) (pick 0 (omega arith) set) in
    (_, next closed (pick 1 (omega arith) (wake refl)))

one_leader_example : ◌≡◌ {A = ℕ} 0 0
unfolding ℕ_discrete
one_leader_example = one_leader joining.1 (65 ∷ []) 0 0 0 0 running running

same_outcome_example :
    let value : Option (Result ℕ) = some (ok 7) in
    (value ≡ value)
    × ((answer : Result ℕ) × (fn_ended ended.1 0 ≡ some answer) × (value ≡ some answer))
unfolding ℕ_discrete
same_outcome_example = same_outcome ended.1 0 1 0 (some (ok 7)) (some (ok 7)) refl refl

all_finish_example :
    (2 ≤ 4 * 2)
    × (2 < 4 * 2 → (t : System ℕ) × Step 2 joining.0 t)
    × (2 ≡ 4 * 2
        → (i : ℕ) → i < 2
        → (a : ℕ) × (o : Option (Result ℕ)) × (joining.0.pc i ≡ finished a o))
unfolding ℕ_discrete
all_finish_example = all_finish joining.1 (ok 7)
