-- ===== src/Counters/Conservation.antt =====
-- src/shortener/counters.py, hits and overlapping flushes of a `HitCounter` as sequences of steps.
use url_shortener_100x.Prelude.{
  ℕ, zero, suc, ◌+◌, ◌≡◌, refl, none, some, List, [], ◌∷◌, arith, Text, text_dec, ite, Option-cases,
  inl, inr, pick,
}
use url_shortener_100x.Prelude.Table.{Table}
use url_shortener_100x.Store.Links.{LinkStore, Write, commits, fails_after, first_rows, hits}
use url_shortener_100x.Store.Links.Hits.{batch_hits, left_behind, hits-execute_many}
use url_shortener_100x.Counters.{HitCounter, add, update, count_hit, take, settle, flush}

pub batch_hits-add :
    (counts : Table ℕ) (key j : Text) (n : ℕ)
    → batch_hits (add counts key n) j ≡ batch_hits counts j + ite (text_dec key j) n 0
unfolding batch_hits add
batch_hits-add [] key j n = grind arith
batch_hits-add ((i, m) ∷ counts) key j n = ground (arith, batch_hits-add counts key j n)

batch_hits-update :
    (batch counts : Table ℕ) (j : Text)
    → batch_hits (update counts batch) j ≡ batch_hits counts j + batch_hits batch j
unfolding batch_hits update
batch_hits-update [] counts j = omega arith
batch_hits-update ((key, n) ∷ batch) counts j =
    omega (arith, batch_hits-update batch (add counts key n) j, batch_hits-add counts key j n)

-- One instance with the batches that its threads have taken and not yet written.
pub record Instance : Type 0 where
  pub counter : HitCounter
  pub store : LinkStore
  pub in_flight : List (Table ℕ)

-- What a thread does next: count a hit, begin a flush, or end the flush of the n-th batch in flight.
pub data Event : Type 0 where
  hit : Text → Event
  begin : ℕ → Event
  finish : ℕ → Write → Event

unfoldable pub step : Instance → Event → Instance
unfolding count_hit take settle pick
step s (hit code) = record s { counter = count_hit s.counter code }
step s (begin now) =
    let (counter, batch) = take s.counter now in
    elim batch [
      | none ↦ record s { counter = counter }
      | some b ↦ record s { counter = counter; in_flight = b ∷ s.in_flight }
    ]
step s (finish n write) = elim (pick s.in_flight n) [
  | none ↦ s
  | some (b, rest) ↦
      let (counter, store, written) = settle s.counter s.store b write in
      record { counter = counter; store = store; in_flight = rest }
]

unfoldable pub run : Instance → List Event → Instance
unfolding step
run s [] = s
run s (e ∷ es) = run (step s e) es

module _ (code : Text) where
  unfoldable pub in_flight_hits : List (Table ℕ) → ℕ
  in_flight_hits [] = 0
  in_flight_hits (b ∷ bs) = batch_hits b code + in_flight_hits bs

  -- The hits of a code that are written, pending, or on their way.
  unfoldable pub total : Instance → ℕ
  total s = hits s.store code + batch_hits s.counter.counts code + in_flight_hits s.in_flight

  -- How many of the events are hits of the code.
  unfoldable pub hits_in : List Event → ℕ
  hits_in [] = 0
  hits_in (hit j ∷ es) = ite (text_dec j code) 1 0 + hits_in es
  hits_in (begin now ∷ es) = hits_in es
  hits_in (finish n write ∷ es) = hits_in es

  -- The hits of the code that a step writes and keeps pending as well: the rows that a failed batch
  -- leaves behind, when the batch is put back.
  unfoldable pub doubled : Instance → Event → ℕ
  unfolding pick left_behind
  doubled s (hit j) = 0
  doubled s (begin now) = 0
  doubled s (finish n write) = elim (pick s.in_flight n) [
    | none ↦ 0
    | some (b, rest) ↦ left_behind write b code
  ]

  unfoldable pub doubled_in : Instance → List Event → ℕ
  unfolding doubled step
  doubled_in s [] = 0
  doubled_in s (e ∷ es) = doubled s e + doubled_in (step s e) es

  hits_in-cons : (e : Event) (es : List Event) → hits_in (e ∷ es) ≡ hits_in (e ∷ []) + hits_in es
  unfolding hits_in
  hits_in-cons (hit j) es = omega arith
  hits_in-cons (begin now) es = omega arith
  hits_in-cons (finish n write) es = omega arith

  in_flight-pick :
      (bs : List (Table ℕ)) (n : ℕ) (b : Table ℕ) (rest : List (Table ℕ))
      → pick bs n ≡ some (b, rest)
      → in_flight_hits bs ≡ batch_hits b code + in_flight_hits rest
  unfolding pick in_flight_hits
  in_flight-pick [] n b rest h = absurd (ground arith)
  in_flight-pick (x ∷ xs) zero b rest h =
      let e₀ : x ≡ b = ground arith in let e₁ : xs ≡ rest = ground arith in rw (e₀, e₁)
  in_flight-pick (x ∷ xs) (suc n) b rest h = elim (Option-cases (pick xs n)) [
    | inl gone ↦ absurd (ground arith)
    | inr ((y, ys), found) ↦
        let e₀ : y ≡ b = ground arith in
        let e₁ : x ∷ ys ≡ rest = ground arith in
        rw (← e₀, ← e₁) (omega (arith, in_flight-pick xs n y ys found))
  ]

  left_behind-nil : (write : Write) → left_behind write [] code ≡ 0
  unfolding left_behind first_rows batch_hits
  left_behind-nil commits = refl
  left_behind-nil (fails_after zero) = refl
  left_behind-nil (fails_after (suc n)) = refl

  settle-total :
      (h : HitCounter) (store : LinkStore) (b : Table ℕ) (write : Write)
      → hits (settle h store b write).1 code + batch_hits (settle h store b write).0.counts code
        ≡ hits store code + batch_hits h.counts code + batch_hits b code + left_behind write b code
  unfolding settle batch_hits left_behind
  settle-total h store [] write = omega (arith, left_behind-nil write)
  settle-total h store (c ∷ b) commits = omega (arith, hits-execute_many (c ∷ b) store code)
  settle-total h store (c ∷ b) (fails_after n) = omega (
    arith,
    batch_hits-update (c ∷ b) h.counts code,
    hits-execute_many (first_rows n (c ∷ b)) store code,
  )

  take-total :
      (h : HitCounter) (now : ℕ)
      → (elim (take h now).1 [ none ↦ 0 | some b ↦ batch_hits b code ])
          + batch_hits (take h now).0.counts code
        ≡ batch_hits h.counts code
  unfolding take batch_hits
  take-total h now = ground arith

  take-left_behind :
      (h : HitCounter) (now : ℕ) (write : Write)
      → (elim (take h now).1 [ none ↦ 0 | some b ↦ left_behind write b code ])
        ≡ left_behind write h.counts code
  unfolding take
  take-left_behind h now write = ground (arith, left_behind-nil write)

  step-total :
      (s : Instance) (e : Event) → total (step s e) ≡ total s + hits_in (e ∷ []) + doubled s e
  unfolding total step hits_in in_flight_hits doubled
  step-total s (hit j) = omega (arith, batch_hits-add s.counter.counts j code 1)
  step-total s (begin now) = ground (arith, take-total s.counter now)
  step-total s (finish n write) = elim (Option-cases (pick s.in_flight n)) [
    | inl gone ↦ rw (gone, step, doubled) (omega arith)
    | inr ((b, rest), found) ↦
        rw (found, step, doubled)
          (omega (
            arith,
            in_flight-pick s.in_flight n b rest found,
            settle-total s.counter s.store b write,
          ))
  ]

  -- Whatever the threads of an instance do, however their flushes overlap and wherever they fail:
  -- the hits of a code that are written, pending or in flight are those from before, one for every
  -- hit, and once more each hit in a row that a failed batch had already written when it failed.
  pub run-total :
      (es : List Event) (s : Instance) → total (run s es) ≡ total s + hits_in es + doubled_in s es
  unfolding run hits_in doubled_in
  run-total [] s = omega arith
  run-total (e ∷ es) s = omega (arith, run-total es (step s e), step-total s e, hits_in-cons e es)

  -- `flush` is the two steps one after the other; with no other caller it writes or keeps every
  -- pending hit, and writes and keeps those that a failed batch leaves behind.
  pub flush-total :
      (h : HitCounter) (store : LinkStore) (now : ℕ) (write : Write)
      → hits (flush h store now write).1 code + batch_hits (flush h store now write).0.counts code
        ≡ hits store code + batch_hits h.counts code + left_behind write h.counts code
  unfolding flush
  flush-total h store now write =
      let taken = take-total h now in
      let left = take-left_behind h now write in
      elim (Option-cases (take h now).1) [
        | inl empty ↦ rw (empty, flush) (omega (arith, rw empty at taken, rw empty at left))
        | inr (b, some_batch) ↦
            rw (some_batch, flush)
              (omega (
                arith,
                rw some_batch at taken,
                rw some_batch at left,
                settle-total (take h now).0 store b write,
              ))
      ]
