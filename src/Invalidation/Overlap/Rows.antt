-- ===== src/Invalidation/Overlap/Rows.antt =====
-- src/shortener/invalidation.py, what has become of the rows of the log, as it grows and as a poll goes on.
use mathlib.Core.List.{Memᴰ}
use mathlib.Core.List.Memᴰ
use url_shortener_100x.Prelude.{
  ℕ, ◌≤◌, ◌<◌, ◌≡◌, ◌⊎◌, List, [], ◌∷◌, arith, ltb, Text, Bool-cases, inl, inr,
}
use url_shortener_100x.Invalidation.{Row, InvalidationLog, head, publish, rows_after, last_seq}
use url_shortener_100x.Invalidation.Log.{Ascending, publish-Ascending, rows_after-head}
use url_shortener_100x.Invalidation.Overlap.{Poll, reading, applying}

-- Every row up to the number `n`, which is one of the log's, is applied or still to be.
unfoldable pub Accounted : InvalidationLog → List Row → ℕ → List Row → Type 0
Accounted log applied n todo =
    (n ≤ head log) × ((r : Row) → Memᴰ r log → r.seq ≤ n → Memᴰ r applied ⊎ Memᴰ r todo)

pub seq_above : (r : Row) (n : ℕ) (log : InvalidationLog) → Ascending n log → Memᴰ r log → n < r.seq
unfolding Ascending
seq_above r n [] asc m = absurd (Memᴰ.not-nil m)
seq_above r n (q ∷ log) asc m = elim (Memᴰ.cases_cons m) [
  | inl e ↦ rw e asc.0
  | inr later ↦ omega (arith, seq_above r q.seq log asc.1 later, asc.0)
]

mem-rows_after :
    (r : Row) (log : InvalidationLog) (n : ℕ) → Memᴰ r log → n < r.seq → Memᴰ r (rows_after log n)
unfolding rows_after
mem-rows_after r [] n m h = m
mem-rows_after r (q ∷ log) n m h = elim (Bool-cases (ltb n q.seq)) [
  | inl later ↦
      rw (later, rows_after)
        (elim (Memᴰ.cases_cons m) [
          | inl e ↦ Memᴰ.head e
          | inr rest ↦ Memᴰ.tail (mem-rows_after r log n rest h)
        ])
  | inr seen ↦
      rw (seen, rows_after)
        (elim (Memᴰ.cases_cons m) [
          | inl e ↦ absurd (ground (arith, rw e at h))
          | inr rest ↦ mem-rows_after r log n rest h
        ])
]

pub publish-Accounted :
    (log : InvalidationLog) (code reason : Text) (applied : List Row) (n : ℕ) (todo : List Row)
    → Ascending 0 log
    → Accounted log applied n todo
    → Accounted (publish log code reason).0 applied n todo
unfolding Accounted publish
publish-Accounted log code reason applied n todo asc (bound, all) =
    let (_, number, new_head) = publish-Ascending log code reason asc in
    (
      omega (arith, number, new_head),
      λ r m h. elim (Memᴰ.append_cases log m) [
        | inl old ↦ all r old h
        | inr new ↦ absurd (omega (arith, rw (Memᴰ.eq_of_singleton new) at h))
      ],
    )

pub apply-Accounted :
    (log : InvalidationLog) (applied : List Row) (n : ℕ) (todo : List Row) (r : Row)
    → Accounted log applied n todo
    → Accounted log (r ∷ applied) n todo
unfolding Accounted
apply-Accounted log applied n todo r (bound, all) =
    (bound, λ q m h. elim (all q m h) [ inl done ↦ inl (Memᴰ.tail done) | inr left ↦ inr left ])

pub next-Accounted :
    (log : InvalidationLog) (applied : List Row) (n : ℕ) (todo : List Row) (r : Row)
    → Accounted log applied n (r ∷ todo)
    → Accounted log (r ∷ applied) n todo
unfolding Accounted
next-Accounted log applied n todo r (bound, all) = (
  bound,
  λ q m h. elim (all q m h) [
    | inl done ↦ inl (Memᴰ.tail done)
    | inr left ↦ elim (Memᴰ.cases_cons left) [ inl e ↦ inl (Memᴰ.head e) | inr rest ↦ inr rest ]
  ],
)

pub query-Accounted :
    (log : InvalidationLog) (applied : List Row) (seen : ℕ) (r : Row) (rest : List Row)
    → Ascending 0 log
    → Accounted log applied seen []
    → rows_after log seen ≡ r ∷ rest
    → Accounted log applied (last_seq (r ∷ rest)) (r ∷ rest)
unfolding Accounted
query-Accounted log applied seen r rest asc (bound, all) e = elim (rows_after-head 0 seen log asc) [
  | inl (_, last, _) ↦ (
    omega (arith, rw e at last),
    λ q m _. elim (Bool-cases (ltb seen q.seq)) [
      | inl later ↦ inr (rw e at (mem-rows_after q log seen m (ground arith)))
      | inr old ↦ elim (all q m (ground arith)) [
        | inl done ↦ inl done
        | inr none_left ↦ absurd (Memᴰ.not-nil none_left)
      ]
    ],
  )
  | inr (_, none_left) ↦ absurd (cc)
]

unfoldable pub UnderWay : InvalidationLog → List Row → Poll → Type 0
UnderWay log applied (reading seen) = Accounted log applied seen []
UnderWay log applied (applying last todo) = Accounted log applied last todo

pub publish-UnderWay :
    (log : InvalidationLog) (code reason : Text) (applied : List Row)
    → Ascending 0 log
    → (p : Poll) → UnderWay log applied p
    → UnderWay (publish log code reason).0 applied p
unfolding UnderWay
publish-UnderWay log code reason applied asc (reading seen) h =
    publish-Accounted log code reason applied seen [] asc h
publish-UnderWay log code reason applied asc (applying last todo) h =
    publish-Accounted log code reason applied last todo asc h

pub apply-UnderWay :
    (log : InvalidationLog) (applied : List Row) (r : Row) (p : Poll)
    → UnderWay log applied p
    → UnderWay log (r ∷ applied) p
unfolding UnderWay
apply-UnderWay log applied r (reading seen) h = apply-Accounted log applied seen [] r h
apply-UnderWay log applied r (applying last todo) h = apply-Accounted log applied last todo r h
