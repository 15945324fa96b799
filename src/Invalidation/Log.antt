-- ===== src/Invalidation/Log.antt =====
-- src/shortener/invalidation.py, the order of the rows of the log, and what stands after a cursor.
use url_shortener_100x.Prelude.{
  ℕ, suc, ◌≤◌, ◌<◌, ◌≡◌, ◌≢◌, ◌⊎◌, refl, max, [], ◌∷◌, ◌++◌, arith, ltb, Text, Bool-cases, inl, inr,
  false,
}
use url_shortener_100x.Prelude.Table
use url_shortener_100x.Prelude.Table.{Table}
use url_shortener_100x.Invalidation.{
  Row, InvalidationLog, head, publish, rows_after, last_seq, cursor,
}

-- Numbers grow along the table, and are above `n`.
unfoldable pub Ascending : ℕ → InvalidationLog → Type 0
Ascending n [] = Unit
Ascending n (r ∷ log) = (n < r.seq) × Ascending r.seq log

head-ge : (n : ℕ) (r : Row) (log : InvalidationLog) → Ascending n (r ∷ log) → n < head (r ∷ log)
unfolding Ascending head
head-ge n r log h = omega arith

Ascending-append :
    (n : ℕ) (log : InvalidationLog) (r : Row)
    → Ascending n log
    → n < r.seq
    → head log < r.seq
    → Ascending n (log ++ r ∷ [])
unfolding Ascending head
Ascending-append n [] r h p q = (p, tt)
Ascending-append n (x ∷ log) r h p q =
    (h.0, Ascending-append x.seq log r h.1 (omega arith) (omega arith))

head-append : (log : InvalidationLog) (r : Row) → head (log ++ r ∷ []) ≡ max (head log) r.seq
unfolding head
head-append [] r = omega arith
head-append (x ∷ log) r = omega (arith, head-append log r)

-- A published number is one more than every number before it, and the table stays in order.
pub publish-Ascending :
    (log : InvalidationLog) (code reason : Text)
    → Ascending 0 log
    → Ascending 0 (publish log code reason).0
      × ((publish log code reason).1 ≡ suc (head log))
      × (head (publish log code reason).0 ≡ (publish log code reason).1)
unfolding publish
publish-Ascending log code reason h =
    let r : Row = record { seq = suc (head log); code = code; reason = reason } in
    (Ascending-append 0 log r h (omega arith) (omega arith), refl, omega (arith, head-append log r))

ltb-false→le : (a b : ℕ) → ltb a b ≡ false → b ≤ a
ltb-false→le a b h = ground arith

rows_after-all :
    (m n : ℕ) (log : InvalidationLog) → Ascending m log → n ≤ m → rows_after log n ≡ log
unfolding rows_after Ascending
rows_after-all m n [] h p = refl
rows_after-all m n (r ∷ log) h p = ground (arith, rows_after-all r.seq n log h.1)

last_seq-eq-head : (m : ℕ) (log : InvalidationLog) → Ascending m log → last_seq log ≡ head log
unfolding last_seq Ascending head
last_seq-eq-head m [] h = refl
last_seq-eq-head m (r ∷ []) h = omega arith
last_seq-eq-head m (r ∷ q ∷ log) h = omega (arith, last_seq-eq-head r.seq (q ∷ log) h.1)

-- What stands after a cursor ends with the head of the log; nothing does once the head is reached.
pub rows_after-head :
    (m n : ℕ) (log : InvalidationLog)
    → Ascending m log
    → ((n < head log) × (last_seq (rows_after log n) ≡ head log) × (rows_after log n ≢ []))
      ⊎ ((head log ≤ n) × (rows_after log n ≡ []))
unfolding rows_after head
rows_after-head m n [] h = inr (omega arith, refl)
rows_after-head m n (r ∷ log) h = elim (Bool-cases (ltb n r.seq)) [
  | inl later ↦ inl (
    ground arith,
    rw (later, rows_after, rows_after-all r.seq n log (unfold Ascending in h.1) (ground arith))
        (last_seq-eq-head m (r ∷ log) h),
    rw (later, rows_after) (λ e. cc),
  )
  | inr seen ↦ elim (rows_after-head r.seq n log (unfold Ascending in h.1)) [
    | inl (more, last, some_rows) ↦ inl (
      omega arith,
      rw (seen, rows_after) (omega (arith, last, ltb-false→le n r.seq seen)),
      rw (seen, rows_after) some_rows,
    )
    | inr (done, no_rows) ↦
        inr (omega (arith, ltb-false→le n r.seq seen), rw (seen, rows_after) no_rows)
  ]
]

pub cursor-put :
    (cursors : Table ℕ) (i : Text) (n applied polls : ℕ)
    → cursor (record { cursors = Table.put cursors i n; applied = applied; polls = polls }) i ≡ n
unfolding cursor
cursor-put cursors i n applied polls = ground (arith, Table.get-put cursors i i n)
