-- ===== src/Invalidation/Overlap/Covered.antt =====
-- src/shortener/invalidation.py, no overlap of polls and no failed poll skips a row of the log.
use mathlib.Core.List.{Memᴰ}
use mathlib.Core.List.Memᴰ
use url_shortener_100x.Prelude.{
  ◌≤◌, List, [], ◌∷◌, arith, Text, Option-cases, List-cases, inl, inr, pick, All, All-map, All-pick,
}
use url_shortener_100x.Store.Lru.{LruCache}
use url_shortener_100x.Invalidation.{
  Row, InvalidationLog, Bus, publish, rows_after, cursor, register, new_poller,
}
use url_shortener_100x.Invalidation.Log.{Ascending, publish-Ascending, cursor-put}
use url_shortener_100x.Invalidation.Overlap.{
  Poll, reading, applying, Instance, Event, published, called, went_on, raised, go_on, step, run,
  registered,
}
use url_shortener_100x.Invalidation.Overlap.Rows.{
  Accounted, UnderWay, seq_above, publish-Accounted, apply-Accounted, next-Accounted,
  query-Accounted, publish-UnderWay, apply-UnderWay,
}

module _ {V : Type 0} (i : Text) where
  Inv : Instance V → Type 0
  Inv s =
      Ascending 0 s.log
      × Accounted s.log s.applied (cursor s.bus i) []
      × All (UnderWay s.log s.applied) s.polls

  go_on-Inv :
      (s : Instance V) (p : Poll) (others : List Poll)
      → Inv (record s { polls = p ∷ others })
      → Inv (go_on i s p others)
  unfolding Inv go_on UnderWay cursor
  go_on-Inv s (reading seen) others (asc, acc, (h, hs)) =
      elim (List-cases (rows_after s.log seen)) [
        | inl e ↦ rw (e, go_on) (asc, acc, hs)
        | inr (r, rest, e) ↦
            rw (e, go_on) (asc, acc, (query-Accounted s.log s.applied seen r rest asc h e, hs))
      ]
  go_on-Inv s (applying last []) others (asc, acc, (h, hs)) =
      (asc, rw (cursor-put s.bus.cursors i last s.bus.applied s.bus.polls) h, hs)
  go_on-Inv s (applying last (r ∷ todo)) others (asc, acc, (h, hs)) = (
    asc,
    apply-Accounted s.log s.applied (cursor s.bus i) [] r acc,
    (
      next-Accounted s.log s.applied last todo r h,
      All-map (UnderWay s.log s.applied) (UnderWay s.log (r ∷ s.applied)) others
          (apply-UnderWay s.log s.applied r) hs,
    ),
  )

  step-Inv : (s : Instance V) (e : Event) → Inv s → Inv (step i s e)
  unfolding Inv step
  step-Inv s (published code reason) (asc, acc, hs) = (
    (publish-Ascending s.log code reason asc).0,
    publish-Accounted s.log code reason s.applied (cursor s.bus i) [] asc acc,
    All-map (UnderWay s.log s.applied) (UnderWay (publish s.log code reason).0 s.applied) s.polls
        (publish-UnderWay s.log code reason s.applied asc) hs,
  )
  step-Inv s called (asc, acc, hs) = (asc, acc, (unfold UnderWay in acc, hs))
  step-Inv s (went_on n) (asc, acc, hs) = elim (Option-cases (pick s.polls n)) [
    | inl gone ↦ rw (gone, step) (asc, acc, hs)
    | inr ((p, others), found) ↦
        let h = All-pick (UnderWay s.log s.applied) s.polls n p others hs found in
        rw (found, step) (go_on-Inv s p others (asc, acc, h))
  ]
  step-Inv s (raised n) (asc, acc, hs) = elim (Option-cases (pick s.polls n)) [
    | inl gone ↦ rw (gone, step) (asc, acc, hs)
    | inr ((p, others), found) ↦
        let (_, rest) = All-pick (UnderWay s.log s.applied) s.polls n p others hs found in
        rw (found, step) (asc, acc, rest)
  ]

  run-Inv : (es : List Event) (s : Instance V) → Inv s → Inv (run i s es)
  unfolding run
  run-Inv [] s h = h
  run-Inv (e ∷ es) s h = run-Inv es (step i s e) (step-Inv s e h)

  registered-Inv :
      (log : InvalidationLog) (b : Bus) (cache : LruCache V)
      → Ascending 0 log
      → Inv (registered log b i cache)
  unfolding Inv registered new_poller register Accounted
  registered-Inv log b cache asc =
      let at_zero = cursor-put b.cursors i 0 b.applied b.polls in
      (
        asc,
        (
          omega (arith, at_zero),
          λ r m h. absurd (omega (arith, at_zero, seq_above r 0 log asc m, h)),
        ),
        tt,
      )

  -- From the registration of an instance's poller, and however its polls overlap each other and the
  -- publishers, and wherever they raise: every row of the log up to the instance's cursor is applied.
  pub run-Covered :
      (log : InvalidationLog) (b : Bus) (cache : LruCache V) (es : List Event) (r : Row)
      → Ascending 0 log
      → Memᴰ r (run i (registered log b i cache) es).log
      → r.seq ≤ cursor (run i (registered log b i cache) es).bus i
      → Memᴰ r (run i (registered log b i cache) es).applied
  unfolding Inv Accounted
  run-Covered log b cache es r asc m h =
      let (_, acc, _) = run-Inv es _ (registered-Inv log b cache asc) in
      elim (acc.1 r m h) [ inl done ↦ done | inr left ↦ absurd (Memᴰ.not-nil left) ]
