-- ===== src/Invalidation/Poll.antt =====
-- src/shortener/invalidation.py, `poll`: its effect on the cursors and on a cache, and a crash inside it.
use url_shortener_100x.Prelude.{
  ℕ, zero, suc, ◌+◌, ◌-◌, ◌≤◌, ◌<◌, ◌≡◌, ◌≢◌, ◌⊎◌, refl, ap, ◌∙◌, Bool, true, false, none, List, [],
  ◌∷◌, arith, if◌then◌else◌, length, Text, text_dec, ite, inl, inr, max,
}
use url_shortener_100x.Prelude.Table
use url_shortener_100x.Prelude.Table.{Table}
use url_shortener_100x.Store.Lru
use url_shortener_100x.Store.Lru.{LruCache, Entry}
use url_shortener_100x.Store.Lru.Reads.{get-eq-live, live}
use url_shortener_100x.Invalidation.{
  Row, InvalidationLog, Bus, head, rows_after, last_seq, apply_rows, poll, crash_after, cursor, lag,
}
use url_shortener_100x.Invalidation.Log.{Ascending, rows_after-head, cursor-put}

-- Whether a code is among the rows.
unfoldable pub named : List Row → Text → Bool
named [] j = false
named (r ∷ rows) j = ite (text_dec r.code j) true (named rows j)

module _ {V : Type 0} where
  -- The rows' codes miss afterwards, and every other entry is as it was.
  pub get-apply_rows :
      (rows : List Row) (c : LruCache V) (j : Text)
      → Table.get (apply_rows c rows).entries j
        ≡ (if named rows j then none else Table.get c.entries j)
  unfolding apply_rows named Lru.invalidate
  get-apply_rows [] c j = refl
  get-apply_rows (r ∷ rows) c j =
      ground (
        arith,
        get-apply_rows rows (Lru.invalidate c r.code) j,
        Table.get-remove c.entries r.code j,
      )

  remove_comm :
      (d : Table V) (k j : Text)
      → Table.remove (Table.remove d k) j ≡ Table.remove (Table.remove d j) k
  unfolding Table.remove
  remove_comm [] k j = refl
  remove_comm ((i, w) ∷ d) k j = ground (arith, remove_comm d k j)

  remove_twice : (d : Table V) (k : Text) → Table.remove (Table.remove d k) k ≡ Table.remove d k
  remove_twice d k =
      Table.remove-absent (Table.remove d k) k (ground (arith, Table.get-remove d k k))

module _ {V : Type 0} where
  invalidate_comm :
      (c : LruCache V) (k j : Text)
      → Lru.invalidate (Lru.invalidate c k) j ≡ Lru.invalidate (Lru.invalidate c j) k
  unfolding Lru.invalidate
  invalidate_comm c k j = ap (λ d. record c { entries = d }) (remove_comm c.entries k j)

  invalidate_twice :
      (c : LruCache V) (k : Text) → Lru.invalidate (Lru.invalidate c k) k ≡ Lru.invalidate c k
  unfolding Lru.invalidate
  invalidate_twice c k = ap (λ d. record c { entries = d }) (remove_twice c.entries k)

  invalidate-crash_after :
      (n : ℕ) (rows : List Row) (c : LruCache V) (k : Text)
      → Lru.invalidate (crash_after n c rows) k ≡ crash_after n (Lru.invalidate c k) rows
  unfolding crash_after
  invalidate-crash_after zero rows c k = refl
  invalidate-crash_after (suc n) [] c k = refl
  invalidate-crash_after (suc n) (r ∷ rows) c k =
      invalidate-crash_after n rows (Lru.invalidate c r.code) k
      ∙ ap (λ x. crash_after n x rows) (invalidate_comm c r.code k)

  -- A poll that replays a batch which a crash had begun leaves the cache of one whole poll.
  apply_rows-crash_after :
      (n : ℕ) (rows : List Row) (c : LruCache V)
      → apply_rows (crash_after n c rows) rows ≡ apply_rows c rows
  unfolding apply_rows crash_after
  apply_rows-crash_after zero rows c = refl
  apply_rows-crash_after (suc n) [] c = refl
  apply_rows-crash_after (suc n) (r ∷ rows) c =
      ap (λ x. apply_rows x rows)
        (invalidate-crash_after n rows (Lru.invalidate c r.code) r.code
          ∙ ap (λ x. crash_after n x rows) (invalidate_twice c r.code))
      ∙ apply_rows-crash_after n rows (Lru.invalidate c r.code)

  module _ (log : InvalidationLog) (b : Bus) (i : Text) (c : LruCache V) where
    abbrev pub missed : List Row
    missed = rows_after log (cursor b i)

    cursor-polls : (n : ℕ) → cursor (record b { polls = n }) i ≡ cursor b i
    unfolding cursor
    cursor-polls n = refl

    lag_lem : (b' : Bus) → lag log b' i ≡ head log - cursor b' i
    unfolding lag
    lag_lem b' = refl

    poll_nothing : missed ≡ [] → poll log b i c ≡ (record b { polls = b.polls + 1 }, c, 0)
    unfolding poll
    poll_nothing e = rw (e, poll)

    poll_some :
        (r : Row) (rest : List Row)
        → missed ≡ r ∷ rest
        → poll log b i c ≡ (
          record {
            cursors = Table.put b.cursors i (last_seq (r ∷ rest));
            applied = b.applied + length (r ∷ rest);
            polls = b.polls + 1;
          },
          apply_rows c (r ∷ rest),
          length (r ∷ rest),
        )
    unfolding poll
    poll_some r rest e = rw (e, poll)

    abbrev moved_bus : Row → List Row → Bus
    moved_bus r rest = record {
      cursors = Table.put b.cursors i (last_seq (r ∷ rest));
      applied = b.applied + length (r ∷ rest);
      polls = b.polls + 1;
    }

    abbrev pub Polled : Bus × LruCache V × ℕ → Type 0
    Polled (b', c', n) =
        (c' ≡ apply_rows c missed)
        × (n ≡ length missed)
        × (cursor b' i ≡ max (cursor b i) (head log))
        × (lag log b' i ≡ 0)

    polled :
        (rows : List Row)
        → missed ≡ rows
        → ((cursor b i < head log) × (last_seq rows ≡ head log) × (rows ≢ []))
          ⊎ ((head log ≤ cursor b i) × (rows ≡ []))
        → Polled (poll log b i c)
    polled [] e (inl (more, last, some_rows)) = absurd (some_rows refl)
    polled [] e (inr (done, _)) =
        rw (poll_nothing e, e)
          (
            unfold apply_rows in refl,
            refl,
            omega (arith, cursor-polls (b.polls + 1)),
            omega (arith, lag_lem (record b { polls = b.polls + 1 }), cursor-polls (b.polls + 1)),
          )
    polled (r ∷ rest) e (inr (done, none_left)) = absurd (cc)
    polled (r ∷ rest) e (inl (more, last, _)) =
        let moved =
          cursor-put b.cursors i (last_seq (r ∷ rest)) (b.applied + length (r ∷ rest))
            (b.polls + 1) in
        rw (poll_some r rest e, e)
          (refl, refl, omega (arith, moved), omega (arith, lag_lem (moved_bus r rest), moved))

    poll-other :
        (k : Text)
        → k ≢ i
        → (rows : List Row) → missed ≡ rows
        → cursor (poll log b i c).0 k ≡ cursor b k
    unfolding cursor
    poll-other k other [] e = rw (poll_nothing e)
    poll-other k other (r ∷ rest) e =
        rw (poll_some r rest e) (ground (arith, Table.get-put b.cursors i k (last_seq (r ∷ rest))))

    -- `poll` in one line: apply what was missed, and move the cursor to the head of the log.
    pub poll_lem : Ascending 0 log → Polled (poll log b i c)
    poll_lem h = polled missed refl (rows_after-head 0 (cursor b i) log h)

    -- After a poll every code that was published since the cursor misses the cache, every other
    -- entry is untouched, nothing is left to apply, and the cursors of other instances are theirs.
    pub poll_converges :
        (now : ℕ) (j k : Text)
        → Ascending 0 log
        → named missed j ≡ true
        → k ≢ i
        → ((Lru.get (poll log b i c).1 j now).1 ≡ none)
          × ((x : Text)
              → named missed x ≡ false
              → Table.get (poll log b i c).1.entries x ≡ Table.get c.entries x)
          × (lag log (poll log b i c).0 i ≡ 0)
          × (cursor (poll log b i c).0 k ≡ cursor b k)
    poll_converges now j k h hit other =
        let p = poll_lem h in
        (
          rw (p.0, get-eq-live, get-apply_rows, hit) (unfold live in refl),
          λ x missing. rw (p.0, get-apply_rows, missing),
          p.3,
          poll-other k other missed refl,
        )
