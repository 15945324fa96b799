-- ===== src/Ids/Snowflake/Step.antt =====
-- src/shortener/ids.py, one call of `SnowflakeGenerator.next_id`: the id against the state.
use url_shortener_100x.Prelude.{
  ℕ, suc, ◌+◌, ◌-◌, ◌≤◌, ◌<◌, ◌≡◌, refl, ap, Option, none, some, List, [], ◌∷◌, arith, ltb, ◌==◌,
  All, inl, inr, Bool-cases, Option-cases, ℤ, pos,
}
use url_shortener_100x.Ids.Snowflake.{
  Generator, Call, issued, refused, waiting, wait_for, advance, check_clock, issue, next_id,
  max_sequence, max_instance, epoch_ms, decode_id,
}
use url_shortener_100x.Ids.Snowflake.Layout.{layout, compose_id-layout, decode-compose_id}
use url_shortener_100x.Ids.Snowflake.Clock.{wait_for_lem}

-- The smallest id that the generator may still issue, as the fields that it has used up say.
unfoldable pub floor_id : Generator → ℕ
floor_id g = elim g.last_ms [
  | none ↦ 0
  | some last ↦ suc (layout (last - epoch_ms) g.instance_id g.sequence)
]

abbrev AfterEpoch : Option ℕ → Type 0
AfterEpoch none = Unit
AfterEpoch (some last) = epoch_ms ≤ last

pub record IsValid (g : Generator) : Type 0 where
  pub instance_fits : g.instance_id ≤ max_instance
  pub sequence_fits : g.sequence ≤ max_sequence
  pub after_epoch : AfterEpoch g.last_ms

-- What an issued id has to do with the states before and after it.
pub record IsNext (g : Generator) (id : ℤ) (g' : Generator) (rest : List ℕ) : Type 0 where
  pub number : ℕ
  pub id_eq : id ≡ pos number
  pub above : floor_id g ≤ number
  pub floor : floor_id g' ≡ suc number
  pub same_instance : g'.instance_id ≡ g.instance_id
  pub reads_back : (decode_id number).instance_id ≡ g.instance_id
  pub valid : IsValid g'
  pub clock : All (λ r. epoch_ms ≤ r) rest

abbrev pub Sound : Generator → Call ℤ → Type 0
Sound g (issued id g' rest) = IsNext g id g' rest
Sound g (refused e g' rest) = (g' ≡ g) × All (λ r. epoch_ms ≤ r) rest
Sound g waiting = Unit

module _ (g : Generator) (valid : IsValid g) where
  issue-Sound :
      (now q : ℕ) (rest : List ℕ)
      → epoch_ms ≤ now
      → q ≤ max_sequence
      → floor_id g ≤ layout (now - epoch_ms) g.instance_id q
      → All (λ r. epoch_ms ≤ r) rest
      → Sound g (issue g now q rest)
  unfolding issue
  issue-Sound now q rest h hq above ps =
      let e = compose_id-layout now g.instance_id q h valid.instance_fits hq in
      record {
        number = layout (now - epoch_ms) g.instance_id q;
        id_eq = e;
        above = above;
        floor = unfold floor_id in refl;
        same_instance = refl;
        reads_back =
            ap (λ f. f.instance_id)
              (decode-compose_id now g.instance_id q _ h valid.instance_fits hq e);
        valid = record { instance_fits = valid.instance_fits; sequence_fits = hq; after_epoch = h };
        clock = ps;
      }

  module _ (last : ℕ) (at_last : g.last_ms ≡ some last) where
    floor_id-some : floor_id g ≡ suc (layout (last - epoch_ms) g.instance_id g.sequence)
    unfolding floor_id
    floor_id-some = rw at_last

    last_after_epoch : epoch_ms ≤ last
    last_after_epoch = rw at_last at (valid.after_epoch)

    -- A later time stamps above whatever was issued.
    later-Sound :
        (later : ℕ) (rest : List ℕ)
        → last < later
        → All (λ r. epoch_ms ≤ r) rest
        → Sound g (issue g later 0 rest)
    later-Sound later rest h ps =
        issue-Sound later 0 rest (omega (arith, last_after_epoch)) (omega arith)
          (rw floor_id-some
            (omega (arith, last_after_epoch, valid.instance_fits, valid.sequence_fits)))
          ps

    next-Sound :
        (rest : List ℕ)
        → g.sequence + 1 ≤ max_sequence
        → All (λ r. epoch_ms ≤ r) rest
        → Sound g (issue g last (g.sequence + 1) rest)
    next-Sound rest h ps =
        issue-Sound last (g.sequence + 1) rest last_after_epoch h (rw floor_id-some (omega arith))
          ps

    advance-Sound :
        (now : ℕ) (clock : List ℕ)
        → last ≤ now
        → All (λ r. epoch_ms ≤ r) (now ∷ clock)
        → Sound g (advance g last now clock)
    unfolding advance
    advance-Sound now clock h ps = elim (Bool-cases (now == last)) [
      | inr other ↦ rw (other, advance) (later-Sound now clock (ground arith) ps.1)
      | inl same ↦ elim (Bool-cases (ltb max_sequence (g.sequence + 1))) [
        | inr room ↦
            let e : now ≡ last = ground arith in
            rw (same, advance, room, e) (next-Sound clock (ground arith) ps.1)
        | inl full ↦ elim (Option-cases (wait_for (suc last) now clock)) [
          | inl stuck ↦ rw (same, advance, full, stuck) tt
          | inr ((later, rest), found) ↦
              let (past, _, qs) =
                wait_for_lem (λ r. epoch_ms ≤ r) (suc last) now clock later rest found ps.0 ps.1 in
              rw (same, advance, full, found) (later-Sound later rest past qs)
        ]
      ]
    ]

    check_clock-Sound :
        (now : ℕ) (clock : List ℕ)
        → All (λ r. epoch_ms ≤ r) (now ∷ clock)
        → Sound g (check_clock g last now clock)
    unfolding check_clock
    check_clock-Sound now clock ps = elim (Bool-cases (ltb now last)) [
      | inr late ↦ rw (late, check_clock) (advance-Sound now clock (ground arith) ps)
      | inl early ↦ elim (Bool-cases (ltb 5000 (last - now))) [
        | inl far ↦ rw (early, check_clock, far) (refl, ps.1)
        | inr near ↦ elim (Option-cases (wait_for last now clock)) [
          | inl stuck ↦ rw (early, check_clock, near, stuck) tt
          | inr ((later, rest), found) ↦
              let (past, p, qs) =
                wait_for_lem (λ r. epoch_ms ≤ r) last now clock later rest found ps.0 ps.1 in
              rw (early, check_clock, near, found) (advance-Sound later rest past (p, qs))
        ]
      ]
    ]

  floor_id-none : g.last_ms ≡ none → floor_id g ≡ 0
  unfolding floor_id
  floor_id-none e = ground arith

  next_id-none :
      (now : ℕ) (clock : List ℕ) → g.last_ms ≡ none → next_id g (now ∷ clock) ≡ issue g now 0 clock
  unfolding next_id
  next_id-none now clock e = ground arith

  next_id-some :
      (now : ℕ) (clock : List ℕ) (last : ℕ)
      → g.last_ms ≡ some last
      → next_id g (now ∷ clock) ≡ check_clock g last now clock
  unfolding next_id
  next_id-some now clock last e = ground arith

  -- One call: what it issues is above every earlier id and carries this instance.
  pub next_id-Sound : (clock : List ℕ) → All (λ r. epoch_ms ≤ r) clock → Sound g (next_id g clock)
  next_id-Sound [] ps = unfold next_id in tt
  next_id-Sound (now ∷ clock) ps = go g.last_ms refl
    where
      go : (o : Option ℕ) → g.last_ms ≡ o → Sound g (next_id g (now ∷ clock))
      go none e =
          rw (next_id-none now clock e)
            (issue-Sound now 0 clock ps.0 (omega arith) (rw (floor_id-none e) (omega arith)) ps.1)
      go (some last) e = rw (next_id-some now clock last e) (check_clock-Sound last e now clock ps)
