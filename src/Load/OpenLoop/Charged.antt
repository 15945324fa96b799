-- ===== src/Load/OpenLoop/Charged.antt =====
-- src/shortener/openloop.py, a run as a whole: it accounts for each arrival and waits for each task.
use url_shortener_100x.Prelude.{
  ℕ, ◌+◌, ◌≤◌, ◌≡◌, refl, ◌∙◌, Bool, true, false, not, some, List, [], ◌∷◌, ◌++◌, ltb,
  if◌then◌else◌, length, pick, Text, arith, All, All-pick, All-map, Bool-cases, Option-cases, inl,
  inr,
}
use url_shortener_100x.Load.Sweep.{OpenLoopResults}
use url_shortener_100x.Load.OpenLoop.{
  Request, Loop, Event, came_due, answered, failed, started, spin, is_unfinished, prune, fire,
  next_arrival, respond, write, step, run, is_gathered, max_inflight,
}
use url_shortener_100x.Load.OpenLoop.Complete.{
  has, has-append, has-prune, is_unfinished-pick, Held, is_empty, is_gathered-is_empty,
}
use url_shortener_100x.Load.OpenLoop.Recorded.{
  Sound, Timely, respond-Sound, spin_deadline, due, waiting, recorded, step-total, total, Charged,
}
use url_shortener_100x.Load.Results.{sum_where}

Timely-later :
    (t0 now later : ℕ) → now ≤ later → (p : ℕ × Request) → Timely t0 now p → Timely t0 later p
unfolding Timely
Timely-later t0 now later h (id, r) (a, b) = (a, omega (arith, b))

Inv : Loop → Type 0
Inv s = Held s × All (Timely s.t0 s.now) s.unfinished × Sound s.results × Sound s.warm

write-Inv :
    (s : Loop) (r : Request) (f : OpenLoopResults → OpenLoopResults)
    → Inv s
    → ((o : OpenLoopResults) → Sound o → Sound (f o))
    → Inv (write s r f)
unfolding Inv write Held
write-Inv s r f (held, timely, results, warm) keeps = elim (Bool-cases r.warm_up) [
  | inl w ↦ rw (w, write) (held, timely, results, keeps s.warm warm)
  | inr w ↦ rw (w, write) (held, timely, keeps s.results results, warm)
]

pick-Inv :
    (s : Loop) (n : ℕ) (p : ℕ × Request) (rest : List (ℕ × Request)) (later : ℕ)
    → pick s.unfinished n ≡ some (p, rest)
    → s.now ≤ later
    → Inv s
    → Timely s.t0 s.now p × Inv (record s { now = later; unfinished = rest })
unfolding Inv Held
pick-Inv s n p rest later found more (held, timely, results, warm) =
    let (this, others) = All-pick (Timely s.t0 s.now) s.unfinished n p rest timely found in
    (
      this,
      (
        λ id h. held id (is_unfinished-pick s.unfinished n p rest id found h),
        All-map (Timely s.t0 s.now) (Timely s.t0 later) rest (Timely-later s.t0 s.now later more)
            others,
        results,
        warm,
      ),
    )

has-prune_if :
    (long : Bool) (requests : List (ℕ × Request)) (ids : List ℕ) (id : ℕ)
    → is_unfinished requests id ≡ true
    → has (if long then prune requests ids else ids) id ≡ has ids id
has-prune_if true requests ids id h = has-prune requests ids id h
has-prune_if false requests ids id h = refl

module _ (warmup : ℕ) (keys : List Text) where
  fire-Inv :
      (s : Loop) (at sent : ℕ)
      → s.t0 + at ≤ sent
      → s.now ≤ sent
      → Inv s
      → Inv (fire warmup keys s at sent)
  unfolding Inv Held fire Timely is_unfinished
  fire-Inv s at sent late more (held, timely, results, warm) =
      let s' : Loop = fire warmup keys s at sent in
      (
        λ id h.
            has-prune_if (ltb max_inflight (length (s.inflight ++ s.index ∷ []))) s'.unfinished
              (s.inflight ++ s.index ∷ []) id h
            ∙ has-append s.inflight s.index id
            ∙ ground (arith, h, held id),
        (
          (late, omega arith),
          All-map (Timely s.t0 s.now) (Timely s.t0 sent) s.unfinished
              (Timely-later s.t0 s.now sent more) timely,
        ),
        results,
        warm,
      )

  next_arrival-Inv :
      (s : Loop) (waits : List ℕ) (gap : ℕ) (arrivals : List ℕ)
      → Inv s
      → Inv (next_arrival warmup keys s waits gap arrivals)
  unfolding next_arrival
  next_arrival-Inv s waits gap [] h = h
  next_arrival-Inv s waits gap (at ∷ arrivals) h =
      elim (Option-cases (spin (s.t0 + at) s.now waits)) [
        | inl early ↦ rw (early, next_arrival) h
        | inr (now, came) ↦
            let (late, more) = spin_deadline (s.t0 + at) s.now waits now came in
            rw (came, next_arrival)
              (fire-Inv (record s { arrivals = arrivals }) at (now + gap) (omega (arith, late))
                (omega (arith, more)) (unfold Inv Held in h))
      ]

  step-Inv : (s : Loop) (e : Event) → Inv s → Inv (step warmup keys s e)
  unfolding step
  step-Inv s (came_due waits gap) h = next_arrival-Inv s waits gap s.arrivals h
  step-Inv s (answered n elapsed status) h = elim (Option-cases (pick s.unfinished n)) [
    | inl gone ↦ rw (gone, step) h
    | inr (((id, r), rest), found) ↦
        let (timely, kept) = pick-Inv s n (id, r) rest (s.now + elapsed) found (omega arith) h in
        rw (found, step)
          (write-Inv _ r (respond s.t0 r (s.now + elapsed) status) kept
            (λ o. respond-Sound s.t0 id r s.now elapsed status o timely))
  ]
  step-Inv s (failed n) h = elim (Option-cases (pick s.unfinished n)) [
    | inl gone ↦ rw (gone, step) h
    | inr (((id, r), rest), found) ↦
        let (_, kept) = pick-Inv s n (id, r) rest s.now found (omega arith) h in
        rw (found, step)
          (write-Inv _ r (λ o. record o { errors = o.errors + 1 }) kept
            (λ o sound. unfold Sound in sound))
  ]

  run-Inv : (events : List Event) (s : Loop) → Inv s → Inv (run warmup keys s events)
  unfolding run
  run-Inv [] s h = h
  run-Inv (e ∷ events) s h = run-Inv events (step warmup keys s e) (step-Inv s e h)

  run-total :
      (b : Bool) (events : List Event) (s : Loop)
      → total warmup keys b (run warmup keys s events) ≡ total warmup keys b s
  unfolding run
  run-total b [] s = refl
  run-total b (e ∷ events) s =
      run-total b events (step warmup keys s e) ∙ step-total warmup keys b s e

  started-Inv : (t0 : ℕ) (arrivals : List ℕ) → Inv (started t0 arrivals)
  unfolding Inv Held is_unfinished Sound Charged sum_where
  started-Inv t0 arrivals = (λ id h. absurd (ground (arith, h)), tt, (tt, refl), (tt, refl))

  -- However the arrivals, the answers and the failures interleave: of both kinds, warm-up and
  -- measured, the requests that are recorded or failed, those under way and the arrivals to come are
  -- together the arrivals of that kind; each recorded latency is the time from due to sent and from
  -- sent to done, with one status counted for each; and the run waits for its tasks exactly while
  -- one has not ended, although it forgets finished ones.
  pub run-Charged :
      (t0 : ℕ) (arrivals : List ℕ) (events : List Event)
      → let s = run warmup keys (started t0 arrivals) events in
        (recorded s.results + waiting not s.unfinished + due (λ at. not (ltb at warmup)) s.arrivals
          ≡ due (λ at. not (ltb at warmup)) arrivals)
        × (recorded s.warm + waiting (λ w. w) s.unfinished + due (λ at. ltb at warmup) s.arrivals
            ≡ due (λ at. ltb at warmup) arrivals)
        × Sound s.results
        × Sound s.warm
        × (is_gathered s.unfinished s.inflight ≡ is_empty s.unfinished)
  unfolding Inv waiting
  run-Charged t0 arrivals events =
      let s = run warmup keys (started t0 arrivals) events in
      let (held, _, results, warm) =
        run-Inv events (started t0 arrivals) (started-Inv t0 arrivals) in
      (
        omega (arith, run-total false events (started t0 arrivals)),
        omega (arith, run-total true events (started t0 arrivals)),
        results,
        warm,
        is_gathered-is_empty s held,
      )
