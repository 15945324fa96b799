-- ===== src/Load/OpenLoop/Recorded.antt =====
-- src/shortener/openloop.py, what the run has of each of its arrivals, and the times it records.
use url_shortener_100x.Prelude.{
  ℕ, zero, suc, ◌+◌, ◌≤◌, ◌≡◌, refl, ◌∙◌, Bool, true, false, not, some, List, [], ◌∷◌, ◌++◌, ltb,
  if◌then◌else◌, length, length-append, pick, Text, arith, Bool-cases, Option-cases, inl, inr,
}
use url_shortener_100x.Load.Results.{sum_where}
use url_shortener_100x.Load.Results.Counts.{any_status, sum_where-bump}
use url_shortener_100x.Load.Sweep.{OpenLoopResults}
use url_shortener_100x.Load.OpenLoop.{
  Request, Loop, Event, came_due, answered, failed, spin, fire, next_arrival, respond, write, step,
  record_times,
}

abbrev one : Bool → ℕ
one b = if b then 1 else 0

-- The arrivals, the unfinished requests, and the recorded ones of one kind.
unfoldable pub due : (ℕ → Bool) → List ℕ → ℕ
due p [] = 0
due p (at ∷ arrivals) = one (p at) + due p arrivals

unfoldable pub waiting : (Bool → Bool) → List (ℕ × Request) → ℕ
waiting p [] = 0
waiting p ((id, r) ∷ requests) = one (p r.warm_up) + waiting p requests

abbrev pub recorded : OpenLoopResults → ℕ
recorded r = length r.latencies + r.errors

waiting-pick :
    (p : Bool → Bool) (requests : List (ℕ × Request)) (n id : ℕ) (r : Request)
    (rest : List (ℕ × Request))
    → pick requests n ≡ some ((id, r), rest)
    → waiting p requests ≡ one (p r.warm_up) + waiting p rest
unfolding pick waiting
waiting-pick p [] n id r rest e = absurd (ground (arith, e))
waiting-pick p ((i, q) ∷ requests) zero id r rest e =
    let e₀ : q ≡ r = ground arith in let e₁ : requests ≡ rest = ground arith in rw (e₀, e₁)
waiting-pick p ((i, q) ∷ requests) (suc n) id r rest e = elim (Option-cases (pick requests n)) [
  | inl gone ↦ absurd (ground arith)
  | inr (((j, x), xs), found) ↦
      let e₀ : x ≡ r = ground arith in
      let e₁ : (i, q) ∷ xs ≡ rest = ground arith in
      rw (← e₀, ← e₁) (omega (arith, waiting-pick p requests n j x xs found))
]

pub spin_deadline :
    (deadline now : ℕ) (waits : List ℕ) (t : ℕ)
    → spin deadline now waits ≡ some t
    → (deadline ≤ t) × (now ≤ t)
unfolding spin
spin_deadline deadline now [] t e = absurd (ground (arith, e))
spin_deadline deadline now (wait ∷ waits) t e = elim (Bool-cases (ltb (now + wait) deadline)) [
  | inl early ↦
      let ih = spin_deadline deadline (now + wait) waits t (rw (early, spin) at e) in
      (ih.0, omega (arith, ih.1))
  | inr late ↦
      let at_once : now + wait ≡ t = ground (arith, rw (late, spin) at e) in
      (ground (arith, late, at_once), omega (arith, at_once))
]

-- The three times of each request: from due to done is from due to sent and from sent to done.
unfoldable pub Charged : List ℕ → List ℕ → List ℕ → Type 0
Charged [] [] [] = Unit
Charged (latency ∷ latencies) (service ∷ services) (drift ∷ drifts) =
    (latency ≡ drift + service) × Charged latencies services drifts
Charged _ _ _ = ⊥

Charged-append :
    (ls ss ds : List ℕ) (l s d : ℕ)
    → Charged ls ss ds
    → l ≡ d + s
    → Charged (ls ++ l ∷ []) (ss ++ s ∷ []) (ds ++ d ∷ [])
unfolding Charged
Charged-append [] [] [] l s d h e = (e, tt)
Charged-append (x ∷ ls) (y ∷ ss) (z ∷ ds) l s d h e = (h.0, Charged-append ls ss ds l s d h.1 e)
Charged-append [] [] (z ∷ ds) l s d h e = absurd h
Charged-append [] (y ∷ ss) ds l s d h e = absurd h
Charged-append (x ∷ ls) [] ds l s d h e = absurd h
Charged-append (x ∷ ls) (y ∷ ss) [] l s d h e = absurd h

-- Results whose times are charged from the due time, with one status for each.
unfoldable pub Sound : OpenLoopResults → Type 0
Sound r =
    Charged r.latencies r.service r.drift
    × (sum_where any_status r.status_counts ≡ length r.latencies)

record_times-Sound :
    (r : OpenLoopResults) (l s d status : ℕ)
    → Sound r
    → l ≡ d + s
    → Sound (record_times r l s d status)
unfolding Sound record_times
record_times-Sound r l s d status (charged, counted) e = (
  Charged-append r.latencies r.service r.drift l s d charged e,
  omega (
    arith,
    sum_where-bump any_status r.status_counts status,
    counted,
    length-append r.latencies (l ∷ []),
  ),
)

unfoldable pub Timely : ℕ → ℕ → ℕ × Request → Type 0
Timely t0 now (id, r) = (t0 + r.scheduled_at ≤ r.sent) × (r.sent ≤ now)

pub respond-Sound :
    (t0 id : ℕ) (r : Request) (now elapsed status : ℕ) (sink : OpenLoopResults)
    → Timely t0 now (id, r)
    → Sound sink
    → Sound (respond t0 r (now + elapsed) status sink)
unfolding respond Timely
respond-Sound t0 id r now elapsed status sink timely h =
    record_times-Sound sink _ _ _ status h (omega (arith, timely))

-- The results for the warm-up, or the others.
abbrev sink : Bool → Loop → OpenLoopResults
sink true s = s.warm
sink false s = s.results

abbrev is_kind : Bool → Bool → Bool
is_kind true w = w
is_kind false w = not w

write-sink :
    (b : Bool) (s : Loop) (r : Request) (f : OpenLoopResults → OpenLoopResults)
    → sink b (write s r f) ≡ (if is_kind b r.warm_up then f (sink b s) else sink b s)
unfolding write
write-sink true s r f = ground arith
write-sink false s r f = ground arith

recorded-respond :
    (t0 : ℕ) (r : Request) (done status : ℕ) (o : OpenLoopResults)
    → recorded (respond t0 r done status o) ≡ recorded o + 1
unfolding respond record_times
recorded-respond t0 r done status o = omega (arith, length-append o.latencies _)

module _ (warmup : ℕ) (keys : List Text) where
  abbrev pub is_warm : ℕ → Bool
  is_warm at = ltb at warmup

  -- The requests of one kind: recorded, waited for, and to come.
  abbrev pub total : Bool → Loop → ℕ
  total b s =
      recorded (sink b s)
      + waiting (is_kind b) s.unfinished
      + due (λ at. is_kind b (is_warm at)) s.arrivals

  fire-total :
      (b : Bool) (s : Loop) (at sent : ℕ)
      → total b (fire warmup keys s at sent) ≡ total b s + one (is_kind b (is_warm at))
  unfolding fire waiting
  fire-total true s at sent = omega arith
  fire-total false s at sent = omega arith

  write-total :
      (b : Bool) (s : Loop) (n id : ℕ) (r : Request) (rest : List (ℕ × Request)) (now : ℕ)
      (f : OpenLoopResults → OpenLoopResults)
      → pick s.unfinished n ≡ some ((id, r), rest)
      → ((o : OpenLoopResults) → recorded (f o) ≡ recorded o + 1)
      → total b (write (record s { now = now; unfinished = rest }) r f) ≡ total b s
  unfolding write
  write-total true s n id r rest now f found more =
      let picked = waiting-pick (is_kind true) s.unfinished n id r rest found in
      elim (Bool-cases r.warm_up) [
        | inl w ↦ rw (w, write) (omega (arith, more s.warm, rw w at picked))
        | inr w ↦ rw (w, write) (omega (arith, rw w at picked))
      ]
  write-total false s n id r rest now f found more =
      let picked = waiting-pick (is_kind false) s.unfinished n id r rest found in
      elim (Bool-cases r.warm_up) [
        | inl w ↦ rw (w, write) (omega (arith, rw w at picked))
        | inr w ↦ rw (w, write) (omega (arith, more s.results, rw w at picked))
      ]

  next_arrival-total :
      (b : Bool) (s : Loop) (waits : List ℕ) (gap : ℕ) (arrivals : List ℕ)
      → s.arrivals ≡ arrivals
      → total b (next_arrival warmup keys s waits gap arrivals) ≡ total b s
  unfolding next_arrival due
  next_arrival-total b s waits gap [] e = refl
  next_arrival-total b s waits gap (at ∷ arrivals) e =
      elim (Option-cases (spin (s.t0 + at) s.now waits)) [
        | inl early ↦ rw (early, next_arrival) refl
        | inr (now, came) ↦
            rw (came, next_arrival)
              (fire-total b (record s { arrivals = arrivals }) at (now + gap) ∙ rw e (ground arith))
      ]

  pub step-total : (b : Bool) (s : Loop) (e : Event) → total b (step warmup keys s e) ≡ total b s
  unfolding step
  step-total b s (came_due waits gap) = next_arrival-total b s waits gap s.arrivals refl
  step-total b s (answered n elapsed status) = elim (Option-cases (pick s.unfinished n)) [
    | inl gone ↦ rw (gone, step) refl
    | inr (((id, r), rest), found) ↦
        rw (found, step)
          (write-total b s n id r rest (s.now + elapsed) (respond s.t0 r (s.now + elapsed) status)
            found (recorded-respond s.t0 r (s.now + elapsed) status))
  ]
  step-total b s (failed n) = elim (Option-cases (pick s.unfinished n)) [
    | inl gone ↦ rw (gone, step) refl
    | inr (((id, r), rest), found) ↦
        rw (found, step)
          (write-total b s n id r rest s.now (λ o. record o { errors = o.errors + 1 }) found
            (λ o. omega arith))
  ]
