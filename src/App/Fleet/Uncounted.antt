-- ===== src/App/Fleet/Uncounted.antt =====
-- src/shortener/app.py, the handlers that count no hit.
use url_shortener_100x.Prelude.{
  ℕ, zero, suc, ◌+◌, ◌≡◌, inl, inr, refl, ◌∙◌, ap, Bool, Option, none, Text, ℤ, Result, ok, raise,
  value_error, key_error, runtime_error, type_error, circuit_open_error, other_error, Result-cases,
  Option-cases, Bool-cases,
}
use url_shortener_100x.Store.Links
use url_shortener_100x.Store.Links.{Attempt, Link, LinkStore}
use url_shortener_100x.Store.Links.Laws.{create-Ends}
use url_shortener_100x.Limiter.{Decision}
use url_shortener_100x.Ids.Allocator.{Allocator, attempt, allocate}
use url_shortener_100x.Abuse.Policy.{Verdict, ReputationPolicy, evaluate}
use url_shortener_100x.Abuse.Takedown
use url_shortener_100x.App.{
  Shared, Instance, Reading, enforce_limit, takedown, poll_once, flush_cache,
}
use url_shortener_100x.App.Body.{read_body, post_link}
use url_shortener_100x.App.Create.{create_link, judged, admit, after_allocate, is_interstitial}
use url_shortener_100x.App.Fleet.{reset_metrics}
use url_shortener_100x.App.Fleet.Creation.{Action-cases}

-- The counts in the store and the pending ones are as before.
pub record Uncounted {L : Type 0} (s : Shared) (i : Instance L) (s2 : Shared) (i2 : Instance L)
    : Type 0 where
  pub stored : s2.links.link_hits ≡ s.links.link_hits
  pub pending : i2.hits.counts ≡ i.hits.counts

link_hits-create :
    (s : LinkStore) (code target : Text) (ttl now_arg : Option ℕ) (at : Attempt)
    → (Links.create s code target ttl now_arg at).0.link_hits ≡ s.link_hits
unfolding Links.create
link_hits-create s code target ttl now_arg at = elim (create-Ends s code target ttl now_arg at) [
  | inl (s2, made, row) ↦ rw made row.counts
  | inr (inl (l, taken, made)) ↦ rw made refl
  | inr (inr (s2, made, fails, after)) ↦
      rw made (elim after [ inl same ↦ ap (λ t. t.link_hits) same | inr row ↦ row.counts ])
]

module _ {G : Type 0} (next : G → Result Text × G) (target : Text) (ttl : Option ℕ)
    (attempts : ℕ → Attempt) where
  link_hits-attempt :
      (n : ℕ) (a : Allocator G) (s : LinkStore)
      → (attempt next target ttl attempts n a s).1.link_hits ≡ s.link_hits
  unfolding attempt
  link_hits-attempt zero a s = refl
  link_hits-attempt (suc n) a s = elim (Result-cases (next a.generator).0) [
    | inl (e, drawn) ↦ rw (drawn, attempt) refl
    | inr (code, drawn) ↦
        let counts = link_hits-create s code target ttl none (attempts n) in
        elim (create-Ends s code target ttl none (attempts n)) [
          | inl (s2, made, row) ↦ rw (drawn, attempt, made) row.counts
          | inr (inl (l, taken, made)) ↦
              rw (drawn, attempt, made)
                (link_hits-attempt n
                  (record a { generator = (next a.generator).1; collisions = a.collisions + 1 }) s)
          | inr (inr (s2, made, fails, after)) ↦ rw (drawn, attempt, made) (rw made at counts)
        ]
  ]

module _ {L : Type 0} (inner : L → Text → ℕ → L × Result Decision) (i : Instance L) (client : Text)
    (at : Reading) where
  pub counts-enforce_limit : (enforce_limit inner i client at).0.hits ≡ i.hits
  unfolding enforce_limit
  counts-enforce_limit = elim (Bool-cases i.limiter_enabled) [
    | inl e ↦ rw (e, enforce_limit) refl
    | inr e ↦ rw (e, enforce_limit) refl
  ]

module _ {L G : Type 0} (s : Shared) (i : Instance L) where
  after_allocate-Uncounted :
      (v : Verdict) (a : Allocator G) (t : LinkStore) (made : Result Link)
      → t.link_hits ≡ s.links.link_hits
      → let (s2, i2, a2, r) = after_allocate s i v (a, t, made) in Uncounted s i s2 i2
  unfolding after_allocate
  after_allocate-Uncounted v a t (raise runtime_error) e = record { stored = e; pending = refl }
  after_allocate-Uncounted v a t (raise value_error) e = record { stored = e; pending = refl }
  after_allocate-Uncounted v a t (raise key_error) e = record { stored = e; pending = refl }
  after_allocate-Uncounted v a t (raise type_error) e = record { stored = e; pending = refl }
  after_allocate-Uncounted v a t (raise circuit_open_error) e = record {
    stored = e;
    pending = refl;
  }
  after_allocate-Uncounted v a t (raise other_error) e = record { stored = e; pending = refl }
  after_allocate-Uncounted v a t (ok link) e = elim (Bool-cases (is_interstitial v.action)) [
    | inl h ↦ rw (h, after_allocate) (record { stored = e; pending = refl })
    | inr h ↦ rw (h, after_allocate) (record { stored = e; pending = refl })
  ]

  judged-Uncounted :
      (a a2 : Allocator G) (t : LinkStore) (made : Result Link) (v : Result Verdict)
      → t.link_hits ≡ s.links.link_hits
      → let (s2, i2, a3, r) = judged s i a (a2, t, made) v in Uncounted s i s2 i2
  unfolding judged admit
  judged-Uncounted a a2 t made (raise x) e = record { stored = refl; pending = refl }
  judged-Uncounted a a2 t made (ok v) e = elim (Action-cases v.action) [
    | inl h ↦ rw (h, admit) (record { stored = refl; pending = refl })
    | inr (inl h) ↦ rw (h, admit) (after_allocate-Uncounted v a2 t made e)
    | inr (inr h) ↦ rw (h, admit) (after_allocate-Uncounted v a2 t made e)
  ]

module _ {L G : Type 0} (inner : L → Text → ℕ → L × Result Decision)
    (next : G → Result Text × G) where
  module _ (is_decimal : ℕ → Bool) (hostname : Text → Result (Option Text)) (lower : Text → Text)
      (policy : ReputationPolicy) where
    module _ (s : Shared) (i : Instance L) (a : Allocator G) where
      create_link-Uncounted :
          (client target : Text) (ttl : Option ℕ) (at : Reading) (attempts : ℕ → Attempt)
          → let (s2, i2, a2, r) =
              create_link inner next is_decimal hostname lower s i a policy client target ttl at
                attempts in
            Uncounted s i s2 i2
      unfolding create_link allocate
      create_link-Uncounted client target ttl at attempts =
          let limited = (enforce_limit inner i client at).0 in
          let same = ap (λ h. h.counts) (counts-enforce_limit inner i client at) in
          elim (Option-cases (enforce_limit inner i client at).1) [
            | inl passed ↦
                let (a2, t, made) = allocate next target ttl attempts a s.links in
                let done =
                  judged-Uncounted s limited a a2 t made
                    (evaluate is_decimal hostname lower policy target)
                    (link_hits-attempt next target ttl attempts a.max_attempts a s.links) in
                rw (passed, create_link)
                  (record { stored = done.stored; pending = done.pending ∙ same })
            | inr (r, stopped) ↦
                rw (stopped, create_link) (record { stored = refl; pending = same })
          ]

      pub post_link-Uncounted :
          (client target : Text) (ttl_seconds : Option ℤ) (at : Reading) (attempts : ℕ → Attempt)
          → let (s2, i2, a2, r) =
              post_link inner next is_decimal hostname lower s i a policy client target ttl_seconds
                at attempts in
            Uncounted s i s2 i2
      unfolding post_link
      post_link-Uncounted client target ttl_seconds at attempts =
          elim (Option-cases (read_body target ttl_seconds)) [
            | inl refused ↦ rw (refused, post_link) (record { stored = refl; pending = refl })
            | inr (ttl, accepted) ↦
                rw (accepted, post_link) (create_link-Uncounted client target ttl at attempts)
          ]

module _ {L : Type 0} (s : Shared) (i : Instance L) where
  pub takedown-Uncounted :
      (code reason : Text) → let (s2, i2, r) = takedown s i code reason in Uncounted s i s2 i2
  unfolding takedown Takedown.add
  takedown-Uncounted code reason = record { stored = refl; pending = refl }

  pub poll_once-Uncounted : Uncounted s i s (poll_once s i)
  unfolding poll_once
  poll_once-Uncounted = record { stored = refl; pending = refl }

  pub flush_cache-Uncounted : Uncounted s i s (flush_cache i)
  unfolding flush_cache
  flush_cache-Uncounted = record { stored = refl; pending = refl }

  pub reset_metrics-Uncounted :
      {G : Type 0} (a : Allocator G) → Uncounted s i s (reset_metrics i a).0
  unfolding reset_metrics
  reset_metrics-Uncounted a = record { stored = refl; pending = refl }
