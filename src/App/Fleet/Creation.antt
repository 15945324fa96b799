-- ===== src/App/Fleet/Creation.antt =====
-- src/shortener/app.py, what `POST /links` leaves of the links and of its instance's cache.
use url_shortener_100x.Prelude.{
  ℕ, ◌≡◌, ◌⊎◌, inl, inr, refl, Bool, true, Option, some, Text, arith, ℤ, Result, ok, raise,
  value_error, key_error, type_error, runtime_error, circuit_open_error, other_error, Option-cases,
  Bool-cases,
}
use url_shortener_100x.Store.Links.{Attempt, Link, LinkStore}
use url_shortener_100x.Limiter.{Decision}
use url_shortener_100x.Ids.Allocator.{Allocator, allocate}
use url_shortener_100x.App.{Shared, Instance, Reading, enforce_limit}
use url_shortener_100x.App.Body.{must_be_http}
use url_shortener_100x.Abuse.Policy.{
  Action, allow, interstitial, refuse, Verdict, ReputationPolicy, evaluate,
}
use url_shortener_100x.App.Body.{read_body, post_link}
use url_shortener_100x.App.Create.{create_link, judged, admit, after_allocate, is_interstitial}
use url_shortener_100x.App.Fleet.Kept.{Keeps-Coherent, Allocated, allocate-Allocated}
use url_shortener_100x.App.Fleet.Handlers.{Sound, Handled, same_cache, limited-Sound}

pub Action-cases : (x : Action) → (x ≡ refuse) ⊎ ((x ≡ allow) ⊎ (x ≡ interstitial))
Action-cases refuse = inl refl
Action-cases allow = inr (inl refl)
Action-cases interstitial = inr (inr refl)

module _ {L : Type 0} (s : Shared) (i : Instance L) (h : Sound s i) (target : Text)
    (checked : must_be_http target ≡ true) (t : LinkStore) where
  extended-Handled :
      (made : Result Link) (i2 : Instance L)
      → Allocated target s.links t made
      → i2.cache ≡ i.cache
      → Handled s (record s { links = t }) i2
  extended-Handled made i2 a e = record {
    keeps = a.keeps;
    sound = record {
      coherent = rw e (Keeps-Coherent i.cache s.links t a.keeps h.coherent);
      ordered = h.ordered;
      http = a.only h.http checked;
    };
  }

  after_allocate-Handled :
      {G : Type 0} (v : Verdict) (a : Allocator G) (made : Result Link)
      → Allocated target s.links t made
      → let (s2, i2, a2, r) = after_allocate s i v (a, t, made) in Handled s s2 i2
  unfolding after_allocate
  after_allocate-Handled v a (raise runtime_error) x =
      extended-Handled (raise runtime_error) i x refl
  after_allocate-Handled v a (raise value_error) x = extended-Handled (raise value_error) i x refl
  after_allocate-Handled v a (raise key_error) x = extended-Handled (raise key_error) i x refl
  after_allocate-Handled v a (raise type_error) x = extended-Handled (raise type_error) i x refl
  after_allocate-Handled v a (raise circuit_open_error) x =
      extended-Handled (raise circuit_open_error) i x refl
  after_allocate-Handled v a (raise other_error) x = extended-Handled (raise other_error) i x refl
  after_allocate-Handled v a (ok link) x = elim (Bool-cases (is_interstitial v.action)) [
    | inl e ↦ rw (e, after_allocate) (extended-Handled (ok link) _ x refl)
    | inr e ↦ rw (e, after_allocate) (extended-Handled (ok link) i x refl)
  ]

  judged-Handled :
      {G : Type 0} (a a2 : Allocator G) (made : Result Link) (v : Result Verdict)
      → Allocated target s.links t made
      → let (s2, i2, a3, r) = judged s i a (a2, t, made) v in Handled s s2 i2
  unfolding judged admit
  judged-Handled a a2 made (raise e) x = same_cache s i h i refl
  judged-Handled a a2 made (ok v) x = elim (Action-cases v.action) [
    | inl e ↦ rw (e, admit) (same_cache s i h i refl)
    | inr (inl e) ↦ rw (e, admit) (after_allocate-Handled v a2 made x)
    | inr (inr e) ↦ rw (e, admit) (after_allocate-Handled v a2 made x)
  ]

read_body-http :
    (target : Text) (ttl_seconds : Option ℤ) (ttl : Option ℕ)
    → read_body target ttl_seconds ≡ some ttl
    → must_be_http target ≡ true
unfolding read_body
read_body-http target ttl_seconds ttl e = elim (Bool-cases (must_be_http target)) [
  | inl http ↦ http
  | inr other ↦ absurd (ground (arith, e, other))
]

module _ {L G : Type 0} (inner : L → Text → ℕ → L × Result Decision)
    (next : G → Result Text × G) where
  module _ (is_decimal : ℕ → Bool) (hostname : Text → Result (Option Text)) (lower : Text → Text)
      (policy : ReputationPolicy) where
    module _ (s : Shared) (i : Instance L) (h : Sound s i) (a : Allocator G) where
      create_link-Handled :
          (client target : Text) (ttl : Option ℕ) (at : Reading) (attempts : ℕ → Attempt)
          → must_be_http target ≡ true
          → let (s2, i2, a2, r) =
              create_link inner next is_decimal hostname lower s i a policy client target ttl at
                attempts in
            Handled s s2 i2
      unfolding create_link
      create_link-Handled client target ttl at attempts checked =
          let limited = (enforce_limit inner i client at).0 in
          let sound = limited-Sound s i h inner client at in
          elim (Option-cases (enforce_limit inner i client at).1) [
            | inl passed ↦
                rw (passed, create_link)
                  (judged-Handled s limited sound target checked
                    (allocate next target ttl attempts a s.links).1 a
                    (allocate next target ttl attempts a s.links).0
                    (allocate next target ttl attempts a s.links).2
                    (evaluate is_decimal hostname lower policy target)
                    (allocate-Allocated next target ttl attempts a s.links))
            | inr (r, stopped) ↦ rw (stopped, create_link) (same_cache s limited sound limited refl)
          ]

      pub post_link-Handled :
          (client target : Text) (ttl_seconds : Option ℤ) (at : Reading) (attempts : ℕ → Attempt)
          → let (s2, i2, a2, r) =
              post_link inner next is_decimal hostname lower s i a policy client target ttl_seconds
                at attempts in
            Handled s s2 i2
      unfolding post_link
      post_link-Handled client target ttl_seconds at attempts =
          elim (Option-cases (read_body target ttl_seconds)) [
            | inl refused ↦ rw (refused, post_link) (same_cache s i h i refl)
            | inr (ttl, accepted) ↦
                rw (accepted, post_link)
                  (create_link-Handled client target ttl at attempts
                    (read_body-http target ttl_seconds ttl accepted))
          ]
