-- ===== src/App/Fleet/Answer.antt =====
-- src/shortener/app.py, the link that `POST /links` answers with.
use url_shortener_100x.Prelude.{
  ℕ, ◌≡◌, inl, inr, sym, ap, Bool, Option, none, some, Text, arith, ℤ, Result, ok, raise,
  value_error, key_error, type_error, runtime_error, circuit_open_error, other_error, Option-cases,
  Bool-cases,
}
use url_shortener_100x.Store.Links
use url_shortener_100x.Store.Links.{Attempt, Link, LinkStore}
use url_shortener_100x.Limiter.{Decision}
use url_shortener_100x.Ids.Allocator.{Allocator, allocate}
use url_shortener_100x.App.{Shared, Instance, Reading, Response, enforce_limit}
use url_shortener_100x.Abuse.Policy.{Verdict, ReputationPolicy, evaluate}
use url_shortener_100x.App.Body.{read_body, post_link}
use url_shortener_100x.App.Create.{create_link, judged, admit, after_allocate}
use url_shortener_100x.App.Fleet.Kept.{Allocated, allocate-Allocated}
use url_shortener_100x.Breaker.Guarded
use url_shortener_100x.App.{created, one_token, limit_response}
use url_shortener_100x.App.Fleet.Creation.{Action-cases}

-- The link of `CreateResponse`.
abbrev pub link_of : Response → Option Link
link_of (created l warned reason) = some l
link_of _ = none

abbrev first_link : Option Response → Option Link
first_link none = none
first_link (some r) = link_of r

limit_response-link :
    (d : Result Decision) (r : Response) → limit_response d ≡ some r → link_of r ≡ none
unfolding limit_response
limit_response-link (raise e) r h = ap first_link (sym h)
limit_response-link (ok d) r h = elim (Bool-cases d.allowed) [
  | inl e ↦ absurd (ground (arith, rw e at h))
  | inr e ↦ ap first_link (sym (rw e at h))
]

enforce_limit-link :
    {L : Type 0} (inner : L → Text → ℕ → L × Result Decision) (i : Instance L) (client : Text)
    (at : Reading) (r : Response)
    → (enforce_limit inner i client at).1 ≡ some r
    → link_of r ≡ none
unfolding enforce_limit
enforce_limit-link inner i client at r h = elim (Bool-cases i.limiter_enabled) [
  | inl e ↦
      limit_response-link
        (Guarded.check inner i.limiter client one_token at.breaker_now at.breaker_later).1 r
        (rw e at h)
  | inr e ↦ absurd (ground (arith, rw e at h))
]

-- A link that the answer tells stands in the store, and goes to the target.
abbrev Told : {L G : Type 0} → Text → Shared × Instance L × Allocator G × Response → Type 0
Told target (s2, i2, a2, r) =
    (l : Link) → link_of r ≡ some l → (Links.get s2.links l.code ≡ some l) × (l.target ≡ target)

module _ {L G : Type 0} (s : Shared) (i : Instance L) (target : Text) (t : LinkStore) where
  after_allocate-Told :
      (v : Verdict) (a : Allocator G) (made : Result Link)
      → Allocated target s.links t made
      → Told target (after_allocate s i v (a, t, made))
  unfolding after_allocate
  after_allocate-Told v a (raise runtime_error) x = λ l h. absurd (ground (arith, h))
  after_allocate-Told v a (raise value_error) x = λ l h. absurd (ground (arith, h))
  after_allocate-Told v a (raise key_error) x = λ l h. absurd (ground (arith, h))
  after_allocate-Told v a (raise type_error) x = λ l h. absurd (ground (arith, h))
  after_allocate-Told v a (raise circuit_open_error) x = λ l h. absurd (ground (arith, h))
  after_allocate-Told v a (raise other_error) x = λ l h. absurd (ground (arith, h))
  after_allocate-Told v a (ok link) x = λ l h. x.reads l (ap made_of h)
    where
      made_of : Option Link → Result Link
      made_of (some l) = ok l
      made_of none = raise other_error

  judged-Told :
      (a a2 : Allocator G) (made : Result Link) (v : Result Verdict)
      → Allocated target s.links t made
      → Told target (judged s i a (a2, t, made) v)
  unfolding judged admit
  judged-Told a a2 made (raise e) x = λ l h. absurd (ground (arith, h))
  judged-Told a a2 made (ok v) x = elim (Action-cases v.action) [
    | inl e ↦ rw (e, admit) (λ l h. absurd (ground (arith, h)))
    | inr (inl e) ↦ rw (e, admit) (after_allocate-Told v a2 made x)
    | inr (inr e) ↦ rw (e, admit) (after_allocate-Told v a2 made x)
  ]

module _ {L G : Type 0} (inner : L → Text → ℕ → L × Result Decision)
    (next : G → Result Text × G) where
  module _ (is_decimal : ℕ → Bool) (hostname : Text → Result (Option Text)) (lower : Text → Text)
      (policy : ReputationPolicy) where
    module _ (s : Shared) (i : Instance L) (a : Allocator G) where
      create_link-Told :
          (client target : Text) (ttl : Option ℕ) (at : Reading) (attempts : ℕ → Attempt)
          → Told target (
              create_link inner next is_decimal hostname lower s i a policy client target ttl at
                attempts)
      unfolding create_link
      create_link-Told client target ttl at attempts =
          let limited = (enforce_limit inner i client at).0 in
          elim (Option-cases (enforce_limit inner i client at).1) [
            | inl passed ↦
                rw (passed, create_link)
                  (judged-Told s limited target _ a (allocate next target ttl attempts a s.links).0
                    (allocate next target ttl attempts a s.links).2
                    (evaluate is_decimal hostname lower policy target)
                    (allocate-Allocated next target ttl attempts a s.links))
            | inr (r, stopped) ↦
                rw (stopped, create_link)
                  (λ l h.
                    absurd (ground (arith, h, enforce_limit-link inner i client at r stopped)))
          ]

      pub post_link-Told :
          (client target : Text) (ttl_seconds : Option ℤ) (at : Reading) (attempts : ℕ → Attempt)
          → Told target (
              post_link inner next is_decimal hostname lower s i a policy client target ttl_seconds
                at attempts)
      unfolding post_link
      post_link-Told client target ttl_seconds at attempts =
          elim (Option-cases (read_body target ttl_seconds)) [
            | inl refused ↦ rw (refused, post_link) (λ l h. absurd (ground (arith, h)))
            | inr (ttl, accepted) ↦
                rw (accepted, post_link) (create_link-Told client target ttl at attempts)
          ]
