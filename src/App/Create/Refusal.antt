-- ===== src/App/Create/Refusal.antt =====
-- src/shortener/app.py, `create_link` on a destination that the policy refuses.
use url_shortener_100x.Prelude.{ℕ, ◌≡◌, arith, Bool, Option, none, Text, Result, ok}
use url_shortener_100x.Store.Links.{Attempt, LinkStore, Link}
use url_shortener_100x.Limiter.{Decision}
use url_shortener_100x.Ids.Allocator.{Allocator, allocate}
use url_shortener_100x.Abuse.Policy.{refuse, Verdict, ReputationPolicy, host_of}
use url_shortener_100x.Abuse.Policy.Outcome.{Refused, evaluate-Refused}
use url_shortener_100x.App.{Shared, Instance, Reading, destination_refused, enforce_limit}
use url_shortener_100x.App.Create.{judged, admit, create_link}

module _ {L G : Type 0} where
  admit-refuse :
      (s : Shared) (i : Instance L) (a : Allocator G) (made : Allocator G × LinkStore × Result Link)
      (v : Verdict)
      → v.action ≡ refuse
      → admit s i a made v ≡ (s, i, a, destination_refused v)
  unfolding admit
  admit-refuse s i a made v h = ground (arith, h)

module _ {L G : Type 0} (inner : L → Text → ℕ → L × Result Decision)
    (next : G → Result Text × G) where
  module _ (is_decimal : ℕ → Bool) (hostname : Text → Result (Option Text))
      (lower : Text → Text) where
    module _ (s : Shared) (i : Instance L) (a : Allocator G) (policy : ReputationPolicy) where
      -- A request that the limit lets through, for a destination without a host, a private one, or
      -- one on or under a listed domain, is refused with a verdict; the store, the log and the
      -- allocator are as before, and of the instance only the limiter has moved.
      pub create_link-Refused :
          (client target host : Text) (ttl_seconds : Option ℕ) (at : Reading)
          (attempts : ℕ → Attempt)
          → (enforce_limit inner i client at).1 ≡ none
          → host_of is_decimal hostname lower target ≡ ok host
          → Refused is_decimal policy host
          → (v : Verdict) × (v.action ≡ refuse)
            × (create_link inner next is_decimal hostname lower s i a policy client target
                  ttl_seconds at attempts
                ≡ (s, (enforce_limit inner i client at).0, a, destination_refused v))
      unfolding create_link judged
      create_link-Refused client target host ttl_seconds at attempts passed read refused =
          let (v, evaluated, refuses, allows) =
            evaluate-Refused is_decimal hostname lower policy target host read in
          (
            v,
            refuses.1 refused,
            rw (passed, create_link, evaluated)
                (admit-refuse s (enforce_limit inner i client at).0 a
                  (allocate next target ttl_seconds attempts a s.links) v (refuses.1 refused)),
          )
