-- ===== src/App/Fleet/Targets.antt =====
-- src/shortener/app.py, `must_be_http` and the addresses that the service sends a browser to.
use url_shortener_100x.Prelude.{
  ℕ, ◌≡◌, inl, inr, refl, sym, ◌∙◌, ap, Bool, true, Option, none, some, List, Text, Result, ok,
  raise, Option-cases, Bool-cases, arith,
}
use url_shortener_100x.Prelude.Table
use url_shortener_100x.Prelude.Table.{Table}
use url_shortener_100x.Store.Links
use url_shortener_100x.Store.Links.{Link, LinkStore, is_expired}
use url_shortener_100x.Limiter.{Decision}
use url_shortener_100x.Breaker.Guarded
use url_shortener_100x.Abuse.Policy.{ReputationPolicy}
use url_shortener_100x.Abuse.Takedown
use url_shortener_100x.App.{
  Shared, Instance, Reading, Response, redirect, interstitial_page, limit_response, one_token,
  enforce_limit, resolve, answer,
}
use url_shortener_100x.App.Resolve.{lookup, lookup-stored}
use url_shortener_100x.App.Serve.{found_response, resolve-stopped, resolve-gone, resolve-lookup}
use url_shortener_100x.App.Body.{must_be_http}
use url_shortener_100x.App.Fleet.{Event, World, run}
use url_shortener_100x.App.Fleet.Kept.{IsHttp}
use url_shortener_100x.App.Fleet.Handlers.{Sound}
use url_shortener_100x.App.Fleet.Service.{Consistent, run-Consistent}

-- The address that a response sends the browser to, at once or behind a page.
abbrev pub target_of : Response → Option Text
target_of (redirect target) = some target
target_of (interstitial_page target reason) = some target
target_of _ = none

abbrev first_target : Option Response → Option Text
first_target none = none
first_target (some r) = target_of r

limit_response-target :
    (d : Result Decision) (r : Response) → limit_response d ≡ some r → target_of r ≡ none
unfolding limit_response
limit_response-target (raise e) r h = ap first_target (sym h)
limit_response-target (ok d) r h = elim (Bool-cases d.allowed) [
  | inl e ↦ absurd (ground (arith, rw e at h))
  | inr e ↦ ap first_target (sym (rw e at h))
]

pub enforce_limit-target :
    {L : Type 0} (inner : L → Text → ℕ → L × Result Decision) (i : Instance L) (client : Text)
    (at : Reading) (r : Response)
    → (enforce_limit inner i client at).1 ≡ some r
    → target_of r ≡ none
unfolding enforce_limit
enforce_limit-target inner i client at r h = elim (Bool-cases i.limiter_enabled) [
  | inl e ↦
      limit_response-target
        (Guarded.check inner i.limiter client one_token at.breaker_now at.breaker_later).1 r
        (rw e at h)
  | inr e ↦ absurd (ground (arith, rw e at h))
]

pub answer-target :
    (interstitials : Table Text) (code target : Text)
    → target_of (answer interstitials code target) ≡ some target
unfolding answer
answer-target interstitials code target = elim (Option-cases (Table.get interstitials code)) [
  | inl e ↦ rw (e, answer) refl
  | inr (reason, e) ↦ rw (e, answer) refl
]

pub found_response-target :
    (interstitials : Table Text) (code : Text) (found : Option Text)
    → target_of (found_response interstitials code found) ≡ found
found_response-target interstitials code none = refl
found_response-target interstitials code (some target) = answer-target interstitials code target

lookup-http :
    (links : LinkStore) (code : Text) (now : ℕ) (target : Text)
    → IsHttp links
    → lookup links code now ≡ some target
    → must_be_http target ≡ true
unfolding lookup
lookup-http links code now target http h = elim (Option-cases (Links.get links code)) [
  | inl absent ↦ absurd (ground (arith, rw (absent, lookup) at h))
  | inr (l, stored) ↦
      let read = sym (lookup-stored links code now l stored) ∙ h in
      ground (arith, http code l stored, read)
]

module _ {L : Type 0} (inner : L → Text → ℕ → L × Result Decision) where
  resolve-http :
      (s : Shared) (i : Instance L) (client code target : Text) (at : Reading)
      → Sound s i
      → target_of (resolve inner s i client code at).2 ≡ some target
      → must_be_http target ≡ true
  resolve-http s i client code target at h sent =
      elim (Option-cases (enforce_limit inner i client at).1) [
        | inr (r, stopped) ↦ absurd (stopped_sends_none r stopped)
        | inl passed ↦ elim (Bool-cases (Takedown.contains i.takedowns code)) [
          | inl listed ↦ elim (resolve-gone inner s i client code at listed).0 [
            | inl stopped ↦ absurd (ground (arith, passed, stopped))
            | inr told ↦ absurd (ground (arith, sym (ap target_of told) ∙ sent))
          ]
          | inr listed_not ↦ lookup-http s.links code at.now_ms target h.http (
              sym (found_response-target i.interstitials code (lookup s.links code at.now_ms))
              ∙ sym (
                  ap target_of
                    (resolve-lookup inner s i client code at passed h.coherent listed_not).0)
              ∙ sent)
        ]
      ]
    where
      stopped_sends_none : (r : Response) → (enforce_limit inner i client at).1 ≡ some r → ⊥
      stopped_sends_none r stopped =
          let sent_by =
            sym (ap (λ x. target_of x.2) (resolve-stopped inner s i client code at r stopped))
            ∙ sent in
          ground (arith, sent_by, enforce_limit-target inner i client at r stopped)

module _ {L G : Type 0} (inner : L → Text → ℕ → L × Result Decision)
    (next : G → Result Text × G) where
  module _ (is_decimal : ℕ → Bool) (hostname : Text → Result (Option Text)) (lower : Text → Text)
      (policy : ReputationPolicy) where
    -- From a state in which every cache repeats stored links, the log is in order and the stored
    -- targets are http or https, whatever then happens on the instances: no visit is ever sent to an
    -- address that is neither.
    pub resolve-must_be_http :
        (w : World L G) (events : List (ℕ × Event)) (m : ℕ) (client code target : Text)
        (at : Reading)
        → Consistent w
        → let w2 = run inner next is_decimal hostname lower policy w events in
          target_of (resolve inner w2.shared (w2.instances m) client code at).2 ≡ some target
          → must_be_http target ≡ true
    resolve-must_be_http w events m client code target at h sent =
        let w2 = run inner next is_decimal hostname lower policy w events in
        resolve-http inner w2.shared (w2.instances m) client code target at
          ((run-Consistent inner next is_decimal hostname lower policy events w h).1 m) sent
