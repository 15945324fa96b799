-- ===== src/App/Create.antt =====
-- src/shortener/app.py, `create_link`. The generator, the reader of host names and `str.lower` are
-- arguments, as in the parts that use them.
pub mod Refusal
use url_shortener_100x.Prelude.{
  ℕ, Bool, true, false, Option, none, some, Text, Error, Result, ok, raise, runtime_error,
}
use url_shortener_100x.Prelude.Table
use url_shortener_100x.Store.Links.{Attempt, Link, LinkStore}
use url_shortener_100x.Limiter.{Decision}
use url_shortener_100x.Ids.Allocator.{Allocator, allocate}
use url_shortener_100x.Abuse.Policy.{
  Action, allow, interstitial, refuse, Verdict, ReputationPolicy, evaluate,
}
use url_shortener_100x.App.{
  Shared, Instance, Reading, Response, created, destination_refused, allocation_failed, unhandled,
  enforce_limit,
}

-- `verdict.action == INTERSTITIAL`
unfoldable pub is_interstitial : Action → Bool
is_interstitial interstitial = true
is_interstitial allow = false
is_interstitial refuse = false

module _ {L G : Type 0} where
  -- What follows the allocation: a `RuntimeError` is a 500 of the handler's own.
  unfoldable pub after_allocate :
      Shared
      → Instance L
      → Verdict
      → Allocator G × LinkStore × Result Link
      → Shared × Instance L × Allocator G × Response
  unfolding is_interstitial
  after_allocate s i verdict (a, links, raise runtime_error) =
      (record s { links = links }, i, a, allocation_failed)
  after_allocate s i verdict (a, links, raise e) = (record s { links = links }, i, a, unhandled e)
  after_allocate s i verdict (a, links, ok link) = (
    record s { links = links },
    elim (is_interstitial verdict.action) [
      | true ↦ record i { interstitials = Table.put i.interstitials link.code verdict.reason }
      | false ↦ i
    ],
    a,
    created link (is_interstitial verdict.action) verdict.reason,
  )

  -- The handler once the destination is judged; `made` is what the allocator answers.
  unfoldable pub admit :
      Shared
      → Instance L
      → Allocator G
      → Allocator G × LinkStore × Result Link
      → Verdict
      → Shared × Instance L × Allocator G × Response
  unfolding after_allocate
  admit s i a made verdict = elim verdict.action [
    | refuse ↦ (s, i, a, destination_refused verdict)
    | allow ↦ after_allocate s i verdict made
    | interstitial ↦ after_allocate s i verdict made
  ]

  -- An exception of `urlparse` that is no `ValueError` is not caught.
  unfoldable pub judged :
      Shared
      → Instance L
      → Allocator G
      → Allocator G × LinkStore × Result Link
      → Result Verdict
      → Shared × Instance L × Allocator G × Response
  unfolding admit
  judged s i a made (raise e) = (s, i, a, unhandled e)
  judged s i a made (ok verdict) = admit s i a made verdict

module _ {L G : Type 0} (inner : L → Text → ℕ → L × Result Decision)
    (next : G → Result Text × G) where
  module _ (is_decimal : ℕ → Bool) (hostname : Text → Result (Option Text))
      (lower : Text → Text) where
    -- `create_link`, on a body that has passed validation; `attempts` is what the store meets at
    -- each attempt.
    unfoldable pub create_link :
        Shared
        → Instance L
        → Allocator G
        → ReputationPolicy
        → Text
        → Text
        → Option ℕ
        → Reading
        → (ℕ → Attempt)
        → Shared × Instance L × Allocator G × Response
    unfolding judged
    create_link s i a policy client target ttl_seconds at attempts =
        let (limited, stopped) = enforce_limit inner i client at in
        let verdict = evaluate is_decimal hostname lower policy target in
        let made = allocate next target ttl_seconds attempts a s.links in
        elim stopped [ some r ↦ (s, limited, a, r) | none ↦ judged s limited a made verdict ]
