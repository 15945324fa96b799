-- ===== src/App/Fleet/Service.antt =====
-- src/shortener/app.py, the service over time: what was created is what is served.
use url_shortener_100x.Prelude.{
  ℕ, ◌≡◌, ◌⊎◌, inl, inr, sym, ◌∙◌, ap, Bool, true, Option, none, some, List, [], ◌∷◌, if_pos,
  if_neg, if◌then◌else◌, Text, ℤ, Result, Option-cases, Bool-cases, arith,
}
use native.Mathlib.Decide.{ℕ_discrete}
use url_shortener_100x.Store.Links
use url_shortener_100x.Store.Links.{Attempt, Link, LinkStore, is_expired}
use url_shortener_100x.Limiter.{Decision}
use url_shortener_100x.Ids.Allocator.{Allocator}
use url_shortener_100x.Abuse.Policy.{ReputationPolicy}
use url_shortener_100x.Abuse.Takedown
use url_shortener_100x.App.{Shared, Instance, Reading, created, gone, enforce_limit, resolve}
use url_shortener_100x.App.Resolve.{Coherent, lookup-stored}
use url_shortener_100x.App.Serve.{found_response, resolve-stopped, resolve-gone, resolve-lookup}
use url_shortener_100x.App.Body.{must_be_http, post_link}
use url_shortener_100x.App.Fleet.{
  Event, visit, post, withdraw, poll_round, flush_all, reset, shut_down, World, handle, step, run,
}
use url_shortener_100x.App.Fleet.Kept.{Keeps, Keeps-Coherent}
use url_shortener_100x.App.Fleet.Handlers.{
  Sound, Handled, flush_counters-Handled, flush_cache-Handled, reset_metrics-Handled,
  poll_once-Handled, takedown-Handled, resolve-Handled,
}
use url_shortener_100x.App.Fleet.Creation.{post_link-Handled}
use url_shortener_100x.App.Fleet.Answer.{link_of, post_link-Told}

-- Every cache repeats stored links, the log is in order, and every stored target is http(s).
abbrev pub Consistent : {L G : Type 0} → World L G → Type 0
Consistent w = (n : ℕ) → Sound w.shared (w.instances n)

-- How a visit to the code of a stored link ends.
module _ {L : Type 0} (inner : L → Text → ℕ → L × Result Decision) where
  resolve-stored :
      (s : Shared) (i : Instance L) (client : Text) (at : Reading) (link : Link)
      → Coherent i.cache s.links
      → Links.get s.links link.code ≡ some link
      → let r = (resolve inner s i client link.code at).2 in
        ((enforce_limit inner i client at).1 ≡ some r)
        ⊎ ((r ≡ gone (Takedown.reason i.takedowns link.code))
            ⊎ (r
                ≡ found_response i.interstitials link.code
                    (if is_expired link at.now_ms then none else some link.target)))
  resolve-stored s i client at link h stored =
      elim (Option-cases (enforce_limit inner i client at).1) [
        | inr (r, stopped) ↦
            inl (rw (resolve-stopped inner s i client link.code at r stopped) stopped)
        | inl passed ↦ elim (Bool-cases (Takedown.contains i.takedowns link.code)) [
          | inl listed ↦ inr (elim (resolve-gone inner s i client link.code at listed).0 [
            | inl stopped ↦ absurd (ground (arith, passed, stopped))
            | inr told ↦ inl told
          ])
          | inr listed_not ↦ inr (
              inr (
                (resolve-lookup inner s i client link.code at passed h listed_not).0
                ∙ ap (found_response i.interstitials link.code)
                    (lookup-stored s.links link.code at.now_ms link stored)))
        ]
      ]

module _ {L G : Type 0} (inner : L → Text → ℕ → L × Result Decision)
    (next : G → Result Text × G) where
  module _ (is_decimal : ℕ → Bool) (hostname : Text → Result (Option Text)) (lower : Text → Text)
      (policy : ReputationPolicy) where
    handle-Handled :
        (s : Shared) (i : Instance L) (a : Allocator G) (event : Event)
        → Sound s i
        → let (s2, i2, a2) = handle inner next is_decimal hostname lower policy s i a event in
          Handled s s2 i2
    unfolding handle
    handle-Handled s i a (visit client code at) h = resolve-Handled inner s i h client code at
    handle-Handled s i a (post client target ttl at attempts) h =
        post_link-Handled inner next is_decimal hostname lower policy s i h a client target ttl at
          attempts
    handle-Handled s i a (withdraw code reason) h = takedown-Handled s i h code reason
    handle-Handled s i a poll_round h = poll_once-Handled s i h
    handle-Handled s i a flush_all h = flush_cache-Handled s i h
    handle-Handled s i a reset h = reset_metrics-Handled s i h a
    handle-Handled s i a (shut_down now write) h = flush_counters-Handled s i h now write

    abbrev moved : World L G → ℕ × Event → World L G
    moved w e = step inner next is_decimal hostname lower policy w e

    abbrev later : World L G → List (ℕ × Event) → World L G
    later w events = run inner next is_decimal hostname lower policy w events

    step-Consistent :
        (w : World L G) (n : ℕ) (event : Event)
        → Consistent w
        → Keeps w.shared.links (moved w (n, event)).shared.links × Consistent (moved w (n, event))
    unfolding step
    step-Consistent w n event h =
        let done = handle-Handled w.shared (w.instances n) (w.allocators n) event (h n) in
        (
          done.keeps,
          λ j. elim (ℕ_discrete n j) [
            | yes e ↦ rw (if_pos (ℕ_discrete n j) e) done.sound
            | no ne ↦ rw (if_neg (ℕ_discrete n j) ne) (record {
              coherent =
                  Keeps-Coherent (w.instances j).cache w.shared.links _ done.keeps (h j).coherent;
              ordered = done.sound.ordered;
              http = done.sound.http;
            })
          ],
        )

    pub run-Consistent :
        (events : List (ℕ × Event)) (w : World L G)
        → Consistent w
        → Keeps w.shared.links (later w events).shared.links × Consistent (later w events)
    unfolding run
    run-Consistent [] w h = (λ code l found. found, h)
    run-Consistent ((n, event) ∷ events) w h =
        let (keeps, sound) = step-Consistent w n event h in
        let (keeps2, sound2) = run-Consistent events (moved w (n, event)) sound in
        (λ code l found. keeps2 code l (keeps code l found), sound2)

    -- From a state in which every cache repeats stored links, the log is in order and the stored
    -- targets are http or https: a link that an instance answers a `POST /links` with goes to the
    -- address that was asked for, which is http or https. After any further events on any of the
    -- instances, each of them answers a visit to its code by the limit, or that it was withdrawn, or
    -- with that address as long as the link has not expired, or, once it has, with a 404.
    pub post_link-resolve :
        (w : World L G) (n : ℕ) (poster target : Text) (ttl_seconds : Option ℤ) (posted : Reading)
        (attempts : ℕ → Attempt) (link : Link) (warned : Bool) (reason : Text)
        (events : List (ℕ × Event)) (m : ℕ) (client : Text) (at : Reading)
        → Consistent w
        → (post_link inner next is_decimal hostname lower w.shared
            (w.instances n)
            (w.allocators n)
            policy
            poster
            target
            ttl_seconds
            posted
            attempts).3
          ≡ created link warned reason
        → let w2 = later w ((n, post poster target ttl_seconds posted attempts) ∷ events) in
          let i = w2.instances m in
          let r = (resolve inner w2.shared i client link.code at).2 in
          (link.target ≡ target)
          × (must_be_http target ≡ true)
          × (((enforce_limit inner i client at).1 ≡ some r)
              ⊎ ((r ≡ gone (Takedown.reason i.takedowns link.code))
                  ⊎ (r
                      ≡ found_response i.interstitials link.code
                          (if is_expired link at.now_ms then none else some link.target))))
    unfolding run
    post_link-resolve w n poster target ttl_seconds posted attempts link warned reason events m
          client at h answered =
        let event = post poster target ttl_seconds posted attempts in
        let w1 = moved w (n, event) in
        let (keeps, sound) = step-Consistent w n event h in
        let (keeps2, sound2) = run-Consistent events w1 sound in
        let (stored, aim) =
          post_link-Told inner next is_decimal hostname lower policy w.shared (w.instances n)
            (w.allocators n) poster target ttl_seconds posted attempts link (ap link_of answered) in
        let w2 = later w1 events in
        (
          aim,
          rw (sym aim) ((sound n).http link.code link stored),
          resolve-stored inner w2.shared (w2.instances m) client at link (sound2 m).coherent
              (keeps2 link.code link stored),
        )
