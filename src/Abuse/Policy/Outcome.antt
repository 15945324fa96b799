-- ===== src/Abuse/Policy/Outcome.antt =====
-- src/shortener/abuse.py, `ReputationPolicy.evaluate`: which of the three outcomes a host gets.
use url_shortener_100x.Prelude.{
  ℕ, Bool, true, false, ◌&&◌, not, ◌≡◌, ◌↔◌, ◌⊎◌, inl, inr, refl, sym, ◌∙◌, Option, [], ◌∷◌,
  if◌then◌else◌, arith, Text, Result, ok,
}
use url_shortener_100x.Abuse.Host.{registrable_suffix_match, is_private}
use url_shortener_100x.Abuse.Host.Suffix.{UnderSome, registrable_suffix_match_iff}
use url_shortener_100x.Abuse.Policy.{
  Action, allow, interstitial, refuse, Verdict, ReputationPolicy, ends_with_any, judge, verdict,
  host_of, evaluate,
}

if-action :
    (a b c d : Bool) (v w x y z : Verdict)
    → (if a then v else if b then w else if c then x else if d then y else z).action ≡ (
        if a
        then v.action
        else if b
        then w.action
        else if c
        then x.action
        else if d
        then y.action
        else z.action)
if-action true b c d v w x y z = refl
if-action false true c d v w x y z = refl
if-action false false true d v w x y z = refl
if-action false false false true v w x y z = refl
if-action false false false false v w x y z = refl

-- The order of the guards as one table of outcomes.
abbrev outcome : Bool → Bool → Bool → Bool → Action
outcome a b c d =
    if a
    then refuse
    else if b
    then refuse
    else if c
    then refuse
    else if d
    then interstitial
    else allow

outcome-refuse :
    (a b c d : Bool) → (outcome a b c d ≡ refuse) ↔ ((a ≡ true) ⊎ (b ≡ true) ⊎ (c ≡ true))
outcome-refuse true b c d = (λ e. inl refl, λ h. refl)
outcome-refuse false true c d = (λ e. inr (inl refl), λ h. refl)
outcome-refuse false false true d = (λ e. inr (inr refl), λ h. refl)
outcome-refuse false false false true = (λ e. absurd (cc), λ h. absurd (ground arith))
outcome-refuse false false false false = (λ e. absurd (cc), λ h. absurd (ground arith))

outcome-allow : (a b c d : Bool) → outcome a b c d ≡ allow → d ≡ false
outcome-allow a b c d h = ground arith

module _ (is_decimal : ℕ → Bool) where
  -- No host, a private one, or one on or under a domain of the two lists.
  abbrev pub Refused : ReputationPolicy → Text → Type 0
  Refused p host =
      (host ≡ [])
      ⊎ ((p.allow_private ≡ false) × (is_private is_decimal host ≡ true))
      ⊎ UnderSome host p.blocklist
      ⊎ UnderSome host p.shorteners

  judge-action :
      (p : ReputationPolicy) (host : Text)
      → (judge is_decimal p host).action
        ≡ outcome
            (not p.allow_private && is_private is_decimal host)
            (registrable_suffix_match host p.blocklist)
            (registrable_suffix_match host p.shorteners)
            (ends_with_any host p.low_trust)
  unfolding judge
  judge-action p host = search if-action

  private_iff : (b c : Bool) → ((not b && c) ≡ true) ↔ ((b ≡ false) × (c ≡ true))
  private_iff true c = (λ e. absurd (ground arith), λ h. absurd (ground arith))
  private_iff false c = (λ e. (refl, e), λ h. h.1)

  verdict-refuse :
      (p : ReputationPolicy) (host : Text)
      → ((verdict is_decimal p host).action ≡ refuse) ↔ Refused p host
  unfolding verdict
  verdict-refuse p [] = (λ e. inl refl, λ h. refl)
  verdict-refuse p (c ∷ host) =
      let table =
        outcome-refuse (not p.allow_private && is_private is_decimal (c ∷ host))
          (registrable_suffix_match (c ∷ host) p.blocklist)
          (registrable_suffix_match (c ∷ host) p.shorteners)
          (ends_with_any (c ∷ host) p.low_trust) in
      let blocked = registrable_suffix_match_iff (c ∷ host) p.blocklist in
      let chained = registrable_suffix_match_iff (c ∷ host) p.shorteners in
      let hidden = private_iff p.allow_private (is_private is_decimal (c ∷ host)) in
      (
        λ e. elim (table.0 (sym (judge-action p (c ∷ host)) ∙ e)) [
          | inl h ↦ inr (inl (hidden.0 h))
          | inr (inl h) ↦ inr (inr (inl (blocked.0 h)))
          | inr (inr h) ↦ inr (inr (inr (chained.0 h)))
        ],
        λ r.
            judge-action p (c ∷ host)
            ∙ table.1 (elim r [
              | inl e ↦ absurd (cc)
              | inr (inl h) ↦ inl (hidden.1 h)
              | inr (inr (inl u)) ↦ inr (inl (blocked.1 u))
              | inr (inr (inr u)) ↦ inr (inr (chained.1 u))
            ]),
      )

  verdict-allow :
      (p : ReputationPolicy) (host : Text)
      → (verdict is_decimal p host).action ≡ allow
      → ends_with_any host p.low_trust ≡ false
  unfolding verdict
  verdict-allow p [] e = absurd (cc)
  verdict-allow p (c ∷ host) e =
      outcome-allow (not p.allow_private && is_private is_decimal (c ∷ host))
        (registrable_suffix_match (c ∷ host) p.blocklist)
        (registrable_suffix_match (c ∷ host) p.shorteners) (ends_with_any (c ∷ host) p.low_trust)
        (sym (judge-action p (c ∷ host)) ∙ e)

  module _ (hostname : Text → Result (Option Text)) (lower : Text → Text) where
    -- On a URL whose host can be read, `evaluate` refuses exactly when there is no host, when it is
    -- private and the policy does not allow that, or when it is a listed domain or under one; a
    -- destination that is allowed outright has none of the low-trust suffixes.
    pub evaluate-Refused :
        (p : ReputationPolicy) (url host : Text)
        → host_of is_decimal hostname lower url ≡ ok host
        → (v : Verdict) × (evaluate is_decimal hostname lower p url ≡ ok v)
          × ((v.action ≡ refuse) ↔ Refused p host)
          × (v.action ≡ allow → ends_with_any host p.low_trust ≡ false)
    unfolding evaluate
    evaluate-Refused p url host h =
        (verdict is_decimal p host, rw h refl, verdict-refuse p host, verdict-allow p host)
