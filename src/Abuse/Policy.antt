-- ===== src/Abuse/Policy.antt =====
-- src/shortener/abuse.py, `ReputationPolicy`: allow, interstitial or refuse. What `urllib` reads as
-- the host name (`None` where there is none, `ValueError` on some texts), `str.lower` and the
-- decimal digits of Unicode are arguments.
pub mod Outcome
use url_shortener_100x.Prelude.{
  ℕ, Bool, true, false, ◌&&◌, ◌||◌, not, Option, none, some, List, [], ◌∷◌, if◌then◌else◌, Text,
  codes, Error, value_error, Result, ok, raise, ◌>>=◌,
}
use url_shortener_100x.Abuse.Host.{ends_with, registrable_suffix_match, is_private}

pub data Action : Type 0 where
  allow interstitial refuse : Action

pub record Verdict : Type 0 where
  pub action : Action
  pub reason : Text
  pub host : Text

-- `Verdict.allowed`
unfoldable pub allowed : Verdict → Bool
allowed v = elim v.action [ allow ↦ true | interstitial ↦ true | refuse ↦ false ]

abbrev pub shortener_domains : List Text
shortener_domains =
    codes "bit.ly"
    ∷ codes "tinyurl.com"
    ∷ codes "t.co"
    ∷ codes "goo.gl"
    ∷ codes "ow.ly"
    ∷ codes "is.gd"
    ∷ codes "buff.ly"
    ∷ codes "adf.ly"
    ∷ codes "bit.do"
    ∷ codes "cutt.ly"
    ∷ codes "rebrand.ly"
    ∷ codes "shorturl.at"
    ∷ codes "rb.gy"
    ∷ codes "s.id"
    ∷ []

abbrev pub default_blocklist : List Text
default_blocklist = codes "malware-example.test" ∷ codes "phish-example.test" ∷ []

abbrev pub low_trust_suffixes : List Text
low_trust_suffixes =
    codes ".zip"
    ∷ codes ".mov"
    ∷ codes ".top"
    ∷ codes ".xyz"
    ∷ codes ".click"
    ∷ codes ".duckdns.org"
    ∷ codes ".ngrok.io"
    ∷ codes ".trycloudflare.com"
    ∷ []

pub record ReputationPolicy : Type 0 where
  pub blocklist : List Text
  pub shorteners : List Text
  pub low_trust : List Text
  pub allow_private : Bool

-- `ReputationPolicy(allow_private=...)`
unfoldable pub new_policy : Bool → ReputationPolicy
new_policy allow_private = record {
  blocklist = default_blocklist;
  shorteners = shortener_domains;
  low_trust = low_trust_suffixes;
  allow_private = allow_private;
}

-- `host.endswith(self.low_trust)`, on a tuple.
unfoldable pub ends_with_any : Text → List Text → Bool
unfolding ends_with
ends_with_any host [] = false
ends_with_any host (suffix ∷ suffixes) = ends_with host suffix || ends_with_any host suffixes

-- `(name or "").lower()`
unfoldable pub lowered : (Text → Text) → Option Text → Text
lowered lower none = lower []
lowered lower (some name) = lower name

module _ (is_decimal : ℕ → Bool) where
  -- The guards of `evaluate` after the host is known to be there.
  unfoldable pub judge : ReputationPolicy → Text → Verdict
  unfolding is_private registrable_suffix_match ends_with_any
  judge p host =
      if not p.allow_private && is_private is_decimal host
      then record {
        action = refuse;
        reason = codes "destination is a private or link-local address";
        host = host;
      }
      else if registrable_suffix_match host p.blocklist
      then record {
        action = refuse;
        reason = codes "destination domain is blocklisted";
        host = host;
      }
      else if registrable_suffix_match host p.shorteners
      then record {
        action = refuse;
        reason = codes "chaining another shortener hides the real destination";
        host = host;
      }
      else if ends_with_any host p.low_trust
      then record {
        action = interstitial;
        reason = codes "low-trust domain: destination shown before redirect";
        host = host;
      }
      else record { action = allow; reason = codes "ok"; host = host }

  -- `if not host` before them.
  unfoldable pub verdict : ReputationPolicy → Text → Verdict
  unfolding judge
  verdict p [] = record { action = refuse; reason = codes "unparseable or hostless URL"; host = [] }
  verdict p (c ∷ host) = judge p (c ∷ host)

  module _ (hostname : Text → Result (Option Text)) (lower : Text → Text) where
    -- `host_of`: `ValueError` reads as no host.
    unfoldable pub host_of : Text → Result Text
    unfolding lowered
    host_of url = elim (hostname url) [
      | ok name ↦ ok (lowered lower name)
      | raise value_error ↦ ok []
      | raise e ↦ raise e
    ]

    unfoldable pub evaluate : ReputationPolicy → Text → Result Verdict
    unfolding host_of verdict
    evaluate p url = host_of url >>= λ host. ok (verdict p host)
