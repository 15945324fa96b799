-- ===== src/Examples/Abuse.antt =====
-- The theorems on destinations and withdrawn codes.
use url_shortener_100x.Prelude.{
  ℕ, ◌≡◌, ◌↔◌, refl, Option, some, Bool, false, ltb, Text, codes, Result, ok,
}
use url_shortener_100x.Abuse.Policy.{
  Verdict, allow, refuse, ends_with_any, host_of, evaluate, new_policy,
}
use url_shortener_100x.Abuse.Policy.Outcome.{Refused, evaluate-Refused}

-- A digit's test, and a reader of host names that takes the text for the name.
abbrev is_digit : ℕ → Bool
is_digit c = ltb c 58

abbrev whole : Text → Result (Option Text)
whole url = ok (some url)

abbrev same : Text → Text
same s = s

read_host : host_of is_digit whole same (codes "evil.bit.ly") ≡ ok (codes "evil.bit.ly")
unfolding host_of
read_host = refl

evaluate-Refused_example :
    (v : Verdict) × (evaluate is_digit whole same (new_policy false) (codes "evil.bit.ly") ≡ ok v)
    × ((v.action ≡ refuse) ↔ Refused is_digit (new_policy false) (codes "evil.bit.ly"))
    × (v.action ≡ allow → ends_with_any (codes "evil.bit.ly") (new_policy false).low_trust ≡ false)
evaluate-Refused_example =
    evaluate-Refused is_digit whole same (new_policy false) (codes "evil.bit.ly")
      (codes "evil.bit.ly") read_host
