-- ===== src/Abuse/Host.antt =====
-- src/shortener/abuse.py, tests on a host name: the regular expressions for private hosts, and the
-- match of a domain with everything under it. A host is a list of code points.
pub mod Suffix
use url_shortener_100x.Prelude.{
  ℕ, ◌+◌, Bool, true, false, ◌&&◌, ◌||◌, Option, none, some, List, [], ◌∷◌, ◌++◌, ◌==◌, leb,
  if◌then◌else◌, Text, codes, text_dec, ite,
}

-- `s.endswith(suffix)`
unfoldable pub ends_with : Text → Text → Bool
ends_with [] suffix = ite (text_dec [] suffix) true false
ends_with (c ∷ s) suffix = ite (text_dec (c ∷ s) suffix) true (ends_with s suffix)

-- `host == d or host.endswith("." + d)`
unfoldable pub matches_domain : Text → Text → Bool
unfolding ends_with
matches_domain host d = ite (text_dec host d) true (ends_with host (b'.' ∷ d))

unfoldable pub registrable_suffix_match : Text → List Text → Bool
unfolding matches_domain
registrable_suffix_match host [] = false
registrable_suffix_match host (d ∷ domains) =
    matches_domain host d || registrable_suffix_match host domains

-- A pattern's character against a text's, under `re.I` (which also takes U+0130 and U+0131 for `i`
-- and U+017F for `s`) or without it.
unfoldable pub same_char : Bool → ℕ → ℕ → Bool
same_char false p c = p == c
same_char true p c =
    (p == c)
    || (leb b'a' p && leb p b'z' && c + 32 == p)
    || (p == b'i' && (c == 304 || c == 305))
    || (p == b's' && c == 383)

-- What stands after a literal prefix.
unfoldable pub strip : Bool → Text → Text → Option Text
unfolding same_char
strip ci [] s = some s
strip ci (p ∷ ps) [] = none
strip ci (p ∷ ps) (c ∷ s) = if same_char ci p c then strip ci ps s else none

-- `$`: the end, or the end before a last newline.
unfoldable pub at_end : Text → Bool
at_end [] = true
at_end (c ∷ []) = c == 10
at_end (c ∷ d ∷ s) = false

abbrev pub ends : Option Text → Bool
ends none = false
ends (some s) = at_end s

abbrev pub found : Option Text → Bool
found none = false
found (some s) = true

-- `\[?` before the rest.
unfoldable pub skip_bracket : Text → Text
skip_bracket [] = []
skip_bracket (c ∷ s) = if c == b'[' then s else c ∷ s

-- `\]?$`
unfoldable pub bracket_end : Text → Bool
unfolding at_end
bracket_end [] = true
bracket_end (c ∷ s) = at_end (c ∷ s) || (c == b']' && at_end s)

-- `suffix$`, searched for at every place.
unfoldable pub search_end : Text → Text → Bool
unfolding strip at_end
search_end suffix [] = ends (strip true suffix [])
search_end suffix (c ∷ s) = ends (strip true suffix (c ∷ s)) || search_end suffix s

unfoldable pub is_hex : ℕ → Bool
is_hex c = (leb b'0' c && leb c b'9') || (leb b'a' c && leb c b'f') || (leb b'A' c && leb c b'F')

-- `[0-9a-f]{2}:`
unfoldable pub hex_pair : Option Text → Bool
unfolding is_hex
hex_pair none = false
hex_pair (some []) = false
hex_pair (some (a ∷ [])) = false
hex_pair (some (a ∷ b ∷ [])) = false
hex_pair (some (a ∷ b ∷ c ∷ s)) = is_hex a && is_hex b && c == b':'

-- `\d` stands for the decimal digits of Unicode: an argument.
module _ (is_decimal : ℕ → Bool) where
  -- `(1[6-9]|2\d|3[01])\.`
  unfoldable pub second_octet : Option Text → Bool
  second_octet none = false
  second_octet (some []) = false
  second_octet (some (a ∷ [])) = false
  second_octet (some (a ∷ b ∷ [])) = false
  second_octet (some (a ∷ b ∷ c ∷ s)) =
      ((a == b'1' && leb b'6' b && leb b b'9')
        || (a == b'2' && is_decimal b)
        || (a == b'3' && (b == b'0' || b == b'1')))
      && c == b'.'

  -- `any(p.search(host) for p in PRIVATE_HOST_PATTERNS)`
  unfoldable pub is_private : Text → Bool
  unfolding strip at_end skip_bracket bracket_end search_end hex_pair second_octet
  is_private host =
      ends (strip true (codes "localhost") host)
      || found (strip false (codes "127.") host)
      || found (strip false (codes "10.") host)
      || found (strip false (codes "192.168.") host)
      || second_octet (strip false (codes "172.") host)
      || found (strip false (codes "169.254.") host)
      || elim (strip false (codes "::1") (skip_bracket host)) [
        | none ↦ false
        | some s ↦ bracket_end s
      ]
      || hex_pair (strip true (codes "fd") (skip_bracket host))
      || search_end (codes ".internal") host
      || search_end (codes ".local") host
