-- ===== src/Examples/Page.antt =====
-- The theorem on the interstitial page, with an `escape` that writes the entities of `html.escape`.
use url_shortener_100x.Prelude.{
  ℕ, ◌≡◌, refl, [], ◌∷◌, ◌++◌, ◌==◌, if◌then◌else◌, Text, codes, arith,
}
use url_shortener_100x.Abuse.Page.{render_interstitial}
use url_shortener_100x.Abuse.Page.Markup.{
  count_char, IsMarkup, less, greater, double_quote, single_quote, template_count,
  count_char-render_interstitial, count_char-append,
}

abbrev escape_char : ℕ → Text
escape_char c =
    if c == 38
    then codes "&amp;"
    else if c == 60
    then codes "&lt;"
    else if c == 62
    then codes "&gt;"
    else if c == 34
    then codes "&quot;"
    else if c == 39
    then codes "&#x27;"
    else c ∷ []

unfoldable escape : Text → Text
escape [] = []
escape (c ∷ text) = escape_char c ++ escape text

escape_char-safe : (c : ℕ) → IsMarkup c → (d : ℕ) → count_char c (escape_char d) ≡ 0
unfolding count_char
escape_char-safe _ less d = ground arith
escape_char-safe _ greater d = ground arith
escape_char-safe _ double_quote d = ground arith
escape_char-safe _ single_quote d = ground arith

escape-safe : (c : ℕ) → IsMarkup c → (text : Text) → count_char c (escape text) ≡ 0
unfolding escape count_char
escape-safe c m [] = refl
escape-safe c m (d ∷ text) =
    rw (count_char-append c (escape_char d) (escape text))
      (omega (arith, escape_char-safe c m d, escape-safe c m text))

count_char-render_interstitial_example :
    count_char 60 (render_interstitial escape (codes "https://h/<script>") (codes "<b>"))
    ≡ template_count 60
count_char-render_interstitial_example =
    count_char-render_interstitial escape escape-safe (codes "https://h/<script>") (codes "<b>") 60
      less
