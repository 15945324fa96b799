-- ===== src/Abuse/Page/Markup.antt =====
-- src/shortener/abuse.py, the characters of the page that are markup.
use url_shortener_100x.Prelude.{ℕ, suc, ◌+◌, ◌≡◌, [], ◌∷◌, ◌++◌, ◌==◌, if◌then◌else◌, Text, arith}
use url_shortener_100x.Abuse.Page.{
  before_reason, before_target, before_href, after_href, fill, render_interstitial,
}

unfoldable pub count_char : ℕ → Text → ℕ
count_char c [] = 0
count_char c (d ∷ text) = let rest = count_char c text in if c == d then suc rest else rest

pub count_char-append :
    (c : ℕ) (s t : Text) → count_char c (s ++ t) ≡ count_char c s + count_char c t
unfolding count_char
count_char-append c [] t = omega arith
count_char-append c (d ∷ s) t = ground (arith, count_char-append c s t)

-- `<`, `>`, `"` and `'`, which `html.escape` replaces.
pub data IsMarkup : ℕ → Type 0 where
  less : IsMarkup 60
  greater : IsMarkup 62
  double_quote : IsMarkup 34
  single_quote : IsMarkup 39

-- What is filled in adds no such character, if it has none.
count_char-fill :
    (c : ℕ) (a b d e t r : Text)
    → count_char c t ≡ 0
    → count_char c r ≡ 0
    → count_char c (fill a b d e t r)
      ≡ count_char c a + (count_char c b + (count_char c d + count_char c e))
unfolding fill
count_char-fill c a b d e t r ht hr =
    rw
      (
        count_char-append c a,
        count_char-append c r,
        count_char-append c b,
        count_char-append c t,
        count_char-append c d,
        count_char-append c t,
      )
      (omega (arith, ht, hr))

-- The markup of the template, with nothing filled in.
abbrev pub template_count : ℕ → ℕ
template_count c =
    count_char c before_reason
    + (count_char c before_target + (count_char c before_href + count_char c after_href))

module _ (escape : Text → Text) where
  -- If html.escape leaves no angle bracket and no quote, the page for any target and reason has as
  -- many of each as the template: neither opens a tag, nor ends one or the attribute that it is in.
  pub count_char-render_interstitial :
      ((c : ℕ) → IsMarkup c → (text : Text) → count_char c (escape text) ≡ 0)
      → (target reason : Text) (c : ℕ) → IsMarkup c
      → count_char c (render_interstitial escape target reason) ≡ template_count c
  unfolding render_interstitial
  count_char-render_interstitial safe target reason c m =
      count_char-fill c before_reason before_target before_href after_href (escape target)
        (escape reason) (safe c m target) (safe c m reason)
