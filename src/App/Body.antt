-- ===== src/App/Body.antt =====
-- src/shortener/app.py, `CreateRequest`: the body of `POST /links`, which is read before the handler.
use url_shortener_100x.Store.Links.{Attempt}
use url_shortener_100x.Prelude.{
  ℕ, Bool, true, false, ◌&&◌, ◌||◌, Option, none, some, [], ◌∷◌, leb, ◌==◌, if◌then◌else◌, length,
  Text, ℤ, pos, negsuc, Result,
}
use url_shortener_100x.Limiter.{Decision}
use url_shortener_100x.Ids.Allocator.{Allocator}
use url_shortener_100x.Abuse.Policy.{ReputationPolicy}
use url_shortener_100x.App.{Shared, Instance, Reading, Response, invalid_body}
use url_shortener_100x.App.Create.{create_link}

-- `str.startswith`
unfoldable pub starts_with : Text → Text → Bool
starts_with text [] = true
starts_with [] (p ∷ prefix) = false
starts_with (c ∷ text) (p ∷ prefix) = (c == p) && starts_with text prefix

-- "http://" and "https://"
abbrev pub http_prefix : Text
http_prefix = 104 ∷ 116 ∷ 116 ∷ 112 ∷ 58 ∷ 47 ∷ 47 ∷ []

abbrev pub https_prefix : Text
https_prefix = 104 ∷ 116 ∷ 116 ∷ 112 ∷ 115 ∷ 58 ∷ 47 ∷ 47 ∷ []

-- `must_be_http`: false where it raises `ValueError`.
unfoldable pub must_be_http : Text → Bool
unfolding starts_with
must_be_http v = starts_with v http_prefix || starts_with v https_prefix

-- `Field(min_length=1, max_length=2048)`
unfoldable pub is_sized : Text → Bool
is_sized v = leb 1 (length v) && leb (length v) 2048

-- `Field(default=None, ge=1, le=60 * 60 * 24 * 365)`; the outer `none` is a body that is refused.
unfoldable pub read_ttl : Option ℤ → Option (Option ℕ)
read_ttl none = some none
read_ttl (some (negsuc n)) = none
read_ttl (some (pos n)) = if leb 1 n && leb n 31536000 then some (some n) else none

unfoldable pub read_body : Text → Option ℤ → Option (Option ℕ)
unfolding must_be_http is_sized read_ttl
read_body target ttl_seconds =
    if is_sized target && must_be_http target then read_ttl ttl_seconds else none

module _ {L G : Type 0} (inner : L → Text → ℕ → L × Result Decision)
    (next : G → Result Text × G) where
  module _ (is_decimal : ℕ → Bool) (hostname : Text → Result (Option Text))
      (lower : Text → Text) where
    -- `POST /links`: the body, then the handler.
    unfoldable pub post_link :
        Shared
        → Instance L
        → Allocator G
        → ReputationPolicy
        → Text
        → Text
        → Option ℤ
        → Reading
        → (ℕ → Attempt)
        → Shared × Instance L × Allocator G × Response
    unfolding read_body create_link
    post_link s i a policy client target ttl_seconds at attempts =
        elim (read_body target ttl_seconds) [
          | none ↦ (s, i, a, invalid_body)
          | some ttl ↦
              create_link inner next is_decimal hostname lower s i a policy client target ttl at
                attempts
        ]
