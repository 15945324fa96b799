-- ===== src/Abuse/Host/Suffix.antt =====
-- src/shortener/abuse.py, `registrable_suffix_match`: domains and what stands under them.
use url_shortener_100x.Prelude.{
  Bool, true, ◌||◌, ◌≡◌, ◌↔◌, ◌⊎◌, inl, inr, refl, ◌∙◌, ap, List, [], ◌∷◌, ◌++◌, arith, Text,
  text_dec, ite, if_pos, if_neg, Bool-cases,
}
use url_shortener_100x.Abuse.Host.{ends_with, matches_domain, registrable_suffix_match}

ends_with_self : (s : Text) → ends_with s s ≡ true
unfolding ends_with
ends_with_self [] = if_pos (text_dec [] []) refl _ _
ends_with_self (c ∷ s) = if_pos (text_dec (c ∷ s) (c ∷ s)) refl _ _

pub ends_with-append : (p s : Text) → ends_with (p ++ s) s ≡ true
unfolding ends_with
ends_with-append [] s = ends_with_self s
ends_with-append (c ∷ p) s = ground (arith, ends_with-append p s)

pub ends_with_split : (s suffix : Text) → ends_with s suffix ≡ true → (p : Text) × (s ≡ p ++ suffix)
unfolding ends_with
ends_with_split [] suffix h = elim (text_dec [] suffix) [
  | yes e ↦ ([], e)
  | no e ↦ absurd (ground arith)
]
ends_with_split (c ∷ s) suffix h = elim (text_dec (c ∷ s) suffix) [
  | yes e ↦ ([], e)
  | no e ↦ let (p, q) = ends_with_split s suffix (ground arith) in (c ∷ p, ap (◌∷◌ c) q)
]

-- The host is the domain, or ends with it after a dot.
abbrev pub Under : Text → Text → Type 0
Under host d = (host ≡ d) ⊎ ((p : Text) × (host ≡ p ++ b'.' ∷ d))

-- `matches_domain` answers yes exactly on the domain itself and on what ends with a dot and it.
pub matches_domain_iff : (host d : Text) → (matches_domain host d ≡ true) ↔ Under host d
unfolding matches_domain
matches_domain_iff host d = (
  λ h. elim (text_dec host d) [
    | yes e ↦ inl e
    | no e ↦ inr (ends_with_split host (b'.' ∷ d) (ground arith))
  ],
  λ h. elim h [ inl e ↦ if_pos (text_dec host d) e _ _ | inr (p, e) ↦ under-matches p e ],
)
  where
    under-matches :
        (p : Text)
        → host ≡ p ++ b'.' ∷ d
        → ite (text_dec host d) true (ends_with host (b'.' ∷ d)) ≡ true
    under-matches p e = elim (text_dec host d) [
      | yes q ↦ if_pos (text_dec host d) q _ _
      | no q ↦
          if_neg (text_dec host d) q _ _
          ∙ ap (λ s. ends_with s (b'.' ∷ d)) e
          ∙ ends_with-append p (b'.' ∷ d)
    ]

-- The host is a listed domain or under one.
unfoldable pub UnderSome : Text → List Text → Type 0
UnderSome host [] = ⊥
UnderSome host (d ∷ domains) = Under host d ⊎ UnderSome host domains

-- A host matches a list of domains exactly when it is one of them or under one of them.
pub registrable_suffix_match_iff :
    (host : Text) (domains : List Text)
    → (registrable_suffix_match host domains ≡ true) ↔ UnderSome host domains
unfolding registrable_suffix_match UnderSome
registrable_suffix_match_iff host [] = (λ h. absurd (ground arith), λ e. absurd e)
registrable_suffix_match_iff host (d ∷ domains) =
    let one = matches_domain_iff host d in
    let rest = registrable_suffix_match_iff host domains in
    (
      λ h. elim (Bool-cases (matches_domain host d)) [
        | inl e ↦ inl (one.0 e)
        | inr e ↦ inr (rest.0 (ground arith))
      ],
      λ h. elim h [
        | inl u ↦ rw (one.1 u) refl
        | inr u ↦ or-right (matches_domain host d) (rest.1 u)
      ],
    )
  where
    or-right : (b : Bool) {c : Bool} → c ≡ true → (b || c) ≡ true
    or-right b h = ground arith
