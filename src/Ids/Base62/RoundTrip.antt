-- ===== src/Ids/Base62/RoundTrip.antt =====
-- src/shortener/ids.py, `decode_base62` after `encode_base62`.
use mathlib.Core.List.{reverse, reverse-append}
use url_shortener_100x.Prelude.{
  ℕ, zero, suc, ◌+◌, ◌*◌, ◌/◌, ◌%◌, ◌≤◌, ◌<◌, ◌≡◌, refl, ap, ◌∙◌, Option, none, some, [], ◌∷◌, ◌++◌,
  ◌==◌, Bool, true, false, ◌&&◌, inl, inr, Bool-cases, arith, Text, pos, negsuc, ok, raise,
  value_error,
}
use url_shortener_100x.Ids.Base62.{
  alphabet, base, char_at, find, digits_loop, encode_base62, decode_loop, decode_base62,
}

is_some : Option ℕ → ℕ → Bool
is_some none i = false
is_some (some j) i = i == j

-- The digits from 0 up to `n`, each looked up again.
all_found : ℕ → Bool
all_found zero = true
all_found (suc n) = is_some (find alphabet (char_at alphabet n) 0) n && all_found n

is_some_lem : (o : Option ℕ) (i : ℕ) → is_some o i ≡ true → o ≡ some i
unfolding is_some
is_some_lem none i h = absurd (ground arith)
is_some_lem (some j) i h = ground arith

all_found_lem :
    (n r : ℕ) → all_found n ≡ true → r < n → find alphabet (char_at alphabet r) 0 ≡ some r
unfolding all_found
all_found_lem zero r h p = absurd (omega arith)
all_found_lem (suc n) r h p =
    ground (arith, all_found_lem n r, is_some_lem (find alphabet (char_at alphabet n) 0) n)

all_found_alphabet : all_found 62 ≡ true
unfolding all_found is_some find char_at
all_found_alphabet = refl

-- The alphabet has each digit at one place.
pub find-char_at : (r : ℕ) → r < base → find alphabet (char_at alphabet r) 0 ≡ some r
find-char_at r h = all_found_lem 62 r all_found_alphabet h

-- One decoded character.
pub decode_loop-char :
    (n r : ℕ) (s : Text)
    → r < base
    → decode_loop n (char_at alphabet r ∷ s) ≡ decode_loop (n * base + r) s
unfolding decode_loop
decode_loop-char n r s h = rw (find-char_at r h, decode_loop)

decode-digits_loop :
    (fuel n : ℕ) (out : Text)
    → n ≤ fuel
    → decode_loop 0 (reverse (digits_loop fuel n out)) ≡ decode_loop n (reverse out)
unfolding digits_loop
decode-digits_loop zero n out h = let e : n ≡ 0 = omega arith in rw e
decode-digits_loop (suc fuel) n out h = elim (Bool-cases (n == 0)) [
  | inl done ↦ let e : n ≡ 0 = ground arith in rw e
  | inr more ↦
      rw (more, digits_loop)
        (decode-digits_loop fuel (n / base) (out ++ char_at alphabet (n % base) ∷ []) (ground arith)
          ∙ shifted)
]
  where
    back : n / base * base + n % base ≡ n
    back = omega arith

    shifted :
        decode_loop (n / base) (reverse (out ++ char_at alphabet (n % base) ∷ []))
        ≡ decode_loop n (reverse out)
    shifted =
        ap (decode_loop (n / base)) (reverse-append out (char_at alphabet (n % base) ∷ []))
        ∙ decode_loop-char (n / base) (n % base) (reverse out) (omega arith)
        ∙ ap (λ m. decode_loop m (reverse out)) back

pub encode_base62-pos : (n : ℕ) → 0 < n → encode_base62 (pos n) ≡ ok (reverse (digits_loop n n []))
unfolding encode_base62
encode_base62-pos n h = let e : (n == 0) ≡ false = ground arith in rw (e, encode_base62)

-- Every number that is not negative has a code, and the code decodes to it; a negative one raises.
pub decode-encode_base62 :
    (n : ℕ)
    → ((s : Text) × (encode_base62 (pos n) ≡ ok s) × (decode_base62 s ≡ ok n))
      × (encode_base62 (negsuc n) ≡ raise value_error)
unfolding encode_base62 decode_base62
decode-encode_base62 zero =
    ((char_at alphabet 0 ∷ [], refl, decode_loop-char 0 0 [] (omega arith)), refl)
decode-encode_base62 (suc n) = (
  (
    reverse (digits_loop (suc n) (suc n) []),
    encode_base62-pos (suc n) (omega arith),
    decode-digits_loop (suc n) (suc n) [] (omega arith),
  ),
  refl,
)

-- No two ids share a code.
encode_base62-injective :
    (m n : ℕ) (s : Text) → encode_base62 (pos m) ≡ ok s → encode_base62 (pos n) ≡ ok s → m ≡ n
encode_base62-injective m n s p q =
    let record { 0 = a; 1 = ea; 2 = da } = (decode-encode_base62 m).0 in
    let record { 0 = b; 1 = eb; 2 = db } = (decode-encode_base62 n).0 in cc
