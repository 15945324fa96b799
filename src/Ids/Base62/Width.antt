-- ===== src/Ids/Base62/Width.antt =====
-- src/shortener/ids.py, the length of what `encode_base62` returns.
use mathlib.Core.List.{reverse, reverse-append}
use native.Mathlib.Nat.{pow-suc, one-le-pow}
use url_shortener_100x.Prelude.{
  ℕ, zero, suc, ◌+◌, ◌/◌, ◌%◌, ◌^◌, ◌≤◌, ◌<◌, ◌≡◌, refl, ap, ◌∙◌, [], ◌∷◌, ◌++◌, arith, Text,
  length, length-append, pos, ok,
}
use url_shortener_100x.Ids.Base62.RoundTrip.{encode_base62-pos}
use url_shortener_100x.Ids.Base62.{alphabet, base, char_at, digits_loop, encode_base62}

length-reverse : (s : Text) → length (reverse s) ≡ length s
length-reverse [] = refl
length-reverse (c ∷ s) =
    ap length (reverse-append (c ∷ []) s)
    ∙ omega (arith, length-append (reverse s) (c ∷ []), length-reverse s)

digits_loop-zero : (fuel : ℕ) (out : Text) → digits_loop fuel 0 out ≡ out
unfolding digits_loop
digits_loop-zero zero out = refl
digits_loop-zero (suc fuel) out = refl

digits_loop_step :
    (fuel n : ℕ) (out : Text)
    → 0 < n
    → digits_loop (suc fuel) n out
      ≡ digits_loop fuel (n / base) (out ++ char_at alphabet (n % base) ∷ [])
unfolding digits_loop
digits_loop_step fuel n out h = ground arith

length-digits_loop :
    (k fuel n : ℕ) (out : Text)
    → n ≤ fuel
    → base ^ k ≤ n
    → n < base ^ suc k
    → length (digits_loop fuel n out) ≡ length out + suc k
length-digits_loop k zero n out f lo hi = absurd (omega (arith, one-le-pow k base (omega arith)))
length-digits_loop zero (suc fuel) n out f lo hi =
    let e : n / base ≡ 0 = omega arith in
    rw (digits_loop_step fuel n out (omega arith), e, digits_loop-zero)
      (length-append out (char_at alphabet (n % base) ∷ []))
length-digits_loop (suc k) (suc fuel) n out f lo hi =
    let lo' = rw pow-suc at lo in
    let hi' = rw pow-suc at hi in
    let room = one-le-pow k base (omega arith) in
    rw (digits_loop_step fuel n out (omega arith)) (
      omega (
        arith,
        length-digits_loop k fuel (n / base) (out ++ char_at alphabet (n % base) ∷ []) (omega arith)
            (omega arith) (omega arith),
        length-append out (char_at alphabet (n % base) ∷ []),
      ))

-- An id from 62 ^ k up to 62 ^ (k + 1) has a code of k + 1 characters.
pub length-encode_base62 :
    (k n : ℕ)
    → base ^ k ≤ n
    → n < base ^ suc k
    → (s : Text) × (encode_base62 (pos n) ≡ ok s) × (length s ≡ suc k)
length-encode_base62 k n lo hi =
    let room = one-le-pow k base (omega arith) in
    (
      reverse (digits_loop n n []),
      encode_base62-pos n (omega arith),
      omega (
        arith,
        length-reverse (digits_loop n n []),
        length-digits_loop k n n [] (omega arith) lo hi,
      ),
    )
