-- ===== src/Ids/Base62.antt =====
-- src/shortener/ids.py, `encode_base62` and `decode_base62`.
pub mod RoundTrip
pub mod Width
use mathlib.Core.List.{reverse}
use url_shortener_100x.Prelude.{
  ℕ, zero, suc, ◌+◌, ◌*◌, ◌/◌, ◌%◌, Option, none, some, List, [], ◌∷◌, ◌++◌, ◌==◌, if◌then◌else◌,
  Text, codes, ℤ, pos, negsuc, Result, ok, raise, value_error,
}

abbrev pub alphabet : Text
alphabet = codes "0123456789ABCDEFGHIJKLMNOPQRSTUVWXYZabcdefghijklmnopqrstuvwxyz"

-- `len(ALPHABET)`
abbrev pub base : ℕ
base = 62

-- `ALPHABET[i]`, for an index in range.
unfoldable pub char_at : Text → ℕ → ℕ
char_at [] i = 0
char_at (c ∷ cs) zero = c
char_at (c ∷ cs) (suc i) = char_at cs i

-- `ALPHABET.find(ch)`, `none` for -1.
unfoldable pub find : Text → ℕ → ℕ → Option ℕ
find [] ch i = none
find (c ∷ cs) ch i = if c == ch then some i else find cs ch (suc i)

-- `while n: n, rem = divmod(n, BASE); out.append(ALPHABET[rem])`, with fuel for the rounds.
unfoldable pub digits_loop : ℕ → ℕ → Text → Text
unfolding char_at
digits_loop zero n out = out
digits_loop (suc fuel) n out =
    let rest = digits_loop fuel (n / base) (out ++ char_at alphabet (n % base) ∷ []) in
    if n == 0 then out else rest

-- A round at least halves `n`, so `n` rounds are enough.
unfoldable pub encode_base62 : ℤ → Result Text
unfolding digits_loop char_at
encode_base62 (negsuc n) = raise value_error
encode_base62 (pos n) =
    if n == 0 then ok (char_at alphabet 0 ∷ []) else ok (reverse (digits_loop n n []))

-- `for ch in s: … n = n * BASE + idx`
unfoldable pub decode_loop : ℕ → Text → Result ℕ
unfolding find
decode_loop n [] = ok n
decode_loop n (ch ∷ s) = elim (find alphabet ch 0) [
  | none ↦ raise value_error
  | some idx ↦ decode_loop (n * base + idx) s
]

unfoldable pub decode_base62 : Text → Result ℕ
unfolding decode_loop
decode_base62 s = decode_loop 0 s
