-- ===== src/Ids/RandomCode/Keyspace.antt =====
-- src/shortener/ids.py, the codes of `RandomCodeGenerator` and its keyspace.
use native.Mathlib.Nat.{pow-suc, mul-le-mul_right}
use url_shortener_100x.Prelude.{
  ℕ, zero, suc, ◌+◌, ◌*◌, ◌^◌, ◌<◌, ◌≤◌, ◌≡◌, ◌∙◌, refl, ap, arith, length, ok,
}
use url_shortener_100x.Ids.Base62.{base, decode_loop, decode_base62}
use url_shortener_100x.Ids.Base62.RoundTrip.{decode_loop-char}
use url_shortener_100x.Ids.RandomCode.{Generator, draw, next_code, keyspace}

module _ (choose : ℕ → ℕ) where
  length-draw : (n drawn : ℕ) → length (draw choose n drawn) ≡ n
  unfolding draw
  length-draw zero drawn = refl
  length-draw (suc n) drawn = ap suc (length-draw n (suc drawn))

  module _ (in_range : (i : ℕ) → choose i < base) where
    decode_loop-draw :
        (n drawn acc : ℕ)
        → (v : ℕ) × (decode_loop acc (draw choose n drawn) ≡ ok v) × (v < (acc + 1) * base ^ n)
    unfolding draw
    decode_loop-draw zero drawn acc = (acc, unfold decode_loop in refl, omega arith)
    decode_loop-draw (suc n) drawn acc =
        let ih = decode_loop-draw n (suc drawn) (acc * base + choose drawn) in
        let step : (acc * base + choose drawn + 1) * base ^ n ≤ (acc + 1) * base * base ^ n =
          mul-le-mul_right (base ^ n) (omega (arith, in_range drawn)) in
        (
          ih.0,
          decode_loop-char acc (choose drawn) (draw choose n (suc drawn)) (in_range drawn) ∙ ih.1,
          rw pow-suc (omega (arith, ih.2, step)),
        )

    -- A random code has the configured number of characters, and decodes to a number below the
    -- keyspace: `length` draws reach no code outside it.
    next_code-keyspace :
        (g : Generator)
        → (length (next_code choose g).0 ≡ g.code_length)
          × ((v : ℕ) × (decode_base62 (next_code choose g).0 ≡ ok v) × (v < keyspace g))
    unfolding next_code keyspace decode_base62
    next_code-keyspace g =
        let (v, e, small) = decode_loop-draw g.code_length g.drawn 0 in
        (length-draw g.code_length g.drawn, (v, e, omega arith))
