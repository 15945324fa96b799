-- ===== src/Ids/Snowflake/Layout.antt =====
-- src/shortener/ids.py, the bit layout of an id, and `decode_id`.
use Prim.Native.Nat.{bit_or}
use url_shortener_100x.Prelude.{
  ℕ, ◌+◌, ◌-◌, ◌*◌, ◌/◌, ◌≤◌, ◌≡◌, refl, ap, sym, ◌∙◌, arith, leb, le→leb, pos, true,
}
use url_shortener_100x.Prelude.Bits.{bit_or-shifted, bit_and-mask}
use url_shortener_100x.Ids.Snowflake.{epoch_ms, max_instance, max_sequence, compose_id, decode_id}

-- The number that the three fields make.
abbrev pub layout : ℕ → ℕ → ℕ → ℕ
layout ms instance_id sequence = ms * 4194304 + instance_id * 4096 + sequence

pub compose_id-layout :
    (now i q : ℕ)
    → epoch_ms ≤ now
    → i ≤ max_instance
    → q ≤ max_sequence
    → compose_id now i q ≡ pos (layout (now - epoch_ms) i q)
unfolding compose_id
compose_id-layout now i q h hi hq =
    let e : leb epoch_ms now ≡ true = le→leb epoch_ms now h in
    let ms : ℕ = now - epoch_ms in
    let upper : bit_or (ms * 4194304) (i * 4096) ≡ (ms * 1024 + i) * 4096 =
      bit_or-shifted 22 ms (i * 4096) (omega arith) ∙ omega arith in
    rw (e, compose_id)
      (ap pos (
        ap (λ u. bit_or u q) upper
        ∙ bit_or-shifted 12 (ms * 1024 + i) q (omega arith)
        ∙ omega arith))

-- Whatever the instance issues, `decode_id` gives back the time, the instance and the sequence.
pub decode-compose_id :
    (now i q n : ℕ)
    → epoch_ms ≤ now
    → i ≤ max_instance
    → q ≤ max_sequence
    → compose_id now i q ≡ pos n
    → decode_id n ≡ record { timestamp_ms = now; instance_id = i; sequence = q }
unfolding decode_id
decode-compose_id now i q n h hi hq e =
    let n-layout : layout (now - epoch_ms) i q ≡ n =
      pos-injective (sym (compose_id-layout now i q h hi hq) ∙ e) in
    ground (arith, bit_and-mask 10 (n / 4096) 1023 refl, bit_and-mask 12 n 4095 refl)
  where
    pos-injective : {a b : ℕ} → pos a ≡ pos b → a ≡ b
    pos-injective p = cc
