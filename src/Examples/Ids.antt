-- ===== src/Examples/Ids.antt =====
-- The theorems on codes and ids, on concrete codes and ids.
use url_shortener_100x.Prelude.{
  ℕ, suc, ◌+◌, ◌≤◌, ◌≡◌, ◌≢◌, refl, inl, inr, none, some, true, false, List, [], ◌∷◌, arith, Text,
  codes, length, All, ℤ, pos, negsuc, Result, ok, raise, value_error, runtime_error,
}
use url_shortener_100x.Store.Links.{LinkStore, Attempt, commits}
use url_shortener_100x.Ids.Base62.{encode_base62, decode_base62}
use url_shortener_100x.Ids.Base62.RoundTrip.{decode-encode_base62}
use url_shortener_100x.Ids.Base62.Width.{length-encode_base62}
use url_shortener_100x.Ids.Snowflake
use url_shortener_100x.Ids.Snowflake.{epoch_ms, compose_id, decode_id, next_id, issued, refused}
use url_shortener_100x.Ids.Snowflake.Clock.{Reaches, past_last, is_far_behind, next_id_returns}
use url_shortener_100x.Ids.Snowflake.Step.{floor_id, IsValid}
use url_shortener_100x.Ids.Snowflake.Order.{run, Increasing, IssuedBy, run-Increasing, run-disjoint}
use url_shortener_100x.Ids.Allocator.{Allocator, allocate}
use url_shortener_100x.Ids.Allocator.Retry.{Promised, allocate-Promised}

decode-encode_base62_example :
    ((s : Text) × (encode_base62 (pos 125) ≡ ok s) × (decode_base62 s ≡ ok 125))
    × (encode_base62 (negsuc 125) ≡ raise value_error)
decode-encode_base62_example = decode-encode_base62 125

encode_125 : encode_base62 (pos 125) ≡ ok (codes "21")
unfolding encode_base62
encode_125 = refl

length-encode_base62_example : (s : Text) × (encode_base62 (pos 125) ≡ ok s) × (length s ≡ 2)
length-encode_base62_example = length-encode_base62 1 125 (omega arith) (omega arith)

compose_3_7 : compose_id (epoch_ms + 5) 3 7 ≡ pos 20983815
unfolding compose_id
compose_3_7 = refl

-- Instance 3, with the millisecond's sequence used up.
abbrev exhausted : Snowflake.Generator
exhausted = record { instance_id = 3; last_ms = some (epoch_ms + 100); sequence = 4095 }

abbrev other_instance : Snowflake.Generator
other_instance = record { instance_id = 4; last_ms = none; sequence = 0 }

abbrev stalled_clock : List ℕ
stalled_clock = (epoch_ms + 100) ∷ (epoch_ms + 101) ∷ (epoch_ms + 90) ∷ (epoch_ms + 102) ∷ []

exhausted-Reaches : Reaches (past_last exhausted) ((epoch_ms + 100) ∷ stalled_clock)
unfolding Reaches past_last
exhausted-Reaches = inr (inr (inl (omega arith)))

next_id_returns_example :
    (is_far_behind exhausted (epoch_ms + 100) ≡ true
      → next_id exhausted ((epoch_ms + 100) ∷ stalled_clock)
        ≡ refused runtime_error exhausted stalled_clock)
    × (is_far_behind exhausted (epoch_ms + 100) ≡ false
        → (id : ℤ) × (g : Snowflake.Generator) × (rest : List ℕ) × (next_id exhausted
              ((epoch_ms + 100) ∷ stalled_clock)
            ≡ issued id g rest))
next_id_returns_example = next_id_returns exhausted (epoch_ms + 100) stalled_clock exhausted-Reaches

exhausted-IsValid : IsValid exhausted
exhausted-IsValid = record {
  instance_fits = omega arith;
  sequence_fits = omega arith;
  after_epoch = omega arith;
}

other_instance-IsValid : IsValid other_instance
other_instance-IsValid = record {
  instance_fits = omega arith;
  sequence_fits = omega arith;
  after_epoch = tt;
}

stalled_clock-after_epoch : All (λ r. epoch_ms ≤ r) stalled_clock
stalled_clock-after_epoch = (omega arith, (omega arith, (omega arith, (omega arith, tt))))

run-Increasing_example :
    Increasing (floor_id exhausted) (run 2 exhausted stalled_clock)
    × All (IssuedBy 3) (run 2 exhausted stalled_clock)
run-Increasing_example =
    run-Increasing 2 exhausted stalled_clock exhausted-IsValid stalled_clock-after_epoch

run-disjoint_example :
    All (λ a. All (λ b. a ≢ b) (run 2 other_instance stalled_clock)) (run 2 exhausted stalled_clock)
run-disjoint_example =
    run-disjoint 2 2 exhausted other_instance stalled_clock stalled_clock exhausted-IsValid
      other_instance-IsValid stalled_clock-after_epoch stalled_clock-after_epoch (λ e. absurd (cc))

-- A generator that counts, and an allocator whose first code is taken.
abbrev count_up : ℕ → Result Text × ℕ
count_up n = (ok (n ∷ []), suc n)

abbrev taken_store : LinkStore
taken_store = record {
  links = (65 ∷ [], record { target = codes "a"; created_ms = 1; expires_ms = none }) ∷ [];
  link_hits = [];
}

abbrev two_attempts : Allocator ℕ
two_attempts = record { generator = 65; max_attempts = 2; allocated = 0; collisions = 0 }

abbrev at_nine : ℕ → Attempt
at_nine n = record { clock = 9; write = commits }

allocate-Promised_example :
    Promised
      (codes "b")
      count_up
      at_nine
      2
      two_attempts
      taken_store
      (allocate count_up (codes "b") none at_nine two_attempts taken_store)
allocate-Promised_example =
    allocate-Promised count_up (codes "b") none at_nine two_attempts taken_store
      (λ g. (g ∷ [], refl))
