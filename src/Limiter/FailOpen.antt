-- ===== src/Limiter/FailOpen.antt =====
-- src/shortener/limiter.py, `FailOpenLimiter`. The limiter inside is the argument `inner`: its state
-- and a request to the state after and its decision, or the exception.
use url_shortener_100x.Prelude.{ℕ, ◌+◌, Bool, true, false, if◌then◌else◌, Text, Result, ok, raise}
use url_shortener_100x.Limiter.{nan, tokens, no_delay, ratio, Decision}

-- `Decision(allowed, float("nan"), 0.0)`
abbrev pub unread : Bool → Decision
unread allowed = record { allowed = allowed; tokens_remaining = nan; retry_after = no_delay }

-- `Decision(False, 0.0, 1.0)`: one second.
abbrev pub closed_decision : Decision
closed_decision = record {
  allowed = false;
  tokens_remaining = tokens 0;
  retry_after = ratio 1000 1;
}

pub record FailOpenLimiter (L : Type 0) : Type 0 where
  pub limiter : L
  pub fail_open : Bool
  pub fail_open_count : ℕ
  pub error_count : ℕ

module _ {L : Type 0} (inner : L → Text → ℕ → L × Result Decision) where
  unfoldable pub check : FailOpenLimiter L → Text → ℕ → FailOpenLimiter L × Decision
  check l client_id cost =
      let (limiter, result) = inner l.limiter client_id cost in
      elim result [
        | ok decision ↦ (record l { limiter = limiter }, decision)
        | raise e ↦
            if l.fail_open
            then (
              record l {
                limiter = limiter;
                error_count = l.error_count + 1;
                fail_open_count = l.fail_open_count + 1;
              },
              unread true,
            )
            else (record l { limiter = limiter; error_count = l.error_count + 1 }, closed_decision)
      ]
