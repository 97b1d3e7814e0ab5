-- ===== src/Usage/Service.antt =====
-- UsageService of server/src/application/services/usage.py, with what each request meets: the
-- clock, and whether the write of its usage goes through.
use juris_ai.Base.{
  ℕ, ◌-◌, String, Bool, false, not, ◌&&◌, Option, none, some, ltb, leb, if◌then◌else◌,
}
use juris_ai.Base.Result.{Result, ok, err}
use juris_ai.Usage.Buckets.{
  Database, increment_request_count, get_daily_token_usage, record_request_tokens,
}
use Prim.Native.Nat.{◌%◌}

-- The settings; `reports_at n` is the test that 0.8 times the daily quota, a float, is at most n.
pub record RateLimit : Type 0 where
  pub enabled : Bool
  pub requests_per_minute : ℕ
  pub token_quota_daily : ℕ
  pub token_quota_per_request : ℕ
  pub reports_at : ℕ → Bool

pub data LimitError : Type 0 where
  rate_limit_exceeded : (limit retry_after_seconds : ℕ) → LimitError
  token_quota_exceeded : (quota used : ℕ) → LimitError

-- now.replace(second=0, microsecond=0)
abbrev pub minute_window : ℕ → ℕ
minute_window now = now - now % 60

-- now.replace(hour=0, minute=0, second=0, microsecond=0)
abbrev pub day_window : ℕ → ℕ
day_window now = now - now % 86400

module _ (limits : RateLimit) where
  -- What follows the count of the request.
  unfoldable pub enforce : ℕ → String → ℕ → Database → Result LimitError (Unit {0})
  unfolding get_daily_token_usage
  enforce now user_id count db =
      if ltb limits.requests_per_minute count
      then err (rate_limit_exceeded limits.requests_per_minute (60 - now % 60))
      else (let used = get_daily_token_usage user_id (day_window now) db in
          if leb limits.token_quota_daily used
          then err (token_quota_exceeded limits.token_quota_daily used)
          else ok tt)

  unfoldable pub check_and_enforce : ℕ → String → Database → Result LimitError (Unit {0}) × Database
  unfolding enforce increment_request_count
  check_and_enforce now user_id db =
      if limits.enabled
      then (let (count, after) = increment_request_count user_id (minute_window now) db in
          (enforce now user_id count after, after))
      else (ok tt, db)

  unfoldable pub request_token_quota : Option ℕ
  request_token_quota = if limits.enabled then some limits.token_quota_per_request else none

  -- before < threshold <= day_total
  unfoldable pub crosses : ℕ → ℕ → Bool
  crosses before total = not (limits.reports_at before) && limits.reports_at total

  -- _record_request_tokens, with the flag that the crossing is reported
  unfoldable pub report : ℕ → ℕ → Option ℕ → Bool
  unfolding crosses
  report input output none = false
  report input output (some total) = crosses (total - input - output) total

  -- record; a write that fails is rolled back, logged and swallowed.
  unfoldable pub record_usage : ℕ → String → String → ℕ → ℕ → Bool → Database → Bool × Database
  unfolding report record_request_tokens
  record_usage now user_id request_id input output commits db =
      if leb input 0 && leb output 0
      then (false, db)
      else if limits.enabled && commits
      then (let (total, after) =
            record_request_tokens request_id user_id (day_window now) input output db in
          (report input output total, after))
      else (false, db)
