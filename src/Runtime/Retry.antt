-- ===== src/Runtime/Retry.antt =====
-- server/src/agentic/execution/config.py (ExecutionRetryPolicy) and agents/runtime/retry.py. Times
-- are whole microseconds; a limit that the source refuses because it is negative is not there.
use juris_ai.Base.{
  ℕ, zero, suc, ◌-◌, ◌*◌, String, Bool, false, ◌||◌, List, [], ◌∷◌, ltb, if◌then◌else◌,
}
use juris_ai.Base.Result.{Result, ok, err, ◌>>◌, raise_if}

pub record ExecutionRetryPolicy : Type 0 where
  pub max_attempts : ℕ
  pub base_delay : ℕ
  pub max_delay : ℕ
  pub min_attempt : ℕ

unfoldable pub retry_post_init : ExecutionRetryPolicy → Result String (Unit {0})
retry_post_init p = do
  raise_if (ltb p.max_attempts 1) "Execution retry max_attempts must be greater than zero."
  raise_if (ltb p.max_delay p.base_delay)
      "Execution retry max_delay_seconds must be greater than or equal to base_delay_seconds."

abbrev pub doubled : ℕ → ℕ → ℕ
doubled zero delay = delay
doubled (suc n) delay = 2 * doubled n delay

abbrev pub at_most : ℕ → ℕ → ℕ
at_most cap n = if ltb cap n then cap else n

-- min(base_delay_seconds * 2.0 ** (retry_count - 1), max_delay_seconds)
unfoldable pub delay_seconds : ExecutionRetryPolicy → ℕ → Result String ℕ
delay_seconds p retry_count =
    if ltb retry_count 1
    then err "Execution retry_count must be greater than zero."
    else ok (at_most p.max_delay (doubled (retry_count - 1) p.base_delay))

-- isinstance(error, retryable_exceptions): `is_subclass` is the class hierarchy.
unfoldable pub is_retryable : (String → String → Bool) → List String → String → Bool
is_retryable is_subclass [] error = false
is_retryable is_subclass (c ∷ cs) error = is_subclass error c || is_retryable is_subclass cs error
