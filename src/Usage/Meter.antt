-- ===== src/Usage/Meter.antt =====
-- The meter and the budget of a request: UsageMeter and RequestTokenBudget of
-- server/src/core/usage.py. Sets of names are lists without repetition.
use juris_ai.Base.{ℕ, ◌+◌, String, Option, none, some, List, [], ◌∷◌, elem, ltb, if◌then◌else◌}

-- The fields of a RequestTokenQuotaExceededError.
pub record Refusal : Type 0 where
  pub quota : ℕ
  pub used : ℕ
  pub requested : ℕ
  pub prompt_tokens : ℕ
  pub completion_tokens : ℕ

pub record RequestTokenBudget : Type 0 where
  pub quota : ℕ
  pub used : ℕ
  pub refused : Option Refusal

-- The usage that a provider reports of one call.
pub record LlmUsage : Type 0 where
  pub provider : String
  pub model : String
  pub prompt_tokens : ℕ
  pub completion_tokens : ℕ
  pub total_tokens : ℕ

-- The reference to the budget is left to the context, which has one budget for a request.
pub record UsageMeter : Type 0 where
  pub prompt_tokens : ℕ
  pub completion_tokens : ℕ
  pub total_tokens : ℕ
  pub calls : ℕ
  pub providers : List String
  pub models : List String
  pub estimate_tokens : String → ℕ
  pub refused : Option Refusal
  pub fallback_calls : ℕ

abbrev pub new_meter : (String → ℕ) → UsageMeter
new_meter estimate = record {
  prompt_tokens = 0;
  completion_tokens = 0;
  total_tokens = 0;
  calls = 0;
  providers = [];
  models = [];
  estimate_tokens = estimate;
  refused = none;
  fallback_calls = 0;
}

-- s.add(x)
unfoldable pub add_name : String → List String → List String
add_name x xs = if elem x xs then xs else x ∷ xs

-- s |= t
unfoldable pub union_names : List String → List String → List String
unfolding add_name
union_names [] xs = xs
union_names (y ∷ ys) xs = add_name y (union_names ys xs)

-- next(iter(s)) if len(s) == 1 else None, the properties `provider` and `model`
unfoldable pub only_name : List String → Option String
only_name (x ∷ []) = some x
only_name _ = none

unfoldable pub add : LlmUsage → UsageMeter → UsageMeter
unfolding add_name
add u m = record m {
  prompt_tokens = m.prompt_tokens + u.prompt_tokens;
  completion_tokens = m.completion_tokens + u.completion_tokens;
  total_tokens = m.total_tokens + u.total_tokens;
  calls = m.calls + 1;
  providers = add_name u.provider m.providers;
  models = add_name u.model m.models;
}

-- tally.merge(other)
unfoldable pub merge : UsageMeter → UsageMeter → UsageMeter
unfolding union_names
merge tally other = record tally {
  prompt_tokens = tally.prompt_tokens + other.prompt_tokens;
  completion_tokens = tally.completion_tokens + other.completion_tokens;
  total_tokens = tally.total_tokens + other.total_tokens;
  calls = tally.calls + other.calls;
  providers = union_names other.providers tally.providers;
  models = union_names other.models tally.models;
  fallback_calls = tally.fallback_calls + other.fallback_calls;
}

-- sum(self.estimate_tokens(text) for text in prompt_texts)
unfoldable pub sum_estimates : (String → ℕ) → List String → ℕ
sum_estimates estimate [] = 0
sum_estimates estimate (x ∷ xs) = estimate x + sum_estimates estimate xs

-- quota_error, of the refusal that the meter has; without one it is a RuntimeError.
unfoldable pub quota_error : UsageMeter → Option Refusal
quota_error m = elim m.refused [
  | none ↦ none
  | some r ↦
      some (record r { prompt_tokens = m.prompt_tokens; completion_tokens = m.completion_tokens })
]

-- An earlier scope of the same request was refused.
unfoldable pub inherit : RequestTokenBudget → UsageMeter → UsageMeter
inherit b m = elim m.refused [ none ↦ record m { refused = b.refused } | some r ↦ m ]

abbrev pub refusal_of : RequestTokenBudget → UsageMeter → ℕ → Refusal
refusal_of b m requested = record {
  quota = b.quota;
  used = b.used + m.total_tokens;
  requested = requested;
  prompt_tokens = 0;
  completion_tokens = 0;
}

-- What `check` leaves: the error it raises, the budget and the meter.
pub record Checked : Type 0 where
  pub raised : Option Refusal
  pub budget : RequestTokenBudget
  pub meter : UsageMeter

-- The rest of `check`, which raises the quota_error of the meter, for a meter that has inherited the refusal of the request.
unfoldable pub check_quota : List String → RequestTokenBudget → UsageMeter → Checked
unfolding sum_estimates quota_error
check_quota texts b m = elim m.refused [
  | some r ↦ record { raised = quota_error m; budget = b; meter = m }
  | none ↦
      let requested = sum_estimates m.estimate_tokens texts in
      let r = refusal_of b m requested in
      if ltb b.quota (b.used + m.total_tokens + requested)
      then record {
        raised = quota_error (record m { refused = some r });
        budget = record b { refused = some r };
        meter = record m { refused = some r };
      }
      else record { raised = none; budget = b; meter = m }
]

-- check, of a meter with a budget
unfoldable pub check : List String → RequestTokenBudget → UsageMeter → Checked
unfolding inherit check_quota
check texts b m = check_quota texts b (inherit b m)
