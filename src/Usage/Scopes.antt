-- ===== src/Usage/Scopes.antt =====
-- The context variables of server/src/core/usage.py, and LLMClient.generate of
-- server/src/adapters/clients/llm/base.py, which reads and writes them. `Works` is what runs in one
-- request: the calls it makes, the scopes it opens and the exceptions it catches.
use juris_ai.Base.{ℕ, ◌+◌, String, Bool, true, false, Option, none, some, List, [], ◌∷◌}
use juris_ai.Usage.Meter.{RequestTokenBudget, LlmUsage, UsageMeter, new_meter, add, merge, check}

-- The scopes that are open, the current one first. `answered` is the usage that providers have
-- reported so far, the last first.
pub record Context : Type 0 where
  pub budget : Option RequestTokenBudget
  pub meters : List UsageMeter
  pub tally : Option UsageMeter
  pub answered : List LlmUsage

-- What the provider does: a response, with or without usage, or an exception.
pub data Answer : Type 0 where
  responds : Option LlmUsage → Answer
  fails : Answer

pub data Works : Type 0 where
  finished : Works
  raises_error : Works
  generate : List String → Answer → Works → Works
  fallback : Works → Works
  scope : (String → ℕ) → Works → Works → Works
  attempt : Works → Works → Works

-- `true` for a body that returns, `false` for one that raises.
abbrev pub Ran : Type 0
Ran = Bool × Context

abbrev pub next : Ran → (Context → Ran) → Ran
next (true, c) k = k c
next (false, c) k = (false, c)

-- except Exception: …
abbrev pub caught : Ran → (Context → Ran) → Ran
caught (ran, c) k = k c

-- check_request_token_quota: no check outside a scope, or without a budget.
unfoldable pub check_request_token_quota : List String → Context → Ran
unfolding check
check_request_token_quota texts c = elim c.meters [
  | [] ↦ (true, c)
  | m ∷ ms ↦ elim c.budget [
    | none ↦ (true, c)
    | some b ↦
        let z = check texts b m in
        (
          elim z.raised [ none ↦ true | some r ↦ false ],
          record c { budget = some z.budget; meters = z.meter ∷ ms },
        )
  ]
]

unfoldable pub record_llm_usage : LlmUsage → Context → Context
unfolding add
record_llm_usage u c = elim c.meters [ [] ↦ c | m ∷ ms ↦ record c { meters = add u m ∷ ms } ]

unfoldable pub record_llm_fallback : Context → Context
record_llm_fallback c = elim c.meters [
  | [] ↦ c
  | m ∷ ms ↦ record c { meters = record m { fallback_calls = m.fallback_calls + 1 } ∷ ms }
]

-- What follows the check in LLMClient.generate.
unfoldable pub answer : Answer → Context → Ran
unfolding record_llm_usage
answer fails c = (false, c)
answer (responds none) c = (true, c)
answer (responds (some u)) c = (true, record_llm_usage u (record c { answered = u ∷ c.answered }))

abbrev pub open_scope : (String → ℕ) → Context → Context
open_scope estimate c = record c { meters = new_meter estimate ∷ c.meters }

-- budget.used += meter.total_tokens
abbrev pub charge : ℕ → Option RequestTokenBudget → Option RequestTokenBudget
charge n none = none
charge n (some b) = some (record b { used = b.used + n })

-- tally.merge(meter)
abbrev pub merge_into : UsageMeter → Option UsageMeter → Option UsageMeter
merge_into m none = none
merge_into m (some t) = some (merge t m)

-- The `finally` of usage_scope.
unfoldable pub close_scope : Context → Context
unfolding merge
close_scope c = elim c.meters [
  | [] ↦ c
  | m ∷ ms ↦ record c {
    budget = charge m.total_tokens c.budget;
    meters = ms;
    tally = merge_into m c.tally;
  }
]

abbrev pub closed : Ran → Ran
closed (ran, c) = (ran, close_scope c)

unfoldable pub run : Works → Context → Ran
unfolding check_request_token_quota answer record_llm_fallback close_scope
run finished c = (true, c)
run raises_error c = (false, c)
run (generate texts a k) c = next (next (check_request_token_quota texts c) (answer a)) (run k)
run (fallback k) c = run k (record_llm_fallback c)
run (scope estimate body k) c = next (closed (run body (open_scope estimate c))) (run k)
run (attempt body k) c = caught (run body c) (run k)

-- request_token_quota and usage_tally, as a request begins: nothing is used and no scope is open.
abbrev pub begin_request : (String → ℕ) → Option ℕ → Context
begin_request estimate quota = record {
  budget = elim quota [
    | none ↦ none
    | some q ↦ some (record { quota = q; used = 0; refused = none })
  ];
  meters = [];
  tally = some (new_meter estimate);
  answered = [];
}
