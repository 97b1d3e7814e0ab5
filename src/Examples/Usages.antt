-- ===== src/Examples/Usages.antt =====
-- Requests with a token quota, and the limits of users: server/src/core/usage.py and
-- server/src/application/services/usage.py.
use juris_ai.Base.{
  ℕ, ◌*◌, ◌+◌, ◌≤◌, ◌≡◌, refl, String, true, false, none, some, List, [], ◌∷◌, leb, arith,
}
use juris_ai.Usage.Meter.{LlmUsage, UsageMeter, new_meter, sum_estimates}
use juris_ai.Usage.Scopes.{
  Context, Works, responds, fails, finished, generate, scope, attempt, run, begin_request,
}
use juris_ai.Usage.Counts.{prompts, completions, totals}
use juris_ai.Usage.Tally.{of_tally, sum_usage, tally_counts}
use juris_ai.Usage.Refused.{run_rest, estimated, refused-silent}
use juris_ai.Usage.Inside.{usage_within, fails_within}
use juris_ai.Usage.Cap.{request_capped}
use juris_ai.Usage.Buckets.{Database, counts_of}
use juris_ai.Usage.Service.{RateLimit}
use juris_ai.Usage.Limits.{Event, asks, records, one_if, serve_all}
use juris_ai.Usage.Rates.{passed, rate_limited}
use juris_ai.Usage.Changes.{total_of}
use juris_ai.Usage.Reports.{reported, crossing_reported}
use juris_ai.Usage.Days.{spent, day_total}

abbrev used : ℕ → LlmUsage
used n = record {
  provider = "groq";
  model = "large";
  prompt_tokens = n;
  completion_tokens = 2;
  total_tokens = n + 2;
}

abbrev ten : String → ℕ
ten text = 10

-- A summary of the conversation, then a turn of three calls, one of which fails.
abbrev turn : Works
turn = scope ten (generate ("summary" ∷ []) (responds (some (used 9))) finished) (
    scope ten
      (generate ("plan" ∷ []) (responds (some (used 10))) (
        attempt (generate ("ask" ∷ []) fails finished)
          (generate ("ask" ∷ "again" ∷ []) (responds (some (used 20))) finished)))
      finished)

abbrev end_of : ℕ → Context
end_of quota = (run turn (begin_request ten (some quota))).1

tally_counts_example :
    (of_tally prompts (end_of 100).tally ≡ sum_usage prompts (end_of 100).answered)
    × (of_tally completions (end_of 100).tally ≡ sum_usage completions (end_of 100).answered)
    × (of_tally totals (end_of 100).tally ≡ sum_usage totals (end_of 100).answered)
tally_counts_example = tally_counts turn ten (some 100) tt

tokens_of-turn : of_tally totals (end_of 100).tally ≡ 45
unfolding run
tokens_of-turn = refl

-- Under a quota of 42 the last call, estimated at 20 tokens, is refused.
tokens_of-short_turn : of_tally totals (end_of 42).tally ≡ 23
unfolding run
tokens_of-short_turn = refl

request_capped_example : (t : UsageMeter) × ((end_of 42).tally ≡ some t) × (t.total_tokens ≤ 42 + 2)
unfolding sum_estimates
request_capped_example = request_capped 42 2 turn ten (
  (usage_within (used 9) (omega arith), tt),
  (
    (
      usage_within (used 10) (omega arith),
      ((fails_within, tt), (usage_within (used 20) (omega arith), tt)),
    ),
    tt,
  ),
)

-- A scope that has used 23 tokens of 42, in which a call estimated at 20 is asked for.
abbrev nearly_full : Context
nearly_full = record (begin_request ten (some 42)) {
  meters = record (new_meter ten) { total_tokens = 23 } ∷ [];
}

refused-silent_example :
    ((run (generate ("ask" ∷ "again" ∷ []) (responds (some (used 20))) finished) nearly_full).0
      ≡ false)
    × ((run_rest
          (generate ("ask" ∷ []) (responds (some (used 1))) finished ∷ [])
          turn
          (run
            (generate ("ask" ∷ "again" ∷ []) (responds (some (used 20))) finished)
            nearly_full).1).answered
        ≡ [])
unfolding estimated
refused-silent_example =
    refused-silent ("ask" ∷ "again" ∷ []) (responds (some (used 20))) finished nearly_full
      (record { quota = 42; used = 0; refused = none })
      (record (new_meter ten) { total_tokens = 23 }) []
      (generate ("ask" ∷ []) (responds (some (used 1))) finished ∷ []) turn refl refl refl refl
      (omega arith) refl tt

abbrev limits : RateLimit
limits = record {
  enabled = true;
  requests_per_minute = 2;
  token_quota_daily = 100;
  token_quota_per_request = 50;
  reports_at = λ n. leb 80 n;
}

abbrev empty_tables : Database
empty_tables = record { buckets = []; requests = [] }

-- The second request is recorded twice.
abbrev day : List Event
day =
    asks 61 "ada"
    ∷ records 62 "ada" "r1" 30 20 true
    ∷ asks 63 "ada"
    ∷ records 64 "ada" "r2" 30 5 true
    ∷ records 65 "ada" "r2" 30 5 true
    ∷ asks 66 "ada"
    ∷ records 67 "bob" "r3" 90 0 true
    ∷ []

rate_limited_example :
    (passed limits "ada" (60 * 1) day empty_tables ≤ 2)
    × (passed limits "ada" 50 day empty_tables ≤ 2 + 2)
rate_limited_example = rate_limited limits "ada" 1 50 day empty_tables refl

passed-day : passed limits "ada" 60 day empty_tables ≡ 2
unfolding passed
passed-day = refl

-- Two requests at the end of a calendar minute and two at the beginning of the next one.
passed-burst :
    passed limits "ada" 90
      (asks 118 "ada" ∷ asks 119 "ada" ∷ asks 120 "ada" ∷ asks 121 "ada" ∷ [])
      empty_tables
    ≡ 4
unfolding passed
passed-burst = refl

crossing_reported_example :
    reported limits "ada" 0 day empty_tables + 0
    ≡ one_if (leb 80 (total_of "ada" 0 (serve_all limits day empty_tables)))
unfolding counts_of
crossing_reported_example =
    crossing_reported limits "ada" 0 day empty_tables (λ m n le at. ground (arith, le, at))

day_total_example :
    total_of "ada" 0 (serve_all limits day empty_tables) ≡ 0 + spent limits "ada" 0 day []
unfolding counts_of
day_total_example = day_total limits "ada" 0 day empty_tables [] (λ id. (λ e. refl, λ e. refl))

spent-day : spent limits "ada" 0 day [] ≡ 85
unfolding spent
spent-day = refl
