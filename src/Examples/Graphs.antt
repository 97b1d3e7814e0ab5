-- ===== src/Examples/Graphs.antt =====
-- The graph of server/src/agentic/execution/graph/builder.py for the plan of Examples/Plans.antt.
use juris_ai.Base.{ℕ, String, ◌≡◌, refl, ◌⊎◌, inl, inr, none, some, List, [], ◌∷◌, In, elem-false}
use juris_ai.Base.Dict.{get}
use juris_ai.Planning.Plan.{ExecutionStep, legal}
use juris_ai.Planning.Validator.Accepts.{validate_iff}
use juris_ai.Execution.Graph.{
  ExecutionStatus, completed, skipped, failed, ExecutionStepUpdate, latest_step_statuses,
  skipped_update, add_edges, execute_step,
}
use juris_ai.Execution.Statuses.{
  last_status, get-latest_step_statuses, IsEligible, execute_step_lem,
}
use juris_ai.Execution.Order.{Run, begin, runs, InOrder, Run-InOrder, edge_to}
use juris_ai.Execution.Progress.{Run-progress}
use juris_ai.Examples.Plans.{step, plan_of, chain, validate-chain}

abbrev update : String → ExecutionStatus → ExecutionStepUpdate
update id status = record (skipped_update id) { status = status }

-- The step fails, and is run again.
abbrev history : List ExecutionStepUpdate
history = update "a" failed ∷ update "b" completed ∷ update "a" completed ∷ []

get-latest_step_statuses_example : get "a" (latest_step_statuses history) ≡ last_status "a" history
get-latest_step_statuses_example = get-latest_step_statuses "a" history

last_status-history : last_status "a" history ≡ some completed
unfolding last_status
last_status-history = refl

abbrev answers : List ExecutionStepUpdate → ExecutionStep ℕ → List ExecutionStepUpdate
answers updates s = update s.id completed ∷ []

abbrev second : ExecutionStep ℕ
second = step "b" legal ("a" ∷ [])

execute_step_lem_example :
    (IsEligible history second × (execute_step answers history second ≡ answers history second))
    ⊎ ((¬ IsEligible history second)
        × (execute_step answers history second
            ≡ record {
              step_id = "b";
              status = skipped;
              retry_count = 0;
              started_at = none;
              completed_at = none;
              error = none;
              termination_reason = none;
            }
              ∷ []))
execute_step_lem_example = execute_step_lem answers history second

execute_step-early : execute_step answers [] second ≡ skipped_update "b" ∷ []
unfolding execute_step
execute_step-early = refl

first_ran : Run (add_edges chain) ("a" ∷ [])
unfolding add_edges
first_ran = runs [] (edge_to (step "a" legal [])) "a" begin (inl refl) refl (tt, tt)

Run-InOrder_example : InOrder chain ("a" ∷ [])
Run-InOrder_example =
    Run-InOrder chain ("a" ∷ [])
      (
        elem-false "a" ("b" ∷ "c" ∷ []) refl,
        (elem-false "b" ("c" ∷ []) refl, (elem-false "c" [] refl, tt)),
      )
      first_ran

Run-progress_example :
    (t : ExecutionStep ℕ) × In t chain
    × (¬ In t.id ("a" ∷ []))
    × Run (add_edges chain) (t.id ∷ "a" ∷ [])
Run-progress_example =
    Run-progress 6 (plan_of chain) ("a" ∷ []) second
      ((validate_iff 6 (plan_of chain) (plan_of chain)).0 validate-chain).0 first_ran
      (inr (inl refl)) (elem-false "b" ("a" ∷ []) refl)
