-- ===== src/Examples/Plans.antt =====
-- Plans that the validator of server/src/agentic/planning accepts and refuses.
use juris_ai.Base.{ℕ, String, ◌≡◌, refl, ◌≢◌, ◌↔◌, ◌⊎◌, inl, inr, some, List, [], ◌∷◌, ≡→==}
use juris_ai.Base.Int.{pos}
use juris_ai.Base.Result.{ok, err}
use juris_ai.Planning.Plan.{
  AgentType, legal, contract, contract_review, hybrid, ExecutionStep, ExecutionPlan, dependencies,
}
use juris_ai.Planning.Plan.Graph.{Reaches, Acyclic}
use juris_ai.Planning.Cycles.{Colours, done, cycle, validate_dependency_graph}
use juris_ai.Planning.Cycles.Decides.{NamesKeys→IsClosed, validate_dependency_graph_decides}
use juris_ai.Planning.Ancestors.{transitive_dependencies}
use juris_ai.Planning.Ancestors.Reach.{IsClosure, transitive_dependencies-IsClosure}
use juris_ai.Planning.Validator.Total.{validate_total}
use juris_ai.Planning.Validator.{
  PlanError, key_error, out_of_fuel, validate, validate_agent_concurrency, dependency_cycle,
  concurrent_agent, plan_too_large,
}
use juris_ai.Planning.Validator.Concurrency.{IsConcurrencySafe, validate_agent_concurrency_iff}
use juris_ai.Planning.Serial.{deserialize_plan, serialize_plan, deserialize-serialize_plan}
use juris_ai.Base.Json.{Json, null, num, end, field, obj}
use juris_ai.Planning.Validator.Accepts.{IsValid, validate_iff}

abbrev pub step : String → AgentType → List String → ExecutionStep ℕ
step id agent depends_on = record {
  id = id;
  agent = agent;
  instruction = "review";
  depends_on = depends_on;
  stage = pos 1;
  arguments = 0;
}

abbrev pub plan_of : List (ExecutionStep ℕ) → ExecutionPlan ℕ
plan_of steps = record { intent = contract_review; mode = hybrid; steps = steps; metadata = 0 }

-- The contract agent works twice, the second time on what the legal agent made of the first.
abbrev pub chain : List (ExecutionStep ℕ)
chain = step "a" contract [] ∷ step "b" legal ("a" ∷ []) ∷ step "c" contract ("b" ∷ []) ∷ []

abbrev loop : List (ExecutionStep ℕ)
loop = step "a" contract ("b" ∷ []) ∷ step "b" legal ("a" ∷ []) ∷ []

abbrev apart : List (ExecutionStep ℕ)
apart = step "a" contract [] ∷ step "b" contract [] ∷ []

pub validate-chain : validate 6 (plan_of chain) ≡ ok (plan_of chain)
unfolding validate
validate-chain = refl

validate-loop : validate 6 (plan_of loop) ≡ err dependency_cycle
unfolding validate
validate-loop = refl

validate-apart : validate 6 (plan_of apart) ≡ err (concurrent_agent contract "a" "b")
unfolding validate
validate-apart = refl

validate-chain_limit : validate 2 (plan_of chain) ≡ err (plan_too_large 3 2)
unfolding validate
validate-chain_limit = refl

validate_iff_example :
    (validate 6 (plan_of chain) ≡ ok (plan_of chain))
    ↔ (IsValid 6 (plan_of chain) × (plan_of chain ≡ plan_of chain))
validate_iff_example = validate_iff 6 (plan_of chain) (plan_of chain)

validate_dependency_graph_decides_example :
    ((c : Colours) × (validate_dependency_graph (dependencies loop) ≡ done c)
      × Acyclic (dependencies loop))
    ⊎ ((validate_dependency_graph (dependencies loop) ≡ cycle)
        × ((x : String) × Reaches (dependencies loop) x x))
validate_dependency_graph_decides_example =
    validate_dependency_graph_decides (dependencies loop)
      (NamesKeys→IsClosed (dependencies loop) ((inr (inl refl), tt), ((inl refl, tt), tt)))

transitive_dependencies-IsClosure_example :
    (r : List String) × (transitive_dependencies "c" (dependencies chain) ≡ some r)
    × IsClosure (dependencies chain) "c" r
transitive_dependencies-IsClosure_example =
    transitive_dependencies-IsClosure (dependencies chain) "c"

validate_agent_concurrency_iff_example :
    (validate_agent_concurrency apart ≡ ok tt) ↔ IsConcurrencySafe apart
validate_agent_concurrency_iff_example =
    validate_agent_concurrency_iff apart
      ((λ m. elim m [ inl p ↦ a_not_b p | inr n ↦ elim n [ ] ]), ((λ m. elim m [ ]), tt))
  where
    a_not_b : ¬ (◌≡◌ {A = String} "a" "b")
    a_not_b p = cc (≡→== "a" "b" p)

validate_total_example :
    ((result : ExecutionPlan ℕ) × (validate 6 (plan_of loop) ≡ ok result))
    ⊎ ((e : PlanError) × (validate 6 (plan_of loop) ≡ err e) × (e ≢ key_error) × (e ≢ out_of_fuel))
validate_total_example = validate_total 6 (plan_of loop)

abbrev stored_plan : ExecutionPlan Json
stored_plan = record {
  intent = contract_review;
  mode = hybrid;
  steps =
      record {
        id = "a";
        agent = contract;
        instruction = "review";
        depends_on = "b" ∷ [];
        stage = pos 1;
        arguments = obj (field "clause" (num (pos 3)) end);
      }
      ∷ [];
  metadata = null;
}

deserialize-serialize_plan_example : deserialize_plan (serialize_plan stored_plan) ≡ ok stored_plan
deserialize-serialize_plan_example = deserialize-serialize_plan stored_plan
