-- ===== src/Runtime/Session.antt =====
-- The state of one agent's execution (AgentExecutionHandle of agents/runtime/execution.py), what it
-- asks of the world outside, and computations on them. What the world answers is a function of the
-- journal of what has happened so far, the newest first, so that it may change at every step.
use juris_ai.Base.{ℕ, String, Bool, Option, List, ◌∷◌}
use juris_ai.Base.Int.{ℤ}
use juris_ai.Base.Json.{Json}
use juris_ai.Base.Result.{Result, ok, err}
use juris_ai.Authorization.Roles.{ActionType}
use juris_ai.Execution.Graph.{ExecutionStatus}
use juris_ai.Lifecycle.Budget.{BudgetCheckResult}
use juris_ai.Lifecycle.State.{AgentState}
use juris_ai.Lifecycle.Operations.{Call, run_call, returned, nothing, raised}
use juris_ai.Runtime.Decisions.{AgentDecision}
use juris_ai.Runtime.Guards.{AgentPolicy}
use juris_ai.Runtime.Retry.{ExecutionRetryPolicy}
use juris_ai.Runtime.Content.{RetrievedContent, ToolResult}
use juris_ai.Runtime.Quality.{AnswerEvaluationResult, AnswerEvaluationSummary, AnswerQualityPolicy}

-- An exception: the name of its class and its text. `reasoning_failure` is _AgentReasoningFailure.
pub data Exn : Type 0 where
  exception : (class message : String) → Exn
  reasoning_failure : (class message : String) → Exn

-- AgentContextDTO
pub record AgentContext : Type 0 where
  pub user_id : String
  pub execution_id : String
  pub thread_id : String
  pub conversation_event_id : String
  pub request_id : String

-- AgentActionRequestDTO, with the fields that the runtime sets
pub record AgentActionRequest : Type 0 where
  pub context : AgentContext
  pub agent_id : String
  pub action_type : ActionType
  pub tool_name : Option String
  pub target_agent_id : Option String
  pub parameters : Json
  pub reason : String

-- AgentExecutionResult, without its two times
pub record AgentExecutionResult : Type 0 where
  pub status : ExecutionStatus
  pub retry_count : ℕ
  pub termination_reason : Option juris_ai.Lifecycle.Budget.TerminationReason
  pub error : Option String
  pub partial_response : List ℕ
  pub decision : Option AgentDecision
  pub action : Option AgentActionRequest

pub record AgentContinuationResult : Type 0 where
  pub result : AgentExecutionResult
  pub action : Option AgentActionRequest
  pub tool_results : List ToolResult
  pub evaluation_summary : Option AnswerEvaluationSummary

-- What a handler of the collaboration bus returns
pub data Delegated : Type 0 where
  no_result : Delegated
  turn : AgentContinuationResult → Delegated
  other : (shown : String) → Delegated

-- What `interrupt` returns when the run is resumed
pub record ResumePayload : Type 0 where
  pub decision : Option String
  pub tool_result : ToolResult

-- A message of the conversation: whether the user wrote it, and its content
pub record Message : Type 0 where
  pub is_user : Bool
  pub content : String

pub record AgentRequest : Type 0 where
  pub messages : List Message
  pub instruction : String
  pub context : AgentContext
  pub tool_catalog : List String

-- What the runtime does to the world outside
pub data Effect : Type 0 where
  read_clock read_deadline : Effect
  reasoned : (within : ℕ) → List RetrievedContent → Effect
  slept : (time : ℕ) → Effect
  validated_parameters : (tool_name : String) (parameters : Json) → Effect
  ran_tool : (tool_name : String) (parameters : Json) → Effect
  logged_tool_call : (tool_name : String) (success : Bool) → Effect
  logged_retrieval : List RetrievedContent → Effect
  interrupted : AgentActionRequest → Effect
  delegated : (target : String) (parameters : Json) → Effect
  evaluated : (answer : String) (evidence : List String) → Effect

abbrev pub Journal : Type 0
Journal = List Effect

-- A tool of the registry: whether it has a params_model
pub record Tool : Type 0 where
  pub callable : Bool

-- The answers of the world: the clock in microseconds, the seconds left before the deadline in
-- microseconds too, an agent's `_reason`, pydantic's validation of parameters (the arguments, or
-- the sentence that describes what is wrong), `Tool.execute`, the compliance log, `interrupt` (no
-- payload: the run pauses), the collaboration bus, the evaluator. Then json.dumps, the SHA-256
-- digest, uuid.UUID, the format `.2f`, the tests of identifiers and of subclasses, and the registry.
pub record World : Type 0 where
  pub clock : Journal → ℕ
  pub remaining : Journal → Option ℤ
  pub reason : ℕ → List RetrievedContent → Journal → Result Exn AgentDecision
  pub validated : String → Json → Journal → Result String Json
  pub run_tool : String → Json → Option String → Journal → Result Exn String
  pub log : Journal → Option Exn
  pub interrupt : AgentActionRequest → Journal → Option ResumePayload
  pub delegate : String → Json → Journal → Result Exn Delegated
  pub evaluate :
      (question answer : String) → List String → Journal → Result Exn AnswerEvaluationResult
  pub dumps : Json → String
  pub digest : List RetrievedContent → String
  pub is_uuid : String → Bool
  pub two_decimals : ℕ → String
  pub is_identifier : String → Bool
  pub is_subclass : String → String → Bool
  pub resolve_tool : String → Option Tool

-- What a handle is made with, and the services that act on it
pub record Runtime : Type 0 where
  pub agent_id : String
  pub request : AgentRequest
  pub policy : AgentPolicy
  pub retry_policy : ExecutionRetryPolicy
  pub retryable_exceptions : List String
  pub quality : AnswerQualityPolicy
  pub world : World

-- What a handle changes
pub record Session : Type 0 where
  pub lifecycle : AgentState
  pub attempt_count : ℕ
  pub last_decision : Option AgentDecision
  pub closed : Bool
  pub reasoning_context : List RetrievedContent
  pub journal : Journal

-- How a computation ends. `paused` is the end of a call of `interrupt`; `exhausted` says that the
-- model's recursion had no fuel left.
pub data Outcome (A : Type 0) : Type 0 where
  done : A → Outcome A
  raises : Exn → Outcome A
  paused exhausted : Outcome A

abbrev pub M : Type 0 → Type 0
M A = Session → Outcome A × Session

abbrev pub return : {A : Type 0} → A → M A
return a s = (done a, s)

-- The end of a recursion that has no fuel left
abbrev pub halt : {A : Type 0} → M A
halt s = (exhausted, s)

abbrev pub after : {A B : Type 0} → (A → M B) → Outcome A × Session → Outcome B × Session
after f (done a, s) = f a s
after f (raises e, s) = (raises e, s)
after f (paused, s) = (paused, s)
after f (exhausted, s) = (exhausted, s)

infixl 5 ◌>>=◌ ◌>>◌
abbrev pub ◌>>=◌ : {A B : Type 0} → M A → (A → M B) → M B
(m >>= f) s = after f (m s)

abbrev pub ◌>>◌ : {B : Type 0} → M (Unit {0}) → M B → M B
m >> k = m >>= λ _. k

-- try: … except Exception as exc: …
abbrev pub handle : {A : Type 0} → (Exn → M A) → Outcome A × Session → Outcome A × Session
handle f (done a, s) = (done a, s)
handle f (raises e, s) = f e s
handle f (paused, s) = (paused, s)
handle f (exhausted, s) = (exhausted, s)

abbrev pub catch : {A : Type 0} → M A → (Exn → M A) → M A
catch m f s = handle f (m s)

abbrev pub get_session : M Session
get_session s = (done s, s)

abbrev pub throw : {A : Type 0} → Exn → M A
throw e s = (raises e, s)

abbrev pub raise_result : {A : Type 0} → Result Exn A → M A
raise_result (ok a) = return a
raise_result (err e) = throw e

abbrev pub record_effect : Effect → M (Unit {0})
record_effect e s = (done tt, record s { journal = e ∷ s.journal })

-- An answer of the world, given what has happened before the effect
abbrev pub ask : {A : Type 0} → Effect → (Journal → A) → M A
ask e answer s = (done (answer s.journal), record s { journal = e ∷ s.journal })

-- What a call of a lifecycle method comes to. Only methods that return a check are `checked`.
abbrev pub settled :
    {A : Type 0}
    → (BudgetCheckResult → Outcome A)
    → Outcome A
    → juris_ai.Lifecycle.Operations.Outcome
    → Outcome A
settled answer silent (returned r) = answer r
settled answer silent nothing = silent
settled answer silent raised = raises (exception "ValueError" "")

unfoldable pub checked : Call → M BudgetCheckResult
unfolding run_call
checked c s =
    let (outcome, after_call) = run_call c s.lifecycle in
    (
      settled done (raises (exception "AttributeError" "")) outcome,
      record s { lifecycle = after_call },
    )

unfoldable pub performed : Call → M (Unit {0})
unfolding run_call
performed c s =
    let (outcome, after_call) = run_call c s.lifecycle in
    (settled (λ _. done tt) (done tt) outcome, record s { lifecycle = after_call })

module _ (w : World) where
  unfoldable pub now : M ℕ
  now = ask read_clock w.clock

  -- A check that reads the clock first
  unfoldable pub timed_check : (ℕ → Call) → M BudgetCheckResult
  unfolding now checked
  timed_check c = now >>= λ t. checked (c t)
