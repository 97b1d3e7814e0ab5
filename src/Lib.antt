-- ===== src/Lib.antt =====
-- Models of the parts of juris-ai (a legal assistant whose agents plan, call tools and send only
-- what a person approved) that decide what may run, and the theorems on them.
--
-- How the parts interact. A message is checked for the capabilities that it asks for
-- (authorize_request), a plan is made and validated (ExecutionPlanValidator), and every agent of
-- the plan runs under a budget (AgentLifecycle). A concrete action passes the role based gate
-- (RBACExecuteGate); a send waits for a person's decision (ApprovalLifecycleService), and the tool
-- that carries it out asks for the approval once more (ApprovalRecordVerifier). A turn of an agent
-- (AgentExecutionHandle and AgentContinuationService) asks the model for decisions, validates them,
-- runs the tools and delegations that they ask for, and accepts a final answer only through the gate
-- of the answer evaluator; each of its steps asks the lifecycle first. HitlResumeService
-- claims the approved action, runs the send and resumes the paused turn. The steps of a plan run as
-- a graph (ExecutionGraphBuilder). The tokens of the calls of a request go to its meters and its
-- tally, which a quota per request caps, and from there to the day of the user (UsageService).
--
-- Files and the code that they model:
-- - Planning/Plan.antt: server/src/core/dto/planning.py, the plan and its steps; Plan/Graph.antt:
--   reachability, the independent view of dependencies.
-- - Planning/Cycles.antt: _validate_dependency_graph and _visit_dependency of
--   server/src/agentic/planning/validator.py; Planning/Ancestors.antt: _transitive_dependencies;
--   Planning/Validator.antt: validate and the checks that it runs in turn.
-- - Lifecycle/Budget.antt, State.antt, Operations.antt: server/src/agentic/agents/runtime/lifecycle,
--   the limits and guard, the state, and each operation as a function on states that returns its check.
-- - Authorization/Roles.antt, Policy.antt, Gate.antt: server/src/application/authorization/rbac, and
--   the two methods of server/src/application/authorization/service.py.
-- - Approvals/Records.antt: the rows of approvals with the statements that
--   server/src/adapters/persistence/sqlalchemy/repositories/approval.py runs; Approvals/Service.antt:
--   server/src/application/services/approval_lifecycle.py, method by method;
--   Approvals/Outcomes.antt: what a decision promises; Approvals/Races.antt: a step relation whose
--   steps are committed transactions, with rows read at any time before; Approvals/Verifier.antt:
--   server/src/application/authorization/approval_lifecycle/verifier.py, with Edits.antt and
--   Tokens.antt for what it accepts.
-- - Planning/Serial.antt: serialize_plan and deserialize_plan of server/src/core/dto/planning.py.
-- - Resume/Task.antt: the claim of server/src/adapters/persistence/sqlalchemy/repositories/
--   agent_action.py; Resume/Run.antt: server/src/application/services/hitl_resume.py, method by method;
--   Resume/Once.antt: sequences of attempts; Resume/Completes.antt, Ends.antt: single ones.
-- - Execution/Graph.antt: server/src/agentic/execution/graph/builder.py; Execution/Order.antt: the runs
--   of the graph.
-- - Usage/Meter.antt, Scopes.antt: server/src/core/usage.py with LLMClient.generate of
--   server/src/adapters/clients/llm/base.py; Usage/Buckets.antt: server/src/adapters/persistence/
--   sqlalchemy/repositories/usage_record.py; Usage/Service.antt: server/src/application/services/
--   usage.py; Usage/Limits.antt, Rates.antt, Days.antt, Reports.antt: sequences of its calls;
--   Usage/Refused.antt: the rest of a request.
-- - Retrieval/Fusion.antt, Search.antt: server/src/rag/hybrid_retriever.py, with floats as a parameter.
-- - Clients/Failover.antt: server/src/adapters/clients/llm/failover.py.
-- - Runtime/Decisions.antt, Guards.antt, Retry.antt, Content.antt, Quality.antt: the decisions and
--   their validator (server/src/agentic/decisions), server/src/agentic/policy/guard.py and
--   tool_permission.py, server/src/agentic/execution/config.py and retry.py, the converter of tool
--   results and feedback.py, and the quality policy of server/src/agentic/evaluation/answer.py.
--   Runtime/Session.antt: the state of one execution. Runtime/Tools.antt: server/src/agentic/tools/
--   runtime/invocation.py. Runtime/Handle.antt, Reason.antt: AgentExecutionHandle of
--   server/src/agentic/agents/runtime/execution.py; Runtime/Records.antt, Evidence.antt, Gate.antt,
--   Delegations.antt, Continuation.antt: AgentContinuationService of continuation.py beside it, and
--   the turn that server/src/agentic/execution/graph/nodes.py runs. Runtime/Triple.antt: a logic of
--   pre- and postconditions for such methods; Runtime/Ledger.antt: what the journal of a session says
--   of the budget and the policy.
-- - Base.antt and its children: Python's tests, lists, dicts, texts and exceptions.
-- - Examples.antt and its children: concrete inputs.
--
-- Conventions. A method that raises returns a Result, or an error beside the store that was
-- committed. The clock, new ids and the success of a commit are arguments. How an outside step of a
-- resume ends (it returns, it raises, or the process stops in it) is a field of the attempt. The
-- context variables of the token usage are a state that is passed on. JSON values are a type
-- parameter where no code looks into them. A method of the agent runtime is a function on sessions
-- that returns, raises, pauses for a person or runs out of fuel; each outside call is written to the
-- journal of the session, and its answer (of the model, a tool, another agent, the evaluator or the
-- clock) is a function of the journal. Scores of answers are natural numbers, and the times stamped
-- on results are left out. A dict is an association list in the order of insertion.
-- Names of log messages and the texts of exceptions are left out, but for texts that code reads.
--
-- Fuel. The search for cycles and the loop over transitive dependencies run on fuel, given from the
-- plan. It is enough, since each level of the search puts a further step on the current path, and
-- the loop pushes each entry of the dependencies at most once. The limit that Python sets on nested
-- calls, which a very long chain of dependencies could meet, is not modelled. In the agent runtime
-- the corrections of one reasoning call have max_rejected_decisions + 1 as fuel, its retries
-- max_attempts + 1, and the rounds of the continuation max_total_steps + 1, since a correction
-- counts a rejected decision, a retry an attempt and a round a step.
--
-- Not modelled: the endpoints, the database beyond the rows above, calls of language models, tools
-- and other services, the stores of the retrieval, its evaluation, the scoring of answers, memory,
-- and the orchestration. LangGraph is not modelled either: that a node runs once all sources of one
-- of its edges have run is what the runs of the graph take from it, and the replay of a paused node
-- from its start is left out.
pub mod Base
pub mod Planning
pub mod Lifecycle
pub mod Authorization
pub mod Approvals
pub mod Resume
pub mod Execution
pub mod Usage
pub mod Retrieval
pub mod Clients
pub mod Runtime
pub mod Examples
