-- ===== src/Runtime/Tools.antt =====
-- ToolExecutionService of server/src/agentic/tools/runtime/invocation.py, as a client of the tool
-- registry: resolution, validation of the parameters, and the run.
use juris_ai.Base.{String, true, false, Option, none, some, [], ◌∷◌, if◌then◌else◌, ◌==◌}
use juris_ai.Base.Json.{Json, str}
use juris_ai.Base.Text.{concat}
use juris_ai.Base.Result.{Result, ok, err}
use juris_ai.Runtime.Content.{ToolResult}
use juris_ai.Runtime.Session.{
  Exn, exception, reasoning_failure, validated_parameters, ran_tool, Tool, World, M, return, ◌>>=◌,
  throw, ask,
}

-- _SOURCE_BY_TOOL.get(tool_name)
abbrev source_by_tool : String → Option String
source_by_tool tool_name = if tool_name == "retriever" then some "document" else none

unfoldable pub failed_call : (tool_name error error_type : String) → ToolResult
failed_call tool_name error error_type = record {
  tool_name = tool_name;
  success = false;
  content = "";
  evidence = [];
  execution_metadata = ("error_type", str error_type) ∷ [];
  error = some error;
}

unfoldable pub ran_call : (tool_name content : String) → ToolResult
ran_call tool_name content = record {
  tool_name = tool_name;
  success = true;
  content = content;
  evidence =
      (record { content = content; score = none; source = source_by_tool tool_name; metadata = [] })
      ∷ [];
  execution_metadata = [];
  error = none;
}

abbrev class_name : Exn → String
class_name (exception class message) = class
class_name (reasoning_failure class message) = "_AgentReasoningFailure"

module _ (w : World) (tool_name : String) where
  abbrev pub found_tool : Option Tool → M Tool
  found_tool none = throw (exception "ToolNotFoundError" tool_name)
  found_tool (some tool) = return tool

  -- ToolRegistry.resolve
  unfoldable pub resolve : M Tool
  resolve = found_tool (w.resolve_tool tool_name)

  unfoldable pub valid_call : Result String Json → Result ToolResult Json
  unfolding failed_call
  valid_call (ok arguments) = ok arguments
  valid_call (err problem) = err (failed_call tool_name problem "InvalidParameters")

  unfoldable pub validate_call : Tool → Json → M (Result ToolResult Json)
  unfolding failed_call valid_call
  validate_call tool parameters =
      if tool.callable
      then (ask (validated_parameters tool_name parameters) (w.validated tool_name parameters)
          >>= λ answer. return (valid_call answer))
      else return (
          err (
            failed_call tool_name
              (concat ("Tool '" ∷ tool_name ∷ "' can't be called by an agent." ∷ []))
              "ToolNotCallable"))

  abbrev pub ended_call : Result Exn String → ToolResult
  unfolding failed_call ran_call
  ended_call (ok content) = ran_call tool_name content
  ended_call (err e) =
      failed_call tool_name (concat ("Tool '" ∷ tool_name ∷ "' failed while running." ∷ []))
        (class_name e)

  unfoldable pub run_valid : Option String → Result ToolResult Json → M ToolResult
  unfolding ended_call
  run_valid token (err refused) = return refused
  run_valid token (ok arguments) =
      ask (ran_tool tool_name arguments) (w.run_tool tool_name arguments token) >>= λ ended.
      return (ended_call ended)

  unfoldable pub execute_tool_call : Json → Option String → M ToolResult
  unfolding resolve validate_call run_valid
  execute_tool_call parameters token = do
    tool ← resolve
    valid ← validate_call tool parameters
    run_valid token valid

  abbrev pub refusal : Result ToolResult Json → Option ToolResult
  refusal (ok arguments) = none
  refusal (err refused) = some refused

  unfoldable pub check_parameters : Json → M (Option ToolResult)
  unfolding resolve validate_call
  check_parameters parameters = do
    tool ← resolve
    valid ← validate_call tool parameters
    return (refusal valid)
