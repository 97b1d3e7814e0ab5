-- ===== src/Runtime/Payments.antt =====
-- The calls of the lifecycle that server/src/agentic/agents/runtime/continuation.py makes before a
-- run of a tool or a delegation.
use juris_ai.Base.{ℕ, ◌+◌, ◌≤◌, String, true, arith}
use juris_ai.Base.Json.{Json}
use juris_ai.Lifecycle.Operations.{tool_call, agent_hop}
use juris_ai.Lifecycle.Traces.{
  Work, iterations, tool_calls, agent_hops, steps, decisions, rejections,
}
use juris_ai.Runtime.Session.{ran_tool, delegated}
use juris_ai.Runtime.Ledger.{cost, Credit, gain}

pub pays_tool :
    (g : Credit) (t : ℕ) (name : String) (parameters : Json) (w : Work)
    → g w + cost (ran_tool name parameters) w ≤ gain (tool_call t) true g w
unfolding cost
pays_tool g t name parameters iterations = omega arith
pays_tool g t name parameters tool_calls = omega arith
pays_tool g t name parameters agent_hops = omega arith
pays_tool g t name parameters steps = omega arith
pays_tool g t name parameters decisions = omega arith
pays_tool g t name parameters rejections = omega arith

pub pays_delegation :
    (g : Credit) (t : ℕ) (target : String) (parameters : Json) (w : Work)
    → g w + cost (delegated target parameters) w ≤ gain (agent_hop t) true g w
unfolding cost
pays_delegation g t target parameters iterations = omega arith
pays_delegation g t target parameters tool_calls = omega arith
pays_delegation g t target parameters agent_hops = omega arith
pays_delegation g t target parameters steps = omega arith
pays_delegation g t target parameters decisions = omega arith
pays_delegation g t target parameters rejections = omega arith
