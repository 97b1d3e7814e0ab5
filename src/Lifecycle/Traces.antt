-- ===== src/Lifecycle/Traces.antt =====
-- Sequences of calls: how often the operations of one execution are granted.
use juris_ai.Base.{
  ℕ, zero, suc, ◌+◌, ◌≤◌, String, Bool, true, false, ◌≡◌, refl, sym, ap, subst, ◌⊎◌, inl, inr, List,
  [], ◌∷◌, arith, replicate, ◌&&◌, if◌then◌else◌, ==_refl, ==→≡, Bool-cases, Option, none, some,
}
use juris_ai.Base.Int.{pos, negsuc}
use juris_ai.Lifecycle.Budget.{AgentExecutionBudget, is_allowed}
use juris_ai.Lifecycle.State.{AgentState, new_state}
use juris_ai.Lifecycle.Operations.{
  Call, iteration, tool_call, agent_hop, step, decision, rejected_decision, evidence, context,
  tool_result, action, partial_text, run_call, Outcome, returned, nothing, raised, is_last,
}
use juris_ai.Lifecycle.Invariant.{IsWithin, new_state-IsWithin, run_call-IsWithin}

abbrev pub granted : Outcome → Bool
granted (returned r) = is_allowed r
granted nothing = false
granted raised = false

-- The budgeted kinds of work.
pub data Work : Type 0 where
  iterations tool_calls agent_hops steps decisions rejections : Work

abbrev pub asks_for : Work → Call → Bool
asks_for iterations (iteration now) = true
asks_for tool_calls (tool_call now) = true
asks_for agent_hops (agent_hop now) = true
asks_for steps (step now) = true
asks_for decisions (decision now) = true
asks_for rejections (rejected_decision now) = true
asks_for _ _ = false

abbrev pub limit : Work → AgentExecutionBudget → ℕ
limit iterations b = b.max_iterations
limit tool_calls b = b.max_tool_calls
limit agent_hops b = b.max_agent_hops
limit steps b = b.max_total_steps
limit decisions b = b.max_decisions
limit rejections b = b.max_rejected_decisions

abbrev pub counter : Work → AgentState → ℕ
counter iterations s = s.iteration_count
counter tool_calls s = s.tool_call_count
counter agent_hops s = s.agent_hop_count
counter steps s = s.total_step_count
counter decisions s = s.decision_count
counter rejections s = s.rejected_decision_count

-- How often the calls of one kind were granted, in a run of the calls.
unfoldable pub count_granted : Work → List Call → AgentState → ℕ
count_granted w [] s = 0
count_granted w (c ∷ cs) s =
    let (outcome, after) = run_call c s in
    (if asks_for w c && granted outcome then 1 else 0) + count_granted w cs after

-- A call moves the counter of its kind by one if it is granted, and no other counter.
abbrev pub grants : Work → Call → AgentState → ℕ
grants w c s = if asks_for w c && granted (run_call c s).0 then 1 else 0

record IsCounted (c : Call) (s : AgentState) : Type 0 where
  iterations_moved : (run_call c s).1.iteration_count ≡ s.iteration_count + grants iterations c s
  tool_calls_moved : (run_call c s).1.tool_call_count ≡ s.tool_call_count + grants tool_calls c s
  agent_hops_moved : (run_call c s).1.agent_hop_count ≡ s.agent_hop_count + grants agent_hops c s
  steps_moved : (run_call c s).1.total_step_count ≡ s.total_step_count + grants steps c s
  decisions_moved : (run_call c s).1.decision_count ≡ s.decision_count + grants decisions c s
  rejections_moved :
      (run_call c s).1.rejected_decision_count ≡ s.rejected_decision_count + grants rejections c s
  same_budget : (run_call c s).1.budget ≡ s.budget

run_call-IsCounted : (c : Call) (s : AgentState) → IsCounted c s
unfolding run_call
run_call-IsCounted (iteration now) s = ground arith
run_call-IsCounted (evidence (pos zero)) s = ground arith
run_call-IsCounted (evidence (pos (suc n))) s = ground arith
run_call-IsCounted (evidence (negsuc n)) s = ground arith
run_call-IsCounted (context (pos zero)) s = ground arith
run_call-IsCounted (context (pos (suc n))) s = ground arith
run_call-IsCounted (context (negsuc n)) s = ground arith
run_call-IsCounted (tool_result (pos zero)) s = ground arith
run_call-IsCounted (tool_result (pos (suc n))) s = ground arith
run_call-IsCounted (tool_result (negsuc n)) s = ground arith
run_call-IsCounted (partial_text none) s = ground arith
run_call-IsCounted (partial_text (some x)) s = ground arith
run_call-IsCounted _ s = ground arith

pub counter-run_call :
    (w : Work) (c : Call) (s : AgentState) → counter w (run_call c s).1 ≡ counter w s + grants w c s
counter-run_call iterations c s = (run_call-IsCounted c s).iterations_moved
counter-run_call tool_calls c s = (run_call-IsCounted c s).tool_calls_moved
counter-run_call agent_hops c s = (run_call-IsCounted c s).agent_hops_moved
counter-run_call steps c s = (run_call-IsCounted c s).steps_moved
counter-run_call decisions c s = (run_call-IsCounted c s).decisions_moved
counter-run_call rejections c s = (run_call-IsCounted c s).rejections_moved

pub counter-le-limit : (w : Work) (s : AgentState) → IsWithin s → counter w s ≤ limit w s.budget
counter-le-limit iterations s h = h.iterations
counter-le-limit tool_calls s h = h.tool_calls
counter-le-limit agent_hops s h = h.agent_hops
counter-le-limit steps s h = h.steps
counter-le-limit decisions s h = h.decisions
counter-le-limit rejections s h = h.rejections

-- No call changes the budget.
pub budget-run_call : (c : Call) (s : AgentState) → (run_call c s).1.budget ≡ s.budget
budget-run_call c s = (run_call-IsCounted c s).same_budget

count_granted-le :
    (w : Work) (cs : List Call) (s : AgentState)
    → IsWithin s
    → counter w s + count_granted w cs s ≤ limit w s.budget
unfolding count_granted
count_granted-le w [] s h = omega (arith, counter-le-limit w s h)
count_granted-le w (c ∷ cs) s h =
    let rest = count_granted-le w cs (run_call c s).1 (run_call-IsWithin c s h) in
    let same = (run_call-IsCounted c s).same_budget in
    let rest' =
      subst (λ b. counter w (run_call c s).1 + count_granted w cs (run_call c s).1 ≤ limit w b) same
        rest in
    omega (arith, rest', counter-run_call w c s)

-- In a new execution, whatever calls the runtime makes and in whatever order, the iterations, tool
-- calls, agent hops, steps, decisions and rejected decisions that are granted are each no more than
-- their limit.
pub granted-le-limit :
    (w : Work) (cs : List Call) (b : AgentExecutionBudget) (started_at : ℕ)
    → count_granted w cs (new_state b started_at) ≤ limit w b
granted-le-limit w cs b started_at =
    let bound = count_granted-le w cs (new_state b started_at) (new_state-IsWithin b started_at) in
    unfold new_state in omega (arith, bound)

-- The calls are granted, all of them.
unfoldable pub all_granted : List Call → AgentState → Bool
all_granted [] s = true
all_granted (c ∷ cs) s =
    let (outcome, after) = run_call c s in granted outcome && all_granted cs after

module _ (key : String) where
  is_last→≡ : (o : Option String) → is_last key o ≡ true → o ≡ some key
  is_last→≡ none e = cc
  is_last→≡ (some k) e = ap some (sym (==→≡ key k e))

  repeats-granted :
      (n : ℕ) (s : AgentState)
      → s.last_action_key ≡ some key
      → all_granted (replicate n (action key)) s ≡ true
      → (n ≡ 0) ⊎ (s.repeated_action_count + n ≤ s.budget.max_repeated_action)
  unfolding all_granted run_call
  repeats-granted zero s k e = inl refl
  repeats-granted (suc n) s k e = ground (
    arith,
    ==_refl key,
    repeats-granted n (record s { repeated_action_count = s.repeated_action_count + 1 }),
  )

  -- If recording one action n times in a row is granted every time, then n is at most
  -- max_repeated_action + 1: the first and its repetitions.
  pub repeated_action-le :
      (n : ℕ) (s : AgentState)
      → all_granted (replicate n (action key)) s ≡ true
      → n ≤ s.budget.max_repeated_action + 1
  unfolding all_granted run_call
  repeated_action-le zero s e = omega arith
  repeated_action-le (suc n) s e = elim (Bool-cases (is_last key s.last_action_key)) [
    | inl again ↦
        let bound = repeats-granted (suc n) s (is_last→≡ s.last_action_key again) e in
        ground (arith, bound)
    | inr fresh ↦ ground (
      arith,
      repeats-granted n (record s { last_action_key = some key; repeated_action_count = 0 }) refl,
    )
  ]
