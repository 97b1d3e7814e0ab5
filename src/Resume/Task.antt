-- ===== src/Resume/Task.antt =====
-- The row of one agent action with what was sent for it, the outcomes that the steps of one attempt
-- meet, and the claim: AgentActionRepository.claim of server/src/adapters/persistence/sqlalchemy/
-- repositories/agent_action.py.
use juris_ai.Base.{
  ℕ, ◌+◌, ◌≡◌, refl, String, Bool, true, false, ◌&&◌, ◌||◌, Option, none, some, List, ltb,
  if◌then◌else◌,
}
use juris_ai.Base.Dict.{Dict, get}
use juris_ai.Approvals.Verifier.{
  AgentActionStatus, pending, executing, failed, AgentAction, tool_result_key, or_empty,
}

-- How a step ends: it returns, raises an exception of the class named, or the process stops in it.
pub data Exit (A : Type 0) : Type 0 where
  returned : A → Exit A
  raised : String → Exit A
  stopped : Exit A

-- try: … except Exception as e: …, where a process that stops reaches neither.
abbrev pub on_exit : {A B : Type 0} → Exit A → (A → B) → (String → B) → B → B
on_exit (returned a) go caught halt = go a
on_exit (raised e) go caught halt = caught e
on_exit stopped go caught halt = halt

-- if x is None: … else: …
abbrev pub on_some : {A B : Type 0} → Option A → B → (A → B) → B
on_some none absent go = absent
on_some (some a) absent go = go a

-- Every way a step ends leads to a property.
pub on_exit-rule :
    {A B : Type 0} (P : B → Type 0) (x : Exit A) (go : A → B) (caught : String → B) (halt : B)
    → ((a : A) → x ≡ returned a → P (go a))
    → ((e : String) → x ≡ raised e → P (caught e))
    → (x ≡ stopped → P halt)
    → P (on_exit x go caught halt)
on_exit-rule P (returned a) go caught halt f g h = f a refl
on_exit-rule P (raised e) go caught halt f g h = g e refl
on_exit-rule P stopped go caught halt f g h = h refl

pub on_some-rule :
    {A B : Type 0} (P : B → Type 0) (x : Option A) (absent : B) (go : A → B)
    → (x ≡ none → P absent)
    → ((a : A) → x ≡ some a → P (go a))
    → P (on_some x absent go)
on_some-rule P none absent go f g = f refl
on_some-rule P (some a) absent go f g = g a refl

pub if-rule :
    {B : Type 0} (P : B → Type 0) (b : Bool) (x y : B)
    → (b ≡ true → P x)
    → (b ≡ false → P y)
    → P (if b then x else y)
if-rule P true x y f g = f refl
if-rule P false x y f g = g refl

-- The steps of one attempt that the code does not decide by itself. `claims`, `stores`, `finishes`
-- and `records` are the commits of the claim, of the tool's result, of the finished turn and of a
-- failure; a commit that raises or is stopped writes nothing. `loads` is all between the claim and
-- the call: the row, the plan and the event. `restores` reads a stored result. `sends` tells whether
-- the message left, however `runs` ends. `turns` is the resumed graph, whose answer is returned.
-- The readings of the clock within one attempt are taken as one.
pub record Attempt (Json : Type 0) : Type 0 where
  pub now : ℕ
  pub claims : Exit (Unit {0})
  pub loads : Exit (Unit {0})
  pub restores : Exit (Unit {0})
  pub authorizes : Exit Bool
  pub sends : Bool
  pub runs : Exit Json
  pub stores : Exit (Unit {0})
  pub turns : Exit Json
  pub finishes : Exit (Unit {0})
  pub records : Exit (Unit {0})

-- What is fixed for the attempts on one approval: the test `is None` on a JSON value, the stored
-- result of a call that the user may no longer make, a string as JSON, the seconds of
-- HITL_RESUME_STALE_SECONDS, the id of the approval and the edit of the reviewer.
pub record Setting (Json : Type 0) : Type 0 where
  pub is_null : Json → Bool
  pub refusal : Json
  pub text : String → Json
  pub stale : ℕ
  pub approval_id : String
  pub edited : Option (Dict Json)

-- The row, and the parameters of every message sent for it, the last one first.
pub record Task (Json : Type 0) : Type 0 where
  pub row : Option (AgentAction Json)
  pub sent : List (Dict Json)

-- _CLAIMABLE_ACTION_STATUSES
abbrev pub is_claimable : AgentActionStatus → Bool
is_claimable pending = true
is_claimable failed = true
is_claimable _ = false

abbrev pub is_executing : AgentActionStatus → Bool
is_executing executing = true
is_executing _ = false

module _ {Json : Type 0} where
  -- updated_at < now - HITL_RESUME_STALE_SECONDS
  unfoldable pub is_stale : (stale now : ℕ) → AgentAction Json → Bool
  is_stale stale now r = ltb (r.updated_at + stale) now

  -- The condition of the UPDATE; the flag stands for a `stale_before` that is not None.
  unfoldable pub may_claim : (stale now : ℕ) → Bool → AgentAction Json → Bool
  unfolding is_stale
  may_claim stale now take_over r =
      is_claimable r.status || (take_over && (is_executing r.status && is_stale stale now r))

  abbrev pub claimed : ℕ → AgentAction Json → AgentAction Json
  claimed now r = record r { status = executing; updated_at = now }

  -- (action.result or {}).get(TOOL_RESULT_KEY), where the null of JSON counts as nothing.
  unfoldable pub stored_result : (Json → Bool) → AgentAction Json → Option Json
  unfolding or_empty
  stored_result is_null r = elim (get tool_result_key (or_empty r.result)) [
    | none ↦ none
    | some v ↦ if is_null v then none else some v
  ]
