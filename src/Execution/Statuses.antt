-- ===== src/Execution/Statuses.antt =====
-- The history of a graph run, read by the wrapper of a step: server/src/agentic/execution/graph/
-- builder.py.
use juris_ai.Base.{
  &&→×, String, true, ◌≡◌, refl, sym, ap, ◌∙◌, ◌↔◌, Option, none, some, List, [], ◌∷◌, ◌++◌, All,
  inl, inr, ◌⊎◌, ◌==◌, if◌then◌else◌, Bool-cases, Option-cases, String-cases, ≡→==, subst,
}
use mathlib.Core.List.{reverse, reverse-cons}
use juris_ai.Base.Dict.{Dict, get, put, get-put}
use juris_ai.Planning.Plan.{ExecutionStep}
use juris_ai.Execution.Graph.{
  ExecutionStatus, completed, skipped, ExecutionStepUpdate, is_completed, first_statuses,
  latest_step_statuses, all_completed, dependencies_completed, execute_step,
}

-- The first status of a step in a history.
first_status : String → List ExecutionStepUpdate → Option ExecutionStatus
first_status id [] = none
first_status id (u ∷ us) = if u.step_id == id then some u.status else first_status id us

or_update : Option ExecutionStatus → String → ExecutionStepUpdate → Option ExecutionStatus
or_update (some s) id u = some s
or_update none id u = if u.step_id == id then some u.status else none

-- The last status of a step in a history.
unfoldable pub last_status : String → List ExecutionStepUpdate → Option ExecutionStatus
unfolding or_update
last_status id [] = none
last_status id (u ∷ us) = or_update (last_status id us) id u

first_status-snoc :
    (id : String) (us : List ExecutionStepUpdate) (u : ExecutionStepUpdate)
    → first_status id (us ++ u ∷ []) ≡ or_update (first_status id us) id u
unfolding first_status or_update
first_status-snoc id [] u = refl
first_status-snoc id (v ∷ us) u = elim (Bool-cases (v.step_id == id)) [
  | inl e ↦ rw e refl
  | inr e ↦ rw e (first_status-snoc id us u)
]

last_status-reverse :
    (id : String) (us : List ExecutionStepUpdate) → first_status id (reverse us) ≡ last_status id us
unfolding last_status first_status
last_status-reverse id [] = refl
last_status-reverse id (u ∷ us) =
    ap (first_status id) (reverse-cons u us)
    ∙ first_status-snoc id (reverse us) u
    ∙ ap (λ o. or_update o id u) (last_status-reverse id us)

is_completed→≡ : (o : Option ExecutionStatus) → is_completed o ≡ true → o ≡ some completed
is_completed→≡ (some completed) h = refl
is_completed→≡ (some _) h = cc
is_completed→≡ none h = cc

-- What the dict holds for a step, else the status.
either_status : Option ExecutionStatus → Option ExecutionStatus → Option ExecutionStatus
either_status (some s) o = some s
either_status none o = o

get-first_statuses :
    (id : String) (d : Dict ExecutionStatus) (us : List ExecutionStepUpdate)
    → get id (first_statuses d us) ≡ either_status (get id d) (first_status id us)
unfolding first_statuses first_status either_status
get-first_statuses id d [] = elim (Option-cases (get id d)) [
  | inl e ↦ rw e refl
  | inr (s, e) ↦ rw e refl
]
get-first_statuses id d (u ∷ us) =
    let d' = put u.step_id u.status d in
    let ih = get-first_statuses id d' us in
    let here = get-put u.step_id id u.status d in
    elim (String-cases u.step_id id) [
      | inl p ↦ elim (Option-cases (get u.step_id d)) [
        | inl e ↦
            let e' : get id d ≡ none = subst (λ k. get k d ≡ none) p e in
            let found : get id d' ≡ some u.status = cc (here, ≡→== u.step_id id p) in
            rw (e, e', ≡→== u.step_id id p, first_statuses)
              (ih ∙ ap (λ o. either_status o (first_status id us)) found)
        | inr (s, e) ↦
            let e' : get id d ≡ some s = subst (λ k. get k d ≡ some s) p e in
            rw (e, e', first_statuses)
              (get-first_statuses id d us ∙ ap (λ o. either_status o (first_status id us)) e')
      ]
      | inr (_, q) ↦ elim (Option-cases (get u.step_id d)) [
        | inl e ↦
            let kept : get id d' ≡ get id d = cc (here, q) in
            rw (e, q, first_statuses) (ih ∙ ap (λ o. either_status o (first_status id us)) kept)
        | inr (s, e) ↦ rw (e, q, first_statuses) (get-first_statuses id d us)
      ]
    ]

-- The dict that is built from the reversed history holds for every step the status of its last
-- update, and nothing for a step without one.
pub get-latest_step_statuses :
    (id : String) (updates : List ExecutionStepUpdate)
    → get id (latest_step_statuses updates) ≡ last_status id updates
unfolding latest_step_statuses either_status
get-latest_step_statuses id updates =
    get-first_statuses id [] (reverse updates) ∙ last_status-reverse id updates

all_completed_iff :
    (updates : List ExecutionStepUpdate) (ds : List String)
    → (all_completed (latest_step_statuses updates) ds ≡ true)
      ↔ All (λ d. last_status d updates ≡ some completed) ds
unfolding all_completed
all_completed_iff updates [] = (λ _. tt, λ _. refl)
all_completed_iff updates (d ∷ ds) =
    let rest = all_completed_iff updates ds in
    let here = get-latest_step_statuses d updates in
    (
      λ h. let (a, b) = &&→× _ _ h in (is_completed→≡ _ (ap is_completed (sym here) ∙ a), rest.0 b),
      λ h. rw (here ∙ h.0) (rest.1 h.1),
    )

-- All dependencies of a step have COMPLETED as their last status.
abbrev pub IsEligible : {Json : Type 0} → List ExecutionStepUpdate → ExecutionStep Json → Type 0
IsEligible updates s = All (λ d. last_status d updates ≡ some completed) s.depends_on

dependencies_completed_iff :
    {Json : Type 0} (updates : List ExecutionStepUpdate) (s : ExecutionStep Json)
    → (dependencies_completed updates s ≡ true) ↔ IsEligible updates s
unfolding dependencies_completed
dependencies_completed_iff updates s = go s.depends_on
  where
    go :
        (ds : List String)
        → ((elim ds [
          | [] ↦ true
          | d ∷ ds' ↦ all_completed (latest_step_statuses updates) (d ∷ ds')
        ])
            ≡ true)
          ↔ All (λ d. last_status d updates ≡ some completed) ds
    go [] = (λ _. tt, λ _. refl)
    go (d ∷ ds) = all_completed_iff updates (d ∷ ds)

-- A step is run with the history as it is if all its dependencies have COMPLETED as their last
-- status in the history; otherwise it is not run, and the one update of it has the status SKIPPED,
-- no retry, no times, no error and no reason.
pub execute_step_lem :
    {Json : Type 0}
    (step_node : List ExecutionStepUpdate → ExecutionStep Json → List ExecutionStepUpdate)
    (updates : List ExecutionStepUpdate) (s : ExecutionStep Json)
    → (IsEligible updates s × (execute_step step_node updates s ≡ step_node updates s))
      ⊎ ((¬ IsEligible updates s)
          × (execute_step step_node updates s
              ≡ record {
                step_id = s.id;
                status = skipped;
                retry_count = 0;
                started_at = none;
                completed_at = none;
                error = none;
                termination_reason = none;
              }
                ∷ []))
unfolding execute_step
execute_step_lem step_node updates s = elim (Bool-cases (dependencies_completed updates s)) [
  | inl e ↦ inl ((dependencies_completed_iff updates s).0 e, rw e refl)
  | inr e ↦ inr (λ h. cc ((dependencies_completed_iff updates s).1 h, e), rw e refl)
]
