-- ===== src/Planning/Validator/Total.antt =====
-- How `validate` of server/src/agentic/planning/validator.py ends.
use juris_ai.Base.{
  ℕ, String, Bool, true, false, not, ◌≡◌, ◌≢◌, refl, sym, ap, ◌⊎◌, inl, inr, some, List, [], ◌∷◌,
  ◌++◌, In, All, All-at, Bool-cases, length, ltb, subst, to_set, arith,
}
use juris_ai.Base.Dict.{Dict, get}
use juris_ai.Base.Result.{Result, ok, err, ◌>>◌, raise_if}
use juris_ai.Planning.Plan.{AgentType, ExecutionStep, ExecutionPlan, step_ids, dependencies}
use juris_ai.Planning.Cycles.{validate_dependency_graph as graph_search}
use juris_ai.Planning.Cycles.Complete.{IsClosed}
use juris_ai.Planning.Cycles.Decides.{validate_dependency_graph_decides}
use juris_ai.Planning.Validator.{
  PlanError, key_error, out_of_fuel, no_steps, duplicate_step_ids, duplicate_dependencies,
  not_same_length, Check, for_each, Groups, same_agent, validate_step_ids, validate_mode,
  validate_step, validate_dependency, validate_step_dependencies, search_result,
  validate_dependencies, add_to_group, steps_by_agent, check_pair, check_pairs, check_groups,
  validate_agent_concurrency, no_steps?, validate_plan, validate, plan_too_large,
}
use juris_ai.Planning.Validator.Checks.{
  for_each-eq-ok, validate_mode-eq-ok, validate_step_dependencies_iff,
}
use juris_ai.Planning.Validator.Pairs.{In-snoc}
use juris_ai.Planning.Validator.Ancestry.{ancestors_from-IsMade}
use juris_ai.Planning.Validator.Accepts.{dependencies-IsClosed}

-- Not an error of validation: a failed lookup, or the end of the fuel.
is_internal : PlanError → Bool
is_internal key_error = true
is_internal out_of_fuel = true
is_internal _ = false

-- The result is not such an error.
clean : {A : Type 0} → Result PlanError A → Bool
unfolding is_internal
clean (ok a) = true
clean (err e) = not (is_internal e)

clean->> :
    {A : Type 0} (m : Check) (k : Result PlanError A)
    → clean m ≡ true
    → (m ≡ ok tt → clean k ≡ true)
    → clean (m >> k) ≡ true
unfolding clean
clean->> (ok tt) k c h = h refl
clean->> (err e) k c h = c

clean-raise_if : (b : Bool) (e : PlanError) → is_internal e ≡ false → clean (raise_if b e) ≡ true
unfolding clean
clean-raise_if true e h = rw h refl
clean-raise_if false e h = refl

clean-for_each :
    {A : Type 0} (check : A → Check) (xs : List A)
    → ((x : A) → In x xs → clean (check x) ≡ true)
    → clean (for_each check xs) ≡ true
unfolding clean
clean-for_each check [] h = refl
clean-for_each check (x ∷ xs) h =
    clean->> (check x) (for_each check xs) (h x (inl refl))
      (λ _. clean-for_each check xs (λ y m. h y (inr m)))

clean-search_result :
    (d : Dict (List String)) → IsClosed d → clean (search_result (graph_search d)) ≡ true
unfolding clean search_result
clean-search_result d closed = elim (validate_dependency_graph_decides d closed) [
  | inl (c, e, _) ↦ rw e refl
  | inr (e, _) ↦ rw e refl
]

clean-cases :
    {A : Type 0} (r : Result PlanError A)
    → clean r ≡ true
    → ((a : A) × (r ≡ ok a)) ⊎ ((e : PlanError) × (r ≡ err e) × (e ≢ key_error) × (e ≢ out_of_fuel))
unfolding clean is_internal
clean-cases (ok a) c = inl (a, refl)
clean-cases (err e) c =
    inr (e, refl, (λ p. cc (ap is_internal p, c)), (λ p. cc (ap is_internal p, c)))

module _ {Json : Type 0} where
  clean-validate_step : (step : ExecutionStep Json) → clean (validate_step step) ≡ true
  unfolding clean validate_step is_internal
  clean-validate_step step = ground arith

  clean-validate_dependency :
      (step : ExecutionStep Json) (ids : List String) (x : String)
      → clean (validate_dependency step ids x) ≡ true
  unfolding clean validate_dependency is_internal
  clean-validate_dependency step ids x = ground arith

  clean-validate_step_dependencies :
      (ids : List String) (step : ExecutionStep Json)
      → clean (validate_step_dependencies ids step) ≡ true
  unfolding validate_step_dependencies is_internal
  clean-validate_step_dependencies ids step =
      let double = not_same_length step.depends_on (to_set step.depends_on) in
      clean->> (raise_if double (duplicate_dependencies step.id)) _
        (clean-raise_if double (duplicate_dependencies step.id) refl)
        (λ _.
          clean-for_each (validate_dependency step ids) step.depends_on
            (λ x m. clean-validate_dependency step ids x))

  clean-validate_dependencies :
      (steps : List (ExecutionStep Json)) → clean (validate_dependencies steps) ≡ true
  unfolding validate_dependencies
  clean-validate_dependencies steps =
      let check : ExecutionStep Json → Check = validate_step_dependencies (step_ids steps) in
      clean->> (for_each check steps) _
        (clean-for_each check steps (λ s m. clean-validate_step_dependencies (step_ids steps) s))
        (λ e.
          let each = (for_each-eq-ok check steps).0 e in
          clean-search_result (dependencies steps) (
            dependencies-IsClosed steps (λ s m.
              (validate_step_dependencies_iff (step_ids steps) s).0
                (All-at (λ z. check z ≡ ok tt) s steps each m))))

  -- Every step of a group is a step of the plan.
  AllIn : List (ExecutionStep Json) → Groups Json → Type 0
  AllIn plan gs = All (λ g. (x : ExecutionStep Json) → In x g.1 → In x plan) gs

  add_to_group-AllIn :
      (plan : List (ExecutionStep Json)) (s : ExecutionStep Json) (gs : Groups Json)
      → In s plan
      → AllIn plan gs
      → AllIn plan (add_to_group s gs)
  unfolding add_to_group AllIn
  add_to_group-AllIn plan s [] m h =
      (λ x n. elim n [ inl p ↦ subst (λ z. In z plan) (sym p) m | inr k ↦ elim k [ ] ], tt)
  add_to_group-AllIn plan s ((a, members) ∷ gs) m h = elim (Bool-cases (same_agent a s.agent)) [
    | inl e ↦ rw (e, add_to_group) (grown, h.1)
    | inr e ↦ rw (e, add_to_group) (h.0, add_to_group-AllIn plan s gs m h.1)
  ]
    where
      grown : (x : ExecutionStep Json) → In x (members ++ s ∷ []) → In x plan
      grown x n = elim (In-snoc x s members n) [
        | inl k ↦ h.0 x k
        | inr p ↦ subst (λ z. In z plan) (sym p) m
      ]

  steps_by_agent-AllIn :
      (plan steps : List (ExecutionStep Json)) (gs : Groups Json)
      → ((x : ExecutionStep Json) → In x steps → In x plan)
      → AllIn plan gs
      → AllIn plan (steps_by_agent gs steps)
  unfolding steps_by_agent
  steps_by_agent-AllIn plan [] gs sub h = h
  steps_by_agent-AllIn plan (s ∷ ss) gs sub h =
      steps_by_agent-AllIn plan ss (add_to_group s gs) (λ x m. sub x (inr m))
        (add_to_group-AllIn plan s gs (sub s (inl refl)) h)

  module _ (anc : Dict (List String)) (plan : List (ExecutionStep Json))
      (all : (s : ExecutionStep Json)
        → In s plan
        → (r : List String) × (get s.id anc ≡ some r)) where
    clean-check_pair :
        (a : AgentType) (s t : ExecutionStep Json)
        → In s plan
        → In t plan
        → clean (check_pair anc a s t) ≡ true
    unfolding clean check_pair is_internal
    clean-check_pair a s t m n = let (u, p) = all s m in let (r, q) = all t n in ground arith

    clean-check_pairs :
        (a : AgentType) (ss : List (ExecutionStep Json))
        → ((x : ExecutionStep Json) → In x ss → In x plan)
        → clean (check_pairs anc a ss) ≡ true
    unfolding clean check_pairs
    clean-check_pairs a [] sub = refl
    clean-check_pairs a (s ∷ ss) sub =
        clean->> (for_each (check_pair anc a s) ss) (check_pairs anc a ss)
          (clean-for_each (check_pair anc a s) ss
            (λ t m. clean-check_pair a s t (sub s (inl refl)) (sub t (inr m))))
          (λ _. clean-check_pairs a ss (λ t m. sub t (inr m)))

  clean-validate_agent_concurrency :
      (steps : List (ExecutionStep Json)) → clean (validate_agent_concurrency steps) ≡ true
  unfolding validate_agent_concurrency check_groups AllIn
  clean-validate_agent_concurrency steps =
      let made = ancestors_from-IsMade (dependencies steps) [] steps (λ a r e. cc) in
      let groups = steps_by_agent-AllIn steps steps [] (λ x m. m) tt in
      rw (made.made, check_groups)
        (clean-for_each
          (λ (g : AgentType × List (ExecutionStep Json)). check_pairs made.anc g.0 g.1)
          (steps_by_agent [] steps)
          (λ g m. clean-check_pairs made.anc steps made.all g.0 g.1 (
            All-at (λ g. (x : ExecutionStep Json) → In x g.1 → In x steps) g
              (steps_by_agent [] steps) groups m)))

  clean-validate_plan : (plan : ExecutionPlan Json) → clean (validate_plan plan) ≡ true
  unfolding validate_plan validate_step_ids is_internal clean
  clean-validate_plan plan =
      let same_ids = not_same_length (step_ids plan.steps) (to_set (step_ids plan.steps)) in
      clean->> (raise_if (no_steps? plan.steps) no_steps) _
        (clean-raise_if (no_steps? plan.steps) no_steps refl)
        (λ _.
          clean->> (validate_step_ids plan.steps) _
            (clean-raise_if same_ids duplicate_step_ids refl)
            (λ _.
              clean->> (validate_mode plan.mode) _ (rw (validate_mode-eq-ok plan.mode, clean) refl)
                (λ _.
                  clean->> (for_each validate_step plan.steps) _
                    (clean-for_each validate_step plan.steps (λ s m. clean-validate_step s))
                    (λ _.
                      clean->> (validate_dependencies plan.steps) _
                        (clean-validate_dependencies plan.steps)
                        (λ _. clean-validate_agent_concurrency plan.steps)))))

  clean-validate :
      (max_steps : ℕ) (plan : ExecutionPlan Json) → clean (validate max_steps plan) ≡ true
  unfolding validate is_internal clean
  clean-validate max_steps plan = clean->> (validate_plan plan) _ (clean-validate_plan plan) (λ _.
      clean->>
        (raise_if (ltb max_steps (length plan.steps))
          (plan_too_large (length plan.steps) max_steps))
        (ok plan)
        (clean-raise_if (ltb max_steps (length plan.steps))
          (plan_too_large (length plan.steps) max_steps) refl)
        (λ _. refl))

  -- Whatever the plan, validate returns a plan or raises one of its own errors: no lookup in a dict
  -- fails, and the search for cycles and the loop over the ancestors end.
  pub validate_total :
      (max_steps : ℕ) (plan : ExecutionPlan Json)
      → ((result : ExecutionPlan Json) × (validate max_steps plan ≡ ok result))
        ⊎ ((e : PlanError) × (validate max_steps plan ≡ err e)
            × (e ≢ key_error)
            × (e ≢ out_of_fuel))
  validate_total max_steps plan =
      clean-cases (validate max_steps plan) (clean-validate max_steps plan)
