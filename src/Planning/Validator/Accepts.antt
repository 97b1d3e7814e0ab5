-- ===== src/Planning/Validator/Accepts.antt =====
-- The plans that `validate` accepts, and the planning contract.
use juris_ai.Base.{
  ℕ, ◌≤◌, ◌<◌, String, false, ◌≡◌, refl, sym, subst, ◌↔◌, ◌⊎◌, inl, inr, some, List, [], ◌∷◌, arith,
  In, All-at, All-of, Distinct, length, ltb, Bool-cases, ◌==◌,
}
use juris_ai.Base.Dict.{Dict, get, put, get-put, In-keys-get, put_keeps}
use juris_ai.Base.Result.{ok, raise_if, >>-eq-ok}
use juris_ai.Planning.Plan.{ExecutionStep, ExecutionPlan, step_ids, dependencies_from, dependencies}
use juris_ai.Planning.Plan.Graph.{Acyclic}
use juris_ai.Planning.Cycles.{validate_dependency_graph as graph_search}
use juris_ai.Planning.Cycles.Complete.{IsClosed}
use juris_ai.Planning.Cycles.Decides.{validate_dependency_graph_decides}
use juris_ai.Planning.Validator.{
  Check, for_each, validate_step_ids, validate_mode, validate_step, validate_step_dependencies,
  search_result, validate_dependencies, no_steps?, validate_plan, validate, no_steps,
}
use juris_ai.Planning.Validator.Checks.{
  for_each-eq-ok, raise_if_iff, validate_mode-eq-ok, validate_step_ids_iff, IsFilled,
  validate_step_iff, IsSound, validate_step_dependencies_iff,
}
use juris_ai.Planning.Validator.Concurrency.{IsConcurrencySafe, validate_agent_concurrency_iff}

module _ {Json : Type 0} where
  -- An entry of the dict of dependencies is a step's.
  dependencies_from-step :
      (d : Dict (List String)) (ss : List (ExecutionStep Json)) (a : String) (needs : List String)
      → get a (dependencies_from d ss) ≡ some needs
      → ((s : ExecutionStep Json) × In s ss × (s.depends_on ≡ needs)) ⊎ (get a d ≡ some needs)
  dependencies_from-step d [] a needs e = inr e
  dependencies_from-step d (s ∷ ss) a needs e =
      elim (dependencies_from-step (put s.id s.depends_on d) ss a needs e) [
        | inl (t, m, q) ↦ inl (t, inr m, q)
        | inr q ↦ elim (Bool-cases (s.id == a)) [
          | inl same ↦ inl (s, inl refl, cc (get-put s.id a s.depends_on d, same))
          | inr differ ↦ inr (cc (get-put s.id a s.depends_on d, differ))
        ]
      ]

  dependencies_from-keeps :
      (d : Dict (List String)) (ss : List (ExecutionStep Json)) (a : String)
      → In a (step_ids ss) ⊎ ((needs : List String) × (get a d ≡ some needs))
      → (needs : List String) × (get a (dependencies_from d ss) ≡ some needs)
  dependencies_from-keeps d [] a (inl m) = elim m [ ]
  dependencies_from-keeps d [] a (inr h) = h
  dependencies_from-keeps d (s ∷ ss) a (inl (inl p)) =
      dependencies_from-keeps (put s.id s.depends_on d) ss a
        (inr (put_keeps s.id a s.depends_on d (inl (sym p))))
  dependencies_from-keeps d (s ∷ ss) a (inl (inr m)) =
      dependencies_from-keeps (put s.id s.depends_on d) ss a (inl m)
  dependencies_from-keeps d (s ∷ ss) a (inr h) =
      dependencies_from-keeps (put s.id s.depends_on d) ss a
        (inr (put_keeps s.id a s.depends_on d (inr h)))

  pub dependencies-IsClosed :
      (steps : List (ExecutionStep Json))
      → ((s : ExecutionStep Json) → In s steps → IsSound (step_ids steps) s)
      → IsClosed (dependencies steps)
  dependencies-IsClosed steps sound a b n =
      elim (dependencies_from-step [] steps a n.needs n.found) [
        | inl (s, m, q) ↦
            let known = (sound s m).known b (subst (λ l. In b l) (sym q) n.listed) in
            let (needs, e) = dependencies_from-keeps [] steps b (inl known) in
            In-keys-get b (dependencies steps) e
        | inr q ↦ cc
      ]

-- The search lets the plan pass exactly when there is no cycle.
search-Acyclic :
    (d : Dict (List String)) → IsClosed d → (search_result (graph_search d) ≡ ok tt) ↔ Acyclic d
unfolding search_result
search-Acyclic d closed = elim (validate_dependency_graph_decides d closed) [
  | inl (c, e, acyclic) ↦ (λ _. acyclic, λ _. rw e)
  | inr (e, x) ↦ (λ h. cc (rw e at h), λ acyclic. absurd (acyclic x.0 x.1))
]

module _ {Json : Type 0} where
  -- The planning contract, with the limit on the number of steps.
  pub record IsValid (max_steps : ℕ) (plan : ExecutionPlan Json) : Type 0 where
    pub nonempty : 0 < length plan.steps
    pub small : length plan.steps ≤ max_steps
    pub distinct : Distinct (step_ids plan.steps)
    pub filled : (s : ExecutionStep Json) → In s plan.steps → IsFilled s
    pub sound : (s : ExecutionStep Json) → In s plan.steps → IsSound (step_ids plan.steps) s
    pub acyclic : Acyclic (dependencies plan.steps)
    pub safe : IsConcurrencySafe plan.steps

  no_steps?_iff :
      (steps : List (ExecutionStep Json)) → (no_steps? steps ≡ false) ↔ (0 < length steps)
  unfolding no_steps?
  no_steps?_iff [] = (λ e. cc, λ h. absurd (omega arith))
  no_steps?_iff (s ∷ ss) = (λ e. omega arith, λ h. refl)

  validate_dependencies_iff :
      (steps : List (ExecutionStep Json))
      → (validate_dependencies steps ≡ ok tt) ↔ (
          ((s : ExecutionStep Json) → In s steps → IsSound (step_ids steps) s)
          × Acyclic (dependencies steps))
  unfolding validate_dependencies
  validate_dependencies_iff steps = (sound, complete)
    where
      check : ExecutionStep Json → Check
      check = validate_step_dependencies (step_ids steps)

      sound :
          validate_dependencies steps ≡ ok tt
          → ((s : ExecutionStep Json) → In s steps → IsSound (step_ids steps) s)
            × Acyclic (dependencies steps)
      sound e =
          let (a, b) = >>-eq-ok (for_each check steps) _ e in
          let each = (for_each-eq-ok check steps).0 a in
          let each' = λ (s : ExecutionStep Json) (m : In s steps).
            (validate_step_dependencies_iff (step_ids steps) s).0
              (All-at (λ z. check z ≡ ok tt) s steps each m) in
          (each', (search-Acyclic (dependencies steps) (dependencies-IsClosed steps each')).0 b)

      complete :
          ((s : ExecutionStep Json) → In s steps → IsSound (step_ids steps) s)
            × Acyclic (dependencies steps)
          → validate_dependencies steps ≡ ok tt
      complete (each, acyclic) =
          rw
            ((for_each-eq-ok check steps).1 (
              All-of (λ z. check z ≡ ok tt) steps
                (λ s m. (validate_step_dependencies_iff (step_ids steps) s).1 (each s m))))
            ((search-Acyclic (dependencies steps) (dependencies-IsClosed steps each)).1 acyclic)

  -- `validate` returns a plan, and then the plan as it was given, exactly when the plan meets the
  -- planning contract: it has steps and no more than the limit, distinct identifiers, filled steps,
  -- sound dependencies, no cycle, and no two independent steps of one agent.
  pub validate_iff :
      (max_steps : ℕ) (plan result : ExecutionPlan Json)
      → (validate max_steps plan ≡ ok result) ↔ (IsValid max_steps plan × (result ≡ plan))
  unfolding validate validate_plan
  validate_iff max_steps plan result = (sound, complete)
    where
      steps : List (ExecutionStep Json)
      steps = plan.steps

      sound : validate max_steps plan ≡ ok result → IsValid max_steps plan × (result ≡ plan)
      sound e =
          let (all, e1) = >>-eq-ok (validate_plan plan) _ e in
          let (size, e2) = >>-eq-ok (raise_if (ltb max_steps (length steps)) _) _ e1 in
          let (some_step, c1) = >>-eq-ok (raise_if (no_steps? steps) no_steps) _ all in
          let (ids, c2) = >>-eq-ok (validate_step_ids steps) _ c1 in
          let (mode, c3) = >>-eq-ok (validate_mode plan.mode) _ c2 in
          let (each, c4) = >>-eq-ok (for_each validate_step steps) _ c3 in
          let (deps, conc) = >>-eq-ok (validate_dependencies steps) _ c4 in
          let distinct = (validate_step_ids_iff steps).0 ids in
          let graph = (validate_dependencies_iff steps).0 deps in
          let filled = (for_each-eq-ok validate_step steps).0 each in
          (
            record {
              nonempty = (no_steps?_iff steps).0 ((raise_if_iff _ _).0 some_step);
              small = let fits = (raise_if_iff _ _).0 size in ground (arith, fits);
              distinct = distinct;
              filled = λ s m.
                  (validate_step_iff s).0 (All-at (λ z. validate_step z ≡ ok tt) s steps filled m);
              sound = graph.0;
              acyclic = graph.1;
              safe = (validate_agent_concurrency_iff steps distinct).0 conc;
            },
            cc,
          )

      complete : IsValid max_steps plan × (result ≡ plan) → validate max_steps plan ≡ ok result
      complete (v, same) =
          rw
            (
              (no_steps?_iff steps).1 v.nonempty,
              (validate_step_ids_iff steps).1 v.distinct,
              validate_mode-eq-ok plan.mode,
              (for_each-eq-ok validate_step steps).1 (
                  All-of (λ z. validate_step z ≡ ok tt) steps
                    (λ s m. (validate_step_iff s).1 (v.filled s m))),
              (validate_dependencies_iff steps).1 (v.sound, v.acyclic),
              (validate_agent_concurrency_iff steps v.distinct).1 v.safe,
            )
            (ground (arith, v.small))
