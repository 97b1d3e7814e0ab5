-- ===== src/Execution/Progress.antt =====
-- A plan that server/src/agentic/planning/validator.py accepts, run by the graph of server/src/
-- agentic/execution/graph/builder.py.
use mathlib.Core.WellFounded.{Acc}
use juris_ai.Base.{
  ℕ, String, ◌≡◌, refl, sym, ◌∙◌, subst, ◌⊎◌, inl, inr, some, List, [], ◌∷◌, In, All, Distinct,
  elem, elem→In, elem-false, Bool-cases, ≢→==, In-append_left, ==_refl,
}
use juris_ai.Base.Dict.{Dict, get, put, get-put, In-keys-get}
use juris_ai.Planning.Plan.{ExecutionStep, ExecutionPlan, step_ids, dependencies_from, dependencies}
use juris_ai.Planning.Plan.Graph.{Needs, Before, Acyclic}
use juris_ai.Planning.Cycles.Sound.{validate_dependency_graph-Acc}
use juris_ai.Planning.Cycles.Decides.{validate_dependency_graph_decides}
use juris_ai.Planning.Validator.Checks.{IsSound}
use juris_ai.Planning.Validator.Accepts.{IsValid, dependencies-IsClosed}
use juris_ai.Execution.Graph.{edges_in, edges_out, dependent_step_ids, add_edges}
use juris_ai.Execution.Order.{Run, runs, edge_to, step-edges_in, →sources_of}

-- All have run, or one has not.
find_missing :
    (xs ran : List String) → All (λ x. In x ran) xs ⊎ ((x : String) × In x xs × (¬ In x ran))
find_missing [] ran = inl tt
find_missing (x ∷ xs) ran = elim (Bool-cases (elem x ran)) [
  | inl e ↦ elim (find_missing xs ran) [
    | inl h ↦ inl (elem→In x ran e, h)
    | inr (y, m, n) ↦ inr (y, inr m, n)
  ]
  | inr e ↦ inr (x, inl refl, elem-false x ran e)
]

module _ {Json : Type 0} where
  get-dependencies_absent :
      (d : Dict (List String)) (ss : List (ExecutionStep Json)) (a : String)
      → ¬ In a (step_ids ss)
      → get a (dependencies_from d ss) ≡ get a d
  get-dependencies_absent d [] a h = refl
  get-dependencies_absent d (s ∷ ss) a h =
      let differ = ≢→== s.id a (λ p. h (inl (sym p))) in
      let here = get-put s.id a s.depends_on d in
      let rest = get-dependencies_absent (put s.id s.depends_on d) ss a (λ m. h (inr m)) in
      cc (differ, here, rest)

  get-dependencies_from :
      (d : Dict (List String)) (ss : List (ExecutionStep Json)) (s : ExecutionStep Json)
      → Distinct (step_ids ss)
      → In s ss
      → get s.id (dependencies_from d ss) ≡ some s.depends_on
  get-dependencies_from d [] s h m = elim m [ ]
  get-dependencies_from d (u ∷ ss) s h (inr m) =
      get-dependencies_from (put u.id u.depends_on d) ss s h.1 m
  get-dependencies_from d (u ∷ ss) s h (inl p) =
      subst
        (λ (z : ExecutionStep Json). get z.id (dependencies_from d (u ∷ ss)) ≡ some z.depends_on)
        (sym p)
        (get-dependencies_absent (put u.id u.depends_on d) ss u.id h.0
          ∙ cc (get-put u.id u.id u.depends_on d, ==_refl u.id))

  step_of_id :
      (ss : List (ExecutionStep Json)) (x : String)
      → In x (step_ids ss)
      → (s : ExecutionStep Json) × In s ss × (s.id ≡ x)
  step_of_id [] x m = elim m [ ]
  step_of_id (s ∷ ss) x (inl p) = (s, inl refl, sym p)
  step_of_id (s ∷ ss) x (inr m) = let (t, n, q) = step_of_id ss x m in (t, inr n, q)

  module _ (steps : List (ExecutionStep Json)) (distinct : Distinct (step_ids steps))
      (sound : (s : ExecutionStep Json) → In s steps → IsSound (step_ids steps) s) where
    -- A step that can run next.
    abbrev Runnable : List String → Type 0
    Runnable ran =
        (t : ExecutionStep Json) × In t steps × (¬ In t.id ran) × All (λ x. In x ran) t.depends_on

    runnable :
        (ran : List String) (a : String)
        → Acc (Before (dependencies steps)) a
        → (s : ExecutionStep Json) → In s steps
        → s.id ≡ a
        → (¬ In a ran)
        → Runnable ran
    runnable ran a (Acc.intro _ smaller) s m p absent = elim (find_missing s.depends_on ran) [
      | inl all ↦ (s, m, subst (λ z. ¬ In z ran) (sym p) absent, all)
      | inr (x, k, n) ↦
          let (t, l, q) = step_of_id steps x ((sound s m).known x k) in
          let needs : Needs (dependencies steps) a x = record {
            needs = s.depends_on;
            found =
                subst (λ z. get z (dependencies steps) ≡ some s.depends_on) p
                  (get-dependencies_from [] steps s distinct m);
            listed = k;
          } in
          runnable ran x (smaller x needs) t l q n
    ]

    unwinds :
        Acyclic (dependencies steps)
        → (s : ExecutionStep Json) → In s steps
        → Acc (Before (dependencies steps)) s.id
    unwinds acyclic s m =
        let found = get-dependencies_from [] steps s distinct m in
        let key = In-keys-get s.id (dependencies steps) found in
        elim (validate_dependency_graph_decides (dependencies steps)
          (dependencies-IsClosed steps sound)) [
            | inl (c, e, _) ↦ validate_dependency_graph-Acc (dependencies steps) c e s.id key
            | inr (e, x) ↦ absurd (acyclic x.0 x.1)
          ]

    Run-step :
        (ran : List String) (t : ExecutionStep Json)
        → In t steps
        → All (λ x. In x ran) t.depends_on
        → Run (add_edges steps) ran
        → Run (add_edges steps) (t.id ∷ ran)
    unfolding add_edges
    Run-step ran t m all r =
        runs ran (edge_to t) t.id r
          (In-append_left (edge_to t) (edges_in steps) (edges_out (dependent_step_ids steps) steps)
            (step-edges_in steps t m))
          refl (→sources_of ran t.depends_on all)

  -- The graph of a plan that meets the planning contract does not get stuck: as long as a step has
  -- not run, some step that has not run can run next.
  pub Run-progress :
      (max_steps : ℕ) (plan : ExecutionPlan Json) (ran : List String) (s : ExecutionStep Json)
      → IsValid max_steps plan
      → Run (add_edges plan.steps) ran
      → In s plan.steps
      → (¬ In s.id ran)
      → (t : ExecutionStep Json) × In t plan.steps
        × (¬ In t.id ran)
        × Run (add_edges plan.steps) (t.id ∷ ran)
  Run-progress max_steps plan ran s v r m absent =
      let acc = unwinds plan.steps v.distinct v.sound v.acyclic s m in
      let (t, n, new, all) = runnable plan.steps v.distinct v.sound ran s.id acc s m refl absent in
      (t, n, new, Run-step plan.steps v.distinct v.sound ran t n all r)
