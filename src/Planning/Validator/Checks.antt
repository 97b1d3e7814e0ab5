-- ===== src/Planning/Validator/Checks.antt =====
-- What each check of the validator accepts, in terms that are independent of how it is computed.
use juris_ai.Base.{
  String, Bool, true, false, ◌≡◌, ◌≢◌, refl, ◌↔◌, List, [], ◌∷◌, arith, In, All, All-at, All-of,
  Distinct, elem, elem→In, In→elem, to_set, length-to_set_le, length-to_set→Distinct,
  Distinct→length-to_set, ≡→==, ≢→==, ◌==◌,
}
use juris_ai.Base.Int.{ltz, pos}
use juris_ai.Base.Result.{ok, raise_if, >>-eq-ok, raise_if-eq-ok}
use juris_ai.Base.Text.{is_blank}
use juris_ai.Planning.Plan.{
  AgentType, legal, contract, agent_value, ExecutionMode, sequential, ExecutionStep, step_ids,
}
use juris_ai.Planning.Validator.{
  Check, PlanError, for_each, not_same_length, validate_mode, validate_step_ids, validate_step,
  validate_dependency, validate_step_dependencies,
}

pub for_each-eq-ok {ℓ} :
    {A : Type ℓ} (check : A → Check) (xs : List A)
    → (for_each check xs ≡ ok tt) ↔ All (λ x. check x ≡ ok tt) xs
for_each-eq-ok check [] = (λ _. tt, λ _. refl)
for_each-eq-ok check (x ∷ xs) = (
  λ e. let (a, b) = >>-eq-ok (check x) (for_each check xs) e in (a, (for_each-eq-ok check xs).0 b),
  λ h. rw (h.0) ((for_each-eq-ok check xs).1 h.1),
)

pub raise_if_iff : (b : Bool) (e : PlanError) → (raise_if b e ≡ ok tt) ↔ (b ≡ false)
raise_if_iff b e = (raise_if-eq-ok b e, λ p. rw p)

not_same_length_iff : (xs : List String) → (not_same_length xs (to_set xs) ≡ false) ↔ Distinct xs
unfolding not_same_length
not_same_length_iff xs = (
  λ h. length-to_set→Distinct xs (ground (arith, length-to_set_le xs)),
  λ d. ground (arith, Distinct→length-to_set xs d),
)

pub validate_mode-eq-ok : (m : ExecutionMode) → validate_mode m ≡ ok tt
unfolding validate_mode
validate_mode-eq-ok sequential = refl
validate_mode-eq-ok _ = refl

agent_named : (a : AgentType) → (agent_value a == "") ≡ false
unfolding agent_value
agent_named legal = refl
agent_named contract = refl

module _ {Json : Type 0} where
  pub validate_step_ids_iff :
      (steps : List (ExecutionStep Json))
      → (validate_step_ids steps ≡ ok tt) ↔ Distinct (step_ids steps)
  unfolding validate_step_ids
  validate_step_ids_iff steps = (
    λ e. (not_same_length_iff (step_ids steps)).0 ((raise_if_iff _ _).0 e),
    λ d. (raise_if_iff _ _).1 ((not_same_length_iff (step_ids steps)).1 d),
  )

  -- A step with an identifier, an instruction and a stage of at least one.
  pub record IsFilled (step : ExecutionStep Json) : Type 0 where
    pub id_filled : is_blank step.id ≡ false
    pub instruction_filled : is_blank step.instruction ≡ false
    pub stage_positive : ltz step.stage (pos 1) ≡ false

  pub validate_step_iff : (step : ExecutionStep Json) → (validate_step step ≡ ok tt) ↔ IsFilled step
  unfolding validate_step
  validate_step_iff step = (
    λ e. ground (arith, agent_named step.agent),
    λ h. rw (h.id_filled, agent_named step.agent, h.instruction_filled, h.stage_positive),
  )

  -- The dependencies of a step: each once, none blank, none the step itself, all of them steps.
  pub record IsSound (ids : List String) (step : ExecutionStep Json) : Type 0 where
    pub distinct : Distinct step.depends_on
    pub filled : (x : String) → In x step.depends_on → is_blank x ≡ false
    pub other : (x : String) → In x step.depends_on → x ≢ step.id
    pub known : (x : String) → In x step.depends_on → In x ids

  validate_dependency_iff :
      (step : ExecutionStep Json) (ids : List String) (x : String)
      → (validate_dependency step ids x ≡ ok tt)
        ↔ ((is_blank x ≡ false) × ((x == step.id) ≡ false) × (elem x ids ≡ true))
  unfolding validate_dependency
  validate_dependency_iff step ids x = (λ e. ground arith, λ h. rw (h.0, h.1, h.2))

  pub validate_step_dependencies_iff :
      (ids : List String) (step : ExecutionStep Json)
      → (validate_step_dependencies ids step ≡ ok tt) ↔ IsSound ids step
  unfolding validate_step_dependencies
  validate_step_dependencies_iff ids step = (sound, complete)
    where
      sound : validate_step_dependencies ids step ≡ ok tt → IsSound ids step
      sound e =
          let (a, b) =
            >>-eq-ok (raise_if (not_same_length step.depends_on (to_set step.depends_on)) _) _ e in
          let each = (for_each-eq-ok (validate_dependency step ids) step.depends_on).0 b in
          let at = λ (x : String) (m : In x step.depends_on).
            (validate_dependency_iff step ids x).0
              (All-at (λ y. validate_dependency step ids y ≡ ok tt) x step.depends_on each m) in
          record {
            distinct = (not_same_length_iff step.depends_on).0 ((raise_if_iff _ _).0 a);
            filled = λ x m. (at x m).0;
            other = λ x m p. cc (≡→== x step.id p, (at x m).1);
            known = λ x m. elem→In x ids (at x m).2;
          }

      complete : IsSound ids step → validate_step_dependencies ids step ≡ ok tt
      complete h = rw ((not_same_length_iff step.depends_on).1 h.distinct) (
          (for_each-eq-ok (validate_dependency step ids) step.depends_on).1 (
            All-of (λ y. validate_dependency step ids y ≡ ok tt) step.depends_on
              (λ x m.
                (validate_dependency_iff step ids x).1
                  (h.filled x m, ≢→== x step.id (h.other x m), In→elem x ids (h.known x m)))))
