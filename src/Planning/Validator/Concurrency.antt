-- ===== src/Planning/Validator/Concurrency.antt =====
-- What the check of agent concurrency accepts: of two steps of one agent, one needs the other.
use juris_ai.Base.{
  String, ◌≡◌, ◌≢◌, refl, sym, ◌∙◌, subst, ap, ◌↔◌, inl, inr, List, [], ◌∷◌, ◌++◌, In, All,
  Distinct, Bool-cases,
}
use juris_ai.Base.Dict.{Dict}
use juris_ai.Base.Result.{ok, >>-eq-ok}
use juris_ai.Planning.Plan.{AgentType, ExecutionStep, step_ids, dependencies}
use juris_ai.Planning.Validator.{
  for_each, Groups, same_agent, add_to_group, steps_by_agent, check_pair, check_pairs, check_groups,
  validate_agent_concurrency,
}
use juris_ai.Planning.Validator.Ancestry.{Comparable, IsExact, IsMade, ancestors_from-IsMade}
use juris_ai.Planning.Validator.Groups.{
  same_agent→≡, In-of_agent, of_agent, members, members-steps_by_agent,
}
use juris_ai.Planning.Validator.Pairs.{
  In-snoc, for_each-snoc, Comparable→check_pair, check_pairs→Comparable,
}

module _ {Json : Type 0} where
  module _ (d anc : Dict (List String)) (exact : IsExact d anc) where
    -- What a group keeps while the steps `rest` are still to come.
    record IsFine (plan rest : List (ExecutionStep Json)) (b : AgentType)
        (ss : List (ExecutionStep Json)) : Type 0 where
      passed : check_pairs anc b ss ≡ ok tt
      planned : (x : ExecutionStep Json) → In x ss → In x plan
      owned : (x : ExecutionStep Json) → In x ss → x.agent ≡ b
      behind : (x : ExecutionStep Json) → In x ss → ¬ In x.id (step_ids rest)

    abbrev AllFine : (plan rest : List (ExecutionStep Json)) → Groups Json → Type 0
    AllFine plan rest gs = All (λ g. IsFine plan rest g.0 g.1) gs

    -- Any two steps of one agent may stand in one group.
    abbrev Compatible : List (ExecutionStep Json) → Type 0
    Compatible plan =
        (b : AgentType) (x s : ExecutionStep Json)
        → In x plan
        → In s plan
        → x.agent ≡ s.agent
        → x.id ≢ s.id
        → check_pair anc b x s ≡ ok tt

    check_pairs-snoc :
        (b : AgentType) (ss : List (ExecutionStep Json)) (s : ExecutionStep Json)
        → check_pairs anc b ss ≡ ok tt
        → ((x : ExecutionStep Json) → In x ss → check_pair anc b x s ≡ ok tt)
        → check_pairs anc b (ss ++ s ∷ []) ≡ ok tt
    unfolding check_pairs
    check_pairs-snoc b [] s e h = refl
    check_pairs-snoc b (x ∷ ss) s e h =
        let (here, later) = >>-eq-ok (for_each (check_pair anc b x) ss) (check_pairs anc b ss) e in
        rw (for_each-snoc (check_pair anc b x) ss s here (h x (inl refl)))
          (check_pairs-snoc b ss s later (λ y m. h y (inr m)))

    add_to_group-AllFine :
        (plan rest : List (ExecutionStep Json)) (s : ExecutionStep Json) (gs : Groups Json)
        → Compatible plan
        → In s plan
        → ¬ In s.id (step_ids rest)
        → AllFine plan (s ∷ rest) gs
        → AllFine plan rest (add_to_group s gs)
    unfolding add_to_group
    add_to_group-AllFine plan rest s [] good here fresh h = (
      record {
        passed = unfold check_pairs in refl;
        planned =
            λ x m. elim m [ inl p ↦ subst (λ z. In z plan) (sym p) here | inr n ↦ elim n [ ] ];
        owned = λ x m. elim m [
          | inl p ↦ ap (λ (z : ExecutionStep Json). z.agent) p
          | inr n ↦ elim n [ ]
        ];
        behind = λ x m. elim m [
          | inl p ↦ subst (λ (z : ExecutionStep Json). ¬ In z.id (step_ids rest)) (sym p) fresh
          | inr n ↦ elim n [ ]
        ];
      },
      tt,
    )
    add_to_group-AllFine plan rest s ((b, ss) ∷ gs) good here fresh h =
        elim (Bool-cases (same_agent b s.agent)) [
          | inl e ↦ rw (e, add_to_group) (grown (same_agent→≡ b s.agent e), weaken gs h.1)
          | inr e ↦
              rw (e, add_to_group)
                (later h.0, add_to_group-AllFine plan rest s gs good here fresh h.1)
        ]
      where
        later :
            {c : AgentType} {xs : List (ExecutionStep Json)}
            → IsFine plan (s ∷ rest) c xs
            → IsFine plan rest c xs
        later f = record {
          passed = f.passed;
          planned = f.planned;
          owned = f.owned;
          behind = λ x m k. f.behind x m (inr k);
        }

        weaken : (hs : Groups Json) → AllFine plan (s ∷ rest) hs → AllFine plan rest hs
        weaken [] f = tt
        weaken ((c, xs) ∷ hs) f = (later f.0, weaken hs f.1)

        grown : b ≡ s.agent → IsFine plan rest b (ss ++ s ∷ [])
        grown p = record {
          passed = check_pairs-snoc b ss s (h.0).passed (λ x m.
              good b x s ((h.0).planned x m) here ((h.0).owned x m ∙ p)
                (λ q. (h.0).behind x m (inl q)));
          planned = λ x m. elim (In-snoc x s ss m) [
            | inl n ↦ (h.0).planned x n
            | inr q ↦ subst (λ z. In z plan) (sym q) here
          ];
          owned = λ x m. elim (In-snoc x s ss m) [
            | inl n ↦ (h.0).owned x n
            | inr q ↦ ap (λ (z : ExecutionStep Json). z.agent) q ∙ sym p
          ];
          behind = λ x m. elim (In-snoc x s ss m) [
            | inl n ↦ (λ k. (h.0).behind x n (inr k))
            | inr q ↦ subst (λ (z : ExecutionStep Json). ¬ In z.id (step_ids rest)) (sym q) fresh
          ];
        }

    steps_by_agent-AllFine :
        (plan steps : List (ExecutionStep Json)) (gs : Groups Json)
        → Compatible plan
        → Distinct (step_ids steps)
        → ((x : ExecutionStep Json) → In x steps → In x plan)
        → AllFine plan steps gs
        → AllFine plan [] (steps_by_agent gs steps)
    unfolding steps_by_agent
    steps_by_agent-AllFine plan [] gs good d sub h = h
    steps_by_agent-AllFine plan (s ∷ ss) gs good d sub h =
        steps_by_agent-AllFine plan ss (add_to_group s gs) good d.1 (λ x m. sub x (inr m))
          (add_to_group-AllFine plan ss s gs good (sub s (inl refl)) d.0 h)

    groups-passed :
        (plan : List (ExecutionStep Json)) (gs : Groups Json)
        → AllFine plan [] gs
        → for_each (λ (g : AgentType × List (ExecutionStep Json)). check_pairs anc g.0 g.1) gs
          ≡ ok tt
    groups-passed plan [] h = refl
    groups-passed plan ((b, ss) ∷ gs) h = rw ((h.0).passed) (groups-passed plan gs h.1)

    members-passed :
        (a : AgentType) (gs : Groups Json)
        → for_each (λ (g : AgentType × List (ExecutionStep Json)). check_pairs anc g.0 g.1) gs
          ≡ ok tt
        → (b : AgentType) × (check_pairs anc b (members a gs) ≡ ok tt)
    members-passed a [] e = (a, unfold check_pairs in refl)
    members-passed a ((b, ss) ∷ gs) e =
        let (here, later) = >>-eq-ok (check_pairs anc b ss) _ e in
        elim (Bool-cases (same_agent b a)) [
          | inl p ↦ (b, rw p here)
          | inr p ↦ let (c, q) = members-passed a gs later in (c, rw p q)
        ]

  -- Of two steps of one agent, one depends on the other.
  abbrev pub IsConcurrencySafe : List (ExecutionStep Json) → Type 0
  IsConcurrencySafe steps =
      (s t : ExecutionStep Json)
      → In s steps
      → In t steps
      → s.agent ≡ t.agent
      → s.id ≢ t.id
      → Comparable (dependencies steps) s.id t.id

  -- If the identifiers are distinct, the check of agent concurrency passes exactly when of any two
  -- steps of one agent with different identifiers one depends on the other.
  pub validate_agent_concurrency_iff :
      (steps : List (ExecutionStep Json))
      → Distinct (step_ids steps)
      → (validate_agent_concurrency steps ≡ ok tt) ↔ IsConcurrencySafe steps
  unfolding validate_agent_concurrency check_groups
  validate_agent_concurrency_iff steps distinct = (sound, complete)
    where
      d : Dict (List String)
      d = dependencies steps

      made : IsMade d [] steps
      made = ancestors_from-IsMade d [] steps (λ a r e. cc)

      start :
          validate_agent_concurrency steps
          ≡ for_each
              (λ (g : AgentType × List (ExecutionStep Json)). check_pairs made.anc g.0 g.1)
              (steps_by_agent [] steps)
      start = rw made.made

      sound : validate_agent_concurrency steps ≡ ok tt → IsConcurrencySafe steps
      sound e s t m n same ne =
          let (b, p) =
            members-passed d made.anc made.exact s.agent (steps_by_agent [] steps)
              (sym start ∙ e) in
          let mine = members-steps_by_agent s.agent [] steps in
          check_pairs→Comparable d made.anc made.exact b (members s.agent (steps_by_agent [] steps))
            s t p (subst (λ l. In s l) (sym mine) (In-of_agent s steps m))
            (subst (λ l. In t l) (sym mine)
              (subst (λ a. In t (of_agent a steps)) (sym same) (In-of_agent t steps n)))
            ne

      good : IsConcurrencySafe steps → Compatible d made.anc made.exact steps
      good h b x s m n same ne =
          let (u, p) = made.all x m in
          let (r, q) = made.all s n in
          Comparable→check_pair d made.anc made.exact b x s u r p q (h x s m n same ne)

      complete : IsConcurrencySafe steps → validate_agent_concurrency steps ≡ ok tt
      complete h =
          start
          ∙ groups-passed d made.anc made.exact steps (steps_by_agent [] steps) (
              steps_by_agent-AllFine d made.anc made.exact steps steps [] (good h) distinct
                (λ x m. m) tt)
