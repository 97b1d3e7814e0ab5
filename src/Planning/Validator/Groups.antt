-- ===== src/Planning/Validator/Groups.antt =====
-- The groups that the check of agent concurrency makes of the steps, by their agent.
use juris_ai.Base.{
  Bool, true, false, ◌≡◌, refl, sym, ◌∙◌, ap, inl, inr, List, [], ◌∷◌, ◌++◌, arith, In, Bool-cases,
  if◌then◌else◌,
}
use mathlib.Core.List.{append_assoc, append-nil}
use juris_ai.Planning.Plan.{AgentType, legal, contract, ExecutionStep}
use juris_ai.Planning.Validator.{Groups, same_agent, add_to_group, steps_by_agent}

pub same_agent→≡ : (a b : AgentType) → same_agent a b ≡ true → a ≡ b
unfolding same_agent
same_agent→≡ legal legal e = refl
same_agent→≡ legal contract e = cc
same_agent→≡ contract legal e = cc
same_agent→≡ contract contract e = refl

pub same_agent_refl : (a : AgentType) → same_agent a a ≡ true
unfolding same_agent
same_agent_refl legal = refl
same_agent_refl contract = refl

pub same_agent_comm : (a b : AgentType) → same_agent a b ≡ same_agent b a
unfolding same_agent
same_agent_comm legal legal = refl
same_agent_comm legal contract = refl
same_agent_comm contract legal = refl
same_agent_comm contract contract = refl

module _ {Json : Type 0} where
  -- The steps of one agent, in their order.
  abbrev pub of_agent : AgentType → List (ExecutionStep Json) → List (ExecutionStep Json)
  of_agent a [] = []
  of_agent a (s ∷ ss) = if same_agent s.agent a then s ∷ of_agent a ss else of_agent a ss

  pub In-of_agent :
      (s : ExecutionStep Json) (ss : List (ExecutionStep Json))
      → In s ss
      → In s (of_agent s.agent ss)
  In-of_agent s [] m = elim m [ ]
  In-of_agent s (t ∷ ss) (inl p) =
      let own : same_agent t.agent s.agent ≡ true =
        cc (same_agent_refl s.agent, ap (λ (z : ExecutionStep Json). z.agent) p) in
      rw own (inl p)
  In-of_agent s (t ∷ ss) (inr m) = elim (Bool-cases (same_agent t.agent s.agent)) [
    | inl e ↦ rw e (inr (In-of_agent s ss m))
    | inr e ↦ rw e (In-of_agent s ss m)
  ]

  -- The members of the agent's group, which the source keeps under the agent as a key.
  abbrev pub members : AgentType → Groups Json → List (ExecutionStep Json)
  members a [] = []
  members a ((b, ss) ∷ gs) = if same_agent b a then ss else members a gs

  members-add_to_group :
      (a : AgentType) (s : ExecutionStep Json) (gs : Groups Json)
      → members a (add_to_group s gs)
        ≡ (if same_agent s.agent a then members a gs ++ s ∷ [] else members a gs)
  unfolding add_to_group
  members-add_to_group a s [] = refl
  members-add_to_group a s ((b, ss) ∷ gs) = elim (Bool-cases (same_agent b s.agent)) [
    | inl e ↦ rw (e, same_agent→≡ b s.agent e) (ground arith)
    | inr e ↦ ground (
      arith,
      members-add_to_group a s gs,
      λ (h : same_agent b a ≡ true). same_agent→≡ b a h,
      same_agent_comm s.agent b,
    )
  ]

  pub members-steps_by_agent :
      (a : AgentType) (gs : Groups Json) (steps : List (ExecutionStep Json))
      → members a (steps_by_agent gs steps) ≡ members a gs ++ of_agent a steps
  unfolding steps_by_agent
  members-steps_by_agent a gs [] = sym (append-nil (members a gs))
  members-steps_by_agent a gs (s ∷ ss) =
      members-steps_by_agent a (add_to_group s gs) ss
      ∙ rw (members-add_to_group a s gs) (regroup (same_agent s.agent a))
    where
      regroup :
          (b : Bool)
          → (if b then members a gs ++ s ∷ [] else members a gs) ++ of_agent a ss
            ≡ members a gs ++ (if b then s ∷ of_agent a ss else of_agent a ss)
      regroup true = append_assoc (members a gs) (s ∷ []) (of_agent a ss)
      regroup false = refl
