-- ===== src/Authorization/Defaults.antt =====
-- What the application's own policy lets the two agents do.
use juris_ai.Base.{
  String, false, ◌≡◌, sym, ap, ◌∙◌, subst, ◌⊎◌, inl, inr, some, List, [], ◌∷◌, In, ◌==◌,
  String-cases, ≡→==,
}
use juris_ai.Base.Dict.{Dict}
use juris_ai.Authorization.Roles.{ActionType, read, analyze, send}
use juris_ai.Authorization.Policy.{agent_tools, default_policy, get_or}
use juris_ai.Authorization.Gate.{AuthorizationRequest}
use juris_ai.Authorization.Decisions.{AgentMay}

module _ {ℓ} {V : Type ℓ} (j k : String) (v : V) (d : Dict V) (w : V) where
  get_or_hit : j ≡ k → get_or k ((j, v) ∷ d) w ≡ v
  get_or_hit p = rw (get_or, ≡→== j k p)

  get_or_skip : (j == k) ≡ false → get_or k ((j, v) ∷ d) w ≡ get_or k d w
  get_or_skip q = rw (get_or, q)

agents_have :
    (agent_id : String)
    → (((agent_id ≡ "legal") ⊎ (agent_id ≡ "contract"))
        × (get_or agent_id default_policy [] ≡ agent_tools))
      ⊎ (get_or agent_id default_policy [] ≡ [])
unfolding default_policy
agents_have agent_id = elim (String-cases "legal" agent_id) [
  | inl p ↦
      inl
        (inl (sym p), get_or_hit "legal" agent_id agent_tools (("contract", agent_tools) ∷ []) [] p)
  | inr q ↦
      let other =
        get_or_skip "legal" agent_id agent_tools (("contract", agent_tools) ∷ []) [] q.1 in
      elim (String-cases "contract" agent_id) [
        | inl p ↦ inl (inr (sym p), other ∙ get_or_hit "contract" agent_id agent_tools [] [] p)
        | inr r ↦ inr (other ∙ get_or_skip "contract" agent_id agent_tools [] [] r.1)
      ]
]

In-one : (a b : ActionType) → In a (b ∷ []) → a ≡ b
In-one a b (inl p) = p
In-one a b (inr n) = elim n [ ]

In-two : (a b c : ActionType) → In a (b ∷ c ∷ []) → (a ≡ b) ⊎ (a ≡ c)
In-two a b c (inl p) = inl p
In-two a b c (inr n) = inr (In-one a c n)

abbrev poster : Dict (List ActionType)
poster = ("slack_post", send ∷ []) ∷ []

abbrev senders : Dict (List ActionType)
senders = ("email_send", send ∷ []) ∷ poster

tools_allow :
    (tool : String) (a : ActionType)
    → In a (get_or tool agent_tools [])
    → ((tool ≡ "retriever") × ((a ≡ read) ⊎ (a ≡ analyze)))
      ⊎ (((tool ≡ "email_send") ⊎ (tool ≡ "slack_post")) × (a ≡ send))
tools_allow tool a m = elim (String-cases "retriever" tool) [
  | inl p ↦
      let have = get_or_hit "retriever" tool (read ∷ analyze ∷ []) senders [] p in
      inl (sym p, In-two a read analyze (subst (λ l. In a l) have m))
  | inr q ↦
      let skip1 = get_or_skip "retriever" tool (read ∷ analyze ∷ []) senders [] q.1 in
      elim (String-cases "email_send" tool) [
        | inl p ↦
            let have = skip1 ∙ get_or_hit "email_send" tool (send ∷ []) poster [] p in
            inr (inl (sym p), In-one a send (subst (λ l. In a l) have m))
        | inr r ↦
            let skip2 = skip1 ∙ get_or_skip "email_send" tool (send ∷ []) poster [] r.1 in
            elim (String-cases "slack_post" tool) [
              | inl p ↦
                  let have = skip2 ∙ get_or_hit "slack_post" tool (send ∷ []) [] [] p in
                  inr (inr (sym p), In-one a send (subst (λ l. In a l) have m))
              | inr t ↦
                  let none_left = skip2 ∙ get_or_skip "slack_post" tool (send ∷ []) [] [] t.1 in
                  let n : In a [] = subst (λ l. In a l) none_left m in elim n [ ]
            ]
      ]
]

-- What the default policy lets an agent do: the two agents may read and analyse through the
-- retriever, and send through the two sending tools, and nothing else.
default_policy-AgentMay :
    (request : AuthorizationRequest)
    → AgentMay default_policy request
    → ((request.agent_id ≡ "legal") ⊎ (request.agent_id ≡ "contract"))
      × (((request.tool_name ≡ some "retriever")
            × ((request.action_type ≡ read) ⊎ (request.action_type ≡ analyze)))
          ⊎ (((request.tool_name ≡ some "email_send") ⊎ (request.tool_name ≡ some "slack_post"))
              × (request.action_type ≡ send)))
unfolding default_policy
default_policy-AgentMay request may = elim (agents_have request.agent_id) [
  | inl (who, tools) ↦ (
    who,
    elim (tools_allow may.tool request.action_type (rw tools at may.listed)) [
      | inl (p, q) ↦ inl (may.named ∙ ap some p, q)
      | inr (inl p, q) ↦ inr (inl (may.named ∙ ap some p), q)
      | inr (inr p, q) ↦ inr (inr (may.named ∙ ap some p), q)
    ],
  )
  | inr nothing ↦ elim (rw nothing at may.listed) [ ]
]
