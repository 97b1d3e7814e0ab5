-- ===== src/Approvals/Tokens.antt =====
-- Which sends a token opens: server/src/application/authorization/approval_lifecycle/verifier.py.
use juris_ai.Base.{
  &&→×, String, Bool, true, false, ◌||◌, ◌≡◌, ◌≢◌, ◌↔◌, ◌⊎◌, inl, inr, refl, sym, ap, subst, ◌∙◌,
  Option, none, some, List, [], ◌∷◌, ◌==◌, Bool-cases, Option-cases, ==→≡, ≡→==, ≢→==, In,
}
use juris_ai.Base.Dict.{Dict, get, keys, In-keys-get}
use juris_ai.Approvals.Records.{
  ApprovalStatus, waiting, approved, rejected, edited, expired, Approval, Store, find,
}
use juris_ai.Approvals.Verifier.{
  AgentActionStatus, completed, action_rejected, action_expired, AgentAction, is_decided_for,
  is_spent, tool_result_key, or_empty, has_key, option_eq, agree, dict_eq, covers, is_approved,
}
use juris_ai.Approvals.Edits.{approved_value, get-approved_value}

||→× : (a b : Bool) → (a || b) ≡ false → (a ≡ false) × (b ≡ false)
||→× false b h = (refl, h)
||→× true b h = cc

-- The action is not completed, rejected or expired.
abbrev pub IsUnspent : AgentActionStatus → Type 0
IsUnspent x = (x ≢ completed) × ((x ≢ action_rejected) × (x ≢ action_expired))

is_spent-false : (x : AgentActionStatus) → is_spent x ≡ false → IsUnspent x
is_spent-false x e =
    (λ p. cc (ap is_spent p, e), (λ p. cc (ap is_spent p, e), λ p. cc (ap is_spent p, e)))

IsUnspent→ : (x : AgentActionStatus) → IsUnspent x → is_spent x ≡ false
IsUnspent→ completed u = absurd (u.0 refl)
IsUnspent→ action_rejected u = absurd (u.1.0 refl)
IsUnspent→ action_expired u = absurd (u.1.1 refl)
IsUnspent→ _ u = refl

decided_status : (x : ApprovalStatus) → is_decided_for x ≡ true → (x ≡ approved) ⊎ (x ≡ edited)
decided_status approved e = inl refl
decided_status edited e = inr refl
decided_status waiting e = cc
decided_status rejected e = cc
decided_status expired e = cc

→decided_status : (x : ApprovalStatus) → (x ≡ approved) ⊎ (x ≡ edited) → is_decided_for x ≡ true
→decided_status x (inl e) = rw e refl
→decided_status x (inr e) = rw e refl

module _ {Json : Type 0} where
  has_key-false : (d : Dict Json) → has_key tool_result_key d ≡ false → get tool_result_key d ≡ none
  unfolding has_key
  has_key-false d h = elim (Option-cases (get tool_result_key d)) [
    | inl e ↦ e
    | inr (v, e) ↦ cc (rw (e, has_key) at h)
  ]

  or_empty→ :
      (o : Option (Dict Json))
      → get tool_result_key (or_empty o) ≡ none
      → (d : Dict Json) → o ≡ some d
      → get "tool_result" d ≡ none
  unfolding or_empty
  or_empty→ o h d e = ap (λ x. get tool_result_key (or_empty x)) (sym e) ∙ h

  →or_empty :
      (o : Option (Dict Json))
      → ((d : Dict Json) → o ≡ some d → get "tool_result" d ≡ none)
      → get tool_result_key (or_empty o) ≡ none
  unfolding or_empty
  →or_empty none h = refl
  →or_empty (some d) h = h d refl

module _ {Json : Type 0} (eq : Json → Json → Bool) where
  -- Two dicts that hold equal values, or none, at each key.
  abbrev pub AreEqual : Dict Json → Dict Json → Type 0
  AreEqual a b = (k : String) → option_eq eq (get k a) (get k b) ≡ true

  agree→ :
      (ks : List String) (a b : Dict Json) (k : String)
      → agree eq ks a b ≡ true
      → In k ks
      → option_eq eq (get k a) (get k b) ≡ true
  unfolding agree
  agree→ [] a b k h m = elim m [ ]
  agree→ (j ∷ ks) a b k h (inl p) =
      subst (λ i. option_eq eq (get i a) (get i b) ≡ true) (sym p) (&&→× _ _ h).0
  agree→ (j ∷ ks) a b k h (inr m) = agree→ ks a b k (&&→× _ _ h).1 m

  →agree : (ks : List String) (a b : Dict Json) → AreEqual a b → agree eq ks a b ≡ true
  unfolding agree
  →agree [] a b h = refl
  →agree (k ∷ ks) a b h = rw (h k) (→agree ks a b h)

  dict_eq_iff : (a b : Dict Json) → (dict_eq eq a b ≡ true) ↔ AreEqual a b
  unfolding dict_eq
  dict_eq_iff a b = (to, λ h. rw (→agree (keys a) a b h) (→agree (keys b) a b h))
    where
      to : dict_eq eq a b ≡ true → AreEqual a b
      to h k = elim (Option-cases (get k a)) [
        | inr (v, e) ↦ agree→ (keys a) a b k (&&→× _ _ h).0 (In-keys-get k a e)
        | inl e ↦ elim (Option-cases (get k b)) [
          | inr (v, e') ↦ agree→ (keys b) a b k (&&→× _ _ h).1 (In-keys-get k b e')
          | inl e' ↦ rw (e, e') refl
        ]
      ]

  -- Two keys hold equal values, or neither holds one.
  pub data SameValue : Option Json → Option Json → Type 0 where
    neither : SameValue none none
    equal : (x y : Json) → eq x y ≡ true → SameValue (some x) (some y)

  option_eq-SameValue : (a b : Option Json) → option_eq eq a b ≡ true → SameValue a b
  option_eq-SameValue none none h = neither
  option_eq-SameValue (some x) (some y) h = equal x y h
  option_eq-SameValue none (some y) h = cc
  option_eq-SameValue (some x) none h = cc

  SameValue-option_eq : (a b : Option Json) → SameValue a b → option_eq eq a b ≡ true
  SameValue-option_eq _ _ neither = refl
  SameValue-option_eq _ _ (equal x y h) = h

  -- The conditions that the docstring of the verifier lists. An edited approval is one too.
  pub record Covers (approval : Approval Json) (act : AgentAction Json) (action : String)
      (payload : Dict Json) : Type 0 where
    pub tool : act.tool_name ≡ some action
    pub unspent : IsUnspent act.status
    pub not_run : (d : Dict Json) → act.result ≡ some d → get "tool_result" d ≡ none
    pub payload_equal :
        (k : String)
        → SameValue (approved_value act.parameters approval.edited_payload k) (get k payload)

  pub record Verified (s : Store Json) (actions : Dict (AgentAction Json)) (token action : String)
      (payload : Dict Json) : Type 0 where
    pub filled : token ≢ ""
    pub approval : Approval Json
    pub found : find token s ≡ some approval
    pub decision : (approval.status ≡ approved) ⊎ (approval.status ≡ edited)
    pub act : AgentAction Json
    pub act_found : get approval.agent_action_id actions ≡ some act
    pub covered : Covers approval act action payload

  covers→Covers :
      (approval : Approval Json) (act : AgentAction Json) (action : String) (payload : Dict Json)
      → covers eq approval act action payload ≡ true
      → Covers approval act action payload
  unfolding covers has_key
  covers→Covers approval act action payload h = elim (Option-cases act.tool_name) [
    | inl e ↦ cc (rw (e, covers) at h)
    | inr (tool, e) ↦ elim (Bool-cases (tool == action)) [
      | inr other ↦ cc (rw (e, other, covers) at h)
      | inl named ↦
          elim (Bool-cases (is_spent act.status || has_key tool_result_key (or_empty act.result))) [
            | inl used ↦ cc (rw (e, named, used, covers) at h)
            | inr free ↦ record {
              tool = e ∙ ap some (==→≡ tool action named);
              unspent = is_spent-false act.status (||→× (is_spent act.status) _ free).0;
              not_run =
                  or_empty→ act.result
                    (has_key-false (or_empty act.result) (||→× (is_spent act.status) _ free).1);
              payload_equal = λ k.
                  subst (λ o. SameValue o (get k payload))
                    (get-approved_value k act.parameters approval.edited_payload)
                    (option_eq-SameValue _ _
                      ((dict_eq_iff _ payload).0 (rw (e, named, free, covers) at h) k));
            }
          ]
    ]
  ]

  Covers→covers :
      (approval : Approval Json) (act : AgentAction Json) (action : String) (payload : Dict Json)
      → Covers approval act action payload
      → covers eq approval act action payload ≡ true
  unfolding covers has_key
  Covers→covers approval act action payload c =
      rw
        (
          c.tool,
          ≡→== action action refl,
          IsUnspent→ act.status c.unspent,
          →or_empty act.result c.not_run,
          has_key,
          covers,
        )
        ((dict_eq_iff _ payload).1 λ k.
          subst (λ o. option_eq eq o (get k payload) ≡ true)
            (sym (get-approved_value k act.parameters approval.edited_payload))
            (SameValue-option_eq _ _ (c.payload_equal k)))

  -- A token opens a send exactly when it is the id of an approval with the status approved or
  -- edited, for an action of that tool that is not completed, rejected or expired and has no stored
  -- tool result, and the payload equals at each key the reviewer's edit of it, or where there is
  -- none the value proposed.
  pub is_approved_iff :
      (s : Store Json) (actions : Dict (AgentAction Json)) (token action : String)
      (payload : Dict Json)
      → (is_approved eq s actions token action payload ≡ true)
        ↔ Verified s actions token action payload
  unfolding is_approved
  is_approved_iff s actions token action payload = (to, from)
    where
      to :
          is_approved eq s actions token action payload ≡ true
          → Verified s actions token action payload
      to h = elim (Bool-cases (token == "")) [
        | inl e ↦ cc (rw (e, is_approved) at h)
        | inr filled ↦ elim (Option-cases (find token s)) [
          | inl e ↦ cc (rw (filled, e, is_approved) at h)
          | inr (approval, e) ↦ elim (Bool-cases (is_decided_for approval.status)) [
            | inr undecided ↦ cc (rw (filled, e, undecided, is_approved) at h)
            | inl closed ↦ elim (Option-cases (get approval.agent_action_id actions)) [
              | inl e' ↦ cc (rw (filled, e, closed, e', is_approved) at h)
              | inr (act, e') ↦ record {
                filled = λ p. cc (≡→== token "" p, filled);
                approval = approval;
                found = e;
                decision = decided_status _ closed;
                act = act;
                act_found = e';
                covered =
                    covers→Covers approval act action payload
                      (rw (filled, e, closed, e', is_approved) at h);
              }
            ]
          ]
        ]
      ]

      from :
          Verified s actions token action payload
          → is_approved eq s actions token action payload ≡ true
      from v =
          rw
            (
              ≢→== token "" v.filled,
              v.found,
              →decided_status v.approval.status v.decision,
              v.act_found,
              is_approved,
            )
            (Covers→covers v.approval v.act action payload v.covered)
