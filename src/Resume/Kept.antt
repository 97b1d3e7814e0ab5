-- ===== src/Resume/Kept.antt =====
-- What the attempts of server/src/application/services/hitl_resume.py keep of the messages sent for
-- an action.
use juris_ai.Base.{
  ◌≤◌, String, Bool, true, false, ◌≡◌, ◌≢◌, refl, sym, ap, ◌∙◌, none, some, [], length, arith, ◌==◌,
}
use juris_ai.Base.Dict.{put, get-put}
use juris_ai.Approvals.Verifier.{AgentAction, tool_result_key, or_empty}
use juris_ai.Resume.Task.{
  on_exit-rule, on_some-rule, if-rule, Exit, returned, raised, stopped, Attempt, Setting, Task,
  is_claimable, stored_result,
}
use juris_ai.Resume.Run.{
  Reply, failed_row, finished_row, stored_row, send, record_failure, call_tool, store_result,
  approved_tool_result, finish, take_turn, after_call, run_claimed,
}

pub some-injective : {A : Type 0} {x y : A} → some x ≡ some y → x ≡ y
some-injective p = cc

module _ {Json : Type 0} (is_null : Json → Bool) where
  -- An action whose result holds no tool result has sent nothing.
  pub record Ready (t : Task Json) : Type 0 where
    pub once : length t.sent ≤ 1
    pub clear :
        (r : AgentAction Json) → t.row ≡ some r → stored_result is_null r ≡ none → t.sent ≡ []

  -- The same, as long as the action can be claimed without a takeover.
  pub record Guarded (t : Task Json) : Type 0 where
    pub once : length t.sent ≤ 1
    pub clear :
        (r : AgentAction Json)
        → t.row ≡ some r
        → is_claimable r.status ≡ true
        → stored_result is_null r ≡ none
        → t.sent ≡ []

  Ready→Guarded : (t : Task Json) → Ready t → Guarded t
  Ready→Guarded t h = record { once = h.once; clear = λ r e _ n. h.clear r e n }

  -- A write that keeps the stored result.
  Ready-write :
      (t : Task Json) (r r' : AgentAction Json)
      → t.row ≡ some r
      → (stored_result is_null r' ≡ none → stored_result is_null r ≡ none)
      → Ready t
      → Ready (record t { row = some r' })
  Ready-write t r r' e keep h = record {
    once = h.once;
    clear =
        λ q p n. let same : r' ≡ q = cc in h.clear r e (keep (ap (stored_result is_null) same ∙ n));
  }

  stored-put :
      (k : String) (v : Json) (r r' : AgentAction Json)
      → (k == tool_result_key) ≡ false
      → r'.result ≡ some (put k v (or_empty r.result))
      → stored_result is_null r' ≡ stored_result is_null r
  unfolding stored_result or_empty
  stored-put k v r r' differ e =
      rw (e, get-put k tool_result_key v (or_empty r.result), differ, stored_result) refl

-- What a step must not do for one send to be enough: a message that left is not lost by a failing
-- commit, and a tool that raises has sent nothing. A result of the tool is a JSON object.
pub record IsReliable {Json : Type 0} (c : Setting Json) (a : Attempt Json) : Type 0 where
  pub stores_once : (e : String) → a.stores ≢ raised e
  pub raises_unsent : (e : String) → a.runs ≡ raised e → a.sends ≡ false
  pub returns_result : (v : Json) → a.runs ≡ returned v → c.is_null v ≡ false
  pub refuses : c.is_null c.refusal ≡ false

module _ {Json : Type 0} (c : Setting Json) where
  abbrev Leaves : Reply Json → Type 0
  Leaves z = Ready c.is_null z.1

  abbrev Guards : Reply Json → Type 0
  Guards z = Guarded c.is_null z.1

  -- What may follow the call: only a process that stops leaves a message without its result.
  abbrev CallEnds : Exit Json × Task Json → Type 0
  CallEnds (stopped, t) = Guarded c.is_null t
  CallEnds (_, t) = Ready c.is_null t

  -- A failure leaves the stored result.
  pub stored-failed_row :
      (a : Attempt Json) (e : String) (r : AgentAction Json)
      → stored_result c.is_null (failed_row c a e r) ≡ stored_result c.is_null r
  unfolding or_empty
  stored-failed_row a e r =
      let between : AgentAction Json = record r {
        result = some (put "error" (c.text e) (or_empty r.result));
      } in
      stored-put c.is_null "approval_id" (c.text c.approval_id) between (failed_row c a e r) refl
        refl
      ∙ stored-put c.is_null "error" (c.text e) r between refl refl

  record_failure-Ready :
      (a : Attempt Json) (e : String) (t : Task Json)
      → Ready c.is_null t
      → Ready c.is_null (record_failure c a e t).1
  unfolding record_failure
  record_failure-Ready a e t h =
      on_some-rule Leaves t.row _ _ (λ _. h)
        (λ r p.
          on_exit-rule Leaves a.records _ _ _
            (λ _ _.
              Ready-write c.is_null t r (failed_row c a e r) p
                (λ n. sym (stored-failed_row a e r) ∙ n) h)
            (λ _ _. h) (λ _. h))

  finish-Ready :
      (a : Attempt Json) (approved : Bool) (content : Json) (t : Task Json)
      → Ready c.is_null t
      → Ready c.is_null (finish c a approved content t).1
  unfolding finish or_empty
  finish-Ready a approved content t h =
      on_some-rule Leaves t.row _ _ (λ _. record_failure-Ready a "StaleDataError" t h)
        (λ r p.
          on_exit-rule Leaves a.finishes _ _ _
            (λ _ _.
              Ready-write c.is_null t r (finished_row c a approved content r) p
                (λ n.
                  sym (
                    stored-put c.is_null "content" content r (finished_row c a approved content r)
                      refl refl)
                  ∙ n)
                h)
            (λ e _. record_failure-Ready a e t h) (λ _. h))

  take_turn-Ready :
      (a : Attempt Json) (approved : Bool) (t : Task Json)
      → Ready c.is_null t
      → Ready c.is_null (take_turn c a approved t).1
  unfolding take_turn
  take_turn-Ready a approved t h =
      on_exit-rule Leaves a.turns _ _ _ (λ content _. finish-Ready a approved content t h)
        (λ e _. record_failure-Ready a e t h) (λ _. h)

  after_call-Guarded :
      (a : Attempt Json) (x : Exit Json) (t : Task Json)
      → CallEnds (x, t)
      → Guards (after_call c a (x, t))
  unfolding after_call
  after_call-Guarded a (returned v) t h = Ready→Guarded c.is_null _ (take_turn-Ready a true t h)
  after_call-Guarded a (raised e) t h = Ready→Guarded c.is_null _ (record_failure-Ready a e t h)
  after_call-Guarded a stopped t h = h

  -- The result of the call is a result of a tool.
  stored_row-stored :
      (a : Attempt Json) (v : Json) (r : AgentAction Json)
      → c.is_null v ≡ false
      → stored_result c.is_null (stored_row c a v r) ≡ some v
  unfolding stored_result or_empty
  stored_row-stored a v r p = rw (p, stored_result) refl

  send-once :
      (a : Attempt Json) (r : AgentAction Json) (t : Task Json)
      → t.sent ≡ []
      → length (send c a r t).sent ≤ 1
  unfolding send
  send-once a r t e =
      if-rule {B = Task Json} (λ z. length z.sent ≤ 1) a.sends _ _ (λ _. rw e (omega arith))
        (λ _. rw e (omega arith))

  send-row : (a : Attempt Json) (r : AgentAction Json) (t : Task Json) → (send c a r t).row ≡ t.row
  unfolding send
  send-row a r t = if-rule {B = Task Json} (λ z. z.row ≡ t.row) a.sends _ _ (λ _. refl) (λ _. refl)

  -- The task after a call that was made on a row that is claimed.
  record Called (a : Attempt Json) (r : AgentAction Json) (x : Exit Json) (t : Task Json)
      : Type 0 where
    row : t.row ≡ some r
    busy : is_claimable r.status ≡ false
    once : length t.sent ≤ 1
    unsent : (e : String) → x ≡ raised e → t.sent ≡ []
    result : (v : Json) → x ≡ returned v → c.is_null v ≡ false

  Called→Guarded :
      (a : Attempt Json) (r : AgentAction Json) (x : Exit Json) (t : Task Json)
      → Called a r x t
      → Guarded c.is_null t
  Called→Guarded a r x t h = record {
    once = h.once;
    clear = λ q p s n. absurd (
        cc (
          ap (λ (z : AgentAction Json). is_claimable z.status) (some-injective (sym h.row ∙ p)),
          h.busy,
          s,
        ));
  }

  store_result-CallEnds :
      (a : Attempt Json) (r : AgentAction Json) (x : Exit Json) (t : Task Json)
      → IsReliable c a
      → Called a r x t
      → CallEnds (store_result c a r (x, t))
  unfolding store_result
  store_result-CallEnds a r (returned v) t ok h =
      on_exit-rule CallEnds a.stores _ _ _
        (λ _ _. record {
          once = h.once;
          clear = λ q p n. absurd (
              cc (
                ap (stored_result c.is_null) (some-injective p),
                stored_row-stored a v r (h.result v refl),
                n,
              ));
        })
        (λ e p. absurd (ok.stores_once e p)) (λ _. Called→Guarded a r (returned v) t h)
  store_result-CallEnds a r (raised e) t ok h = record {
    once = h.once;
    clear = λ q p n. h.unsent e refl;
  }
  store_result-CallEnds a r stopped t ok h = Called→Guarded a r stopped t h

  call_tool-Called :
      (a : Attempt Json) (allowed : Bool) (r : AgentAction Json) (t : Task Json)
      → IsReliable c a
      → t.row ≡ some r
      → is_claimable r.status ≡ false
      → t.sent ≡ []
      → Called a r (call_tool c a allowed r t).0 (call_tool c a allowed r t).1
  unfolding call_tool send
  call_tool-Called a true r t ok row busy e = record {
    row = send-row a r t ∙ row;
    busy = busy;
    once = send-once a r t e;
    unsent = λ s p. rw (ok.raises_unsent s p, send) e;
    result = ok.returns_result;
  }
  call_tool-Called a false r t ok row busy e = record {
    row = row;
    busy = busy;
    once = rw e (omega arith);
    unsent = λ s p. e;
    result = λ v p. let same : c.refusal ≡ v = cc in sym (ap c.is_null same) ∙ ok.refuses;
  }

  approved_tool_result-CallEnds :
      (a : Attempt Json) (r : AgentAction Json) (t : Task Json)
      → IsReliable c a
      → t.row ≡ some r
      → is_claimable r.status ≡ false
      → Ready c.is_null t
      → CallEnds (approved_tool_result c a r t)
  unfolding approved_tool_result
  approved_tool_result-CallEnds a r t ok row busy h =
      on_some-rule CallEnds (stored_result c.is_null r) _ _
        (λ n.
          on_exit-rule CallEnds a.authorizes _ _ _
            (λ allowed _.
              store_result-CallEnds a r (call_tool c a allowed r t).0 (call_tool c a allowed r t).1
                ok (call_tool-Called a allowed r t ok row busy (h.clear r row n)))
            (λ _ _. h) (λ _. Ready→Guarded c.is_null t h))
        (λ v _.
          on_exit-rule CallEnds a.restores _ _ _ (λ _ _. h) (λ _ _. h)
            (λ _. Ready→Guarded c.is_null t h))

  pub run_claimed-Guarded :
      (a : Attempt Json) (approved : Bool) (r : AgentAction Json) (t : Task Json)
      → IsReliable c a
      → t.row ≡ some r
      → is_claimable r.status ≡ false
      → Ready c.is_null t
      → Guards (run_claimed c a approved r t)
  unfolding run_claimed
  run_claimed-Guarded a approved r t ok row busy h =
      let safe = Ready→Guarded c.is_null t h in
      on_some-rule Guards r.plan_snapshot _ _ (λ _. safe)
        (λ plan _.
          on_exit-rule Guards a.loads _ _ _
            (λ _ _.
              if-rule Guards approved _ _
                (λ _.
                  let z = approved_tool_result c a r t in
                  after_call-Guarded a z.0 z.1 (approved_tool_result-CallEnds a r t ok row busy h))
                (λ _. Ready→Guarded c.is_null _ (take_turn-Ready a false t h)))
            (λ e _. Ready→Guarded c.is_null _ (record_failure-Ready a e t h)) (λ _. safe))
