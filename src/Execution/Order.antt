-- ===== src/Execution/Order.antt =====
-- The order in which the graph of server/src/agentic/execution/graph/builder.py runs its nodes.
use juris_ai.Base.{
  String, ◌≡◌, refl, sym, ap, ◌∙◌, subst, ◌⊎◌, inl, inr, List, [], ◌∷◌, ◌++◌, In, All, Distinct,
  elem, Bool-cases,
}
use juris_ai.Planning.Plan.{ExecutionStep, step_ids}
use juris_ai.Execution.Graph.{
  Node, start, finish, step, Edge, steps_of, sources_of, edges_in, edges_out, dependent_step_ids,
  add_edges,
}

-- A source has run.
abbrev pub HasRun : List String → Node → Type 0
HasRun ran start = Unit
HasRun ran finish = ⊥
HasRun ran (step x) = In x ran

-- LangGraph runs a node once all sources of one of the edges into it have run. The list is the
-- order, the last node first.
pub data Run (edges : List Edge) : List String → Type 0 where
  begin : Run edges []
  runs :
      (ran : List String) (e : Edge) (x : String)
      → Run edges ran
      → In e edges
      → e.target ≡ step x
      → All (HasRun ran) e.sources
      → Run edges (x ∷ ran)

In-append : {A : Type 0} (a : A) (xs ys : List A) → In a (xs ++ ys) → In a xs ⊎ In a ys
In-append a [] ys m = inr m
In-append a (x ∷ xs) ys (inl p) = inl (inl p)
In-append a (x ∷ xs) ys (inr m) = elim (In-append a xs ys m) [ inl k ↦ inl (inr k) | inr k ↦ inr k ]

step-injective : {x y : String} → step x ≡ step y → x ≡ y
step-injective p = cc

HasRun-steps_of : (ran ds : List String) → All (HasRun ran) (steps_of ds) → All (λ d. In d ran) ds
HasRun-steps_of ran [] h = tt
HasRun-steps_of ran (d ∷ ds) h = (h.0, HasRun-steps_of ran ds h.1)

steps_of-HasRun : (ran ds : List String) → All (λ d. In d ran) ds → All (HasRun ran) (steps_of ds)
steps_of-HasRun ran [] h = tt
steps_of-HasRun ran (d ∷ ds) h = (h.0, steps_of-HasRun ran ds h.1)

sources_of→ : (ran ds : List String) → All (HasRun ran) (sources_of ds) → All (λ d. In d ran) ds
sources_of→ ran [] h = tt
sources_of→ ran (d ∷ ds) h = HasRun-steps_of ran (d ∷ ds) h

pub →sources_of : (ran ds : List String) → All (λ d. In d ran) ds → All (HasRun ran) (sources_of ds)
→sources_of ran [] h = (tt, tt)
→sources_of ran (d ∷ ds) h = steps_of-HasRun ran (d ∷ ds) h

module _ {Json : Type 0} where
  abbrev pub edge_to : ExecutionStep Json → Edge
  edge_to s = record { sources = sources_of s.depends_on; target = step s.id }

  edges_in-step :
      (ss : List (ExecutionStep Json)) (e : Edge)
      → In e (edges_in ss)
      → (s : ExecutionStep Json) × In s ss × (e ≡ edge_to s)
  unfolding edges_in
  edges_in-step [] e m = elim m [ ]
  edges_in-step (s ∷ ss) e (inl p) = (s, inl refl, p)
  edges_in-step (s ∷ ss) e (inr m) = let (t, k, q) = edges_in-step ss e m in (t, inr k, q)

  pub step-edges_in :
      (ss : List (ExecutionStep Json)) (s : ExecutionStep Json)
      → In s ss
      → In (edge_to s) (edges_in ss)
  unfolding edges_in
  step-edges_in [] s m = elim m [ ]
  step-edges_in (t ∷ ss) s (inl p) = inl (ap edge_to p)
  step-edges_in (t ∷ ss) s (inr m) = inr (step-edges_in ss s m)

  edges_out-finish :
      (dependents : List String) (ss : List (ExecutionStep Json)) (e : Edge)
      → In e (edges_out dependents ss)
      → e.target ≡ finish
  unfolding edges_out
  edges_out-finish dependents [] e m = elim m [ ]
  edges_out-finish dependents (s ∷ ss) e m = elim (Bool-cases (elem s.id dependents)) [
    | inl b ↦ edges_out-finish dependents ss e (rw (b, edges_out) at m)
    | inr b ↦ elim (rw (b, edges_out) at m) [
      | inl p ↦ ap (λ (z : Edge). z.target) p
      | inr k ↦ edges_out-finish dependents ss e k
    ]
  ]

  edge_into :
      (steps : List (ExecutionStep Json)) (e : Edge) (x : String)
      → In e (add_edges steps)
      → e.target ≡ step x
      → (s : ExecutionStep Json) × In s steps × (s.id ≡ x) × (e.sources ≡ sources_of s.depends_on)
  unfolding add_edges
  edge_into steps e x m t =
      elim (In-append e (edges_in steps) (edges_out (dependent_step_ids steps) steps) m) [
        | inl k ↦
            let (s, n, p) = edges_in-step steps e k in
            (
              s,
              n,
              step-injective (sym (ap (λ (z : Edge). z.target) p) ∙ t),
              ap (λ (z : Edge). z.sources) p,
            )
        | inr k ↦ absurd (cc (edges_out-finish (dependent_step_ids steps) steps e k, t))
      ]

  pub In-step_ids :
      (ss : List (ExecutionStep Json)) (s : ExecutionStep Json) → In s ss → In s.id (step_ids ss)
  In-step_ids [] s m = elim m [ ]
  In-step_ids (t ∷ ss) s (inl p) = inl (ap (λ (z : ExecutionStep Json). z.id) p)
  In-step_ids (t ∷ ss) s (inr m) = inr (In-step_ids ss s m)

  -- Distinct ids name one step each.
  same_step :
      (ss : List (ExecutionStep Json)) (s t : ExecutionStep Json)
      → Distinct (step_ids ss)
      → In s ss
      → In t ss
      → s.id ≡ t.id
      → s ≡ t
  same_step [] s t d m n e = elim m [ ]
  same_step (u ∷ ss) s t d (inl p) (inl q) e = p ∙ sym q
  same_step (u ∷ ss) s t d (inl p) (inr n) e = absurd (
      d.0 (
        subst (λ i. In i (step_ids ss)) (sym e ∙ ap (λ (z : ExecutionStep Json). z.id) p)
          (In-step_ids ss t n)))
  same_step (u ∷ ss) s t d (inr m) (inl q) e = absurd (
      d.0 (
        subst (λ i. In i (step_ids ss)) (e ∙ ap (λ (z : ExecutionStep Json). z.id) q)
          (In-step_ids ss s m)))
  same_step (u ∷ ss) s t d (inr m) (inr n) e = same_step ss s t d.1 m n e

  -- Each node that ran is a step, after all that it depends on.
  abbrev pub InOrder : List (ExecutionStep Json) → List String → Type 0
  InOrder steps [] = Unit
  InOrder steps (x ∷ ran) =
      ((s : ExecutionStep Json) → In s steps → s.id ≡ x → All (λ d. In d ran) s.depends_on)
      × InOrder steps ran

  -- If the ids of the steps are distinct, then in every run of the graph that the builder makes, a
  -- node runs only after all steps that its step depends on.
  pub Run-InOrder :
      (steps : List (ExecutionStep Json)) (ran : List String)
      → Distinct (step_ids steps)
      → Run (add_edges steps) ran
      → InOrder steps ran
  Run-InOrder steps ran distinct begin = tt
  Run-InOrder steps ran distinct (runs before e x earlier m t h) =
      let (s, n, p, q) = edge_into steps e x m t in
      (
        λ u k r.
            let same = same_step steps s u distinct n k (p ∙ sym r) in
            subst (λ (z : ExecutionStep Json). All (λ d. In d before) z.depends_on) same
              (sources_of→ before s.depends_on (subst (All (HasRun before)) q h)),
        Run-InOrder steps before distinct earlier,
      )
