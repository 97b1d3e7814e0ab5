-- ===== src/Retrieval/Degraded.antt =====
-- What a search of server/src/rag/hybrid_retriever.py answers when components fail.
use juris_ai.Base.{
  ℕ, ◌+◌, ◌≤◌, Bool, true, false, ◌&&◌, ◌||◌, ◌≡◌, refl, sym, ap, subst, inl, inr, some, List, [],
  ◌∷◌, take, Bool-cases, arith,
}
use juris_ai.Retrieval.Fusion.{Floats, RetrievalResult}
use juris_ai.Retrieval.Order.{IsAsymmetric}
use juris_ai.Retrieval.Ranks.{rrf_scored-IsFusion}
use juris_ai.Retrieval.Search.{
  Call, answers, fails, cancelled, RetrievalMode, full, no_rerank, keyword_only, vector_only,
  Searched, found, Components, is_cancelled, is_failed, results_of, nonempty, firsts, count,
  mode_of, without_rerank, rerank, after_fusion, fuse, vector_outcome, search,
}

abbrev one_if : Bool → ℕ
one_if true = 1
one_if false = 0

module _ {F : Type 0} (fl : Floats F) (rrf_k top_k fusion_candidates : ℕ) (c : Components F) where
  -- The vectors could not be searched.
  abbrev pub semantic_down : Bool
  semantic_down =
      is_failed c.embeds || is_failed (vector_outcome fl rrf_k top_k fusion_candidates c c.embeds)

  abbrev pub keyword_down : Bool
  keyword_down = is_failed c.keywords

  -- No component is cancelled.
  pub record NotCancelled : Type 0 where
    pub embeds : is_cancelled c.embeds ≡ false
    pub vectors : is_cancelled (vector_outcome fl rrf_k top_k fusion_candidates c c.embeds) ≡ false
    pub keywords : is_cancelled c.keywords ≡ false
    pub reranks : (rs : List (RetrievalResult F)) → is_cancelled (c.reranks rs) ≡ false

  -- A mode names the component that the search went without.
  abbrev pub Names : RetrievalMode → Type 0
  Names full = (semantic_down ≡ false) × (keyword_down ≡ false)
  Names no_rerank = (semantic_down ≡ false) × (keyword_down ≡ false)
  Names keyword_only = semantic_down ≡ true
  Names vector_only = keyword_down ≡ true

  mode_of-Names : Names (mode_of fl rrf_k top_k fusion_candidates c semantic_down keyword_down)
  mode_of-Names = go semantic_down keyword_down refl refl
    where
      go :
          (s k : Bool)
          → semantic_down ≡ s
          → keyword_down ≡ k
          → Names (mode_of fl rrf_k top_k fusion_candidates c s k)
      go true k p q = p
      go false true p q = q
      go false false p q = (p, q)

  -- Results under a mode that names what is missing.
  abbrev pub Answers : Searched F → Type 0
  Answers z =
      (rs : List (RetrievalResult F)) × (mode : RetrievalMode) × (z ≡ found rs mode) × Names mode

  mode_of-full :
      (s k : Bool) → s ≡ false → k ≡ false → mode_of fl rrf_k top_k fusion_candidates c s k ≡ full
  mode_of-full true k p q = cc
  mode_of-full false true p q = cc
  mode_of-full false false p q = refl

  -- What a search has before it ranks: the mode, and at most one failure, `rerank_down` included.
  module _ (rerank_down : Bool) (calm : NotCancelled)
      (reliable : (rs : List (RetrievalResult F))
        → is_failed (c.reranks rs) ≡ true
        → rerank_down ≡ true)
      (few : one_if semantic_down + one_if keyword_down + one_if rerank_down ≤ 1) where
    abbrev mode : RetrievalMode
    mode = mode_of fl rrf_k top_k fusion_candidates c semantic_down keyword_down

    without_rerank-Answers :
        (lists : ℕ) (fused : List (RetrievalResult F × F))
        → semantic_down ≡ false
        → keyword_down ≡ false
        → Answers (without_rerank fl rrf_k top_k fusion_candidates c mode lists fused)
    unfolding without_rerank
    without_rerank-Answers lists fused s k =
        subst (λ m. Answers (without_rerank fl rrf_k top_k fusion_candidates c m lists fused))
          (sym (mode_of-full semantic_down keyword_down s k)) (_, no_rerank, refl, (s, k))

    rerank-Answers :
        (lists : ℕ) (fused : List (RetrievalResult F × F)) (z : Call (List (RetrievalResult F)))
        → is_cancelled z ≡ false
        → (is_failed z ≡ true → rerank_down ≡ true)
        → Answers (rerank fl rrf_k top_k fusion_candidates c mode lists fused z)
    unfolding rerank
    rerank-Answers lists fused (answers out) p f = (out, mode, refl, mode_of-Names)
    rerank-Answers lists fused cancelled p f = cc
    rerank-Answers lists fused fails p f = elim (Bool-cases semantic_down) [
      | inl s ↦ absurd (omega (arith, few, ap one_if s, ap one_if (f refl)))
      | inr s ↦ elim (Bool-cases keyword_down) [
        | inl k ↦ absurd (omega (arith, few, ap one_if k, ap one_if (f refl)))
        | inr k ↦ without_rerank-Answers lists fused s k
      ]
    ]

    after_fusion-Answers :
        (lists : ℕ) (out : List (RetrievalResult F × F))
        → Answers (after_fusion fl rrf_k top_k fusion_candidates c mode lists (some out))
    unfolding after_fusion
    after_fusion-Answers lists [] = ([], mode, refl, mode_of-Names)
    after_fusion-Answers lists (x ∷ fused) =
        let candidates = firsts (take fusion_candidates (x ∷ fused)) in
        rerank-Answers lists (x ∷ fused) (c.reranks candidates) (calm.reranks candidates)
          (reliable candidates)

    fuse-Answers :
        IsAsymmetric fl
        → (vectors keywords : List (RetrievalResult F))
        → Answers
            (fuse fl rrf_k top_k fusion_candidates c semantic_down keyword_down vectors keywords)
    unfolding fuse
    fuse-Answers asym vectors keywords =
        let lists = nonempty vectors (nonempty keywords []) in
        let (out, e, _) = rrf_scored-IsFusion fl rrf_k lists asym in
        elim (Bool-cases (semantic_down && keyword_down)) [
          | inl both ↦ absurd (two semantic_down keyword_down both few)
          | inr b ↦ rw (b, e, fuse) (after_fusion-Answers (count lists) out)
        ]
      where
        two : (s k : Bool) → (s && k) ≡ true → one_if s + one_if k + one_if rerank_down ≤ 1 → ⊥
        two true true e h = omega arith
        two true false e h = cc
        two false k e h = cc

    -- If at most one of the semantic search (embedding and vector store), the keyword store and the
    -- reranker fails, no component is cancelled, and of two floats at most one is less than the
    -- other, a search returns results under a mode that names the store it went without, if any.
    pub search-Answers : IsAsymmetric fl → Answers (search fl rrf_k top_k fusion_candidates c)
    unfolding search
    search-Answers asym =
        rw (calm.embeds, calm.vectors, calm.keywords, search)
          (fuse-Answers asym
            (results_of (vector_outcome fl rrf_k top_k fusion_candidates c c.embeds))
            (results_of c.keywords))
