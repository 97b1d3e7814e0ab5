-- ===== src/Retrieval/Size.antt =====
-- How many results retrieve of server/src/rag/hybrid_retriever.py returns.
use juris_ai.Base.{
  ℕ, ◌≤◌, String, ◌&&◌, ◌||◌, Option, none, some, List, [], ◌∷◌, take, length, length-take_le,
  Bool-cases, arith, leb, inl, inr,
}
use juris_ai.Base.Text.{is_blank}
use juris_ai.Retrieval.Fusion.{Floats, RetrievalResult, rrf_scored, rescaled}
use juris_ai.Retrieval.Search.{
  Call, answers, fails, cancelled, RetrievalMode, full, no_rerank, keyword_only, vector_only,
  Searched, found, unavailable, search_cancelled, key_error, Components, is_cancelled, is_failed,
  results_of, nonempty, firsts, count, mode_of, without_rerank, rerank, after_fusion, fuse,
  vector_outcome, search, Retrieved, results, retrieved, retrieve,
}

module _ {F : Type 0} (fl : Floats F) (rrf_k top_k fusion_candidates : ℕ) (c : Components F) where
  -- No more than top_k results.
  abbrev pub Fits : Retrieved F → Type 0
  Fits (results rs) = length rs ≤ top_k
  Fits _ = Unit

  abbrev SearchFits : Searched F → Type 0
  SearchFits (found rs mode) = length rs ≤ top_k
  SearchFits _ = Unit

  -- The reranker honours its top_k.
  abbrev pub RerankFits : Call (List (RetrievalResult F)) → Type 0
  RerankFits (answers rs) = length rs ≤ top_k
  RerankFits _ = Unit

  without_rerank-Fits :
      (mode : RetrievalMode) (lists : ℕ) (fused : List (RetrievalResult F × F))
      → SearchFits (without_rerank fl rrf_k top_k fusion_candidates c mode lists fused)
  unfolding without_rerank
  without_rerank-Fits full lists fused = length-take_le top_k (rescaled fl rrf_k lists fused)
  without_rerank-Fits no_rerank lists fused = tt
  without_rerank-Fits keyword_only lists fused = tt
  without_rerank-Fits vector_only lists fused = tt

  rerank-Fits :
      (mode : RetrievalMode) (lists : ℕ) (fused : List (RetrievalResult F × F))
      (z : Call (List (RetrievalResult F)))
      → RerankFits z
      → SearchFits (rerank fl rrf_k top_k fusion_candidates c mode lists fused z)
  unfolding rerank
  rerank-Fits mode lists fused (answers rs) h = h
  rerank-Fits mode lists fused fails h = without_rerank-Fits mode lists fused
  rerank-Fits mode lists fused cancelled h = tt

  module _ (honours : (rs : List (RetrievalResult F)) → RerankFits (c.reranks rs)) where
    after_fusion-Fits :
        (mode : RetrievalMode) (lists : ℕ) (o : Option (List (RetrievalResult F × F)))
        → SearchFits (after_fusion fl rrf_k top_k fusion_candidates c mode lists o)
    unfolding after_fusion
    after_fusion-Fits mode lists none = tt
    after_fusion-Fits mode lists (some []) = omega arith
    after_fusion-Fits mode lists (some (x ∷ fused)) =
        let candidates = firsts (take fusion_candidates (x ∷ fused)) in
        rerank-Fits mode lists (x ∷ fused) (c.reranks candidates) (honours candidates)

    search-Fits : SearchFits (search fl rrf_k top_k fusion_candidates c)
    unfolding search fuse
    search-Fits =
        let vectors = vector_outcome fl rrf_k top_k fusion_candidates c c.embeds in
        let s = is_failed c.embeds || is_failed vectors in
        let k = is_failed c.keywords in
        let lists = nonempty (results_of vectors) (nonempty (results_of c.keywords) []) in
        elim (Bool-cases
          (is_cancelled c.embeds || (is_cancelled vectors || is_cancelled c.keywords))) [
            | inl e ↦ rw (e, search) tt
            | inr e ↦ elim (Bool-cases (s && k)) [
              | inl b ↦ rw (e, b, search, fuse) tt
              | inr b ↦
                  rw (e, b, search, fuse)
                    (after_fusion-Fits (mode_of fl rrf_k top_k fusion_candidates c s k)
                      (count lists) (rrf_scored fl rrf_k lists))
            ]
          ]

    retrieved-Fits : (z : Searched F) → SearchFits z → Fits (retrieved z)
    retrieved-Fits (found rs mode) h = h
    retrieved-Fits unavailable h = tt
    retrieved-Fits search_cancelled h = tt
    retrieved-Fits key_error h = tt

    -- If the reranker returns at most top_k results, then so does retrieve, also when it falls back
    -- to the fused order.
    retrieve-Fits : (query : String) → Fits (retrieve fl rrf_k query top_k fusion_candidates c)
    unfolding retrieve
    retrieve-Fits query = elim (Bool-cases (is_blank query)) [
      | inl b ↦ rw (b, retrieve) (omega arith)
      | inr b ↦ elim (Bool-cases (leb top_k 0)) [
        | inl t ↦ rw (b, t, retrieve) (omega arith)
        | inr t ↦ elim (Bool-cases (leb fusion_candidates 0)) [
          | inl n ↦ rw (b, t, n, retrieve) (omega arith)
          | inr n ↦
              rw (b, t, n, retrieve)
                (retrieved-Fits (search fl rrf_k top_k fusion_candidates c) search-Fits)
        ]
      ]
    ]
