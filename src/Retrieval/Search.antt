-- ===== src/Retrieval/Search.antt =====
-- HybridRetriever._search and retrieve of server/src/rag/hybrid_retriever.py, with the outcomes of
-- the outside components (embedding, the two stores, the reranker) as arguments.
use juris_ai.Base.{
  ℕ, suc, String, Bool, true, false, ◌&&◌, ◌||◌, Option, none, some, List, [], ◌∷◌, take,
  if◌then◌else◌, leb,
}
use juris_ai.Base.Text.{is_blank}
use juris_ai.Retrieval.Fusion.{Floats, RetrievalResult, rrf_scored, rescaled}

-- An outside call: it answers, raises an exception, or is cancelled.
pub data Call (A : Type 0) : Type 0 where
  answers : A → Call A
  fails : Call A
  cancelled : Call A

pub data RetrievalMode : Type 0 where
  full no_rerank keyword_only vector_only : RetrievalMode

-- How a search ends: with results, with RetrievalUnavailableError, with a cancellation, or with the
-- KeyError of the fusion.
pub data Searched (F : Type 0) : Type 0 where
  found : List (RetrievalResult F) → RetrievalMode → Searched F
  unavailable : Searched F
  search_cancelled : Searched F
  key_error : Searched F

-- What the components do in one search: the vector store is only asked if the query is embedded,
-- and the reranker only if there is something to rank.
pub record Components (F : Type 0) : Type 0 where
  pub embeds : Call (List F)
  pub vectors : List F → Call (List (RetrievalResult F))
  pub keywords : Call (List (RetrievalResult F))
  pub reranks : List (RetrievalResult F) → Call (List (RetrievalResult F))

abbrev pub is_cancelled : {A : Type 0} → Call A → Bool
is_cancelled cancelled = true
is_cancelled _ = false

abbrev pub is_failed : {A : Type 0} → Call A → Bool
is_failed fails = true
is_failed _ = false

abbrev pub results_of : {A : Type 0} → Call (List A) → List A
results_of (answers rs) = rs
results_of _ = []

-- [results for results in (vector_results, keyword_results) if results]
abbrev pub nonempty : {A : Type 0} → List A → List (List A) → List (List A)
nonempty [] lists = lists
nonempty (r ∷ rs) lists = (r ∷ rs) ∷ lists

abbrev pub firsts : {A B : Type 0} → List (A × B) → List A
firsts [] = []
firsts ((a, b) ∷ rest) = a ∷ firsts rest

abbrev pub count : {A : Type 0} → List A → ℕ
count [] = 0
count (x ∷ xs) = suc (count xs)

module _ {F : Type 0} (fl : Floats F) (rrf_k top_k fusion_candidates : ℕ) (c : Components F) where
  abbrev pub mode_of : (semantic_down keyword_down : Bool) → RetrievalMode
  mode_of true keyword_down = keyword_only
  mode_of false true = vector_only
  mode_of false false = full

  -- The handler of a failed reranker.
  unfoldable pub without_rerank : RetrievalMode → ℕ → List (RetrievalResult F × F) → Searched F
  unfolding rescaled
  without_rerank full lists fused = found (take top_k (rescaled fl rrf_k lists fused)) no_rerank
  without_rerank _ lists fused = unavailable

  unfoldable pub rerank :
      RetrievalMode
      → ℕ
      → List (RetrievalResult F × F)
      → Call (List (RetrievalResult F))
      → Searched F
  unfolding without_rerank
  rerank mode lists fused (answers rs) = found rs mode
  rerank mode lists fused fails = without_rerank mode lists fused
  rerank mode lists fused cancelled = search_cancelled

  unfoldable pub after_fusion :
      RetrievalMode → ℕ → Option (List (RetrievalResult F × F)) → Searched F
  unfolding rerank
  after_fusion mode lists none = key_error
  after_fusion mode lists (some []) = found [] mode
  after_fusion mode lists (some (x ∷ fused)) =
      rerank mode lists (x ∷ fused) (c.reranks (firsts (take fusion_candidates (x ∷ fused))))

  -- What follows the two stores; `semantic_down` if the embedding or the vector store failed.
  unfoldable pub fuse :
      (semantic_down keyword_down : Bool)
      → (vectors keywords : List (RetrievalResult F)) → Searched F
  unfolding after_fusion rrf_scored
  fuse semantic_down keyword_down vectors keywords =
      let lists = nonempty vectors (nonempty keywords []) in
      if semantic_down && keyword_down
      then unavailable
      else after_fusion (mode_of semantic_down keyword_down) (count lists)
          (rrf_scored fl rrf_k lists)

  -- The outcome of the vector store: an empty list, if there is no vector of the query.
  abbrev pub vector_outcome : Call (List F) → Call (List (RetrievalResult F))
  vector_outcome (answers v) = c.vectors v
  vector_outcome _ = answers []

  -- _search
  unfoldable pub search : Searched F
  unfolding fuse
  search =
      let vectors = vector_outcome c.embeds in
      if is_cancelled c.embeds || (is_cancelled vectors || is_cancelled c.keywords)
      then search_cancelled
      else fuse (is_failed c.embeds || is_failed vectors) (is_failed c.keywords)
          (results_of vectors) (results_of c.keywords)

-- How retrieve ends; every other exception of the search becomes a RAGError.
pub data Retrieved (F : Type 0) : Type 0 where
  results : List (RetrievalResult F) → Retrieved F
  unavailable_error : Retrieved F
  rag_error : Retrieved F
  retrieval_cancelled : Retrieved F

abbrev pub retrieved : {F : Type 0} → Searched F → Retrieved F
retrieved (found rs mode) = results rs
retrieved unavailable = unavailable_error
retrieved search_cancelled = retrieval_cancelled
retrieved key_error = rag_error

-- retrieve; a negative number takes the branch of 0.
unfoldable pub retrieve :
    {F : Type 0} (fl : Floats F) (rrf_k : ℕ)
    → String
    → (top_k fusion_candidates : ℕ) → Components F
    → Retrieved F
unfolding search is_blank
retrieve fl rrf_k query top_k fusion_candidates c =
    if is_blank query
    then results []
    else if leb top_k 0
    then results []
    else if leb fusion_candidates 0
    then results []
    else retrieved (search fl rrf_k top_k fusion_candidates c)
