-- ===== src/Retrieval/Fusion.antt =====
-- server/src/rag/hybrid_retriever.py, the fusion of ranked lists: _rrf_scored, _merge_results and
-- _rescaled. Floats are a parameter, with the operations that the code uses.
use juris_ai.Base.{
  ℕ, suc, ◌+◌, String, Bool, ◌&&◌, Option, none, some, List, [], ◌∷◌, leb, ◌==◌, if◌then◌else◌,
}
use juris_ai.Base.Dict.{Dict, get, put}

pub record Floats (F : Type 0) : Type 0 where
  pub zero : F
  pub one : F
  pub add : F → F → F
  pub divide : F → F → F
  pub of_num : ℕ → F
  pub less : F → F → Bool

pub record Chunk : Type 0 where
  pub id : String
  pub text : String
  pub metadata : Dict String
  pub source : Option String

pub record Embedding (F : Type 0) : Type 0 where
  pub model_name : String
  pub dimension : ℕ
  pub vector : List F

pub record RetrievalResult (F : Type 0) : Type 0 where
  pub chunk : Chunk
  pub score : F
  pub embeddings : List (Embedding F)

abbrev pub same_model : {F : Type 0} → Embedding F → Embedding F → Bool
same_model a b =
    (a.model_name == b.model_name) && (leb a.dimension b.dimension && leb b.dimension a.dimension)

-- The dict comprehension: a later embedding takes the place of the one with its key.
unfoldable pub put_embedding : {F : Type 0} → Embedding F → List (Embedding F) → List (Embedding F)
put_embedding e [] = e ∷ []
put_embedding e (x ∷ xs) = if same_model x e then e ∷ xs else x ∷ put_embedding e xs

unfoldable pub put_embeddings :
    {F : Type 0} → List (Embedding F) → List (Embedding F) → List (Embedding F)
unfolding put_embedding
put_embeddings [] found = found
put_embeddings (e ∷ es) found = put_embeddings es (put_embedding e found)

-- embeddings.setdefault(key, embedding)
unfoldable pub set_default : {F : Type 0} → Embedding F → List (Embedding F) → List (Embedding F)
set_default e [] = e ∷ []
set_default e (x ∷ xs) = if same_model x e then x ∷ xs else x ∷ set_default e xs

unfoldable pub set_defaults :
    {F : Type 0} → List (Embedding F) → List (Embedding F) → List (Embedding F)
unfolding set_default
set_defaults [] found = found
set_defaults (e ∷ es) found = set_defaults es (set_default e found)

-- What the loops over the lists build.
pub record Fused (F : Type 0) : Type 0 where
  pub scores : Dict F
  pub results : Dict (RetrievalResult F)

abbrev pub score_or : {F : Type 0} → F → Option F → F
score_or z none = z
score_or z (some a) = a

module _ {F : Type 0} (fl : Floats F) where
  -- max and min of Python, which keep the first of equal values.
  abbrev pub max_of : F → F → F
  max_of a b = if fl.less a b then b else a

  abbrev pub min_of : F → F → F
  min_of a b = if fl.less b a then b else a

  -- _merge_results
  unfoldable pub merge_results : RetrievalResult F → RetrievalResult F → RetrievalResult F
  unfolding put_embeddings set_defaults
  merge_results first second = record {
    chunk = first.chunk;
    score = max_of first.score second.score;
    embeddings = set_defaults second.embeddings (put_embeddings first.embeddings []);
  }

  -- 1.0 / (rrf_k + rank)
  abbrev pub share : (rrf_k rank : ℕ) → F
  share rrf_k rank = fl.divide fl.one (fl.of_num (rrf_k + rank))

  unfoldable pub merged : Option (RetrievalResult F) → RetrievalResult F → RetrievalResult F
  unfolding merge_results
  merged none r = r
  merged (some existing) r = merge_results existing r

  -- The body of the loops.
  unfoldable pub fuse_one : (rrf_k rank : ℕ) → RetrievalResult F → Fused F → Fused F
  unfolding merged
  fuse_one rrf_k rank r s = record {
    scores =
        put r.chunk.id (fl.add (score_or fl.zero (get r.chunk.id s.scores)) (share rrf_k rank))
          s.scores;
    results = put r.chunk.id (merged (get r.chunk.id s.results) r) s.results;
  }

  -- enumerate(ranked_results, start=1)
  unfoldable pub fuse_list : (rrf_k rank : ℕ) → List (RetrievalResult F) → Fused F → Fused F
  unfolding fuse_one
  fuse_list rrf_k rank [] s = s
  fuse_list rrf_k rank (r ∷ rs) s = fuse_list rrf_k (suc rank) rs (fuse_one rrf_k rank r s)

  unfoldable pub fuse_lists : ℕ → List (List (RetrievalResult F)) → Fused F → Fused F
  unfolding fuse_list
  fuse_lists rrf_k [] s = s
  fuse_lists rrf_k (rs ∷ lists) s = fuse_lists rrf_k lists (fuse_list rrf_k 1 rs s)

  -- sorted(…, reverse=True): the order of equal scores stays.
  unfoldable pub insert_score : String × F → List (String × F) → List (String × F)
  insert_score x [] = x ∷ []
  insert_score x (y ∷ ys) =
      let rest = insert_score x ys in if fl.less x.1 y.1 then y ∷ rest else x ∷ y ∷ ys

  unfoldable pub sort_scores : List (String × F) → List (String × F)
  unfolding insert_score
  sort_scores [] = []
  sort_scores (x ∷ xs) = insert_score x (sort_scores xs)

  abbrev pub and_then :
      Option (RetrievalResult F)
      → F
      → Option (List (RetrievalResult F × F))
      → Option (List (RetrievalResult F × F))
  and_then (some r) score (some rest) = some ((r, score) ∷ rest)
  and_then _ score _ = none

  -- results_by_chunk_id[chunk_id] for each of the ids; `none` is a KeyError.
  unfoldable pub collect :
      Dict (RetrievalResult F) → List (String × F) → Option (List (RetrievalResult F × F))
  collect results [] = some []
  collect results ((id, score) ∷ rest) = and_then (get id results) score (collect results rest)

  -- _rrf_scored
  unfoldable pub rrf_scored :
      ℕ → List (List (RetrievalResult F)) → Option (List (RetrievalResult F × F))
  unfolding fuse_lists sort_scores collect
  rrf_scored rrf_k lists =
      let s = fuse_lists rrf_k lists (record { scores = []; results = [] }) in
      collect s.results (sort_scores s.scores)

  -- _rescaled
  unfoldable pub rescaled :
      (rrf_k lists : ℕ) → List (RetrievalResult F × F) → List (RetrievalResult F)
  rescaled rrf_k lists [] = []
  rescaled rrf_k lists ((r, score) ∷ rest) =
      let best_possible = fl.divide (fl.of_num lists) (fl.of_num (rrf_k + 1)) in
      record r { score = min_of (fl.divide score best_possible) fl.one } ∷ rescaled rrf_k lists rest
