-- ===== src/Retrieval/Scores.antt =====
-- The scores that _rrf_scored of server/src/rag/hybrid_retriever.py adds up.
use juris_ai.Base.{
  ℕ, suc, String, ◌≡◌, refl, ap, ◌∙◌, inl, inr, Option, some, List, [], ◌∷◌, if◌then◌else◌,
  Bool-cases, ◌==◌, ==→≡,
}
use juris_ai.Base.Dict.{get, get-put}
use juris_ai.Retrieval.Fusion.{
  Floats, RetrievalResult, Fused, score_or, share, fuse_one, fuse_list, fuse_lists,
}

module _ {F : Type 0} (fl : Floats F) (rrf_k : ℕ) where
  -- The sum of the shares of one chunk, in the order of its occurrences.
  abbrev pub sum_in : String → ℕ → List (RetrievalResult F) → Option F → Option F
  sum_in id rank [] o = o
  sum_in id rank (r ∷ rs) o =
      sum_in id (suc rank) rs
        (if r.chunk.id == id then some (fl.add (score_or fl.zero o) (share fl rrf_k rank)) else o)

  abbrev pub sum_of_shares : String → List (List (RetrievalResult F)) → Option F → Option F
  sum_of_shares id [] o = o
  sum_of_shares id (rs ∷ lists) o = sum_of_shares id lists (sum_in id 1 rs o)

  fuse_one-scores :
      (id : String) (rank : ℕ) (r : RetrievalResult F) (s : Fused F)
      → get id (fuse_one fl rrf_k rank r s).scores ≡ (
          if r.chunk.id == id
          then some (fl.add (score_or fl.zero (get id s.scores)) (share fl rrf_k rank))
          else get id s.scores)
  unfolding fuse_one
  fuse_one-scores id rank r s =
      let here =
        get-put r.chunk.id id
          (fl.add (score_or fl.zero (get r.chunk.id s.scores)) (share fl rrf_k rank)) s.scores in
      elim (Bool-cases (r.chunk.id == id)) [
        | inl e ↦
            let same =
              ap (λ z. some (fl.add (score_or fl.zero (get z s.scores)) (share fl rrf_k rank)))
                (==→≡ r.chunk.id id e) in
            rw e (cc (here, e, same))
        | inr e ↦ rw e (cc (here, e))
      ]

  fuse_list-scores :
      (id : String) (rank : ℕ) (rs : List (RetrievalResult F)) (s : Fused F)
      → get id (fuse_list fl rrf_k rank rs s).scores ≡ sum_in id rank rs (get id s.scores)
  unfolding fuse_list
  fuse_list-scores id rank [] s = refl
  fuse_list-scores id rank (r ∷ rs) s =
      fuse_list-scores id (suc rank) rs (fuse_one fl rrf_k rank r s)
      ∙ ap (sum_in id (suc rank) rs) (fuse_one-scores id rank r s)

  pub fuse_lists-scores :
      (id : String) (lists : List (List (RetrievalResult F))) (s : Fused F)
      → get id (fuse_lists fl rrf_k lists s).scores ≡ sum_of_shares id lists (get id s.scores)
  unfolding fuse_lists
  fuse_lists-scores id [] s = refl
  fuse_lists-scores id (rs ∷ lists) s =
      fuse_lists-scores id lists (fuse_list fl rrf_k 1 rs s)
      ∙ ap (sum_of_shares id lists) (fuse_list-scores id 1 rs s)
