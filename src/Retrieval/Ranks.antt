-- ===== src/Retrieval/Ranks.antt =====
-- What _rrf_scored of server/src/rag/hybrid_retriever.py returns.
use juris_ai.Base.{
  ℕ, suc, String, ◌≡◌, refl, sym, ap, ◌∙◌, subst, ◌⊎◌, inl, inr, ◌↔◌, Option, none, some, List, [],
  ◌∷◌, In, All, Distinct, Bool-cases, ◌==◌, ==→≡,
}
use juris_ai.Base.Dict.{Dict, get, keys, get-put, put_keeps}
use juris_ai.Retrieval.Fusion.{
  Floats, RetrievalResult, Fused, score_or, merge_results, share, merged, fuse_one, fuse_list,
  fuse_lists, sort_scores, collect, rrf_scored,
}
use juris_ai.Retrieval.Order.{
  keys-put, put-Distinct, keys-sort_scores, sort_scores-Distinct, IsSorted, IsAsymmetric,
  sort_scores-IsSorted, sort_scores-All, Finds, entries-Finds,
}
use juris_ai.Retrieval.Scores.{sum_of_shares, fuse_lists-scores}

-- The ids of the chunks of a list, and of all lists.
abbrev pub ids_of : {F : Type 0} → List (RetrievalResult F) → List String
ids_of [] = []
ids_of (r ∷ rs) = r.chunk.id ∷ ids_of rs

abbrev pub Occurs : {F : Type 0} → String → List (List (RetrievalResult F)) → Type 0
Occurs id [] = ⊥
Occurs id (rs ∷ lists) = In id (ids_of rs) ⊎ Occurs id lists

-- The chunk ids of the output with their scores.
abbrev pub ranking : {F : Type 0} → List (RetrievalResult F × F) → List (String × F)
ranking [] = []
ranking ((r, score) ∷ rest) = (r.chunk.id, score) ∷ ranking rest

module _ {F : Type 0} (fl : Floats F) (rrf_k : ℕ) where
  -- Each score has a result of its chunk.
  record Good (s : Fused F) : Type 0 where
    distinct : Distinct (keys s.scores)
    known :
        (id : String)
        → In id (keys s.scores)
        → (r : RetrievalResult F) × (get id s.results ≡ some r)
    named : (id : String) (r : RetrievalResult F) → get id s.results ≡ some r → r.chunk.id ≡ id

  merged-named :
      (o : Option (RetrievalResult F)) (r : RetrievalResult F)
      → ((x : RetrievalResult F) → o ≡ some x → x.chunk.id ≡ r.chunk.id)
      → (merged fl o r).chunk.id ≡ r.chunk.id
  unfolding merged merge_results
  merged-named none r h = refl
  merged-named (some x) r h = h x refl

  fuse_one-Good :
      (rank : ℕ) (r : RetrievalResult F) (s : Fused F) → Good s → Good (fuse_one fl rrf_k rank r s)
  unfolding fuse_one
  fuse_one-Good rank r s g = record {
    distinct = put-Distinct r.chunk.id _ s.scores g.distinct;
    known = λ id m.
        put_keeps r.chunk.id id _ s.results (elim ((keys-put id r.chunk.id _ s.scores).0 m) [
          | inl p ↦ inl (sym p)
          | inr n ↦ inr (g.known id n)
        ]);
    named = λ id x e.
        let new = merged fl (get r.chunk.id s.results) r in
        let here = get-put r.chunk.id id new s.results in
        elim (Bool-cases (r.chunk.id == id)) [
          | inl p ↦
              let same : new ≡ x = cc (here, p, e) in
              sym (ap (λ (z : RetrievalResult F). z.chunk.id) same)
              ∙ merged-named (get r.chunk.id s.results) r (λ y q. g.named r.chunk.id y q)
              ∙ ==→≡ r.chunk.id id p
          | inr p ↦ g.named id x (cc (here, p, e))
        ];
  }

  fuse_list-Good :
      (rank : ℕ) (rs : List (RetrievalResult F)) (s : Fused F)
      → Good s
      → Good (fuse_list fl rrf_k rank rs s)
  unfolding fuse_list
  fuse_list-Good rank [] s g = g
  fuse_list-Good rank (r ∷ rs) s g =
      fuse_list-Good (suc rank) rs (fuse_one fl rrf_k rank r s) (fuse_one-Good rank r s g)

  fuse_lists-Good :
      (lists : List (List (RetrievalResult F))) (s : Fused F)
      → Good s
      → Good (fuse_lists fl rrf_k lists s)
  unfolding fuse_lists
  fuse_lists-Good [] s g = g
  fuse_lists-Good (rs ∷ lists) s g =
      fuse_lists-Good lists (fuse_list fl rrf_k 1 rs s) (fuse_list-Good 1 rs s g)

  fuse_list-keys :
      (id : String) (rank : ℕ) (rs : List (RetrievalResult F)) (s : Fused F)
      → In id (keys (fuse_list fl rrf_k rank rs s).scores)
        ↔ (In id (ids_of rs) ⊎ In id (keys s.scores))
  unfolding fuse_list fuse_one
  fuse_list-keys id rank [] s = (λ m. inr m, λ h. elim h [ inl m ↦ absurd m | inr m ↦ m ])
  fuse_list-keys id rank (r ∷ rs) s =
      let rest = fuse_list-keys id (suc rank) rs (fuse_one fl rrf_k rank r s) in
      let here =
        keys-put id r.chunk.id
          (fl.add (score_or fl.zero (get r.chunk.id s.scores)) (share fl rrf_k rank)) s.scores in
      (
        λ m. elim (rest.0 m) [
          | inl n ↦ inl (inr n)
          | inr n ↦ elim (here.0 n) [ inl p ↦ inl (inl p) | inr l ↦ inr l ]
        ],
        λ h. elim h [
          | inl m ↦ elim m [ inl p ↦ rest.1 (inr (here.1 (inl p))) | inr n ↦ rest.1 (inl n) ]
          | inr n ↦ rest.1 (inr (here.1 (inr n)))
        ],
      )

  fuse_lists-keys :
      (id : String) (lists : List (List (RetrievalResult F))) (s : Fused F)
      → In id (keys (fuse_lists fl rrf_k lists s).scores)
        ↔ (Occurs id lists ⊎ In id (keys s.scores))
  unfolding fuse_lists
  fuse_lists-keys id [] s = (λ m. inr m, λ h. elim h [ inl m ↦ absurd m | inr m ↦ m ])
  fuse_lists-keys id (rs ∷ lists) s =
      let rest = fuse_lists-keys id lists (fuse_list fl rrf_k 1 rs s) in
      let here = fuse_list-keys id 1 rs s in
      (
        λ m. elim (rest.0 m) [
          | inl n ↦ inl (inr n)
          | inr n ↦ elim (here.0 n) [ inl p ↦ inl (inl p) | inr l ↦ inr l ]
        ],
        λ h. elim h [
          | inl m ↦ elim m [ inl p ↦ rest.1 (inr (here.1 (inl p))) | inr n ↦ rest.1 (inl n) ]
          | inr n ↦ rest.1 (inr (here.1 (inr n)))
        ],
      )

  collect-ranking :
      (results : Dict (RetrievalResult F)) (xs : List (String × F))
      → ((id : String)
          → In id (keys xs)
          → (r : RetrievalResult F) × (get id results ≡ some r) × (r.chunk.id ≡ id))
      → (out : List (RetrievalResult F × F)) × (collect fl results xs ≡ some out)
        × (ranking out ≡ xs)
  unfolding collect
  collect-ranking results [] h = ([], refl, refl)
  collect-ranking results ((id, score) ∷ xs) h =
      let (r, e, n) = h id (inl refl) in
      let (out, f, same) = collect-ranking results xs (λ j m. h j (inr m)) in
      ((r, score) ∷ out, rw (e, f) refl, cc (n, same))

  -- What is returned.
  pub record IsFusion (lists : List (List (RetrievalResult F))) (out : List (RetrievalResult F × F))
      : Type 0 where
    pub distinct : Distinct (keys (ranking out))
    pub complete : (id : String) → In id (keys (ranking out)) ↔ Occurs id lists
    pub sorted : IsSorted fl (ranking out)
    pub scores : All (λ x. sum_of_shares fl rrf_k x.0 lists none ≡ some x.1) (ranking out)

  -- If of two floats at most one is less than the other, the fusion of ranked lists returns without
  -- a KeyError, with each chunk of the lists once and no other, no score followed by a higher one,
  -- and for each chunk the sum of 1 / (rrf_k + rank) over its occurrences.
  pub rrf_scored-IsFusion :
      (lists : List (List (RetrievalResult F)))
      → IsAsymmetric fl
      → (out : List (RetrievalResult F × F)) × (rrf_scored fl rrf_k lists ≡ some out)
        × IsFusion lists out
  unfolding rrf_scored
  rrf_scored-IsFusion lists asym =
      let none_yet : Fused F = record { scores = []; results = [] } in
      let s = fuse_lists fl rrf_k lists none_yet in
      let g =
        fuse_lists-Good lists none_yet
          (record { distinct = tt; known = λ id m. absurd m; named = λ id r e. cc }) in
      let sorted = sort_scores fl s.scores in
      let (out, e, same) = collect-ranking s.results sorted (λ id m.
        let (r, f) = g.known id ((keys-sort_scores fl id s.scores).0 m) in
        (r, f, g.named id r f)) in
      let finds : All (λ x. sum_of_shares fl rrf_k x.0 lists none ≡ some x.1) s.scores =
        All-convert s.scores s.scores
          (λ x p. sym (fuse_lists-scores fl rrf_k x.0 lists none_yet) ∙ p)
          (entries-Finds s.scores g.distinct) in
      (
        out,
        e,
        record {
          distinct =
              subst (λ z. Distinct (keys z)) (sym same)
                (sort_scores-Distinct fl s.scores g.distinct);
          complete = λ id.
              let here = keys-sort_scores fl id s.scores in
              let all = fuse_lists-keys id lists none_yet in
              (
                λ m. elim (all.0 (here.0 (subst (λ z. In id (keys z)) same m))) [
                  | inl o ↦ o
                  | inr n ↦ absurd n
                ],
                λ o. subst (λ z. In id (keys z)) (sym same) (here.1 (all.1 (inl o))),
              );
          sorted = subst (IsSorted fl) (sym same) (sort_scores-IsSorted fl asym s.scores);
          scores = subst (All (λ x. sum_of_shares fl rrf_k x.0 lists none ≡ some x.1)) (sym same) (
              sort_scores-All fl (λ x. sum_of_shares fl rrf_k x.0 lists none ≡ some x.1) s.scores
                finds);
        },
      )
    where
      All-convert :
          (d xs : List (String × F))
          → ((x : String × F)
              → get x.0 d ≡ some x.1
              → sum_of_shares fl rrf_k x.0 lists none ≡ some x.1)
          → All (Finds d) xs
          → All (λ x. sum_of_shares fl rrf_k x.0 lists none ≡ some x.1) xs
      All-convert d [] f h = tt
      All-convert d (x ∷ xs) f h = (f x h.0, All-convert d xs f h.1)
