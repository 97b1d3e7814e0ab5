-- ===== src/Examples/Searches.antt =====
-- Searches of server/src/rag/hybrid_retriever.py with numbers in place of floats, 1000 for one.
use Prim.Native.Nat.{◌/◌}
use juris_ai.Base.{ℕ, ◌+◌, ◌≡◌, refl, String, false, none, some, List, [], ◌∷◌, ltb, arith}
use juris_ai.Retrieval.Fusion.{Floats, RetrievalResult, rrf_scored}
use juris_ai.Retrieval.Order.{IsAsymmetric}
use juris_ai.Retrieval.Ranks.{IsFusion, rrf_scored-IsFusion}
use juris_ai.Retrieval.Search.{answers, fails, Components, search, found, vector_only, unavailable}
use juris_ai.Retrieval.Degraded.{NotCancelled, Answers, search-Answers}

abbrev fixed : Floats ℕ
fixed = record {
  zero = 0;
  one = 1000;
  add = λ a b. a + b;
  divide = λ a b. a / b;
  of_num = λ n. n;
  less = ltb;
}

ltb-IsAsymmetric : IsAsymmetric fixed
ltb-IsAsymmetric a b e = ground arith

abbrev result : String → RetrievalResult ℕ
result id = record {
  chunk = record { id = id; text = "section"; metadata = []; source = none };
  score = 1;
  embeddings = [];
}

abbrev by_vector : List (RetrievalResult ℕ)
by_vector = result "a" ∷ result "b" ∷ []

abbrev by_keyword : List (RetrievalResult ℕ)
by_keyword = result "b" ∷ result "c" ∷ []

abbrev lists : List (List (RetrievalResult ℕ))
lists = by_vector ∷ by_keyword ∷ []

rrf_scored-IsFusion_example :
    (out : List (RetrievalResult ℕ × ℕ)) × (rrf_scored fixed 1 lists ≡ some out)
    × IsFusion fixed 1 lists out
rrf_scored-IsFusion_example = rrf_scored-IsFusion fixed 1 lists ltb-IsAsymmetric

-- The keyword store is down.
abbrev components : Components ℕ
components = record {
  embeds = answers (1 ∷ []);
  vectors = λ v. answers by_vector;
  keywords = fails;
  reranks = λ rs. answers (result "b" ∷ []);
}

components-NotCancelled : NotCancelled fixed 1 3 20 components
components-NotCancelled = record {
  embeds = refl;
  vectors = refl;
  keywords = refl;
  reranks = λ rs. refl;
}

search-Answers_example : Answers fixed 1 3 20 components (search fixed 1 3 20 components)
search-Answers_example =
    search-Answers fixed 1 3 20 components false components-NotCancelled (λ rs e. e) (omega arith)
      ltb-IsAsymmetric

search-components : search fixed 1 3 20 components ≡ found (result "b" ∷ []) vector_only
unfolding search
search-components = refl

-- The reranker is down as well.
search-two_down : search fixed 1 3 20 (record components { reranks = λ rs. fails }) ≡ unavailable
unfolding search
search-two_down = refl
