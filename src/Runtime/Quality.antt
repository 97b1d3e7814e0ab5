-- ===== src/Runtime/Quality.antt =====
-- AnswerQualityPolicy of server/src/agentic/evaluation/answer.py. A score is a natural number: the
-- policy only compares scores.
use juris_ai.Base.{
  ℕ, Bool, true, false, not, ◌&&◌, ◌||◌, Option, none, some, ltb, leb, if◌then◌else◌,
}

pub record GroundednessResult : Type 0 where
  pub score : ℕ
  pub applicable : Bool
  pub judge_unavailable : Bool

pub record AnswerEvaluationResult : Type 0 where
  pub groundedness : ℕ
  pub relevance : ℕ
  pub completeness : ℕ
  pub correctness : Option ℕ
  pub citation_precision : ℕ
  pub citation_coverage : ℕ
  pub groundedness_detail : GroundednessResult
  pub relevance_unavailable : Bool

pub record AnswerEvaluationSummary : Type 0 where
  pub groundedness : Option ℕ
  pub relevance : Option ℕ
  pub verified : Bool

pub record AnswerQualityPolicy : Type 0 where
  pub min_groundedness : ℕ
  pub min_relevance : ℕ
  pub min_correctness : ℕ
  pub min_citation_precision : ℕ
  pub min_citation_coverage : ℕ
  pub enforce_citations : Bool
  pub require_evidence : Bool

abbrev pub is_below : Option ℕ → ℕ → Bool
is_below none bound = false
is_below (some n) bound = ltb n bound

module _ (policy : AnswerQualityPolicy) (result : AnswerEvaluationResult) where
  abbrev pub groundedness_ok : Bool
  groundedness_ok =
      not result.groundedness_detail.applicable || leb policy.min_groundedness result.groundedness

  unfoldable pub is_sufficient : Bool
  is_sufficient =
      if not result.groundedness_detail.applicable && policy.require_evidence
      then false
      else if not (groundedness_ok && leb policy.min_relevance result.relevance)
      then false
      else if is_below result.correctness policy.min_correctness
      then false
      else if not policy.enforce_citations
      then true
      else leb policy.min_citation_precision result.citation_precision
        && leb policy.min_citation_coverage result.citation_coverage
