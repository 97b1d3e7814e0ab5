-- ===== src/Runtime/Content.antt =====
-- What an agent reasons from: RetrievedContentDTO of core/dto/tool.py, tools/result.py,
-- tools/runtime/result_converter.py, agents/runtime/feedback.py. A score is kept as a value of JSON.
use juris_ai.Base.{
  String, Bool, false, not, ◌&&◌, Option, none, some, List, [], ◌∷◌, elem, if◌then◌else◌, ◌==◌,
}
use juris_ai.Base.Json.{Json, bool, str}
use juris_ai.Base.Dict.{Dict, get, put}

pub data RetrievalSource : Type 0 where
  web document vector database memory : RetrievalSource

pub record RetrievedContent : Type 0 where
  pub source : RetrievalSource
  pub source_name : String
  pub content : String
  pub score : Option Json
  pub metadata : Dict Json

pub record ToolEvidence : Type 0 where
  pub content : String
  pub score : Option Json
  pub source : Option String
  pub metadata : Dict Json

pub record ToolResult : Type 0 where
  pub tool_name : String
  pub success : Bool
  pub content : String
  pub evidence : List ToolEvidence
  pub execution_metadata : Dict Json
  pub error : Option String

-- RetrievalSourceEnum(source), MEMORY for a source that is missing or is no member
unfoldable pub resolve_source : Option String → RetrievalSource
resolve_source none = memory
resolve_source (some source) =
    if source == "web"
    then web
    else if source == "document"
    then document
    else if source == "vector"
    then vector
    else if source == "database"
    then database
    else memory

-- {**d, **later}
abbrev pub merge : Dict Json → Dict Json → Dict Json
merge d [] = d
merge d ((k, v) ∷ later) = merge (put k v d) later

unfoldable pub to_retrieved_content :
    ToolResult → String → Option Json → Option String → Dict Json → RetrievedContent
unfolding resolve_source
to_retrieved_content result content score source metadata = record {
  source = resolve_source source;
  source_name = result.tool_name;
  content = content;
  score = score;
  metadata =
      merge
        (put "tool_success" (bool result.success) (put "tool_name" (str result.tool_name) metadata))
        result.execution_metadata;
}

abbrev pub from_evidence : ToolResult → List ToolEvidence → List RetrievedContent
unfolding to_retrieved_content
from_evidence result [] = []
from_evidence result (e ∷ es) =
    let rest = from_evidence result es in
    if e.content == ""
    then rest
    else to_retrieved_content result e.content e.score e.source e.metadata ∷ rest

-- Evidence before content
unfoldable pub to_reasoning_context : ToolResult → List RetrievedContent
unfolding to_retrieved_content
to_reasoning_context result = from result.evidence
  where
    from : List ToolEvidence → List RetrievedContent
    from [] =
        if result.content == ""
        then []
        else to_retrieved_content result result.content none none [] ∷ []
    from (e ∷ es) = from_evidence result (e ∷ es)

abbrev pub runtime_feedback_type : String
runtime_feedback_type = "runtime_feedback"

abbrev pub feedback_source_types : List String
feedback_source_types =
    "evaluation_feedback" ∷ "corrective_retrieval_feedback" ∷ "runtime_feedback" ∷ []

-- item.metadata.get("source_type") in FEEDBACK_SOURCE_TYPES
abbrev pub names_feedback : Option Json → Bool
names_feedback (some (str s)) = elem s feedback_source_types
names_feedback _ = false

unfoldable pub is_feedback : RetrievedContent → Bool
is_feedback item = names_feedback (get "source_type" item.metadata)

-- A note of the runtime or of the gate
unfoldable pub note : (source_name source_type content : String) → RetrievedContent
note source_name source_type content = record {
  source = memory;
  source_name = source_name;
  content = content;
  score = none;
  metadata = ("source_type", str source_type) ∷ [];
}

unfoldable pub runtime_feedback : String → RetrievedContent
unfolding note
runtime_feedback content = note runtime_feedback_type runtime_feedback_type content

-- tools/retrieval.py: what the retriever says when it found nothing
abbrev pub non_evidence_content : List String
non_evidence_content =
    "No relevant content found." ∷ "Retrieval failed — please try again."
    ∷ "Retrieval is temporarily unavailable, so no sources could be searched." ∷ []

abbrev pub is_evidence_text : String → Bool
is_evidence_text content = not (elem content non_evidence_content)

abbrev pub keep_if : (RetrievedContent → Bool) → List RetrievedContent → List RetrievedContent
keep_if test [] = []
keep_if test (x ∷ xs) = let rest = keep_if test xs in if test x then x ∷ rest else rest

-- _evidence_items
unfoldable pub evidence_items : List RetrievedContent → List RetrievedContent
unfolding is_feedback
evidence_items context =
    keep_if (λ item. not (is_feedback item) && is_evidence_text item.content) context

abbrev pub contents : List RetrievedContent → List String
contents [] = []
contents (x ∷ xs) = x.content ∷ contents xs
