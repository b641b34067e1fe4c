-- ===== src/Routing/Task.antt =====
-- How `Router.select` settles the task: declared, cached, predicted, or by keywords. Lower-casing
-- is the argument `lower`; the classifier is held by its `predict`.
use text.Mathlib.Text.{find?}
use production_local_llm_inf.Prelude.{
  Bool, Option, none, some, List, [], ◌∷◌, String, any, is_some, if◌then◌else◌,
}
use production_local_llm_inf.Models.{TaskSource}
use production_local_llm_inf.Models.Enums.{TaskClass, Complexity}

-- `RoutingPrediction` of src/llm_router/classifier.py.
pub record RoutingPrediction (F : Type 0) : Type 0 where
  pub task : TaskClass
  pub task_confidence : F
  pub complexity : Complexity
  pub complexity_confidence : F
  pub trusted : Bool

-- The table of `_keyword_task`, in its order.
abbrev keywords : List (TaskClass × List String)
keywords =
    (TaskClass.extraction, "extract" ∷ "json schema" ∷ "fields from" ∷ [])
    ∷ (TaskClass.classification, "classify" ∷ "choose one label" ∷ "category" ∷ [])
    ∷ (TaskClass.summarization, "summarize" ∷ "summary" ∷ [])
    ∷ (TaskClass.critique, "critique" ∷ "find flaws" ∷ [])
    ∷ (TaskClass.reasoning, "reason step" ∷ "prove" ∷ "analyze deeply" ∷ [])
    ∷ (TaskClass.rag, "provided context" ∷ "according to the documents" ∷ [])
    ∷ []

-- `any(term in prompt for term in terms)`.
abbrev mentions : String → List String → Bool
mentions text_ terms = any (λ term. is_some (find? text_ term)) terms

unfoldable pub first_task : String → List (TaskClass × List String) → TaskClass
first_task text_ [] = TaskClass.general
first_task text_ ((task, terms) ∷ rows) =
    if mentions text_ terms then task else first_task text_ rows

unfoldable pub keyword_task : (String → String) → String → TaskClass
unfolding first_task any
keyword_task lower text_ = first_task (lower text_) keywords

pub record Settled (F : Type 0) : Type 0 where
  pub task : TaskClass
  pub source : TaskSource
  pub confidence : Option F

module _ {F : Type 0} where
  abbrev predicted : RoutingPrediction F → Settled F
  predicted p = record {
    task = p.task;
    source = if p.trusted then TaskSource.classifier else TaskSource.abstained;
    confidence = some p.task_confidence;
  }

  abbrev settled : TaskClass → TaskSource → Settled F
  settled task source = record { task = task; source = source; confidence = none }

  -- The `if`/`elif` chain, over the declared task, the cached one and the prediction.
  unfoldable pub settle :
      (String → String)
      → String
      → Option TaskClass
      → Option TaskClass
      → Option (RoutingPrediction F)
      → Settled F
  unfolding keyword_task
  settle lower text_ (some task) cached prediction = settled task TaskSource.declared
  settle lower text_ none (some task) prediction = settled task TaskSource.cached
  settle lower text_ none none (some p) = predicted p
  settle lower text_ none none none = settled (keyword_task lower text_) TaskSource.keyword

  -- `classify_task`.
  unfoldable pub classify_task :
      (String → String)
      → Option (String → RoutingPrediction F)
      → Option TaskClass
      → String
      → TaskClass
  unfolding keyword_task
  classify_task lower classifier (some task) text_ = task
  classify_task lower (some predict) none text_ = (predict text_).task
  classify_task lower none none text_ = keyword_task lower text_
