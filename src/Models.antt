-- ===== src/Models.antt =====
-- src/llm_router/models.py: requests, model profiles and route decisions, over the floats `F`.
-- A frozenset is the list of its members; a union of string literals is an enumeration.
pub mod Enums
pub mod Values
use Prim.Native.String.{String, ◌++◌, count}
use production_local_llm_inf.Prelude.{
  ℕ, ◌/◌, ◌+◌, max, Bool, true, false, Option, none, some, List, [], ◌∷◌, Eq,
}
use production_local_llm_inf.Prelude.Dict.{Dict, get}
use Enums.{TaskClass, PrivacyClass, Modality, LatencyTier, Complexity, task_eq}

pub data Role : Type 0 where
  system user assistant tool : Role

pub record ChatMessage : Type 0 where
  pub role : Role
  pub content : String

pub record RoutingOptions (F : Type 0) : Type 0 where
  pub task : Option TaskClass
  pub domain : Option String
  pub privacy : PrivacyClass
  pub latency_tier : LatencyTier
  pub quality_floor : F
  pub allow_external_fallback : Bool
  pub structured : Bool
  pub modalities : List Modality

pub record ChatCompletionRequest (F : Type 0) : Type 0 where
  pub model : String
  pub messages : List ChatMessage
  pub max_tokens : ℕ
  pub temperature : F
  pub stream : Bool
  pub routing : RoutingOptions F

-- `separator.join(texts)`.
unfoldable pub join : String → List String → String
join sep [] = ""
join sep (t ∷ []) = t
join sep (t ∷ u ∷ ts) = t ++ (sep ++ join sep (u ∷ ts))

contents : List ChatMessage → List String
contents [] = []
contents (m ∷ ms) = m.content ∷ contents ms

unfoldable pub prompt : {F : Type 0} → ChatCompletionRequest F → String
unfolding join contents
prompt request = join "\n" (contents request.messages)

pub record ModelProfile (F : Type 0) : Type 0 where
  pub id : String
  pub revision : String
  pub local : Bool
  pub healthy : Bool
  pub context_limit : ℕ
  pub supported_tasks : List TaskClass
  pub quality : F
  pub estimated_queue_ms : ℕ
  pub cost_weight : F
  pub quality_by_task : Dict TaskClass F
  pub supports_structured_output : Bool
  pub modalities : List Modality

-- `option or default` where the option may be `None`.
abbrev pub or_else {ℓ} : {A : Type ℓ} → Option A → A → A
or_else none d = d
or_else (some a) d = a

unfoldable pub quality_for : {F : Type 0} → ModelProfile F → TaskClass → F
quality_for profile task = or_else (get task profile.quality_by_task) profile.quality

-- How the task was established.
pub data TaskSource : Type 0 where
  declared cached classifier abstained keyword : TaskSource

-- The clauses of the sentence that `RouteDecision.reason` is, each with the values it prints.
pub data Remark (F : Type 0) : Type 0 where
  selected : ℕ → TaskClass → PrivacyClass → LatencyTier → Remark F
  predicted : Option F → Remark F
  classifier_abstained : Option F → Remark F
  with_complexity : Complexity → Remark F
  engine_saturation : F → Remark F
  raised_from : PrivacyClass → Remark F
  restricted_to : ℕ → Remark F
  applied_adapter : String → String → F → Remark F
  fell_back_from : String → Remark F
  canary_arm_of : Option String → Remark F
  stable_arm_of : Option String → Remark F

pub data CanaryArm : Type 0 where
  canary stable : CanaryArm

pub record RouteDecision (F : Type 0) : Type 0 where
  pub profile : ModelProfile F
  pub task : TaskClass
  pub reason : List (Remark F)
  pub score : F
  pub candidate_count : ℕ
  pub adapter_id : Option String
  pub adapter_revision : Option String
  pub task_source : TaskSource
  pub task_confidence : Option F
  pub complexity : Option Complexity
  pub canary_arm : Option CanaryArm
  pub canary_subject : Option String
