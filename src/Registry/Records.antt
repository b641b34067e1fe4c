-- ===== src/Registry/Records.antt =====
-- The records of src/llm_router/registry.py. Left out are fields that no code of the repository
-- reads, and the engine settings, which are only passed on.
use production_local_llm_inf.Prelude.{ℕ, Bool, Option, List, String, is_some, is_empty, ◌&&◌}
use production_local_llm_inf.Prelude.Dict.{Dict}
use production_local_llm_inf.Models.Enums.{
  TaskClass, PrivacyClass, Modality, Quantization, LifecycleStage, ModelTier, VariantKind, stage_eq,
  quantization_eq,
}

pub record HardwareRequirement : Type 0 where
  pub accelerator : String
  pub count : ℕ
  pub minimum_memory_gb : ℕ
  pub tensor_parallel_size : ℕ

pub record ModelCard (F : Type 0) : Type 0 where
  pub id : String
  pub revision : String
  pub tier : ModelTier
  pub local : Bool
  pub license : String
  pub tokenizer : String
  pub context_limit : ℕ
  pub quantization : Quantization
  pub hardware : HardwareRequirement
  pub supported_tasks : List TaskClass
  pub quality : F
  pub estimated_queue_ms : ℕ
  pub cost_weight : F
  pub stage : LifecycleStage
  pub healthy : Bool
  pub supports_structured_output : Bool
  pub modalities : List Modality
  pub intended_tasks : String
  pub limitations : String
  pub evaluation_references : List String

pub record BenchmarkDelta (F : Type 0) : Type 0 where
  pub quality_delta : F
  pub regressions : List String

pub record AdapterProfile (F : Type 0) : Type 0 where
  pub id : String
  pub base_model_id : String
  pub base_revision : String
  pub adapter_revision : String
  pub domain : String
  pub intended_tasks : List TaskClass
  pub dataset_version : String
  pub benchmark : BenchmarkDelta F
  pub stage : LifecycleStage
  pub quantized : Bool

pub record BenchmarkRun (F : Type 0) : Type 0 where
  pub id : String
  pub dataset_version : String
  pub workload_version : String
  pub hardware : String
  pub driver : String
  pub container_digest : String
  pub engine_revision : String
  pub model_revision : String
  pub adapter_revision : Option String
  pub task : Option TaskClass
  pub concurrency : ℕ
  pub prompt_tokens_p50 : ℕ
  pub prompt_tokens_p95 : ℕ
  pub quality_score : F
  pub latency_p95_ms : F
  pub throughput_rps : F
  pub gpu_seconds_per_request : F
  pub gpu_memory_gb : Option F
  pub draft_acceptance_rate : Option F

pub record EngineVariant (F : Type 0) : Type 0 where
  pub id : String
  pub base_model_id : String
  pub base_revision : String
  pub kind : VariantKind
  pub quantization : Option Quantization
  pub draft_model_id : Option String
  pub num_speculative_tokens : Option ℕ
  pub stage : LifecycleStage
  pub baseline_benchmark : Option String
  pub variant_benchmark : Option String
  pub quality_tolerance : F

unfoldable pub has_evidence : {F : Type 0} → EngineVariant F → Bool
has_evidence v = is_some v.baseline_benchmark && is_some v.variant_benchmark

-- The clauses that a verdict's `regressions` prints.
pub data Regression (F : Type 0) : Type 0 where
  quality_fell : F → F → Regression F
  added_overhead : Regression F
  memory_not_measured : Regression F
  memory_not_reduced : F → Regression F

pub record VariantVerdict (F : Type 0) : Type 0 where
  pub variant_id : String
  pub quality_delta : F
  pub latency_p95_delta_ms : F
  pub throughput_delta_rps : F
  pub gpu_seconds_delta : F
  pub gpu_memory_delta_gb : Option F
  pub regressions : List (Regression F)

unfoldable pub accepted : {F : Type 0} → VariantVerdict F → Bool
accepted verdict = is_empty verdict.regressions

pub record DeploymentRevision : Type 0 where
  pub id : String
  pub container_digest : String
  pub model_checksums : Dict String String
  pub adapter_checksums : Dict String String
  pub gpu_pool : String
  pub stage : LifecycleStage
  pub previous_revision_id : Option String

pub record TenantRecord (F : Type 0) : Type 0 where
  pub id : String
  pub permitted_tiers : List ModelTier
  pub permitted_models : List String
  pub quota_requests_per_minute : Option ℕ
  pub minimum_privacy : PrivacyClass
  pub allow_external_fallback : Option Bool
  pub quality_floor : F

pub record RoutePolicy (F : Type 0) : Type 0 where
  pub version : String
  pub eligible_models : List String
  pub eligible_adapters : List String
  pub quality_floor : F
  pub previous_version : Option String
  pub canary_traffic_percent : ℕ
  pub canary_min_requests : ℕ
  pub canary_max_error_rate : F
  pub canary_quality_tolerance : F
  pub latency_objectives_ms : Dict ModelTier F

pub record Registry (F : Type 0) : Type 0 where
  pub models : List (ModelCard F)
  pub adapters : List (AdapterProfile F)
  pub benchmarks : List (BenchmarkRun F)
  pub deployments : List DeploymentRevision
  pub tenants : List (TenantRecord F)
  pub variants : List (EngineVariant F)
  pub policy : RoutePolicy F
