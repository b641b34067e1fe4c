-- ===== src/Models/Values.antt =====
-- The texts of the enumerations' members in src/llm_router/models.py and registry.py.
use production_local_llm_inf.Prelude.{String}
use production_local_llm_inf.Models.Enums.{
  TaskClass, Modality, Quantization, LifecycleStage, ModelTier,
}

abbrev pub task_value : TaskClass → String
task_value TaskClass.extraction = "extraction"
task_value TaskClass.classification = "classification"
task_value TaskClass.rag = "rag"
task_value TaskClass.summarization = "summarization"
task_value TaskClass.reasoning = "reasoning"
task_value TaskClass.critique = "critique"
task_value TaskClass.general = "general"

abbrev pub modality_value : Modality → String
modality_value Modality.text = "text"
modality_value Modality.image = "image"
modality_value Modality.audio = "audio"

abbrev pub quantization_value : Quantization → String
quantization_value Quantization.unquantized = "none"
quantization_value Quantization.awq = "awq"
quantization_value Quantization.gptq = "gptq"
quantization_value Quantization.int8 = "int8"

abbrev pub stage_value : LifecycleStage → String
stage_value LifecycleStage.development = "development"
stage_value LifecycleStage.staging = "staging"
stage_value LifecycleStage.production = "production"
stage_value LifecycleStage.deprecated = "deprecated"

abbrev pub tier_value : ModelTier → String
tier_value ModelTier.small_specialist = "small-specialist"
tier_value ModelTier.general_local = "general-local"
tier_value ModelTier.high_capability = "high-capability"
tier_value ModelTier.external_fallback = "external-fallback"
