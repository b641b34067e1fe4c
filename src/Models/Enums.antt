-- ===== src/Models/Enums.antt =====
-- The enumerations of src/llm_router/models.py, registry.py and classifier.py, each with its equality.
-- `Quantization.NONE` is `unquantized`.
use production_local_llm_inf.Prelude.{ℕ, ◌≡◌, ◌↔◌, Bool, true, arith, nat_beq, Eq}

pub data TaskClass : Type 0 where
  extraction classification rag summarization reasoning critique general : TaskClass

pub data PrivacyClass : Type 0 where
  public private restricted : PrivacyClass

pub data Modality : Type 0 where
  text image audio : Modality

pub data LatencyTier : Type 0 where
  interactive standard batch : LatencyTier

pub data Quantization : Type 0 where
  unquantized awq gptq int8 : Quantization

pub data LifecycleStage : Type 0 where
  development staging production deprecated : LifecycleStage

pub data ModelTier : Type 0 where
  small_specialist general_local high_capability external_fallback : ModelTier

pub data VariantKind : Type 0 where
  quantization speculative_decoding : VariantKind

pub data Complexity : Type 0 where
  low medium high : Complexity

-- A member's place in its enumeration; for the privacy classes, `PRIVACY_RANK`.
abbrev pub task_rank : TaskClass → ℕ
task_rank TaskClass.extraction = 0
task_rank TaskClass.classification = 1
task_rank TaskClass.rag = 2
task_rank TaskClass.summarization = 3
task_rank TaskClass.reasoning = 4
task_rank TaskClass.critique = 5
task_rank TaskClass.general = 6

abbrev pub task_beq : TaskClass → TaskClass → Bool
task_beq a b = nat_beq (task_rank a) (task_rank b)

pub task_beq_iff : (a b : TaskClass) → (task_beq a b ≡ true) ↔ (a ≡ b)
task_beq_iff a b = ground arith

instance abbrev pub task_eq : Eq TaskClass
task_eq = record { beq = task_beq; beq_iff = task_beq_iff }

abbrev pub privacy_rank : PrivacyClass → ℕ
privacy_rank PrivacyClass.public = 0
privacy_rank PrivacyClass.private = 1
privacy_rank PrivacyClass.restricted = 2

abbrev pub privacy_beq : PrivacyClass → PrivacyClass → Bool
privacy_beq a b = nat_beq (privacy_rank a) (privacy_rank b)

pub privacy_beq_iff : (a b : PrivacyClass) → (privacy_beq a b ≡ true) ↔ (a ≡ b)
privacy_beq_iff a b = ground arith

instance abbrev pub privacy_eq : Eq PrivacyClass
privacy_eq = record { beq = privacy_beq; beq_iff = privacy_beq_iff }

abbrev pub modality_rank : Modality → ℕ
modality_rank Modality.text = 0
modality_rank Modality.image = 1
modality_rank Modality.audio = 2

abbrev pub modality_beq : Modality → Modality → Bool
modality_beq a b = nat_beq (modality_rank a) (modality_rank b)

pub modality_beq_iff : (a b : Modality) → (modality_beq a b ≡ true) ↔ (a ≡ b)
modality_beq_iff a b = ground arith

instance abbrev pub modality_eq : Eq Modality
modality_eq = record { beq = modality_beq; beq_iff = modality_beq_iff }

abbrev pub latency_tier_rank : LatencyTier → ℕ
latency_tier_rank LatencyTier.interactive = 0
latency_tier_rank LatencyTier.standard = 1
latency_tier_rank LatencyTier.batch = 2

abbrev pub latency_tier_beq : LatencyTier → LatencyTier → Bool
latency_tier_beq a b = nat_beq (latency_tier_rank a) (latency_tier_rank b)

pub latency_tier_beq_iff : (a b : LatencyTier) → (latency_tier_beq a b ≡ true) ↔ (a ≡ b)
latency_tier_beq_iff a b = ground arith

instance abbrev pub latency_tier_eq : Eq LatencyTier
latency_tier_eq = record { beq = latency_tier_beq; beq_iff = latency_tier_beq_iff }

abbrev pub quantization_rank : Quantization → ℕ
quantization_rank Quantization.unquantized = 0
quantization_rank Quantization.awq = 1
quantization_rank Quantization.gptq = 2
quantization_rank Quantization.int8 = 3

abbrev pub quantization_beq : Quantization → Quantization → Bool
quantization_beq a b = nat_beq (quantization_rank a) (quantization_rank b)

pub quantization_beq_iff : (a b : Quantization) → (quantization_beq a b ≡ true) ↔ (a ≡ b)
quantization_beq_iff a b = ground arith

instance abbrev pub quantization_eq : Eq Quantization
quantization_eq = record { beq = quantization_beq; beq_iff = quantization_beq_iff }

abbrev pub stage_rank : LifecycleStage → ℕ
stage_rank LifecycleStage.development = 0
stage_rank LifecycleStage.staging = 1
stage_rank LifecycleStage.production = 2
stage_rank LifecycleStage.deprecated = 3

abbrev pub stage_beq : LifecycleStage → LifecycleStage → Bool
stage_beq a b = nat_beq (stage_rank a) (stage_rank b)

pub stage_beq_iff : (a b : LifecycleStage) → (stage_beq a b ≡ true) ↔ (a ≡ b)
stage_beq_iff a b = ground arith

instance abbrev pub stage_eq : Eq LifecycleStage
stage_eq = record { beq = stage_beq; beq_iff = stage_beq_iff }

abbrev pub tier_rank : ModelTier → ℕ
tier_rank ModelTier.small_specialist = 0
tier_rank ModelTier.general_local = 1
tier_rank ModelTier.high_capability = 2
tier_rank ModelTier.external_fallback = 3

abbrev pub tier_beq : ModelTier → ModelTier → Bool
tier_beq a b = nat_beq (tier_rank a) (tier_rank b)

pub tier_beq_iff : (a b : ModelTier) → (tier_beq a b ≡ true) ↔ (a ≡ b)
tier_beq_iff a b = ground arith

instance abbrev pub tier_eq : Eq ModelTier
tier_eq = record { beq = tier_beq; beq_iff = tier_beq_iff }

abbrev pub variant_kind_rank : VariantKind → ℕ
variant_kind_rank VariantKind.quantization = 0
variant_kind_rank VariantKind.speculative_decoding = 1

abbrev pub variant_kind_beq : VariantKind → VariantKind → Bool
variant_kind_beq a b = nat_beq (variant_kind_rank a) (variant_kind_rank b)

pub variant_kind_beq_iff : (a b : VariantKind) → (variant_kind_beq a b ≡ true) ↔ (a ≡ b)
variant_kind_beq_iff a b = ground arith

instance abbrev pub variant_kind_eq : Eq VariantKind
variant_kind_eq = record { beq = variant_kind_beq; beq_iff = variant_kind_beq_iff }
