-- ===== src/Tests/Data.antt =====
-- Data for the tests: one local model with one adapter, a model outside, and two requests.
use production_local_llm_inf.Prelude.{ℕ, true, false, none, some, [], ◌∷◌, String}
use production_local_llm_inf.Prelude.Int.{ℤ, pos}
use production_local_llm_inf.Prelude.Float.{milli_float}
use production_local_llm_inf.Models.{ChatCompletionRequest, ModelProfile, Role}
use production_local_llm_inf.Models.Enums.{
  TaskClass, PrivacyClass, Modality, LatencyTier, LifecycleStage, ModelTier, Quantization,
  VariantKind,
}
use production_local_llm_inf.Registry.Records.{
  ModelCard, AdapterProfile, BenchmarkRun, EngineVariant, DeploymentRevision, TenantRecord,
  RoutePolicy, Registry,
}
use production_local_llm_inf.Routing.Router.{Outside, Router, Terms}

abbrev pub card : ModelCard ℤ
card = record {
  id = "small";
  revision = "r1";
  tier = ModelTier.general_local;
  local = true;
  license = "apache-2.0";
  tokenizer = "t";
  context_limit = 4096;
  quantization = Quantization.unquantized;
  hardware = record {
    accelerator = "gpu";
    count = 1;
    minimum_memory_gb = 24;
    tensor_parallel_size = 1;
  };
  supported_tasks = TaskClass.general ∷ [];
  quality = pos 800;
  estimated_queue_ms = 100;
  cost_weight = pos 100;
  stage = LifecycleStage.production;
  healthy = true;
  supports_structured_output = false;
  modalities = Modality.text ∷ [];
  intended_tasks = "everyday questions";
  limitations = "none known";
  evaluation_references = "bench" ∷ [];
}

abbrev pub adapter : AdapterProfile ℤ
adapter = record {
  id = "legal";
  base_model_id = "small";
  base_revision = "r1";
  adapter_revision = "a1";
  domain = "law";
  intended_tasks = TaskClass.general ∷ [];
  dataset_version = "d1";
  benchmark = record { quality_delta = pos 20; regressions = [] };
  stage = LifecycleStage.staging;
  quantized = false;
}

abbrev pub policy : RoutePolicy ℤ
policy = record {
  version = "v1";
  eligible_models = [];
  eligible_adapters = [];
  quality_floor = pos 0;
  previous_version = none;
  canary_traffic_percent = 10;
  canary_min_requests = 20;
  canary_max_error_rate = pos 50;
  canary_quality_tolerance = pos 20;
  latency_objectives_ms =
      (ModelTier.small_specialist, pos 1000000)
      ∷ (ModelTier.general_local, pos 2000000)
      ∷ (ModelTier.high_capability, pos 4000000)
      ∷ (ModelTier.external_fallback, pos 4000000)
      ∷ [];
}

abbrev pub bench : String → ℕ → ℕ → BenchmarkRun ℤ
bench id quality memory = record {
  id = id;
  dataset_version = "d1";
  workload_version = "w1";
  hardware = "gpu";
  driver = "550";
  container_digest = "sha256:0";
  engine_revision = "e1";
  model_revision = "r1";
  adapter_revision = none;
  task = some TaskClass.general;
  concurrency = 4;
  prompt_tokens_p50 = 100;
  prompt_tokens_p95 = 400;
  quality_score = pos quality;
  latency_p95_ms = pos 900000;
  throughput_rps = pos 5000;
  gpu_seconds_per_request = pos 500;
  gpu_memory_gb = some (pos memory);
  draft_acceptance_rate = none;
}

abbrev pub variant : EngineVariant ℤ
variant = record {
  id = "small-awq";
  base_model_id = "small";
  base_revision = "r1";
  kind = VariantKind.quantization;
  quantization = some Quantization.awq;
  draft_model_id = none;
  num_speculative_tokens = none;
  stage = LifecycleStage.staging;
  baseline_benchmark = some "plain";
  variant_benchmark = some "awq";
  quality_tolerance = pos 20;
}

abbrev pub tenant : TenantRecord ℤ
tenant = record {
  id = "acme";
  permitted_tiers = [];
  permitted_models = "small" ∷ [];
  quota_requests_per_minute = some 2;
  minimum_privacy = PrivacyClass.private;
  allow_external_fallback = none;
  quality_floor = pos 0;
}

abbrev pub deployment : DeploymentRevision
deployment = record {
  id = "deploy-1";
  container_digest = "sha256:0";
  model_checksums = ("small", "c1") ∷ [];
  adapter_checksums = [];
  gpu_pool = "pool";
  stage = LifecycleStage.staging;
  previous_revision_id = none;
}

abbrev pub registry : Registry ℤ
registry = record {
  models = card ∷ [];
  adapters = adapter ∷ [];
  benchmarks = bench "plain" 800 16000 ∷ bench "awq" 790 8000 ∷ [];
  deployments = deployment ∷ [];
  tenants = tenant ∷ [];
  variants = variant ∷ [];
  policy = policy;
}

abbrev pub local_model : ModelProfile ℤ
local_model = record {
  id = "small";
  revision = "r1";
  local = true;
  healthy = true;
  context_limit = 4096;
  supported_tasks = TaskClass.general ∷ [];
  quality = pos 800;
  estimated_queue_ms = 100;
  cost_weight = pos 100;
  quality_by_task = [];
  supports_structured_output = false;
  modalities = Modality.text ∷ [];
}

abbrev pub outside_model : ModelProfile ℤ
outside_model = record local_model { id = "large"; local = false; quality = pos 950 }

abbrev pub request_of : PrivacyClass → ChatCompletionRequest ℤ
request_of privacy = record {
  model = "auto";
  messages = record { role = Role.user; content = "hello" } ∷ [];
  max_tokens = 256;
  temperature = pos 0;
  stream = false;
  routing = record {
    task = some TaskClass.general;
    domain = some "law";
    privacy = privacy;
    latency_tier = LatencyTier.standard;
    quality_floor = pos 0;
    allow_external_fallback = true;
    structured = false;
    modalities = Modality.text ∷ [];
  };
}

abbrev pub outside : Outside ℤ
outside = record { now = pos 0; lower = λ t. t; digest = λ t. 7 }

abbrev pub router : Router ℤ
router = record {
  profiles = local_model ∷ outside_model ∷ [];
  external_fallback_enabled = true;
  registry = some registry;
  classifier = none;
  load = none;
  canary = none;
}

abbrev pub terms : Terms ℤ
terms = record {
  task = none;
  permitted_models = none;
  quality_floor = pos 0;
  tenant_allows_external = true;
  privacy_raised_from = none;
  canary_key = "caller";
  fallback_from = none;
}
