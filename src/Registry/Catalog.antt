-- ===== src/Registry/Catalog.antt =====
-- The queries of `Registry` in src/llm_router/registry.py.
use production_local_llm_inf.Prelude.{
  ◌≡◌, Bool, Option, none, some, List, [], ◌∷◌, ◌++◌, map, String, is_empty, ◌&&◌, ◌||◌, ◌==◌, elem,
  filter, find?, leb, if◌then◌else◌, string_eq, concat,
}
use production_local_llm_inf.Prelude.Dict.{Dict}
use production_local_llm_inf.Prelude.Result.{Result, ok, raise}
use production_local_llm_inf.Models.{ModelProfile}
use production_local_llm_inf.Models.Enums.{
  TaskClass, PrivacyClass, LifecycleStage, stage_eq, tier_eq, task_eq, privacy_rank,
}
use production_local_llm_inf.Registry.Records.{
  ModelCard, AdapterProfile, BenchmarkRun, EngineVariant, DeploymentRevision, TenantRecord,
  Registry,
}

unfoldable pub strictest_privacy : PrivacyClass → PrivacyClass → PrivacyClass
strictest_privacy left right = if leb (privacy_rank right) (privacy_rank left) then left else right

-- What `RegistryError` and a record's validators say.
pub data RegistryError : Type 0 where
  duplicate_models duplicate_variants duplicate_tenants : RegistryError
  unknown_adapter_base unknown_variant_base unknown_draft drafts_with_itself :
      String → RegistryError
  baseline_elsewhere different_conditions no_benchmarks regressed : String → RegistryError
  permits_unknown no_evidence adapter_regressed : String → RegistryError
  names_no_format names_no_draft : String → RegistryError
  objectives_missing : RegistryError
  unknown_benchmark unknown_model unknown_variant unknown_deployment : String → RegistryError

-- `stage in {STAGING, PRODUCTION}`.
abbrev pub is_servable_stage : LifecycleStage → Bool
is_servable_stage stage = elem stage (LifecycleStage.staging ∷ LifecycleStage.production ∷ [])

-- An empty set of ids permits everything.
abbrev pub open_or_in : String → List String → Bool
open_or_in id ids = is_empty ids || elem id ids

require : {A : Type 0} → RegistryError → Option A → Result RegistryError A
require error none = raise error
require error (some a) = ok a

module _ {F : Type 0} where
  unfoldable pub to_profile : Dict TaskClass F → ModelCard F → ModelProfile F
  to_profile quality_by_task card = record {
    id = card.id;
    revision = card.revision;
    local = card.local;
    healthy = card.healthy;
    context_limit = card.context_limit;
    supported_tasks = card.supported_tasks;
    quality = card.quality;
    estimated_queue_ms = card.estimated_queue_ms;
    cost_weight = card.cost_weight;
    quality_by_task = quality_by_task;
    supports_structured_output = card.supports_structured_output;
    modalities = card.modalities;
  }

  unfoldable pub benchmark : Registry F → String → Result RegistryError (BenchmarkRun F)
  unfolding require find?
  benchmark registry id =
      require (RegistryError.unknown_benchmark id) (find? (λ run. run.id == id) registry.benchmarks)

  unfoldable pub variant : Registry F → String → Result RegistryError (EngineVariant F)
  unfolding require find?
  variant registry id =
      require (RegistryError.unknown_variant id) (find? (λ item. item.id == id) registry.variants)

  unfoldable pub model_card : Registry F → String → Result RegistryError (ModelCard F)
  unfolding require find?
  model_card registry id =
      require (RegistryError.unknown_model id) (find? (λ card. card.id == id) registry.models)

  unfoldable pub promoted_variants : Registry F → String → String → List (EngineVariant F)
  promoted_variants registry model_id revision =
      filter
        (λ item.
          item.stage == LifecycleStage.production
          && item.base_model_id == model_id
          && item.base_revision == revision)
        registry.variants

  unfoldable pub experimental_variants : Registry F → List (EngineVariant F)
  experimental_variants registry =
      filter (λ item. elem item.stage (LifecycleStage.development ∷ LifecycleStage.staging ∷ []))
        registry.variants

  unfoldable pub tenant : Registry F → String → Option (TenantRecord F)
  tenant registry tenant_id = find? (λ record_. record_.id == tenant_id) registry.tenants

  abbrev pub is_servable_model : Registry F → ModelCard F → Bool
  is_servable_model registry card =
      is_servable_stage card.stage && open_or_in card.id registry.policy.eligible_models

  unfoldable pub servable_models : Registry F → List (ModelCard F)
  servable_models registry = filter (is_servable_model registry) registry.models

  abbrev pub card_ids : List (ModelCard F) → List String
  card_ids = map (λ card. card.id)

  abbrev pub is_servable_adapter : Registry F → AdapterProfile F → Bool
  is_servable_adapter registry adapter =
      is_servable_stage adapter.stage
      && elem adapter.base_model_id (card_ids (servable_models registry))
      && open_or_in adapter.id registry.policy.eligible_adapters

  unfoldable pub servable_adapters : Registry F → List (AdapterProfile F)
  unfolding servable_models
  servable_adapters registry = filter (is_servable_adapter registry) registry.adapters

  unfoldable pub benchmarks_for : Registry F → String → List (BenchmarkRun F)
  benchmarks_for registry model_revision =
      filter (λ run. run.model_revision == model_revision) registry.benchmarks

  -- The `raise` is for an id that is not deployed.
  previous : Registry F → Option String → Option DeploymentRevision
  previous registry none = none
  previous registry (some id) = find? (λ item. item.id == id) registry.deployments

  rollback_of :
      Registry F
      → String
      → Option DeploymentRevision
      → Result RegistryError (Option DeploymentRevision)
  rollback_of registry id none = raise (RegistryError.unknown_deployment id)
  rollback_of registry id (some current) = ok (previous registry current.previous_revision_id)

  unfoldable pub rollback_target :
      Registry F → String → Result RegistryError (Option DeploymentRevision)
  unfolding rollback_of previous find?
  rollback_target registry deployment_id =
      rollback_of registry deployment_id
        (find? (λ item. item.id == deployment_id) registry.deployments)

  pub rollback_target_found :
      (registry : Registry F) (id : String) {current : DeploymentRevision}
      → find? (λ item. item.id == id) registry.deployments ≡ some current
      → (t : Option DeploymentRevision) × (rollback_target registry id ≡ ok t)
  unfolding rollback_target
  rollback_target_found registry id {current} found =
      (previous registry current.previous_revision_id, rw (found, rollback_of))

  -- The generator, drained.
  unfoldable pub catalog_revisions : Registry F → List String
  unfolding servable_models servable_adapters
  catalog_revisions registry =
      map (λ card. card.revision) (servable_models registry)
      ++ map (λ adapter. adapter.adapter_revision) (servable_adapters registry)
      ++ map (λ item. concat item.id (concat "@" item.base_revision))
          (filter (λ item. item.stage == LifecycleStage.production) registry.variants)
