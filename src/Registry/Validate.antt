-- ===== src/Registry/Validate.antt =====
-- The validators that a catalog passes when it is loaded: those of its records, and
-- `Registry.validate_references`. pydantic runs the records' own before the registry's.
use production_local_llm_inf.Prelude.{
  Bool, not, Option, none, some, List, [], ◌∷◌, String, is_none, is_some, is_empty, ◌&&◌, ◌||◌,
  ◌==◌, Eq, if◌then◌else◌, elem, filter, map, length, nat_beq, all, string_eq, nat_eq, option_eq,
  pair_eq,
}
use production_local_llm_inf.Prelude.Dict.{get}
use production_local_llm_inf.Prelude.Float.{Float}
use production_local_llm_inf.Prelude.Result.{Result, ok, raise, raise_if, for_each, ◌>>=◌, ◌>>◌}
use production_local_llm_inf.Models.{or_else}
use production_local_llm_inf.Models.Enums.{
  VariantKind, Quantization, LifecycleStage, ModelTier, stage_eq, quantization_eq, tier_eq,
  variant_kind_eq,
}
use production_local_llm_inf.Registry.Records.{
  ModelCard, AdapterProfile, BenchmarkRun, EngineVariant, VariantVerdict, TenantRecord, RoutePolicy,
  Registry, has_evidence, accepted,
}
use production_local_llm_inf.Registry.Catalog.{RegistryError, benchmark, is_servable_stage}
use production_local_llm_inf.Registry.Verdict.{variant_verdict}

abbrev pub Check : Type 0
Check = Result RegistryError (Unit {0})

-- `{x for x in xs}`: each member once.
unfoldable pub distinct {ℓ} : {A : Type ℓ} ⦃e : Eq A⦄ → List A → List A
distinct [] = []
distinct (x ∷ xs) = let rest = distinct xs in if elem x xs then rest else x ∷ rest

-- `len({ids}) != len(ids)`.
abbrev pub has_duplicates : List String → Bool
has_duplicates ids = not (nat_beq (length (distinct ids)) (length ids))

-- `left - right`.
abbrev pub set_difference : List String → List String → List String
set_difference left right = filter (λ x. not (elem x right)) left

module _ {F : Type 0} where
  unfoldable pub require_evidence_for_production : ModelCard F → Check
  require_evidence_for_production card =
      raise_if (card.stage == LifecycleStage.production && is_empty card.evaluation_references)
        (RegistryError.no_evidence card.id)

  unfoldable pub block_regressed_adapters_from_production : AdapterProfile F → Check
  block_regressed_adapters_from_production adapter =
      raise_if
        (adapter.stage == LifecycleStage.production && not (is_empty adapter.benchmark.regressions))
        (RegistryError.adapter_regressed adapter.id)

  unfoldable pub require_the_settings_its_kind_needs : EngineVariant F → Check
  require_the_settings_its_kind_needs item =
      if item.kind == VariantKind.quantization
      then raise_if (elem item.quantization (none ∷ some Quantization.unquantized ∷ []))
          (RegistryError.names_no_format item.id)
      else raise_if (is_none item.draft_model_id || is_none item.num_speculative_tokens)
          (RegistryError.names_no_draft item.id)

  unfoldable pub cover_every_tier_with_an_objective : RoutePolicy F → Check
  cover_every_tier_with_an_objective policy =
      raise_if
        (not (
          all (λ tier. is_some (get tier policy.latency_objectives_ms))
            (ModelTier.small_specialist ∷ ModelTier.general_local ∷ ModelTier.high_capability
              ∷ ModelTier.external_fallback ∷ [])))
        RegistryError.objectives_missing

  abbrev pub bases : Registry F → List (String × String)
  bases registry = map (λ card. (card.id, card.revision)) registry.models

  abbrev pub model_ids : Registry F → List String
  model_ids registry = map (λ card. card.id) registry.models

  unfoldable pub check_adapter : Registry F → AdapterProfile F → Check
  check_adapter registry adapter =
      raise_if (not (elem (adapter.base_model_id, adapter.base_revision) (bases registry)))
        (RegistryError.unknown_adapter_base adapter.id)

  unfoldable pub check_draft : Registry F → EngineVariant F → Option String → Check
  check_draft registry item none = ok tt
  check_draft registry item (some draft) = do
    raise_if (not (elem draft (model_ids registry))) (RegistryError.unknown_draft item.id)
    raise_if (draft == item.base_model_id) (RegistryError.drafts_with_itself item.id)

  -- The loop over the four names that must not differ.
  unfoldable pub check_conditions : EngineVariant F → BenchmarkRun F → BenchmarkRun F → Check
  check_conditions item baseline measured =
      raise_if
        (not (baseline.dataset_version == measured.dataset_version)
          || not (baseline.workload_version == measured.workload_version)
          || not (baseline.hardware == measured.hardware)
          || not (baseline.concurrency == measured.concurrency))
        (RegistryError.different_conditions item.id)

  unfoldable pub check_evidence : Registry F → EngineVariant F → Check
  unfolding check_conditions
  check_evidence registry item =
      if has_evidence item
      then (do
        baseline ← benchmark registry (or_else item.baseline_benchmark "")
        measured ← benchmark registry (or_else item.variant_benchmark "")
        raise_if (not (baseline.model_revision == item.base_revision))
            (RegistryError.baseline_elsewhere item.id)
        check_conditions item baseline measured)
      else ok tt

  unfoldable pub check_verdict : EngineVariant F → Option (VariantVerdict F) → Check
  check_verdict item none = raise (RegistryError.no_benchmarks item.id)
  check_verdict item (some verdict) =
      raise_if (not (accepted verdict)) (RegistryError.regressed item.id)

  unfoldable pub check_tenant : Registry F → TenantRecord F → Check
  check_tenant registry tenant =
      raise_if (not (is_empty (set_difference tenant.permitted_models (model_ids registry))))
        (RegistryError.permits_unknown tenant.id)

module _ {F : Type 0} ⦃f : Float F⦄ where
  unfoldable pub check_promotion : Registry F → EngineVariant F → Check
  check_promotion registry item =
      if is_servable_stage item.stage
      then variant_verdict registry item >>= check_verdict item
      else ok tt

  unfoldable pub check_variant : Registry F → EngineVariant F → Check
  unfolding check_draft check_evidence check_promotion
  check_variant registry item = do
    raise_if (not (elem (item.base_model_id, item.base_revision) (bases registry)))
        (RegistryError.unknown_variant_base item.id)
    check_draft registry item item.draft_model_id
    check_evidence registry item
    check_promotion registry item

  unfoldable pub validate_references : Registry F → Check
  unfolding for_each check_adapter check_variant check_tenant
  validate_references registry = do
    raise_if (has_duplicates (model_ids registry)) RegistryError.duplicate_models
    for_each (check_adapter registry) registry.adapters
    raise_if (has_duplicates (map (λ item. item.id) registry.variants))
        RegistryError.duplicate_variants
    for_each (check_variant registry) registry.variants
    raise_if (has_duplicates (map (λ tenant. tenant.id) registry.tenants))
        RegistryError.duplicate_tenants
    for_each (check_tenant registry) registry.tenants

  -- What `Registry.model_validate` accepts.
  unfoldable pub validate : Registry F → Check
  unfolding validate_references
  validate registry = do
    for_each require_evidence_for_production registry.models
    for_each block_regressed_adapters_from_production registry.adapters
    for_each require_the_settings_its_kind_needs registry.variants
    cover_every_tier_with_an_objective registry.policy
    validate_references registry
