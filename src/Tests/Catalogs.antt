-- ===== src/Tests/Catalogs.antt =====
-- The catalog at concrete inputs.
use production_local_llm_inf.Prelude.{
  ◌≡◌, ◌↔◌, refl, true, some, List, String, elem, filter, ◌∈◌, string_eq,
}
use production_local_llm_inf.Prelude.Int.{ℤ}
use production_local_llm_inf.Prelude.Float.{milli_float, Milli-IsOrdered, argmax_from}
use production_local_llm_inf.Prelude.Dict.{get}
use production_local_llm_inf.Prelude.Result.{ok}
use production_local_llm_inf.Models.Enums.{TaskClass, LifecycleStage, task_eq}
use production_local_llm_inf.Registry.Records.{
  AdapterProfile, VariantVerdict, has_evidence, accepted,
}
use production_local_llm_inf.Registry.Catalog.{
  benchmark, is_servable_adapter, servable_models, card_ids,
}
use production_local_llm_inf.Registry.Verdict.{
  compare_runs, variant_verdict, quality_regression, kind_regression, memory_regression,
  memory_delta,
}
use production_local_llm_inf.Registry.Validate.{validate_references, distinct, check_verdict}
use production_local_llm_inf.Registry.Consistency.{IsConsistent, validate_references-IsConsistent}
use production_local_llm_inf.Registry.Entitlement.{
  IsEntitled, permitted_models_for, permitted_models_for_restricted,
}
use production_local_llm_inf.Registry.Adapters.{
  select_adapter, select_adapter_lem, stage_allows, fits, quality_delta,
}
use production_local_llm_inf.Registry.History.{
  quality_history, get-quality_history, mean_of, base_scores,
}
use production_local_llm_inf.Tests.Data.{registry, variant, tenant, adapter, bench}

registry_validates : validate_references registry ≡ ok tt
unfolding validate_references distinct elem variant_verdict benchmark has_evidence accepted
    quality_regression kind_regression memory_regression memory_delta filter check_verdict
registry_validates = refl

validate_references-IsConsistent_example : IsConsistent registry
validate_references-IsConsistent_example =
    validate_references-IsConsistent registry registry_validates

abbrev verdict : VariantVerdict ℤ
verdict = compare_runs variant (bench "plain" 800 16000) (bench "awq" 790 8000)

variant_has_verdict : variant_verdict registry variant ≡ ok (some verdict)
unfolding variant_verdict benchmark has_evidence
variant_has_verdict = refl

permitted_models_for_restricted_example :
    (ids : List String) × (permitted_models_for registry (some tenant) ≡ some ids)
    × ((id : String) → (id ∈ ids) ↔ IsEntitled registry tenant id)
permitted_models_for_restricted_example = permitted_models_for_restricted registry tenant refl

adapter_selected :
    select_adapter registry "small" "r1"
      (some "law")
      TaskClass.general
      (some LifecycleStage.staging)
    ≡ some adapter
unfolding select_adapter filter elem argmax_from servable_models
adapter_selected = refl

select_adapter_lem_example :
    (adapter ∈ registry.adapters)
    × (adapter.base_model_id ∈ card_ids (servable_models registry))
    × (is_servable_adapter registry adapter ≡ true)
    × (adapter.base_model_id ≡ "small")
    × (adapter.base_revision ≡ "r1")
    × (adapter.domain ≡ "law")
    × (TaskClass.general ∈ adapter.intended_tasks)
    × (stage_allows (some LifecycleStage.staging) adapter.stage ≡ true)
    × ((b : AdapterProfile ℤ)
        → b ∈ registry.adapters
        → is_servable_adapter registry b ≡ true
        → fits "small" "r1" "law" TaskClass.general (some LifecycleStage.staging) b ≡ true
        → milli_float.le (quality_delta b) (quality_delta adapter) ≡ true)
select_adapter_lem_example =
    select_adapter_lem Milli-IsOrdered registry "small" "r1" "law" TaskClass.general
      (some LifecycleStage.staging) {a = adapter} adapter_selected

get-quality_history_example :
    get TaskClass.general (quality_history registry "r1")
    ≡ mean_of (base_scores "r1" TaskClass.general registry.benchmarks)
get-quality_history_example = get-quality_history registry "r1" TaskClass.general
