-- ===== src/Registry/Adapters.antt =====
-- `Registry.select_adapter`: the best approved adapter for a base revision and a domain.
use production_local_llm_inf.Prelude.{
  ◌≡◌, Bool, true, Option, none, some, List, [], ◌∷◌, String, ◌&&◌, ◌==◌, arith, elem, elem_iff,
  filter, filter-mem, mem-filter, ◌∈◌, string_eq,
}
use production_local_llm_inf.Prelude.Float.{
  Float, IsOrdered, argmax_from, argmax_from-mem, le-argmax_from,
}
use production_local_llm_inf.Models.Enums.{TaskClass, LifecycleStage, stage_eq, task_eq}
use production_local_llm_inf.Registry.Records.{AdapterProfile, Registry}
use production_local_llm_inf.Registry.Catalog.{
  is_servable_adapter, servable_models, servable_adapters, card_ids,
}

-- `stage is None or adapter.stage is stage`.
abbrev pub stage_allows : Option LifecycleStage → LifecycleStage → Bool
stage_allows none actual = true
stage_allows (some stage) actual = actual == stage

module _ {F : Type 0} where
  abbrev pub quality_delta : AdapterProfile F → F
  quality_delta adapter = adapter.benchmark.quality_delta

  unfoldable pub fits :
      String → String → String → TaskClass → Option LifecycleStage → AdapterProfile F → Bool
  fits model_id revision domain task stage adapter =
      adapter.base_model_id == model_id
      && adapter.base_revision == revision
      && adapter.domain == domain
      && elem task adapter.intended_tasks
      && stage_allows stage adapter.stage

module _ {F : Type 0} ⦃f : Float F⦄ where
  -- `max(candidates, key=quality_delta)`, or none of an empty list.
  best_adapter : List (AdapterProfile F) → Option (AdapterProfile F)
  best_adapter [] = none
  best_adapter (a ∷ as_) = some (argmax_from quality_delta a as_)

  unfoldable pub select_adapter :
      Registry F
      → (model_id revision : String) → Option String
      → TaskClass
      → Option LifecycleStage
      → Option (AdapterProfile F)
  unfolding best_adapter fits servable_adapters
  select_adapter registry model_id revision none task stage = none
  select_adapter registry model_id revision (some domain) task stage =
      best_adapter (filter (fits model_id revision domain task stage) (servable_adapters registry))

  best_adapter-mem :
      (xs : List (AdapterProfile F)) {a : AdapterProfile F} → best_adapter xs ≡ some a → a ∈ xs
  unfolding best_adapter
  best_adapter-mem [] h = cc
  best_adapter-mem (x ∷ xs) h = ground (arith, argmax_from-mem quality_delta x xs)

  le-best_adapter :
      (laws : IsOrdered F) (xs : List (AdapterProfile F)) {a : AdapterProfile F}
      → best_adapter xs ≡ some a
      → (b : AdapterProfile F) → b ∈ xs
      → f.le (quality_delta b) (quality_delta a) ≡ true
  unfolding best_adapter
  le-best_adapter laws [] h b m = absurd m
  le-best_adapter laws (x ∷ xs) h b m = ground (arith, le-argmax_from quality_delta laws x xs b m)

  -- An adapter that is selected stands in the catalog, is servable with its base model servable,
  -- fits the request in base model, revision, domain, task and stage, and no other servable adapter
  -- that fits has a larger measured quality delta.
  pub select_adapter_lem :
      (laws : IsOrdered F) (registry : Registry F) (model_id revision domain : String)
      (task : TaskClass) (stage : Option LifecycleStage) {a : AdapterProfile F}
      → select_adapter registry model_id revision (some domain) task stage ≡ some a
      → (a ∈ registry.adapters)
        × (a.base_model_id ∈ card_ids (servable_models registry))
        × (is_servable_adapter registry a ≡ true)
        × (a.base_model_id ≡ model_id)
        × (a.base_revision ≡ revision)
        × (a.domain ≡ domain)
        × (task ∈ a.intended_tasks)
        × (stage_allows stage a.stage ≡ true)
        × ((b : AdapterProfile F)
            → b ∈ registry.adapters
            → is_servable_adapter registry b ≡ true
            → fits model_id revision domain task stage b ≡ true
            → f.le (quality_delta b) (quality_delta a) ≡ true)
  unfolding select_adapter servable_adapters fits
  select_adapter_lem laws registry model_id revision domain task stage {a} h =
      let test : AdapterProfile F → Bool = fits model_id revision domain task stage in
      let servable : List (AdapterProfile F) =
        filter (is_servable_adapter registry) registry.adapters in
      let (kept, fit) = mem-filter test servable a (best_adapter-mem (filter test servable) h) in
      let (listed, good) = mem-filter (is_servable_adapter registry) registry.adapters a kept in
      (
        listed,
        ground (arith, elem_iff a.base_model_id (card_ids (servable_models registry))),
        good,
        ground (arith, fit, string_eq.beq_iff a.base_model_id model_id),
        ground (arith, fit, string_eq.beq_iff a.base_revision revision),
        ground (arith, fit, string_eq.beq_iff a.domain domain),
        ground (arith, fit, elem_iff task a.intended_tasks),
        ground (arith, fit),
        λ b m s t. le-best_adapter laws (filter test servable) h b (
            filter-mem test servable b
              (filter-mem (is_servable_adapter registry) registry.adapters b m s) t),
      )
