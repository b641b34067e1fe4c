-- ===== src/Registry/Entitlement.antt =====
-- What a tenant may use: `Registry.permitted_models_for` and `strictest_privacy`.
use production_local_llm_inf.Prelude.{
  ◌≡◌, ◌↔◌, ◌⊎◌, arith, Eq, elem_iff, [], ◌∷◌, string_eq, Bool, true, false, Option, none, some,
  List, String, is_empty, ◌&&◌, ◌||◌, if◌then◌else◌, elem, filter, filter-mem, mem-filter, ◌∈◌,
  mem-map, map-mem,
}
use production_local_llm_inf.Models.Enums.{LifecycleStage, tier_eq, stage_eq}
use production_local_llm_inf.Registry.Records.{ModelCard, TenantRecord, Registry}
use production_local_llm_inf.Registry.Catalog.{
  open_or_in, is_servable_stage, is_servable_model, servable_models, card_ids,
}

open_or_elem_iff :
    {A : Type 0} ⦃e : Eq A⦄ (a : A) (xs : List A)
    → ((is_empty xs || elem a xs) ≡ true) ↔ ((xs ≡ []) ⊎ (a ∈ xs))
open_or_elem_iff a [] = ground arith
open_or_elem_iff a (x ∷ xs) = ground (arith, elem_iff a (x ∷ xs))

is_servable_stage_iff :
    (stage : LifecycleStage)
    → (is_servable_stage stage ≡ true)
      ↔ ((stage ≡ LifecycleStage.staging) ⊎ (stage ≡ LifecycleStage.production))
unfolding elem
is_servable_stage_iff stage = ground (
  arith,
  stage_eq.beq_iff stage LifecycleStage.staging,
  stage_eq.beq_iff stage LifecycleStage.production,
)

module _ {F : Type 0} where
  abbrev pub entitles : TenantRecord F → ModelCard F → Bool
  entitles tenant card =
      (is_empty tenant.permitted_tiers || elem card.tier tenant.permitted_tiers)
      && open_or_in card.id tenant.permitted_models

  unfoldable pub permitted_models_for : Registry F → Option (TenantRecord F) → Option (List String)
  unfolding servable_models
  permitted_models_for registry none = none
  permitted_models_for registry (some tenant) =
      if is_empty tenant.permitted_tiers && is_empty tenant.permitted_models
      then none
      else some (card_ids (filter (entitles tenant) (servable_models registry)))

  -- A model that the tenant may use: it is in the catalog, in staging or production, among the
  -- policy's models where the policy names any, of a permitted tier where the tenant names any, and
  -- a permitted id where the tenant names any.
  abbrev pub IsEntitled : Registry F → TenantRecord F → String → Type 0
  IsEntitled registry tenant id =
      (card : ModelCard F) × (card ∈ registry.models)
      × (id ≡ card.id)
      × ((card.stage ≡ LifecycleStage.staging) ⊎ (card.stage ≡ LifecycleStage.production))
      × ((registry.policy.eligible_models ≡ []) ⊎ (card.id ∈ registry.policy.eligible_models))
      × ((tenant.permitted_tiers ≡ []) ⊎ (card.tier ∈ tenant.permitted_tiers))
      × ((tenant.permitted_models ≡ []) ⊎ (card.id ∈ tenant.permitted_models))

  is_servable_model_iff :
      (registry : Registry F) (card : ModelCard F)
      → (is_servable_model registry card ≡ true) ↔ (
          ((card.stage ≡ LifecycleStage.staging) ⊎ (card.stage ≡ LifecycleStage.production))
          × ((registry.policy.eligible_models ≡ []) ⊎ (card.id ∈ registry.policy.eligible_models)))
  is_servable_model_iff registry card = ground (
    arith,
    is_servable_stage_iff card.stage,
    open_or_elem_iff card.id registry.policy.eligible_models,
  )

  entitles_iff :
      (tenant : TenantRecord F) (card : ModelCard F)
      → (entitles tenant card ≡ true) ↔ (
          ((tenant.permitted_tiers ≡ []) ⊎ (card.tier ∈ tenant.permitted_tiers))
          × ((tenant.permitted_models ≡ []) ⊎ (card.id ∈ tenant.permitted_models)))
  entitles_iff tenant card = ground (
    arith,
    open_or_elem_iff card.tier tenant.permitted_tiers,
    open_or_elem_iff card.id tenant.permitted_models,
  )

  -- A tenant with any restriction gets a concrete set of ids, and an id is in it exactly when it is
  -- that of a catalog model in staging or production, which the policy and the tenant's own lists of
  -- tiers and of ids let through, an empty list letting everything through.
  pub permitted_models_for_restricted :
      (registry : Registry F) (tenant : TenantRecord F)
      → (is_empty tenant.permitted_tiers && is_empty tenant.permitted_models) ≡ false
      → (ids : List String) × (permitted_models_for registry (some tenant) ≡ some ids)
        × ((id : String) → (id ∈ ids) ↔ IsEntitled registry tenant id)
  unfolding permitted_models_for
  permitted_models_for_restricted registry tenant h = (
    card_ids (filter (entitles tenant) (servable_models registry)),
    rw h,
    λ id. (forward id, backward id),
  )
    where
      servable : List (ModelCard F)
      servable = filter (is_servable_model registry) registry.models

      forward :
          (id : String)
          → id ∈ card_ids (filter (entitles tenant) (servable_models registry))
          → IsEntitled registry tenant id
      forward id m =
          let (card, kept, same) =
            mem-map (λ card. card.id) (filter (entitles tenant) servable) id m in
          let (in_servable, entitled) = mem-filter (entitles tenant) servable card kept in
          let (in_models, good) =
            mem-filter (is_servable_model registry) registry.models card in_servable in
          let (serves, eligible) = (is_servable_model_iff registry card).0 good in
          let (tier, named) = (entitles_iff tenant card).0 entitled in
          (card, in_models, same, serves, eligible, tier, named)

      backward :
          (id : String)
          → IsEntitled registry tenant id
          → id ∈ card_ids (filter (entitles tenant) (servable_models registry))
      backward id (card, in_models, same, serves, eligible, tier, named) =
          map-mem (λ card. card.id) (filter (entitles tenant) servable) id card same
            (filter-mem (entitles tenant) servable card
              (filter-mem (is_servable_model registry) registry.models card in_models
                ((is_servable_model_iff registry card).1 (serves, eligible)))
              ((entitles_iff tenant card).1 (tier, named)))
