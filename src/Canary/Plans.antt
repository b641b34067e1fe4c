-- ===== src/Canary/Plans.antt =====
-- `canary_plans` of src/llm_router/canary.py: one plan for each canary, on its own track.
use production_local_llm_inf.Prelude.{
  Bool, not, if◌then◌else◌, Option, none, some, List, [], ◌∷◌, ◌++◌, map, String, concat, string_eq,
  ◌==◌, filter, find?, ◌&&◌,
}
use mathlib.Core.Option
use production_local_llm_inf.Prelude.Dict.{Dict, get, put}
use production_local_llm_inf.Prelude.Float.{Float, fmax, max_from, min_or}
use production_local_llm_inf.Prelude.Result.{Result, ok, raise, traverse, ◌>>=◌}
use production_local_llm_inf.Models.Enums.{LifecycleStage, ModelTier, stage_eq, tier_eq}
use production_local_llm_inf.Registry.Records.{
  ModelCard, AdapterProfile, DeploymentRevision, RoutePolicy, Registry,
}
use production_local_llm_inf.Registry.Catalog.{
  RegistryError, rollback_target, servable_models, servable_adapters, card_ids,
}
use production_local_llm_inf.Canary.Evaluate.{
  CanaryTrack, CanaryCriteria, CanaryPlan, RollbackAction,
}

-- A tier with no objective, no objective at all, criteria that pydantic refuses, or an error of the
-- registry.
pub data PlanError : Type 0 where
  key_error : ModelTier → PlanError
  value_error validation_error : PlanError
  registry_error : RegistryError → PlanError

abbrev pub lift : {A : Type 0} → Result RegistryError A → Result PlanError A
lift (ok a) = ok a
lift (raise error) = raise (PlanError.registry_error error)

unfoldable pub model_action : Option DeploymentRevision → RollbackAction
model_action none = RollbackAction.stop_rollout
model_action (some target) = RollbackAction.redeploy target.id target.container_digest

unfoldable pub policy_action : Option String → RollbackAction
policy_action none = RollbackAction.stop_policy
policy_action (some version) = RollbackAction.redeploy_gateway version

module _ {F : Type 0} where
  -- `{card.id: card for card in registry.models}`.
  unfoldable pub index_cards :
      List (ModelCard F) → Dict String (ModelCard F) → Dict String (ModelCard F)
  index_cards [] d = d
  index_cards (card ∷ cards) d = index_cards cards (put card.id card d)

  -- `[cards[id] for id in ids if id in cards]`.
  unfoldable pub deployed_cards : Dict String (ModelCard F) → List String → List (ModelCard F)
  deployed_cards cards [] = []
  deployed_cards cards (id ∷ ids) = elim (get id cards) [
    | none ↦ deployed_cards cards ids
    | some card ↦ card ∷ deployed_cards cards ids
  ]

  unfoldable pub objective : RoutePolicy F → ModelCard F → Result PlanError F
  objective policy card = elim (get card.tier policy.latency_objectives_ms) [
    | none ↦ raise (PlanError.key_error card.tier)
    | some value ↦ ok value
  ]

module _ {F : Type 0} ⦃f : Float F⦄ where
  unfoldable pub strictest_default : Dict ModelTier F → Result PlanError F
  strictest_default [] = raise PlanError.value_error
  strictest_default (e ∷ es) = ok (max_from e.1 (map (λ e. e.1) es))

  -- `CanaryCriteria(...)`: a latency bound that is not above 0 is refused. The other bounds of its
  -- fields are those that the policy's fields and the cards' have.
  unfoldable pub validated : CanaryCriteria F → Result PlanError (CanaryCriteria F)
  validated criteria =
      if f.lt (f.of_nat 0) criteria.max_p95_latency_ms
      then ok criteria
      else raise PlanError.validation_error

  unfoldable pub criteria_for : Registry F → List String → Result PlanError (CanaryCriteria F)
  unfolding index_cards deployed_cards objective strictest_default validated
  criteria_for registry model_ids = do
    let policy = registry.policy
    let deployed = deployed_cards (index_cards registry.models []) model_ids
    objectives ← traverse (objective policy) deployed
    default ← strictest_default policy.latency_objectives_ms
    validated (record {
      max_error_rate = policy.canary_max_error_rate;
      max_p95_latency_ms = min_or default objectives;
      min_quality =
          f.round
            (fmax
              (fmax policy.quality_floor (
                f.sub (min_or (f.of_nat 0) (map (λ card. card.quality) deployed))
                  policy.canary_quality_tolerance))
              (f.of_nat 0))
            4;
      min_requests = policy.canary_min_requests;
      min_sample = 50;
    })

  unfoldable pub model_plan : Registry F → DeploymentRevision → Result PlanError (CanaryPlan F)
  unfolding criteria_for model_action
  model_plan registry deployment = do
    target ← lift (rollback_target registry deployment.id)
    criteria ← criteria_for registry (map (λ e. e.0) deployment.model_checksums)
    ok (record {
      id = concat "model:" deployment.id;
      track = CanaryTrack.model;
      subject = deployment.id;
      rollback_to = Option.map (λ (t : DeploymentRevision). t.id) target;
      rollback_action = model_action target;
      traffic_percent = registry.policy.canary_traffic_percent;
      criteria = criteria;
    })

  -- The first production adapter for the same base and domain.
  abbrev pub replaces : AdapterProfile F → AdapterProfile F → Bool
  replaces adapter item =
      item.stage == LifecycleStage.production
      && item.base_model_id == adapter.base_model_id
      && item.base_revision == adapter.base_revision
      && item.domain == adapter.domain

  unfoldable pub stable_for : Registry F → AdapterProfile F → Option (AdapterProfile F)
  unfolding servable_adapters
  stable_for registry adapter = find? (replaces adapter) (servable_adapters registry)

  unfoldable pub adapter_action : AdapterProfile F → Option (AdapterProfile F) → RollbackAction
  adapter_action adapter none = RollbackAction.serve_without_adapter adapter.base_model_id
  adapter_action adapter (some stable) = RollbackAction.serve_stable stable.id adapter.domain

  unfoldable pub adapter_plan : Registry F → AdapterProfile F → Result PlanError (CanaryPlan F)
  unfolding criteria_for stable_for adapter_action
  adapter_plan registry adapter = do
    let stable = stable_for registry adapter
    criteria ← criteria_for registry (adapter.base_model_id ∷ [])
    ok (record {
      id = concat "adapter:" adapter.id;
      track = CanaryTrack.adapter;
      subject = adapter.id;
      rollback_to = Option.map (λ (s : AdapterProfile F). s.id) stable;
      rollback_action = adapter_action adapter stable;
      traffic_percent = registry.policy.canary_traffic_percent;
      criteria = criteria;
    })

  unfoldable pub policy_plan : Registry F → Result PlanError (CanaryPlan F)
  unfolding criteria_for servable_models
  policy_plan registry = do
    let policy = registry.policy
    criteria ← criteria_for registry (card_ids (servable_models registry))
    ok (record {
      id = concat "policy:" policy.version;
      track = CanaryTrack.policy;
      subject = policy.version;
      rollback_to = policy.previous_version;
      rollback_action = policy_action policy.previous_version;
      traffic_percent = policy.canary_traffic_percent;
      criteria = criteria;
    })

  abbrev pub live_deployments : Registry F → List DeploymentRevision
  live_deployments registry =
      filter (λ d. not (d.stage == LifecycleStage.deprecated)) registry.deployments

  abbrev pub staged_adapters : Registry F → List (AdapterProfile F)
  staged_adapters registry =
      filter (λ a. a.stage == LifecycleStage.staging) (servable_adapters registry)

  unfoldable pub canary_plans : Registry F → Result PlanError (List (CanaryPlan F))
  unfolding model_plan adapter_plan policy_plan servable_adapters
  canary_plans registry = do
    models ← traverse (model_plan registry) (live_deployments registry)
    adapters ← traverse (adapter_plan registry) (staged_adapters registry)
    policy ← policy_plan registry
    ok (models ++ (adapters ++ policy ∷ []))
