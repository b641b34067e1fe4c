-- ===== src/Canary/PlansTotal.antt =====
-- A catalog that has passed its validators gets its canary plans.
use production_local_llm_inf.Prelude.{
  ◌≡◌, refl, ap, ◌∙◌, true, not, Option, none, some, List, [], ◌∷◌, map, String, arith, ◌∈◌, find?,
  find?-none, mem-filter, string_eq, eq_iff, ◌==◌,
}
use production_local_llm_inf.Prelude.Float.{Float, min_or-holds}
use production_local_llm_inf.Prelude.Result.{
  Result, ok, raise, traverse, traverse-ok, ◌>>=◌, Returns, Returns->>=,
}
use production_local_llm_inf.Models.Enums.{LifecycleStage, tier_eq, stage_eq}
use production_local_llm_inf.Registry.Records.{AdapterProfile, DeploymentRevision, Registry}
use production_local_llm_inf.Registry.Catalog.{
  RegistryError, rollback_target, rollback_target_found, servable_models, card_ids,
}
use production_local_llm_inf.Registry.Validate.{cover_every_tier_with_an_objective}
use production_local_llm_inf.Canary.Evaluate.{CanaryPlan, CanaryCriteria}
use production_local_llm_inf.Canary.Objectives.{
  HasPositiveObjectives, objective_total, default_total, objectives-positive, default-positive,
}
use production_local_llm_inf.Canary.Plans.{
  lift, index_cards, deployed_cards, objective, strictest_default, validated, criteria_for,
  model_plan, adapter_plan, policy_plan, live_deployments, staged_adapters, canary_plans,
}

Returns-lift : {A : Type 0} (m : Result RegistryError A) → Returns m → Returns (lift m)
Returns-lift (ok a) r = (a, refl)
Returns-lift (raise e) (a, h) = absurd (ground arith)

Returns-bind :
    {E A B : Type 0} (m : Result E A) (k : A → Result E B) {a : A}
    → m ≡ ok a
    → Returns (k a)
    → Returns (m >>= k)
Returns-bind m k e (b, h) = (b, ap (λ n. n >>= k) e ∙ h)

module _ {F : Type 0} ⦃f : Float F⦄ where
  validated_total :
      (criteria : CanaryCriteria F)
      → f.lt (f.of_nat 0) criteria.max_p95_latency_ms ≡ true
      → Returns (validated criteria)
  unfolding validated
  validated_total criteria h = (criteria, rw h refl)

  deployment_found :
      (registry : Registry F) (d : DeploymentRevision)
      → d ∈ registry.deployments
      → Returns (rollback_target registry d.id)
  deployment_found registry d m =
      go (find? (λ (item : DeploymentRevision). item.id == d.id) registry.deployments) refl
    where
      go :
          (o : Option DeploymentRevision)
          → find? (λ (item : DeploymentRevision). item.id == d.id) registry.deployments ≡ o
          → Returns (rollback_target registry d.id)
      go none missing = absurd (
          ground (
            arith,
            eq_iff d.id d.id,
            find?-none (λ (item : DeploymentRevision). item.id == d.id) registry.deployments missing
                d m,
          ))
      go (some current) found = rollback_target_found registry d.id found

  module _ (registry : Registry F)
      (covered : cover_every_tier_with_an_objective registry.policy ≡ ok tt)
      (positive : HasPositiveObjectives registry.policy) where
    criteria_total : (ids : List String) → Returns (criteria_for registry ids)
    unfolding criteria_for
    criteria_total ids =
        let policy = registry.policy in
        let cards = deployed_cards (index_cards registry.models []) ids in
        let (values, found) =
          traverse-ok (objective policy) cards (λ card m. objective_total policy covered card) in
        let (default, set) = default_total policy covered policy.latency_objectives_ms refl in
        Returns-bind (traverse (objective policy) cards) _ found (
          Returns-bind (strictest_default policy.latency_objectives_ms) _ set (
            validated_total _ (
              min_or-holds (λ v. f.lt (f.of_nat 0) v ≡ true) default values
                (default-positive policy.latency_objectives_ms positive set)
                (objectives-positive policy positive cards values found))))

    model_plan_total :
        (d : DeploymentRevision) → d ∈ live_deployments registry → Returns (model_plan registry d)
    unfolding model_plan
    model_plan_total d m =
        let (listed, _) =
          mem-filter (λ (d : DeploymentRevision). not (d.stage == LifecycleStage.deprecated))
            registry.deployments d m in
        Returns->>= (lift (rollback_target registry d.id)) _
          (Returns-lift (rollback_target registry d.id) (deployment_found registry d listed))
          (λ target.
            Returns->>= (criteria_for registry (map (λ e. e.0) d.model_checksums)) _
              (criteria_total (map (λ e. e.0) d.model_checksums)) (λ c. (_, refl)))

    adapter_plan_total : (a : AdapterProfile F) → Returns (adapter_plan registry a)
    unfolding adapter_plan
    adapter_plan_total a =
        Returns->>= (criteria_for registry (a.base_model_id ∷ [])) _
          (criteria_total (a.base_model_id ∷ [])) (λ c. (_, refl))

    policy_plan_total : Returns (policy_plan registry)
    unfolding policy_plan
    policy_plan_total =
        Returns->>= (criteria_for registry (card_ids (servable_models registry))) _
          (criteria_total (card_ids (servable_models registry))) (λ c. (_, refl))

    -- With a policy that has an objective for every tier, as its validator demands, and whose
    -- objectives are all above 0, which nothing demands, the plans are built: no objective is
    -- missing, none is refused as a bound, and no deployment is unknown.
    pub canary_plans_total : (plans : List (CanaryPlan F)) × (canary_plans registry ≡ ok plans)
    unfolding canary_plans
    canary_plans_total =
        Returns->>= (traverse (model_plan registry) (live_deployments registry)) _
          (traverse-ok (model_plan registry) (live_deployments registry) model_plan_total)
          (λ models.
            Returns->>= (traverse (adapter_plan registry) (staged_adapters registry)) _
              (traverse-ok (adapter_plan registry) (staged_adapters registry)
                (λ a m. adapter_plan_total a))
              (λ adapters. Returns->>= (policy_plan registry) _ policy_plan_total (λ p. (_, refl))))
