-- ===== src/Routing/Select.antt =====
-- `Router.select` and `Router._select_adapter` of src/llm_router/routing.py.
use production_local_llm_inf.Prelude.{
  ℕ, not, Option, none, some, List, [], ◌∷◌, ◌++◌, String, length, elem, if◌then◌else◌, string_eq,
}
use mathlib.Core.Option
use production_local_llm_inf.Prelude.Float.{Float, argmax_from}
use production_local_llm_inf.Prelude.Result.{Result, ok, raise}
use production_local_llm_inf.Models.{
  ChatCompletionRequest, ModelProfile, RouteDecision, Remark, TaskSource, CanaryArm, prompt,
}
use production_local_llm_inf.Models.Enums.{TaskClass, LifecycleStage, Complexity}
use production_local_llm_inf.Registry.Records.{AdapterProfile, Registry}
use production_local_llm_inf.Registry.Adapters.{select_adapter}
use production_local_llm_inf.Canary.Monitor.{CanaryMonitor, subjects, takes}
use production_local_llm_inf.Routing.Task.{RoutingPrediction, Settled, settle}
use production_local_llm_inf.Routing.Router.{
  Outside, Router, Terms, NoEligibleModel, no_eligible_model, candidates, saturation_now, score,
}

-- The adapter that is applied, the arm, and the adapter under trial.
pub record AdapterChoice (F : Type 0) : Type 0 where
  pub adapter : Option (AdapterProfile F)
  pub arm : Option CanaryArm
  pub subject : Option String

module _ {F : Type 0} where
  abbrev plain : Option (AdapterProfile F) → AdapterChoice F
  plain adapter = record { adapter = adapter; arm = none; subject = none }

  -- The last three returns of `_select_adapter`, on the production adapter and the staged one.
  unfoldable pub between :
      (String → ℕ)
      → Option (CanaryMonitor F)
      → Option (AdapterProfile F)
      → Option (AdapterProfile F)
      → String
      → AdapterChoice F
  between digest monitor stable none key = plain stable
  between digest none stable (some staged) key = plain stable
  between digest (some monitor) stable (some staged) key =
      if not (elem staged.id (subjects monitor))
      then plain stable
      else if takes digest monitor staged.id key
      then record { adapter = some staged; arm = some CanaryArm.canary; subject = some staged.id }
      else record { adapter = stable; arm = some CanaryArm.stable; subject = some staged.id }

module _ {F : Type 0} ⦃f : Float F⦄ where
  abbrev pub adapter_in :
      Registry F
      → LifecycleStage
      → ModelProfile F
      → Option String
      → TaskClass
      → Option (AdapterProfile F)
  adapter_in registry stage profile domain task =
      select_adapter registry profile.id profile.revision domain task (some stage)

  unfoldable pub choose_adapter :
      (String → ℕ)
      → Router F
      → ModelProfile F
      → Option String
      → TaskClass
      → String
      → AdapterChoice F
  unfolding between
  choose_adapter digest router profile domain task key = elim router.registry [
    | none ↦ plain none
    | some registry ↦
        between digest router.canary
          (adapter_in registry LifecycleStage.production profile domain task)
          (adapter_in registry LifecycleStage.staging profile domain task) key
  ]

  abbrev source_remarks : TaskSource → Option F → List (Remark F)
  source_remarks TaskSource.classifier confidence = Remark.predicted confidence ∷ []
  source_remarks TaskSource.abstained confidence = Remark.classifier_abstained confidence ∷ []
  source_remarks _ confidence = []

  abbrev when_some : {A : Type 0} → (A → Remark F) → Option A → List (Remark F)
  when_some remark none = []
  when_some remark (some a) = remark a ∷ []

  abbrev arm_remarks : Option CanaryArm → Option String → List (Remark F)
  arm_remarks none subject = []
  arm_remarks (some CanaryArm.canary) subject = Remark.canary_arm_of subject ∷ []
  arm_remarks (some CanaryArm.stable) subject = Remark.stable_arm_of subject ∷ []

  -- The sentence, clause by clause.
  unfoldable pub reason :
      ChatCompletionRequest F
      → Terms F
      → ℕ
      → Settled F
      → Option Complexity
      → F
      → AdapterChoice F
      → List (Remark F)
  reason request terms total settled complexity saturation choice =
      Remark.selected total settled.task request.routing.privacy request.routing.latency_tier
      ∷ (source_remarks settled.source settled.confidence
          ++ (when_some Remark.with_complexity complexity
              ++ ((if f.lt (f.of_nat 0) saturation
                    then Remark.engine_saturation saturation ∷ []
                    else [])
                  ++ (when_some Remark.raised_from terms.privacy_raised_from
                      ++ (when_some (λ ids. Remark.restricted_to (length ids))
                            terms.permitted_models
                          ++ (when_some
                                (λ (a : AdapterProfile F).
                                  Remark.applied_adapter a.id a.domain a.benchmark.quality_delta)
                                choice.adapter
                              ++ (when_some Remark.fell_back_from terms.fallback_from
                                  ++ arm_remarks choice.arm choice.subject)))))))

  abbrev pub complexity_of : Option (RoutingPrediction F) → Option Complexity
  complexity_of none = none
  complexity_of (some p) = some p.complexity

  abbrev pub prediction_for : Router F → ChatCompletionRequest F → Option (RoutingPrediction F)
  prediction_for router request =
      Option.map (λ (predict : String → RoutingPrediction F). predict (prompt request))
        router.classifier

  unfoldable pub settled_task : Outside F → Router F → ChatCompletionRequest F → Terms F → Settled F
  unfolding settle
  settled_task outside router request terms =
      settle outside.lower (prompt request) request.routing.task terms.task
        (prediction_for router request)

  unfoldable pub decide :
      Outside F
      → Router F
      → ChatCompletionRequest F
      → Terms F
      → Settled F
      → Option Complexity
      → ModelProfile F
      → ℕ
      → RouteDecision F
  unfolding choose_adapter reason score
  decide outside router request terms settled complexity selected total =
      let choice =
        choose_adapter outside.digest router selected request.routing.domain settled.task
          terms.canary_key in
      record {
        profile = selected;
        task = settled.task;
        reason =
            reason request terms total settled complexity (saturation_now router outside.now)
              choice;
        score = f.round (score router outside.now request settled.task complexity selected) 3;
        candidate_count = total;
        adapter_id = Option.map (λ (a : AdapterProfile F). a.id) choice.adapter;
        adapter_revision = Option.map (λ (a : AdapterProfile F). a.adapter_revision) choice.adapter;
        task_source = settled.source;
        task_confidence = settled.confidence;
        complexity = complexity;
        canary_arm = choice.arm;
        canary_subject = choice.subject;
      }

  -- `max(candidates, key=score)`, or the error where no candidate is left.
  unfoldable pub select_from :
      Outside F
      → Router F
      → ChatCompletionRequest F
      → Terms F
      → Settled F
      → Option Complexity
      → List (ModelProfile F)
      → Result NoEligibleModel (RouteDecision F)
  unfolding decide
  select_from outside router request terms settled complexity [] = raise no_eligible_model
  select_from outside router request terms settled complexity (p ∷ ps) = ok (
      decide outside router request terms settled complexity
        (argmax_from (score router outside.now request settled.task complexity) p ps)
        (length (p ∷ ps)))

  unfoldable pub select :
      Outside F
      → Router F
      → ChatCompletionRequest F
      → Terms F
      → Result NoEligibleModel (RouteDecision F)
  unfolding select_from candidates settled_task
  select outside router request terms =
      let settled = settled_task outside router request terms in
      select_from outside router request terms settled
        (complexity_of (prediction_for router request))
        (candidates router request terms settled.task)
