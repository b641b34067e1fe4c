-- ===== src/Routing/Router.antt =====
-- `Router` of src/llm_router/routing.py. The clock, lower-casing and the digest are arguments.
use Prim.Native.String.{count}
use production_local_llm_inf.Prelude.{
  ℕ, ◌+◌, ◌/◌, max, Bool, true, not, Option, none, some, List, String, length, leb, all, filter,
  elem, is_none, ◌&&◌, ◌||◌, if◌then◌else◌, ◌==◌, string_eq,
}
use production_local_llm_inf.Prelude.Float.{Float, fmax}
use production_local_llm_inf.Models.{ChatCompletionRequest, ModelProfile, prompt, quality_for}
use production_local_llm_inf.Models.Enums.{
  TaskClass, PrivacyClass, LatencyTier, Complexity, task_eq, privacy_eq, modality_eq,
}
use production_local_llm_inf.Registry.Records.{Registry}
use production_local_llm_inf.Engine.Load.{LoadTracker, queue_ms, engine_saturation}
use production_local_llm_inf.Canary.Monitor.{CanaryMonitor}
use production_local_llm_inf.Routing.Task.{RoutingPrediction}

-- What the router asks of the outside: the time, and two functions of Python's library.
pub record Outside (F : Type 0) : Type 0 where
  pub now : F
  pub lower : String → String
  pub digest : String → ℕ

pub record Router (F : Type 0) : Type 0 where
  pub profiles : List (ModelProfile F)
  pub external_fallback_enabled : Bool
  pub registry : Option (Registry F)
  pub classifier : Option (String → RoutingPrediction F)
  pub load : Option (LoadTracker F)
  pub canary : Option (CanaryMonitor F)

-- The keyword arguments of `select`.
pub record Terms (F : Type 0) : Type 0 where
  pub task : Option TaskClass
  pub permitted_models : Option (List String)
  pub quality_floor : F
  pub tenant_allows_external : Bool
  pub privacy_raised_from : Option PrivacyClass
  pub canary_key : String
  pub fallback_from : Option String

pub data NoEligibleModel : Type 0 where
  no_eligible_model : NoEligibleModel

abbrev pub permits : Option (List String) → String → Bool
permits none id = true
permits (some ids) id = elem id ids

module _ {F : Type 0} where
  unfoldable pub privacy_allows : ModelProfile F → PrivacyClass → Bool
  privacy_allows profile privacy = profile.local || privacy == PrivacyClass.public

  unfoldable pub external_allows : Router F → ModelProfile F → ChatCompletionRequest F → Bool → Bool
  external_allows router profile request tenant_allows_external =
      profile.local
      || (router.external_fallback_enabled
          && (tenant_allows_external && request.routing.allow_external_fallback))

  unfoldable pub estimated_tokens : ChatCompletionRequest F → ℕ
  estimated_tokens request = max 1 (count (prompt request) / 4) + request.max_tokens

module _ {F : Type 0} ⦃f : Float F⦄ where
  -- The conditions of the comprehension over `self.profiles`, in order, and the filter by name.
  unfoldable pub eligible :
      Router F → ChatCompletionRequest F → Terms F → TaskClass → ModelProfile F → Bool
  unfolding privacy_allows external_allows
  eligible router request terms task profile =
      profile.healthy
      && (elem task profile.supported_tasks
          && (leb (estimated_tokens request) profile.context_limit
              && (f.le (fmax request.routing.quality_floor terms.quality_floor)
                    (quality_for profile task)
                  && ((not request.routing.structured || profile.supports_structured_output)
                      && (all (λ m. elem m profile.modalities) request.routing.modalities
                          && (privacy_allows profile request.routing.privacy
                              && (external_allows router profile request
                                    terms.tenant_allows_external
                                  && (permits terms.permitted_models profile.id
                                      && (is_none terms.fallback_from || not profile.local)))))))))

  abbrev pub named : ChatCompletionRequest F → ModelProfile F → Bool
  named request profile = profile.id == request.model

  unfoldable pub candidates :
      Router F → ChatCompletionRequest F → Terms F → TaskClass → List (ModelProfile F)
  unfolding filter eligible
  candidates router request terms task =
      let all_of_them = filter (eligible router request terms task) router.profiles in
      if request.model == "auto" then all_of_them else filter (named request) all_of_them

  unfoldable pub saturation_now : Router F → F → F
  saturation_now router now = elim router.load [
    | none ↦ f.of_nat 0
    | some load ↦ engine_saturation load now
  ]

  unfoldable pub queue_now : Router F → ModelProfile F → F
  queue_now router profile = elim router.load [
    | none ↦ f.of_nat profile.estimated_queue_ms
    | some load ↦ queue_ms load profile.id (f.of_nat profile.estimated_queue_ms)
  ]

  abbrev for_tier : LatencyTier → F → F
  for_tier LatencyTier.interactive penalty = f.mul penalty (f.of_nat 2)
  for_tier LatencyTier.batch penalty = f.mul penalty (f.ratio 1 2)
  for_tier LatencyTier.standard penalty = penalty

  -- `COMPLEXITY_QUALITY_WEIGHT`.
  abbrev complexity_weight : Complexity → F
  complexity_weight Complexity.low = f.of_nat 0
  complexity_weight Complexity.medium = f.ratio 1 4
  complexity_weight Complexity.high = f.ratio 3 2

  abbrev complexity_bonus : F → Option Complexity → F
  complexity_bonus quality none = f.of_nat 0
  complexity_bonus quality (some c) =
      f.mul (f.mul (f.sub quality (f.ratio 8 10)) (f.of_nat 100)) (complexity_weight c)

  unfoldable pub score :
      Router F → F → ChatCompletionRequest F → TaskClass → Option Complexity → ModelProfile F → F
  unfolding saturation_now queue_now
  score router now request task complexity profile =
      let latency_penalty =
        for_tier request.routing.latency_tier (f.div (queue_now router profile) (f.of_nat 100)) in
      let specialization_bonus =
        f.of_nat (if leb (length profile.supported_tasks) 2 then 10 else 0) in
      let quality = quality_for profile task in
      let capacity_penalty =
        if profile.local then f.mul (saturation_now router now) (f.of_nat 20) else f.of_nat 0 in
      f.sub
        (f.sub
          (f.sub
            (f.add (f.add (f.mul quality (f.of_nat 100)) specialization_bonus)
              (complexity_bonus quality complexity))
            latency_penalty)
          capacity_penalty)
        (f.mul profile.cost_weight (f.of_nat 10))
