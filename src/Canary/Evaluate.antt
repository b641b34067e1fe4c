-- ===== src/Canary/Evaluate.antt =====
-- The records and the rule of src/llm_router/canary.py: hold, promote, or roll back.
use production_local_llm_inf.Prelude.{
  ℕ, Bool, true, not, Option, none, some, List, [], ◌∷◌, ◌++◌, String, ltb, leb, nat_beq, ◌&&◌,
  if◌then◌else◌,
}
use production_local_llm_inf.Prelude.Float.{Float}

pub data CanaryAction : Type 0 where
  promote hold rollback : CanaryAction

pub data CanaryTrack : Type 0 where
  model adapter policy : CanaryTrack

pub record CanaryCriteria (F : Type 0) : Type 0 where
  pub max_error_rate : F
  pub max_p95_latency_ms : F
  pub min_quality : F
  pub min_requests : ℕ
  pub min_sample : ℕ

-- What a rollback does: nothing recorded to return to, a release, or a single adapter.
pub data RollbackAction : Type 0 where
  stop_rollout stop_policy : RollbackAction
  redeploy : (id digest : String) → RollbackAction
  serve_without_adapter : (base : String) → RollbackAction
  serve_stable : (id domain : String) → RollbackAction
  redeploy_gateway : (version : String) → RollbackAction

pub record CanaryPlan (F : Type 0) : Type 0 where
  pub id : String
  pub track : CanaryTrack
  pub subject : String
  pub rollback_to : Option String
  pub rollback_action : RollbackAction
  pub traffic_percent : ℕ
  pub criteria : CanaryCriteria F

pub record CanaryObservation (F : Type 0) : Type 0 where
  pub ready : Bool
  pub requests : ℕ
  pub errors : ℕ
  pub p95_latency_ms : Option F
  pub quality : Option F

-- The sentences of `CanaryDecision.reasons`, each with the numbers that it prints.
pub data Reason (F : Type 0) : Type 0 where
  readiness : Reason F
  error_rate_above : F → F → Reason F
  latency_above : F → F → Reason F
  quality_below : F → F → Reason F
  observed_of : ℕ → ℕ → Reason F

pub record CanaryDecision (F : Type 0) : Type 0 where
  pub action : CanaryAction
  pub reasons : List (Reason F)

module _ {F : Type 0} ⦃f : Float F⦄ where
  unfoldable pub error_rate : CanaryObservation F → F
  error_rate o =
      if nat_beq o.requests 0 then f.of_nat 0 else f.div (f.of_nat o.errors) (f.of_nat o.requests)

  -- The baseline, where there is one with enough requests.
  unfoldable pub control_of :
      CanaryCriteria F → Option (CanaryObservation F) → Option (CanaryObservation F)
  control_of criteria none = none
  control_of criteria (some baseline) =
      if leb criteria.min_sample baseline.requests then some baseline else none

  -- `control is None or rate > control.error_rate`.
  unfoldable pub rate_is_own : F → Option (CanaryObservation F) → Bool
  unfolding error_rate
  rate_is_own rate none = true
  rate_is_own rate (some control) = f.lt (error_rate control) rate

  unfoldable pub error_reasons :
      CanaryCriteria F → CanaryObservation F → Option (CanaryObservation F) → List (Reason F)
  unfolding error_rate rate_is_own
  error_reasons criteria observed control =
      if f.lt criteria.max_error_rate (error_rate observed)
        && rate_is_own (error_rate observed) control
      then Reason.error_rate_above (error_rate observed) criteria.max_error_rate ∷ []
      else []

  -- `control.p95_latency_ms is None or latency > control.p95_latency_ms`.
  abbrev slower : F → Option F → Bool
  slower latency none = true
  slower latency (some other) = f.lt other latency

  unfoldable pub latency_is_own : F → Option (CanaryObservation F) → Bool
  latency_is_own latency none = true
  latency_is_own latency (some control) = slower latency control.p95_latency_ms

  unfoldable pub latency_reasons :
      CanaryCriteria F → Option F → Option (CanaryObservation F) → List (Reason F)
  unfolding latency_is_own
  latency_reasons criteria none control = []
  latency_reasons criteria (some latency) control =
      if f.lt criteria.max_p95_latency_ms latency && latency_is_own latency control
      then Reason.latency_above latency criteria.max_p95_latency_ms ∷ []
      else []

  unfoldable pub quality_reasons : CanaryCriteria F → Option F → List (Reason F)
  quality_reasons criteria none = []
  quality_reasons criteria (some quality) =
      if f.lt quality criteria.min_quality
      then Reason.quality_below quality criteria.min_quality ∷ []
      else []

  -- The reasons gathered under `if observed.requests >= criteria.min_sample`.
  unfoldable pub rollback_reasons :
      CanaryCriteria F → CanaryObservation F → Option (CanaryObservation F) → List (Reason F)
  unfolding error_reasons latency_reasons quality_reasons
  rollback_reasons criteria observed control =
      if leb criteria.min_sample observed.requests
      then error_reasons criteria observed control
        ++ (latency_reasons criteria observed.p95_latency_ms control
            ++ quality_reasons criteria observed.quality)
      else []

  unfoldable pub decide_on :
      CanaryCriteria F → CanaryObservation F → List (Reason F) → CanaryDecision F
  decide_on criteria observed (r ∷ reasons) = record {
    action = CanaryAction.rollback;
    reasons = r ∷ reasons;
  }
  decide_on criteria observed [] =
      if ltb observed.requests criteria.min_requests
      then record {
        action = CanaryAction.hold;
        reasons = Reason.observed_of observed.requests criteria.min_requests ∷ [];
      }
      else record { action = CanaryAction.promote; reasons = [] }

  unfoldable pub evaluate :
      CanaryCriteria F → CanaryObservation F → Option (CanaryObservation F) → CanaryDecision F
  unfolding decide_on rollback_reasons control_of
  evaluate criteria observed baseline =
      if not observed.ready
      then record { action = CanaryAction.rollback; reasons = Reason.readiness ∷ [] }
      else decide_on criteria observed
          (rollback_reasons criteria observed (control_of criteria baseline))
