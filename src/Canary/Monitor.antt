-- ===== src/Canary/Monitor.antt =====
-- `CanaryMonitor` of src/llm_router/canary.py. The first eight hexadecimal digits of a text's
-- SHA-256, as a number, are the argument `digest`: hashlib is not part of the repository.
use production_local_llm_inf.Prelude.{
  ℕ, ◌%◌, Bool, true, false, not, Option, none, some, List, [], ◌∷◌, map, String, concat, is_some,
  ltb, ◌||◌, if◌then◌else◌, string_eq,
}
use production_local_llm_inf.Prelude.Dict.{Dict, get, put}
use production_local_llm_inf.Prelude.Float.{Float}
use production_local_llm_inf.Canary.Evaluate.{
  CanaryAction, CanaryTrack, CanaryPlan, CanaryDecision, CanaryObservation, Reason, evaluate,
}
use production_local_llm_inf.Canary.Arms.{Arm, fresh_arm, record_arm, observation}

-- What `status` reports; its `none` is the KeyError.
pub record LiveStatus (F : Type 0) : Type 0 where
  pub state : String
  pub reasons : List (Reason F)
  pub canary : CanaryObservation F
  pub stable : CanaryObservation F

pub record CanaryMonitor (F : Type 0) : Type 0 where
  pub plans : Dict String (CanaryPlan F)
  pub canary : Dict String (Arm F)
  pub stable : Dict String (Arm F)
  pub rolled_back : Dict String (List (Reason F))

abbrev pub is_adapter : CanaryTrack → Bool
is_adapter CanaryTrack.adapter = true
is_adapter _ = false

abbrev pub is_rollback : CanaryAction → Bool
is_rollback CanaryAction.rollback = true
is_rollback _ = false

unfoldable pub live_state : CanaryAction → String
live_state CanaryAction.promote = "ready-to-promote"
live_state _ = "in-progress"

module _ {F : Type 0} where
  -- `{plan.subject: plan for plan in plans if plan.track is CanaryTrack.ADAPTER}`.
  unfoldable pub index_plans :
      List (CanaryPlan F) → Dict String (CanaryPlan F) → Dict String (CanaryPlan F)
  index_plans [] d = d
  index_plans (plan ∷ plans) d =
      index_plans plans (if is_adapter plan.track then put plan.subject plan d else d)

  unfoldable pub subjects : CanaryMonitor F → List String
  subjects m = map (λ e. e.0) m.plans

  unfoldable pub takes : (String → ℕ) → CanaryMonitor F → String → String → Bool
  takes digest m subject key = elim (get subject m.plans) [
    | none ↦ false
    | some plan ↦
        if is_some (get subject m.rolled_back)
        then false
        else ltb (digest (concat subject (concat "|" key)) % 100) plan.traffic_percent
  ]

module _ {F : Type 0} ⦃f : Float F⦄ where
  unfoldable pub new_monitor : List (CanaryPlan F) → CanaryMonitor F
  unfolding index_plans fresh_arm
  new_monitor plans =
      let indexed = index_plans plans [] in
      record {
        plans = indexed;
        canary = map (λ e. (e.0, fresh_arm)) indexed;
        stable = map (λ e. (e.0, fresh_arm)) indexed;
        rolled_back = [];
      }

  -- `arms[subject]`, which every planned subject has.
  unfoldable pub arm_of : String → Dict String (Arm F) → Arm F
  unfolding fresh_arm
  arm_of subject arms = elim (get subject arms) [ none ↦ fresh_arm | some arm ↦ arm ]

  unfoldable pub update_arm :
      CanaryMonitor F → String → Bool → Bool → F → Option F → CanaryMonitor F
  unfolding arm_of record_arm
  update_arm m subject on_canary ok latency_ms quality =
      if on_canary
      then record m {
        canary = put subject (record_arm (arm_of subject m.canary) ok latency_ms quality) m.canary;
      }
      else record m {
        stable = put subject (record_arm (arm_of subject m.stable) ok latency_ms quality) m.stable;
      }

  -- `self._rolled_back[subject] = decision.reasons` on a rollback.
  unfoldable pub suspend : CanaryMonitor F → String → CanaryDecision F → CanaryMonitor F
  suspend m subject decision =
      if is_rollback decision.action
      then record m { rolled_back = put subject decision.reasons m.rolled_back }
      else m

  unfoldable pub judge : CanaryMonitor F → String → CanaryPlan F → CanaryDecision F
  unfolding arm_of observation evaluate
  judge m subject plan =
      evaluate plan.criteria (observation (arm_of subject m.canary))
        (some (observation (arm_of subject m.stable)))

  -- The rest of `record`, once the outcome is counted: judge a canary that is not suspended.
  unfoldable pub conclude :
      CanaryMonitor F → String → Bool → CanaryPlan F → CanaryMonitor F × Option (CanaryDecision F)
  unfolding suspend judge
  conclude m subject skipped plan =
      if skipped
      then (m, none)
      else (suspend m subject (judge m subject plan), some (judge m subject plan))

  unfoldable pub record_planned :
      Option (CanaryPlan F)
      → CanaryMonitor F
      → String
      → Bool
      → Bool
      → F
      → Option F
      → CanaryMonitor F × Option (CanaryDecision F)
  unfolding update_arm conclude
  record_planned none m subject on_canary ok latency_ms quality = (m, none)
  record_planned (some plan) m subject on_canary ok latency_ms quality =
      conclude (update_arm m subject on_canary ok latency_ms quality) subject
        (not on_canary || is_some (get subject m.rolled_back)) plan

  unfoldable pub record_outcome :
      CanaryMonitor F
      → String
      → Bool
      → Bool
      → F
      → Option F
      → CanaryMonitor F × Option (CanaryDecision F)
  unfolding record_planned
  record_outcome m subject = record_planned (get subject m.plans) m subject

  unfoldable pub status : CanaryMonitor F → String → Option (LiveStatus F)
  unfolding live_state judge arm_of observation
  status m subject =
      let canary = observation (arm_of subject m.canary) in
      let stable = observation (arm_of subject m.stable) in
      elim (get subject m.plans) [
        | none ↦ none
        | some plan ↦ elim (get subject m.rolled_back) [
          | some reasons ↦ some (record {
            state = "rolled-back";
            reasons = reasons;
            canary = canary;
            stable = stable;
          })
          | none ↦
              (let decision = judge m subject plan in
                some (record {
                  state = live_state decision.action;
                  reasons = decision.reasons;
                  canary = canary;
                  stable = stable;
                }))
        ]
      ]
