-- ===== src/Tests/Canaries.antt =====
-- Canaries and the engine's load at concrete inputs.
use production_local_llm_inf.Prelude.{
  ℕ, ◌*◌, ◌≤◌, ◌≡◌, ◌≢◌, ◌↔◌, ◌⊎◌, inl, inr, ap, refl, true, false, none, some, List, [], ◌∷◌,
  String, arith, length, count_if, is_some, all, string_eq,
}
use production_local_llm_inf.Prelude.Int.{ℤ, pos}
use production_local_llm_inf.Prelude.Float.{milli_float, Milli-IsOrdered}
use production_local_llm_inf.Prelude.Dict.{get, put}
use production_local_llm_inf.Prelude.Result.{ok}
use production_local_llm_inf.Registry.Validate.{cover_every_tier_with_an_objective}
use production_local_llm_inf.Engine.Load.{LoadTracker, EngineStats, IsRatio}
use production_local_llm_inf.Canary.Evaluate.{
  CanaryAction, CanaryTrack, CanaryCriteria, CanaryPlan, CanaryObservation, Reason, RollbackAction,
  error_rate, evaluate,
}
use production_local_llm_inf.Canary.Verdicts.{
  IsAtFault, PoorBy, evaluate-rollback, evaluate-promote, evaluate_shared_fault,
}
use production_local_llm_inf.Canary.Plans.{canary_plans}
use production_local_llm_inf.Canary.Objectives.{HasPositiveObjectives}
use production_local_llm_inf.Canary.PlansTotal.{canary_plans_total}
use production_local_llm_inf.Canary.Arms.{Arm, p95, p95_lem}
use production_local_llm_inf.Canary.Monitor.{CanaryMonitor, takes, record_outcome}
use production_local_llm_inf.Canary.Suspension.{
  Outcome, run, takes-run_suspended, takes-run_same_arm,
}
use production_local_llm_inf.Tests.Data.{registry}

abbrev criteria : CanaryCriteria ℤ
criteria = record {
  max_error_rate = pos 50;
  max_p95_latency_ms = pos 2000000;
  min_quality = pos 700;
  min_requests = 20;
  min_sample = 5;
}

abbrev slow_canary : CanaryObservation ℤ
slow_canary = record {
  ready = true;
  requests = 40;
  errors = 4;
  p95_latency_ms = some (pos 3000000);
  quality = some (pos 800);
}

evaluate-rollback_example :
    ((evaluate criteria slow_canary none).action ≡ CanaryAction.rollback) ↔ (
      (slow_canary.ready ≡ false)
      ⊎ ((5 ≤ slow_canary.requests) × IsAtFault criteria slow_canary none))
evaluate-rollback_example = evaluate-rollback criteria slow_canary none

evaluate-promote_example : ((evaluate criteria slow_canary none).action ≡ CanaryAction.promote) ↔ (
    (slow_canary.ready ≡ true)
    × (20 ≤ slow_canary.requests)
    × (¬ ((5 ≤ slow_canary.requests) × IsAtFault criteria slow_canary none)))
evaluate-promote_example = evaluate-promote criteria slow_canary none

no_worse : milli_float.le (error_rate slow_canary) (error_rate slow_canary) ≡ true
no_worse = Milli-IsOrdered.le_refl (error_rate slow_canary)

good_quality : ¬ PoorBy criteria slow_canary.quality
good_quality h = cc

evaluate_shared_fault_example :
    (evaluate criteria slow_canary (some slow_canary)).action ≢ CanaryAction.rollback
evaluate_shared_fault_example =
    evaluate_shared_fault Milli-IsOrdered criteria slow_canary slow_canary {lo = pos 3000000}
      {lb = pos 3000000} refl (omega arith) no_worse refl refl refl good_quality

tiers_covered : cover_every_tier_with_an_objective registry.policy ≡ ok tt
unfolding cover_every_tier_with_an_objective all get
tiers_covered = refl

objectives_positive : HasPositiveObjectives registry.policy
objectives_positive tier v (inl e) = rw (ap (λ p. p.1) e) refl
objectives_positive tier v (inr (inl e)) = rw (ap (λ p. p.1) e) refl
objectives_positive tier v (inr (inr (inl e))) = rw (ap (λ p. p.1) e) refl
objectives_positive tier v (inr (inr (inr (inl e)))) = rw (ap (λ p. p.1) e) refl
objectives_positive tier v (inr (inr (inr (inr m)))) = absurd m

canary_plans_total_example : (plans : List (CanaryPlan ℤ)) × (canary_plans registry ≡ ok plans)
canary_plans_total_example = canary_plans_total registry tiers_covered objectives_positive

abbrev arm : Arm ℤ
arm = record {
  requests = 2;
  errors = 1;
  latencies = pos 300 ∷ pos 100 ∷ [];
  quality_total = pos 900;
  quality_samples = 1;
}

p95_lem_example :
    (v : ℤ) × (p95 arm.latencies ≡ some v)
    × (length arm.latencies * 95 ≤ count_if (λ x. milli_float.le x v) arm.latencies * 100)
p95_lem_example = p95_lem Milli-IsOrdered arm.latencies refl

abbrev plan : CanaryPlan ℤ
plan = record {
  id = "adapter:legal";
  track = CanaryTrack.adapter;
  subject = "legal";
  rollback_to = none;
  rollback_action = RollbackAction.serve_without_adapter "small";
  traffic_percent = 10;
  criteria = criteria;
}

abbrev monitor : CanaryMonitor ℤ
monitor = record {
  plans = ("legal", plan) ∷ [];
  canary = ("legal", arm) ∷ [];
  stable = ("legal", arm) ∷ [];
  rolled_back = [];
}

abbrev suspended : CanaryMonitor ℤ
suspended = record monitor { rolled_back = ("legal", Reason.readiness ∷ []) ∷ [] }

abbrev digest : String → ℕ
digest t = 7

abbrev outcomes : List (Outcome ℤ)
outcomes =
    record {
      subject = "legal";
      on_canary = true;
      succeeded = true;
      latency_ms = pos 250;
      quality = none;
    }
    ∷ []

is_suspended : is_some (get "legal" suspended.rolled_back) ≡ true
unfolding get
is_suspended = refl

takes-run_suspended_example : takes digest (run suspended outcomes) "legal" "caller" ≡ false
takes-run_suspended_example =
    takes-run_suspended digest suspended outcomes "legal" "caller" is_suspended

still_running : is_some (get "legal" (run monitor outcomes).rolled_back) ≡ false
unfolding get run record_outcome evaluate put
still_running = refl

takes-run_same_arm_example :
    takes digest (run monitor outcomes) "legal" "caller" ≡ takes digest monitor "legal" "caller"
takes-run_same_arm_example =
    takes-run_same_arm digest monitor outcomes "legal" "caller" still_running

is_planned : get "legal" monitor.plans ≡ some plan
unfolding get
is_planned = refl

is_free : get "legal" monitor.rolled_back ≡ none
unfolding get
is_free = refl

abbrev load : LoadTracker ℤ
load = record {
  smoothing = pos 200;
  engine_ttl_seconds = pos 30000;
  queue = [];
  saturation = some (pos 400);
  saturation_at = pos 0;
}

abbrev stats : EngineStats ℤ
stats = record {
  running_requests = some (pos 3000);
  waiting_requests = some (pos 9000);
  kv_cache_usage_ratio = some (pos 1500);
  preemptions_total = none;
  gpu_utilization_ratio = [];
  gpu_memory_used_bytes = [];
  gpu_memory_total_bytes = [];
}

load-IsRatio : IsRatio load
load-IsRatio s e = ground (arith, e)
