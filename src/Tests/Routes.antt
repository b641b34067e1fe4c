-- ===== src/Tests/Routes.antt =====
-- Routing, dispatch and the rollout at concrete inputs.
use production_local_llm_inf.Prelude.{
  ℕ, ◌≡◌, ◌≢◌, ◌↔◌, ◌⊎◌, refl, true, false, none, some, List, [], ◌∷◌, String, length, elem, all,
  if◌then◌else◌,
}
use production_local_llm_inf.Prelude.Int.{ℤ, pos}
use production_local_llm_inf.Prelude.Float.{milli_float, Milli-IsOrdered, argmax_from, fmax}
use production_local_llm_inf.Prelude.Dict.{get}
use production_local_llm_inf.Prelude.Result.{ok, raise}
use production_local_llm_inf.Models.{ModelProfile, RouteDecision, quality_for, prompt}
use production_local_llm_inf.Models.Enums.{PrivacyClass}
use production_local_llm_inf.Routing.Router.{no_eligible_model, candidates, estimated_tokens}
use production_local_llm_inf.Routing.Select.{select, settled_task, decide}
use production_local_llm_inf.Routing.Selection.{
  IsCandidate, score_of, settled, select-ok, select-raise, select_private_stays_local,
}
use production_local_llm_inf.Dispatch.{
  target, local_engine, external_provider, no_provider, target-select,
}
use production_local_llm_inf.Canary.Evaluate.{
  CanaryAction, CanaryTrack, CanaryPlan, CanaryDecision, Reason, RollbackAction,
}
use production_local_llm_inf.Rollout.{
  carry_out, next_step, rollback_command, carry_out-commands, carry_out-code,
}
use production_local_llm_inf.Tests.Data.{router, outside, terms, request_of, outside_model}

abbrev pub chosen : RouteDecision ℤ
chosen =
    decide outside router (request_of PrivacyClass.public) terms
      (settled_task outside router (request_of PrivacyClass.public) terms) none outside_model 2

public_goes_out : select outside router (request_of PrivacyClass.public) terms ≡ ok chosen
unfolding select elem estimated_tokens prompt fmax quality_for get all argmax_from
public_goes_out = refl

select-ok_example :
    IsCandidate outside router (request_of PrivacyClass.public) terms chosen.profile
    × ((q : ModelProfile ℤ)
        → IsCandidate outside router (request_of PrivacyClass.public) terms q
        → milli_float.le
            (score_of outside router (request_of PrivacyClass.public) terms q)
            (score_of outside router (request_of PrivacyClass.public) terms chosen.profile)
          ≡ true)
    × (chosen.candidate_count
        ≡ length (
            candidates router
              (request_of PrivacyClass.public)
              terms
              (settled outside router (request_of PrivacyClass.public) terms).task))
select-ok_example =
    select-ok outside router (request_of PrivacyClass.public) terms Milli-IsOrdered {d = chosen}
      public_goes_out

select_private_stays_local_example :
    ((chosen.profile.local ≡ true)
      ⊎ ((PrivacyClass.public ≡ PrivacyClass.public)
          × (router.external_fallback_enabled ≡ true)
          × (terms.tenant_allows_external ≡ true)
          × ((request_of PrivacyClass.public).routing.allow_external_fallback ≡ true)))
    × ((terms.fallback_from ≡ none) ⊎ (chosen.profile.local ≡ false))
select_private_stays_local_example =
    select_private_stays_local outside router (request_of PrivacyClass.public) terms Milli-IsOrdered
      {d = chosen} public_goes_out

select-raise_example :
    (select outside router (request_of PrivacyClass.private) terms ≡ raise no_eligible_model) ↔ (
      (p : ModelProfile ℤ) → ¬ IsCandidate outside router (request_of PrivacyClass.private) terms p)
select-raise_example = select-raise outside router (request_of PrivacyClass.private) terms

target-select_example :
    ((target true (request_of PrivacyClass.public) chosen ≡ ok local_engine)
      × (chosen.profile.local ≡ true))
    ⊎ ((target true (request_of PrivacyClass.public) chosen
          ≡ (if true then ok external_provider else raise no_provider))
        × (PrivacyClass.public ≡ PrivacyClass.public)
        × (terms.tenant_allows_external ≡ true)
        × ((request_of PrivacyClass.public).routing.allow_external_fallback ≡ true))
target-select_example =
    target-select Milli-IsOrdered true outside router (request_of PrivacyClass.public) terms
      {d = chosen} public_goes_out

abbrev plan : CanaryPlan ℤ
plan = record {
  id = "model:deploy-1";
  track = CanaryTrack.model;
  subject = "small";
  rollback_to = some "deploy-0";
  rollback_action = RollbackAction.redeploy "deploy-0" "sha256:0";
  traffic_percent = 10;
  criteria = record {
    max_error_rate = pos 50;
    max_p95_latency_ms = pos 2000000;
    min_quality = pos 700;
    min_requests = 20;
    min_sample = 5;
  };
}

abbrev decision : CanaryDecision ℤ
decision = record { action = CanaryAction.rollback; reasons = Reason.readiness ∷ [] }

abbrev failing : List String → ℕ
failing c = 1

carry_out-commands_example :
    ((carry_out failing true (next_step "r" "n" plan decision)).0 ≡ [])
    ⊎ (((carry_out failing true (next_step "r" "n" plan decision)).0
          ≡ rollback_command "r" "n" "10m" ∷ [])
        × (true ≡ true)
        × (decision.action ≡ CanaryAction.rollback)
        × (plan.track ≢ CanaryTrack.adapter)
        × (plan.rollback_to ≢ none))
carry_out-commands_example = carry_out-commands failing true "r" "n" plan decision

carry_out-code_example :
    (((carry_out failing true (next_step "r" "n" plan decision)).1 ≡ 0)
      ↔ (decision.action ≡ CanaryAction.promote))
    × (((carry_out failing true (next_step "r" "n" plan decision)).1 ≡ 2)
        ↔ (decision.action ≡ CanaryAction.hold))
    × (((carry_out failing true (next_step "r" "n" plan decision)).1 ≡ 3) ↔ (
        (decision.action ≡ CanaryAction.rollback)
        × (¬ (
            ((carry_out failing true (next_step "r" "n" plan decision)).0 ≢ [])
            × (failing (rollback_command "r" "n" "10m") ≢ 0)))))
    × (((carry_out failing true (next_step "r" "n" plan decision)).1 ≡ 4) ↔ (
        ((carry_out failing true (next_step "r" "n" plan decision)).0 ≢ [])
        × (failing (rollback_command "r" "n" "10m") ≢ 0)))
carry_out-code_example = carry_out-code failing true "r" "n" plan decision
