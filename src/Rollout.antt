-- ===== src/Rollout.antt =====
-- src/llm_router/rollout.py: what a verdict does to a release, and the exit code it leaves.
use production_local_llm_inf.Prelude.{
  ℕ, ◌≡◌, ◌≢◌, ◌↔◌, ◌⊎◌, inl, inr, refl, Bool, true, not, Option, none, some, List, [], ◌∷◌, ◌++◌,
  String, is_empty, ◌&&◌, nat_beq, if◌then◌else◌, arith, Bool-cases,
}
use production_local_llm_inf.Canary.Evaluate.{
  CanaryAction, CanaryTrack, CanaryPlan, CanaryDecision, Reason, RollbackAction,
}

pub data Note : Type 0 where
  no_note gateway_withdraws : Note
  no_target : RollbackAction → Note
  rolls_back : RollbackAction → Note

pub record RolloutStep (F : Type 0) : Type 0 where
  pub plan : String
  pub action : CanaryAction
  pub reasons : List (Reason F)
  pub rollback_to : Option String
  pub command : List String
  pub note : Note

abbrev set_values : List String → List String
set_values [] = []
set_values (v ∷ vs) = "--set" ∷ v ∷ set_values vs

unfoldable pub deploy_command : String → String → String → List String → String → List String
deploy_command release namespace_ chart values timeout =
    ("helm" ∷ "upgrade" ∷ "--install" ∷ release ∷ chart ∷ "--namespace" ∷ namespace_
      ∷ "--create-namespace" ∷ "--atomic" ∷ "--timeout" ∷ timeout ∷ [])
    ++ set_values values

unfoldable pub rollback_command : String → String → String → List String
rollback_command release namespace_ timeout =
    "helm" ∷ "rollback" ∷ release ∷ "--namespace" ∷ namespace_ ∷ "--wait" ∷ "--timeout" ∷ timeout
    ∷ []

unfoldable pub command_for : CanaryAction → CanaryTrack → Option String → List String → List String
command_for CanaryAction.rollback CanaryTrack.model (some to) command = command
command_for CanaryAction.rollback CanaryTrack.policy (some to) command = command
command_for _ _ _ command = []

unfoldable pub note_for : CanaryAction → CanaryTrack → Option String → RollbackAction → Note
note_for CanaryAction.rollback CanaryTrack.adapter to action = gateway_withdraws
note_for CanaryAction.rollback track none action = no_target action
note_for CanaryAction.rollback track (some to) action = rolls_back action
note_for _ _ _ action = no_note

abbrev exit_codes : CanaryAction → ℕ
exit_codes CanaryAction.promote = 0
exit_codes CanaryAction.hold = 2
exit_codes CanaryAction.rollback = 3

codes_iff :
    {P Q : Type 0} (action : CanaryAction)
    → ¬ P
    → ((exit_codes action ≡ 0) ↔ (action ≡ CanaryAction.promote))
      × ((exit_codes action ≡ 2) ↔ (action ≡ CanaryAction.hold))
      × ((exit_codes action ≡ 3) ↔ ((action ≡ CanaryAction.rollback) × (¬ (P × Q))))
      × ((exit_codes action ≡ 4) ↔ (P × Q))
codes_iff CanaryAction.promote h = ground (arith, h)
codes_iff CanaryAction.hold h = ground (arith, h)
codes_iff CanaryAction.rollback h = ground (arith, h)

command_for-some :
    (action : CanaryAction) (track : CanaryTrack) (to : Option String) (command : List String)
    → ((command_for action track to command ≡ [])
        ⊎ ((action ≡ CanaryAction.rollback)
            × (track ≢ CanaryTrack.adapter)
            × (to ≢ none)
            × (command_for action track to command ≡ command)))
unfolding command_for
command_for-some CanaryAction.promote track to command = inl refl
command_for-some CanaryAction.hold track to command = inl refl
command_for-some CanaryAction.rollback CanaryTrack.adapter to command = inl refl
command_for-some CanaryAction.rollback CanaryTrack.model none command = inl refl
command_for-some CanaryAction.rollback CanaryTrack.policy none command = inl refl
command_for-some CanaryAction.rollback CanaryTrack.model (some t) command =
    inr (refl, λ e. cc, λ e. cc, refl)
command_for-some CanaryAction.rollback CanaryTrack.policy (some t) command =
    inr (refl, λ e. cc, λ e. cc, refl)

module _ {F : Type 0} where
  unfoldable pub next_step : String → String → CanaryPlan F → CanaryDecision F → RolloutStep F
  unfolding command_for note_for rollback_command
  next_step release namespace_ plan decision = record {
    plan = plan.id;
    action = decision.action;
    reasons = decision.reasons;
    rollback_to = plan.rollback_to;
    command =
        command_for decision.action plan.track plan.rollback_to
          (rollback_command release namespace_ "10m");
    note = note_for decision.action plan.track plan.rollback_to plan.rollback_action;
  }

  -- The end of `main`: the commands that are run, and the exit code. `runner` gives the exit code
  -- of a command.
  unfoldable pub carry_out : (List String → ℕ) → Bool → RolloutStep F → List (List String) × ℕ
  carry_out runner execute step =
      let executed = not (is_empty step.command) && execute in
      let failed = executed && not (nat_beq (runner step.command) 0) in
      (if executed then step.command ∷ [] else [], if failed then 4 else exit_codes step.action)

  -- Acting on a verdict runs nothing, or the one rollback command of the release: then execution
  -- was asked for, the verdict was to roll back, the plan is not an adapter's, and it has a target
  -- to return to.
  pub carry_out-commands :
      (runner : List String → ℕ) (execute : Bool) (release namespace_ : String)
      (plan : CanaryPlan F) (decision : CanaryDecision F)
      → ((carry_out runner execute (next_step release namespace_ plan decision)).0 ≡ [])
        ⊎ (((carry_out runner execute (next_step release namespace_ plan decision)).0
              ≡ rollback_command release namespace_ "10m" ∷ [])
            × (execute ≡ true)
            × (decision.action ≡ CanaryAction.rollback)
            × (plan.track ≢ CanaryTrack.adapter)
            × (plan.rollback_to ≢ none))
  unfolding carry_out next_step
  carry_out-commands runner execute release namespace_ plan decision =
      let command = rollback_command release namespace_ "10m" in
      elim (command_for-some decision.action plan.track plan.rollback_to command) [
        | inl nothing ↦ inl (rw nothing refl)
        | inr (rolls, track, to, same) ↦ elim (Bool-cases execute) [
          | inl asked ↦ inr (rw (same, asked) refl, asked, rolls, track, to)
          | inr idle ↦ inl (rw (same, idle) refl)
        ]
      ]

  -- The exit code tells the verdict: 0 exactly to promote, 2 exactly to hold, 4 exactly when the
  -- rollback command ran and failed, and 3 exactly for any other rollback.
  pub carry_out-code :
      (runner : List String → ℕ) (execute : Bool) (release namespace_ : String)
      (plan : CanaryPlan F) (decision : CanaryDecision F)
      → (((carry_out runner execute (next_step release namespace_ plan decision)).1 ≡ 0)
          ↔ (decision.action ≡ CanaryAction.promote))
        × (((carry_out runner execute (next_step release namespace_ plan decision)).1 ≡ 2)
            ↔ (decision.action ≡ CanaryAction.hold))
        × (((carry_out runner execute (next_step release namespace_ plan decision)).1 ≡ 3) ↔ (
            (decision.action ≡ CanaryAction.rollback)
            × (¬ (
                ((carry_out runner execute (next_step release namespace_ plan decision)).0 ≢ [])
                × (runner (rollback_command release namespace_ "10m") ≢ 0)))))
        × (((carry_out runner execute (next_step release namespace_ plan decision)).1 ≡ 4) ↔ (
            ((carry_out runner execute (next_step release namespace_ plan decision)).0 ≢ [])
            × (runner (rollback_command release namespace_ "10m") ≢ 0)))
  unfolding carry_out next_step
  carry_out-code runner execute release namespace_ plan decision =
      let command = rollback_command release namespace_ "10m" in
      elim (command_for-some decision.action plan.track plan.rollback_to command) [
        | inl nothing ↦ rw nothing (codes_iff decision.action (λ h. h refl))
        | inr (rolls, track, to, same) ↦ elim (Bool-cases execute) [
          | inl asked ↦ rw (same, rolls, asked) (ground arith)
          | inr idle ↦ rw (same, rolls, idle) (ground arith)
        ]
      ]
