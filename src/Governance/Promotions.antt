-- ===== src/Governance/Promotions.antt =====
-- The promotions that src/llm_router/governance.py's `apply` logs.
use production_local_llm_inf.Prelude.{
  ℕ, suc, ◌≡◌, refl, ap, sym, ◌∙◌, Option-cases, inl, inr, List, [], ◌∷◌, ◌++◌, append_assoc,
  String, arith, string_eq, pair_eq,
}
use mathlib.Core.List.{append-nil}
use production_local_llm_inf.Prelude.Dict.{Dict, get}
use production_local_llm_inf.Prelude.Keyed.{keyed}
use production_local_llm_inf.Prelude.Result.{Result, ok, raise, ◌>>=◌, >>=-eq-ok}
use production_local_llm_inf.Models.{or_else}
use production_local_llm_inf.Models.Enums.{LifecycleStage}
use production_local_llm_inf.Registry.Records.{BenchmarkRun, Registry}
use production_local_llm_inf.Governance.Records.{
  GovernedVersion, RecordedVersion, Promotion, Action, ActionKind, GovernanceError, missing_key,
}
use production_local_llm_inf.Governance.Plan.{
  carry_out, carry_out_all, promote, promotion_of, look_up,
}
use production_local_llm_inf.Governance.Memory.{
  InMemoryStore, memory, amend, hold, stored, staged, annotated, register,
}

-- A registration or a transition is a stage change.
abbrev promotes : ActionKind → Promotion → List Promotion
promotes ActionKind.register one = one ∷ []
promotes ActionKind.transition one = one ∷ []
promotes ActionKind.annotate one = []
promotes ActionKind.benchmark one = []

module _ {F : Type 0} (registry : Registry F) (commit : String) where
  abbrev stage_change : ℕ → Action → Promotion
  stage_change now action =
      promotion_of registry commit now action (or_else action.to_stage LifecycleStage.development)

  -- One promotion for each stage change, in the order of the actions.
  unfoldable pub stage_changes : (ℕ → ℕ) → ℕ → List Action → List Promotion
  stage_changes clock i [] = []
  stage_changes clock i (action ∷ actions) =
      promotes action.kind (stage_change (clock i) action) ++ stage_changes clock (suc i) actions

module _ {F : Type 0} where
  ok-history :
      (s t : InMemoryStore F)
      → ◌≡◌ {A = Result GovernanceError (InMemoryStore F)} (ok s) (ok t)
      → t.history ≡ s.history
  ok-history s t h = let e : s ≡ t = ground arith in sym (ap (λ (u : InMemoryStore F). u.history) e)

  amend-history :
      (n r : String) (change : RecordedVersion → RecordedVersion) (s t : InMemoryStore F)
      → amend n r change s ≡ ok t
      → t.history ≡ s.history
  unfolding amend hold
  amend-history n r change s t h = elim (Option-cases (get r (stored s n))) [
    | inl absent ↦ absurd (never (rw (amend, absent) at h))
    | inr (v, held) ↦ ok-history (hold n r (change v) s) t (rw (amend, held) at h)
  ]
    where
      never : ◌≡◌ {A = Result GovernanceError (InMemoryStore F)} (raise missing_key) (ok t) → ⊥
      never q = ground arith

  module _ (registry : Registry F) (subjects : Dict (String × String) GovernedVersion)
      (commit : String) where
    promote-history :
        (now : ℕ) (action : Action) (s t : InMemoryStore F)
        → promote memory registry subjects commit now action s ≡ ok t
        → t.history ≡ s.history ++ stage_change registry commit now action ∷ []
    unfolding promote
    promote-history now action s t h =
        let stage = or_else action.to_stage LifecycleStage.development in
        let (u, first, last) =
          >>=-eq-ok (memory.set_stage action.name action.revision stage s)
            (λ staged. ok (memory.log_promotion (stage_change registry commit now action) staged))
            h in
        ok-history (memory.log_promotion (stage_change registry commit now action) u) t last
        ∙ ap (λ h. h ++ stage_change registry commit now action ∷ [])
            (amend-history action.name action.revision (staged stage) s u first)

    carry_out-history :
        (now : ℕ) (action : Action) (s t : InMemoryStore F)
        → carry_out memory registry subjects commit now action s ≡ ok t
        → t.history ≡ s.history ++ promotes action.kind (stage_change registry commit now action)
    unfolding carry_out register hold
    carry_out-history now action s t h = by_kind action.kind refl
      where
        by_kind :
            (kind : ActionKind)
            → action.kind ≡ kind
            → t.history
              ≡ s.history ++ promotes action.kind (stage_change registry commit now action)
        by_kind ActionKind.transition e =
            promote-history now action s t (rw (carry_out, e) at h) ∙ rw e
        by_kind ActionKind.annotate e =
            let subject = look_up (get (action.name, action.revision) subjects) in
            let (v, first, last) =
              >>=-eq-ok subject (λ v. memory.annotate v s) (rw (carry_out, e) at h) in
            amend-history v.name v.revision (annotated v) s t last
            ∙ sym (append-nil s.history)
            ∙ rw e
        by_kind ActionKind.benchmark e =
            let found =
              look_up
                (get action.name (keyed (λ (run : BenchmarkRun F). run.id) registry.benchmarks)) in
            let (run, first, last) =
              >>=-eq-ok found (λ run. ok (memory.log_benchmark run s)) (rw (carry_out, e) at h) in
            ok-history (memory.log_benchmark run s) t last ∙ sym (append-nil s.history) ∙ rw e
        by_kind ActionKind.register e =
            let subject = look_up (get (action.name, action.revision) subjects) in
            let (v, first, last) =
              >>=-eq-ok subject
                (λ v. memory.register v s >>= promote memory registry subjects commit now action)
                (rw (carry_out, e) at h) in
            promote-history now action (register v s) t last ∙ rw e

    -- The promotions that were there stay in front.
    pub carry_out_all-history :
        (clock : ℕ → ℕ) (i : ℕ) (actions : List Action) (s t : InMemoryStore F)
        → carry_out_all memory registry subjects commit clock i actions s ≡ ok t
        → t.history ≡ s.history ++ stage_changes registry commit clock i actions
    unfolding carry_out_all stage_changes
    carry_out_all-history clock i [] s t h = ok-history s t h ∙ sym (append-nil s.history)
    carry_out_all-history clock i (action ∷ actions) s t h =
        let (u, first, last) =
          >>=-eq-ok (carry_out memory registry subjects commit (clock i) action s)
            (carry_out_all memory registry subjects commit clock (suc i) actions) h in
        carry_out_all-history clock (suc i) actions u t last
        ∙ ap (λ h. h ++ stage_changes registry commit clock (suc i) actions)
            (carry_out-history (clock i) action s u first)
        ∙ append_assoc s.history _ _
