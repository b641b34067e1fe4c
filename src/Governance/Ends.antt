-- ===== src/Governance/Ends.antt =====
-- When the plan of src/llm_router/governance.py over the in-memory store is empty, and what carrying it
-- out leaves.
use production_local_llm_inf.Prelude.{
  ℕ, ◌≡◌, refl, ap, sym, ◌∙◌, ◌⊎◌, inl, inr, true, Option, none, some, List, [], ◌∈◌, ◌++◌, map,
  mem-map, mem-filter, String, arith, string_eq, option_eq, Bool-cases,
}
use production_local_llm_inf.Prelude.Dict.{get}
use production_local_llm_inf.Prelude.Loops.{gather-nil, gather-cases, nil_of_no_mem}
use production_local_llm_inf.Prelude.Result.{Result, ok, raise, ◌>>=◌}
use production_local_llm_inf.Registry.Records.{Registry}
use production_local_llm_inf.Governance.Records.{
  GovernedVersion, RecordedVersion, Action, GovernanceError,
}
use production_local_llm_inf.Governance.Plan.{
  clashes, clash, own_actions, corrections, superseded, removed, missing_evidence, recorded_of,
  plan_subject, plan_versions, carry_out_all, subjects_of,
}
use production_local_llm_inf.Governance.Memory.{InMemoryStore, memory}
use production_local_llm_inf.Governance.Filed.{find, IsFiled, get-recorded_of}
use production_local_llm_inf.Governance.Wanted.{HasUniqueNames}
use production_local_llm_inf.Governance.Planned.{
  plan_versions-Planned, Retired, mem-superseded, mem-removed,
}
use production_local_llm_inf.Governance.Settled.{done, Trace-IsFiled, carry_out_all-Trace}
use production_local_llm_inf.Governance.Sync.{IsInStep, Trace-IsInStep}

-- What the actions on a subject raise is the clash with the version that is held.
own_actions-raise :
    (subject : GovernedVersion) (o : Option RecordedVersion) {e : GovernanceError}
    → own_actions subject o ≡ raise e
    → (v : RecordedVersion) × (o ≡ some v) × (clashes subject v ≡ true) × (e ≡ clash subject v)
unfolding own_actions
own_actions-raise subject none {e = e} h = absurd (ground arith)
own_actions-raise subject (some v) {e = e} h = elim (Bool-cases (clashes subject v)) [
  | inl on ↦ (v, refl, on, same (rw on at h))
  | inr off ↦ absurd (never (rw off at h))
]
  where
    same :
        ◌≡◌ {A = Result GovernanceError (List Action)} (raise (clash subject v)) (raise e)
        → e ≡ clash subject v
    same q = ground arith

    never :
        ◌≡◌ {A = Result GovernanceError (List Action)} (ok (corrections subject v)) (raise e) → ⊥
    never q = ground arith

module _ {F : Type 0} (registry : Registry F) (wanted : List GovernedVersion) (s : InMemoryStore F)
    (filed : IsFiled s) where
  -- A wanted version stands under a checksum that the catalog changed.
  abbrev pub Clash : Type 0
  Clash =
      (subject : GovernedVersion) × (subject ∈ wanted)
      × (v : RecordedVersion) × (find s subject.name subject.revision ≡ some v)
      × (clashes subject v ≡ true)
      × (plan_versions memory registry s wanted ≡ raise (clash subject v))

  plan_subject-raise :
      (subject : GovernedVersion) {e : GovernanceError}
      → plan_subject memory s subject ≡ raise e
      → own_actions subject (find s subject.name subject.revision) ≡ raise e
  unfolding plan_subject
  plan_subject-raise subject {e = e} h =
      let same = get-recorded_of s subject.name subject.revision filed in
      ap (own_actions subject) (sym same)
      ∙ only (own_actions subject (get subject.revision (recorded_of memory s subject.name))) h
    where
      only :
          (m : Result GovernanceError (List Action))
          → (m >>= λ own. ok (own ++ superseded memory s subject)) ≡ raise e
          → m ≡ raise e
      only (raise q) k = ground arith
      only (ok own) k = absurd (ground arith)

  pub plan_versions-cases :
      ((actions : List Action) × (plan_versions memory registry s wanted ≡ ok actions)) ⊎ Clash
  unfolding plan_versions
  plan_versions-cases = elim (gather-cases (plan_subject memory s) wanted) [
    | inl (own, h) ↦ inl (all_actions own, rw h)
    | inr (e, subject, w, h, q) ↦
        let (v, held, on, same) = own_actions-raise subject _ (plan_subject-raise subject h) in
        inr (subject, w, v, held, on, rw (q, same))
  ]
    where
      all_actions : List Action → List Action
      all_actions own =
          own
          ++ (removed memory s (map (λ subject. subject.name) wanted)
              ++ missing_evidence memory s registry.benchmarks)

  module _ (unique : HasUniqueNames wanted) where
    no_retirement :
        IsInStep registry wanted s
        → (action : Action) → Retired s filed wanted unique registry.benchmarks action
        → ⊥
    no_retirement step action (n, r, reason, v, held, unwanted, live, e) =
        let dead = step.retired n r v held unwanted in absurd (ground arith)

    own_actions-nil :
        IsInStep registry wanted s
        → (subject : GovernedVersion) → subject ∈ wanted
        → own_actions subject (find s subject.name subject.revision) ≡ ok []
    unfolding own_actions corrections
    own_actions-nil step subject w =
        let (v, held, staged, tagged, off) = step.current subject w in
        rw (held, staged, tagged, off)

    plan_subject-nil :
        IsInStep registry wanted s
        → (subject : GovernedVersion) → subject ∈ wanted
        → plan_subject memory s subject ≡ ok []
    unfolding plan_subject
    plan_subject-nil step subject w =
        let same = get-recorded_of s subject.name subject.revision filed in
        let none_old = nil_of_no_mem (superseded memory s subject) (λ action m.
          no_retirement step action
            (mem-superseded s filed wanted unique registry.benchmarks subject w action m)) in
        rw (same, own_actions-nil step subject w, none_old)

    missing-nil : IsInStep registry wanted s → missing_evidence memory s registry.benchmarks ≡ []
    unfolding missing_evidence
    missing-nil step = nil_of_no_mem _ (λ action m.
        let (run, m₁, e) = mem-map _ _ action m in
        let (m₂, absent) = mem-filter _ _ run m₁ in
        let there = step.logged run m₂ in absurd (ground arith))

    -- The plan of a store that is in step is empty.
    pub plan_versions-nil :
        IsInStep registry wanted s → plan_versions memory registry s wanted ≡ ok []
    unfolding plan_versions
    plan_versions-nil step =
        let none_removed =
          nil_of_no_mem (removed memory s (map (λ subject. subject.name) wanted)) (λ action m.
            no_retirement step action
              (mem-removed s filed wanted unique registry.benchmarks action m)) in
        rw (
          gather-nil (plan_subject memory s) wanted (plan_subject-nil step),
          none_removed,
          missing-nil step,
        )

    -- The store with an empty plan is in step.
    pub nil-IsInStep : plan_versions memory registry s wanted ≡ ok [] → IsInStep registry wanted s
    nil-IsInStep h =
        let (t, k, trace) =
          carry_out_all-Trace registry wanted unique "" (λ i. i) 0 [] s filed
            (λ action m. absurd m) in
        Trace-IsInStep registry wanted unique s s filed h done

    -- The plan of a store, carried out, leaves the store in step.
    pub carry_out_all-IsInStep :
        (commit : String) (clock : ℕ → ℕ) {actions : List Action}
        → plan_versions memory registry s wanted ≡ ok actions
        → (t : InMemoryStore F) × (carry_out_all memory registry
              (subjects_of wanted)
              commit
              clock
              0
              actions
              s
            ≡ ok t)
          × IsFiled t
          × IsInStep registry wanted t
    carry_out_all-IsInStep commit clock {actions = actions} h =
        let (t, k, trace) =
          carry_out_all-Trace registry wanted unique commit clock 0 actions s filed
            (plan_versions-Planned s filed wanted unique registry.benchmarks registry refl h) in
        (
          t,
          k,
          Trace-IsFiled wanted registry.benchmarks trace filed,
          Trace-IsInStep registry wanted unique s t filed h trace,
        )
