-- ===== src/Governance/Outcome.antt =====
-- How `plan` and `sync` of src/llm_router/governance.py end over the in-memory store.
use production_local_llm_inf.Prelude.{
  ℕ, ◌≡◌, ◌⊎◌, inl, inr, ◌↔◌, true, false, some, List, [], ◌∈◌, ◌++◌, String, string_eq, option_eq,
}
use production_local_llm_inf.Prelude.Result.{ok, raise}
use production_local_llm_inf.Registry.Records.{Registry}
use production_local_llm_inf.Governance.Records.{GovernedVersion, RecordedVersion, Action}
use production_local_llm_inf.Governance.Catalog.{governed_versions}
use production_local_llm_inf.Governance.Plan.{clashes, clash, plan, apply, sync, subjects_of}
use production_local_llm_inf.Governance.Memory.{InMemoryStore, memory}
use production_local_llm_inf.Governance.Filed.{find, IsFiled}
use production_local_llm_inf.Governance.Wanted.{governed_versions-HasUniqueNames}
use production_local_llm_inf.Governance.Covers.{plan-Covers}
use production_local_llm_inf.Governance.Promotions.{stage_changes, carry_out_all-history}
use production_local_llm_inf.Governance.Sync.{IsInStep}
use production_local_llm_inf.Governance.Ends.{
  plan_versions-cases, plan_versions-nil, nil-IsInStep, carry_out_all-IsInStep,
}

module _ {F : Type 0} (general_format : F → String) (registry : Registry F) (root : String)
    (s : InMemoryStore F) (wanted : List GovernedVersion) where
  -- A wanted version stands under a clashing checksum, and `plan` and `sync` say so.
  abbrev pub Refused : String → (ℕ → ℕ) → Type 0
  Refused commit clock =
      (subject : GovernedVersion) × (v : RecordedVersion) × (subject ∈ wanted)
      × (find s subject.name subject.revision ≡ some v)
      × (clashes subject v ≡ true)
      × (plan memory general_format registry root s ≡ raise (clash subject v))
      × (sync memory general_format registry root commit clock s ≡ raise (clash subject v))

  -- No wanted version clashes, and `sync` carries out the plan.
  abbrev pub Synced : String → (ℕ → ℕ) → Type 0
  Synced commit clock =
      ((subject : GovernedVersion) (v : RecordedVersion)
        → subject ∈ wanted
        → find s subject.name subject.revision ≡ some v
        → clashes subject v ≡ false)
      × (actions : List Action) × (t : InMemoryStore F) × (plan memory general_format registry root
            s
          ≡ ok actions)
      × (sync memory general_format registry root commit clock s ≡ ok (actions, t))
      × (t.history ≡ s.history ++ stage_changes registry commit clock 0 actions)
      × IsFiled t
      × IsInStep registry wanted t
      × (plan memory general_format registry root t ≡ ok [])

  -- For a store whose versions are filed under their own names and revisions and a catalog without
  -- duplicated names, the plan is empty exactly when the store is in step with the catalog: every
  -- version of the catalog is recorded in its stage, with its card tags and no clashing checksum;
  -- every other recorded version is deprecated; and every benchmark has a recorded run.
  pub plan-nil_iff :
      IsFiled s
      → governed_versions general_format registry root ≡ ok wanted
      → (plan memory general_format registry root s ≡ ok []) ↔ IsInStep registry wanted s
  unfolding plan
  plan-nil_iff filed h =
      let unique = governed_versions-HasUniqueNames general_format registry root h in
      (
        (λ q. nil-IsInStep registry wanted s filed unique (rw h at q)),
        (λ step. rw (h, plan_versions-nil registry wanted s filed unique step)),
      )

  -- From a store whose versions are filed under their own names and revisions, for a catalog without
  -- duplicated names: either a version of the catalog is recorded under a clashing checksum, and then
  -- `plan` and `sync` raise the error that names such a version; or no version clashes, and `sync`
  -- carries out its plan and leaves a store, filed as before, that is in step with the catalog and
  -- whose plan is empty, with the promotions it had followed by one for each registration and
  -- transition of the plan, in its order.
  pub sync-cases :
      (commit : String) (clock : ℕ → ℕ)
      → IsFiled s
      → governed_versions general_format registry root ≡ ok wanted
      → Refused commit clock ⊎ Synced commit clock
  unfolding plan apply sync
  sync-cases commit clock filed h =
      let unique = governed_versions-HasUniqueNames general_format registry root h in
      elim (plan_versions-cases registry wanted s filed) [
        | inr (subject, w, v, held, on, q) ↦ inl (subject, v, w, held, on, rw (h, q), rw (h, q))
        | inl (actions, q) ↦
            let (t, k, filed_t, step) =
              carry_out_all-IsInStep registry wanted s filed unique commit clock q in
            inr (
              (λ subject v w held.
                  let covers = plan-Covers s filed wanted registry q subject w in
                  (rw held at covers).0),
              actions,
              t,
              rw (h, q),
              rw (h, q, k),
              carry_out_all-history registry (subjects_of wanted) commit clock 0 actions s t k,
              filed_t,
              step,
              rw (h, plan_versions-nil registry wanted t filed_t unique step),
            )
      ]
