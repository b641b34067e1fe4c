-- ===== src/Governance/Sync.antt =====
-- `plan`, `apply` and `sync` of src/llm_router/governance.py over the in-memory store.
use production_local_llm_inf.Prelude.{
  ◌≡◌, refl, inl, inr, true, false, Option, none, some, List, ◌∈◌, elem, String, arith, string_eq,
  option_eq, is_some, Option-cases, Bool-cases,
}
use production_local_llm_inf.Prelude.Result.{ok}
use production_local_llm_inf.Models.Enums.{stage_eq}
use production_local_llm_inf.Registry.Records.{BenchmarkRun, Registry}
use production_local_llm_inf.Governance.Records.{GovernedVersion, RecordedVersion, Action}
use production_local_llm_inf.Governance.Catalog.{card_tags, recorded_tags}
use production_local_llm_inf.Governance.Plan.{
  is_live, has_stage, has_tags, clashes, registration, move, annotation, retirement, evidence,
  subjects_of, plan_versions,
}
use production_local_llm_inf.Governance.Memory.{InMemoryStore, memory}
use production_local_llm_inf.Governance.Filed.{find, IsFiled}
use production_local_llm_inf.Governance.Wanted.{HasUniqueNames}
use production_local_llm_inf.Governance.Planned.{IsUnwanted}
use production_local_llm_inf.Governance.Effects.{effect, logs}
use production_local_llm_inf.Governance.Steps.{get-subjects_of}
use production_local_llm_inf.Governance.Covers.{plan-Covers, plan-retires, plan-logs}
use production_local_llm_inf.Governance.Settled.{Trace, Trace-settles, Trace-logs, effect-some}
use production_local_llm_inf.Governance.Facets.{
  stage_at, tags_at, dead_at, stage-Keeps, tags-Keeps, dead-Keeps, same_tags_refl, is_changed_refl,
}

-- The store holds every version of the catalog, in its stage, with its tags and no other checksum;
-- every other version is out of service; and every benchmark has a recorded run.
pub record IsInStep {F : Type 0} (registry : Registry F) (wanted : List GovernedVersion)
    (s : InMemoryStore F) : Type 0 where
  pub current :
      (subject : GovernedVersion)
      → subject ∈ wanted
      → (v : RecordedVersion) × (find s subject.name subject.revision ≡ some v)
        × (has_stage subject v ≡ true)
        × (has_tags subject v ≡ true)
        × (clashes subject v ≡ false)
  pub retired :
      (n r : String) (v : RecordedVersion)
      → find s n r ≡ some v
      → IsUnwanted wanted n r
      → is_live v ≡ false
  pub logged :
      (run : BenchmarkRun F)
      → run ∈ registry.benchmarks
      → elem run.id (memory.benchmark_ids s) ≡ true

current_of :
    (subject : GovernedVersion) (o : Option RecordedVersion)
    → is_some o ≡ true
    → stage_at subject o ≡ true
    → tags_at subject o ≡ true
    → (v : RecordedVersion) × (o ≡ some v)
      × (has_stage subject v ≡ true)
      × (has_tags subject v ≡ true)
      × (clashes subject v ≡ false)
current_of subject none found staged tagged = absurd (ground arith)
current_of subject (some v) found staged tagged = (v, refl, staged, ground arith, ground arith)

module _ {F : Type 0} (registry : Registry F) (wanted : List GovernedVersion)
    (unique : HasUniqueNames wanted) where
  module _ (s t : InMemoryStore F) (filed : IsFiled s) {actions : List Action}
      (planned : plan_versions memory registry s wanted ≡ ok actions)
      (trace : Trace wanted registry.benchmarks s actions t) where
    found_after :
        (subject : GovernedVersion)
        → subject ∈ wanted
        → is_some (find t subject.name subject.revision) ≡ true
    unfolding effect
    found_after subject w =
        let n = subject.name in
        let r = subject.revision in
        let covers = plan-Covers s filed wanted registry planned subject w in
        let known = get-subjects_of wanted subject unique w in
        Trace-settles wanted registry.benchmarks is_some n r
          (λ action o k h. effect-some (subjects_of wanted) action n r o h) trace
          (elim (Option-cases (find s n r)) [
            | inr (v, held) ↦ inl (rw held)
            | inl absent ↦ inr (
              registration subject,
              rw absent at covers,
              λ o. ground (arith, string_eq.beq_iff n n, string_eq.beq_iff r r),
            )
          ])

    stage_after :
        (subject : GovernedVersion)
        → subject ∈ wanted
        → stage_at subject (find t subject.name subject.revision) ≡ true
    unfolding effect
    stage_after subject w =
        let n = subject.name in
        let r = subject.revision in
        let covers = plan-Covers s filed wanted registry planned subject w in
        Trace-settles wanted registry.benchmarks (stage_at subject) n r
          (stage-Keeps registry wanted unique subject w) trace
          (elim (Option-cases (find s n r)) [
            | inl absent ↦ inl (rw absent)
            | inr (v, held) ↦ elim (Bool-cases (has_stage subject v)) [
              | inl on ↦ inl (rw (held, on))
              | inr off ↦ inr (
                move subject v.stage,
                (rw held at covers).1 off,
                λ o. ground (
                  arith,
                  string_eq.beq_iff n n,
                  string_eq.beq_iff r r,
                  stage_eq.beq_iff subject.stage subject.stage,
                ),
              )
            ]
          ])

    tags_after :
        (subject : GovernedVersion)
        → subject ∈ wanted
        → tags_at subject (find t subject.name subject.revision) ≡ true
    unfolding effect
    tags_after subject w =
        let n = subject.name in
        let r = subject.revision in
        let covers = plan-Covers s filed wanted registry planned subject w in
        let known = get-subjects_of wanted subject unique w in
        Trace-settles wanted registry.benchmarks (tags_at subject) n r
          (tags-Keeps registry wanted unique subject w) trace
          (elim (Option-cases (find s n r)) [
            | inl absent ↦ inl (rw absent)
            | inr (v, held) ↦
                let found = rw held at covers in
                elim (Bool-cases (has_tags subject v)) [
                  | inl on ↦ inl (rw (held, on, found.0))
                  | inr off ↦ inr (
                    annotation subject,
                    found.2 off,
                    λ o. ground (
                      arith,
                      string_eq.beq_iff n n,
                      string_eq.beq_iff r r,
                      same_tags_refl (card_tags (recorded_tags subject)),
                      is_changed_refl subject.checksum,
                    ),
                  )
                ]
          ])

    dead_after : (n r : String) → IsUnwanted wanted n r → dead_at (find t n r) ≡ true
    unfolding effect
    dead_after n r unwanted =
        Trace-settles wanted registry.benchmarks dead_at n r
          (dead-Keeps registry wanted unique n r unwanted) trace
          (elim (Option-cases (find s n r)) [
            | inl absent ↦ inl (rw absent)
            | inr (v, held) ↦ elim (Bool-cases (is_live v)) [
              | inr off ↦ inl (rw (held, off))
              | inl on ↦
                  let (reason, m) =
                    plan-retires s filed wanted registry planned n r v held unwanted on in
                  let named = filed.names_match n r v held in
                  let revised = filed.revisions_match n r v held in
                  inr (
                    retirement reason v,
                    m,
                    λ o. ground (arith, string_eq.beq_iff v.name n, string_eq.beq_iff v.revision r),
                  )
            ]
          ])

    logged_after :
        (run : BenchmarkRun F)
        → run ∈ registry.benchmarks
        → elem run.id (memory.benchmark_ids t) ≡ true
    unfolding logs
    logged_after run m =
        Trace-logs wanted registry.benchmarks trace run.id
          (elim (Bool-cases (elem run.id (memory.benchmark_ids s))) [
            | inl on ↦ inl on
            | inr off ↦ inr (
              evidence run.id,
              plan-logs s filed wanted registry planned run m off,
              (string_eq.beq_iff run.id run.id).1 refl,
            )
          ])

    pub Trace-IsInStep : IsInStep registry wanted t
    Trace-IsInStep = record {
      current = λ subject w.
          current_of subject (find t subject.name subject.revision) (found_after subject w)
            (stage_after subject w) (tags_after subject w);
      retired = λ n r v held unwanted. let dead = dead_after n r unwanted in ground arith;
      logged = logged_after;
    }
