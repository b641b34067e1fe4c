-- ===== src/Governance/Steps.antt =====
-- `apply` of src/llm_router/governance.py: every action of a plan can be carried out, one by one.
use production_local_llm_inf.Prelude.{
  ℕ, ◌≡◌, refl, ap, ◌∙◌, true, false, ◌&&◌, Option, none, some, List, ◌∈◌, String, arith, string_eq,
  pair_eq, ◌==◌, is_some,
}
use production_local_llm_inf.Prelude.Dict.{get}
use production_local_llm_inf.Prelude.Keyed.{keyed-found, mem-keyed, get-keyed}
use production_local_llm_inf.Prelude.Result.{ok}
use production_local_llm_inf.Registry.Records.{BenchmarkRun, Registry}
use production_local_llm_inf.Governance.Records.{
  GovernedVersion, RecordedVersion, Action, ActionKind,
}
use production_local_llm_inf.Governance.Plan.{
  carry_out, promotion_of, subjects_of, registration, move, annotation, retirement, evidence,
}
use production_local_llm_inf.Governance.Memory.{
  InMemoryStore, memory, hold, register, first_record, annotated, staged,
}
use production_local_llm_inf.Governance.Filed.{
  find, IsFiled, find-hold, hold-IsFiled, amend-ok, elem-keys-put,
}
use production_local_llm_inf.Governance.Wanted.{HasUniqueNames}
use production_local_llm_inf.Governance.Planned.{
  Planned, registers, moves, annotates, retires, records, is_ready,
}
use production_local_llm_inf.Governance.Effects.{
  IsStep, promote-ok, replaced-IsStep, logged-IsStep, run-IsFiled, find-run, target_of, effect,
  logs,
}

-- The dictionary of the subjects has each of them at its name and revision.
pub get-subjects_of :
    (wanted : List GovernedVersion) (subject : GovernedVersion)
    → HasUniqueNames wanted
    → subject ∈ wanted
    → get (subject.name, subject.revision) (subjects_of wanted) ≡ some subject
get-subjects_of wanted subject unique w =
    get-keyed (λ subject. (subject.name, subject.revision)) wanted subject w
      (λ rival k same. unique rival subject k w (ap (λ p. p.0) same))

module _ {F : Type 0} (registry : Registry F) (wanted : List GovernedVersion)
    (unique : HasUniqueNames wanted) (commit : String) (now : ℕ) where
  abbrev CanStep : InMemoryStore F → Action → Type 0
  CanStep s action =
      (t : InMemoryStore F) × (carry_out memory registry (subjects_of wanted) commit now action s
        ≡ ok t)
      × IsStep (subjects_of wanted) s action t

  ids-hold :
      (n r : String) (item : RecordedVersion) (s : InMemoryStore F)
      → memory.benchmark_ids (hold n r item s) ≡ memory.benchmark_ids s
  unfolding hold
  ids-hold n r item s = refl

  some_of : {A : Type 0} (o : Option A) → is_some o ≡ true → (a : A) × (o ≡ some a)
  some_of none h = absurd (ground arith)
  some_of (some a) h = (a, refl)

  transition-CanStep :
      (s : InMemoryStore F) (action : Action)
      → action.kind ≡ ActionKind.transition
      → IsFiled s
      → is_some (find s action.name action.revision) ≡ true
      → CanStep s action
  unfolding carry_out logs
  transition-CanStep s action kind filed ready =
      let (v, held) = some_of (find s action.name action.revision) ready in
      let item = staged (target_of action) v in
      let promotion = promotion_of registry commit now action (target_of action) in
      let step =
        replaced-IsStep registry (subjects_of wanted) commit now action s s item filed
          (λ n r h. refl) refl (filed.names_match action.name action.revision v held)
          (filed.revisions_match action.name action.revision v held) (rw (kind, held))
          (λ id. rw kind) in
      (
        memory.log_promotion promotion (hold action.name action.revision item s),
        rw kind (promote-ok registry (subjects_of wanted) commit now action s held),
        logged-IsStep registry (subjects_of wanted) commit now action s
            (hold action.name action.revision item s) promotion step,
      )

  annotate-CanStep :
      (s : InMemoryStore F) (subject : GovernedVersion)
      → subject ∈ wanted
      → IsFiled s
      → is_some (find s subject.name subject.revision) ≡ true
      → CanStep s (annotation subject)
  unfolding carry_out logs
  annotate-CanStep s subject w filed ready =
      let (v, held) = some_of (find s subject.name subject.revision) ready in
      let known = get-subjects_of wanted subject unique w in
      let item = annotated subject v in
      (
        hold subject.name subject.revision item s,
        rw (known, amend-ok subject.name subject.revision (annotated subject) s held),
        replaced-IsStep registry (subjects_of wanted) commit now (annotation subject) s s item filed
            (λ n r h. refl) refl (filed.names_match subject.name subject.revision v held)
            (filed.revisions_match subject.name subject.revision v held) (rw (known, held))
            (λ id. refl),
      )

  register-CanStep :
      (s : InMemoryStore F) (subject : GovernedVersion)
      → subject ∈ wanted
      → IsFiled s
      → CanStep s (registration subject)
  unfolding carry_out register logs
  register-CanStep s subject w filed =
      let known = get-subjects_of wanted subject unique w in
      let action = registration subject in
      let first = first_record subject in
      let u = hold subject.name subject.revision first s in
      let item = staged subject.stage first in
      let promotion = promotion_of registry commit now action subject.stage in
      let there = find-hold subject.name subject.revision subject.name subject.revision first s in
      let held : find u subject.name subject.revision ≡ some first = ground (
        arith,
        string_eq.beq_iff subject.name subject.name,
        string_eq.beq_iff subject.revision subject.revision,
      ) in
      let apart : (n r : String)
          → (subject.name == n && subject.revision == r) ≡ false
          → find u n r ≡ find s n r =
        λ n r h. find-hold subject.name subject.revision n r first s ∙ rw h in
      let filed_u = hold-IsFiled subject.name subject.revision first s refl refl filed in
      let step =
        replaced-IsStep registry (subjects_of wanted) commit now action s u item filed_u apart
          (ids-hold subject.name subject.revision first s) refl refl (rw known) (λ id. refl) in
      (
        memory.log_promotion promotion (hold subject.name subject.revision item u),
        rw known (promote-ok registry (subjects_of wanted) commit now action u held),
        logged-IsStep registry (subjects_of wanted) commit now action s
            (hold subject.name subject.revision item u) promotion step,
      )

  evidence-CanStep :
      (s : InMemoryStore F) (run : BenchmarkRun F)
      → run ∈ registry.benchmarks
      → IsFiled s
      → CanStep s (evidence run.id)
  unfolding carry_out effect logs
  evidence-CanStep s run m filed =
      let key = λ (run : BenchmarkRun F). run.id in
      let (kept, held) = some_of _ (keyed-found key registry.benchmarks run m) in
      let (k, same) = mem-keyed key registry.benchmarks run.id held in
      (
        memory.log_benchmark kept s,
        rw held,
        record {
          filed = run-IsFiled kept s filed;
          found = λ n r. ground (arith, find-run kept s n r);
          logged = λ id. elem-keys-put id kept.id kept s.runs ∙ rw same;
        },
      )

  -- A planned action whose version is there can be carried out.
  pub Planned-CanStep :
      (s : InMemoryStore F) {action : Action}
      → Planned wanted registry.benchmarks action
      → IsFiled s
      → is_ready s action ≡ true
      → CanStep s action
  Planned-CanStep s (registers subject w) filed ready = register-CanStep s subject w filed
  Planned-CanStep s (moves subject from_stage w) filed ready =
      transition-CanStep s (move subject from_stage) refl filed ready
  Planned-CanStep s (annotates subject w) filed ready = annotate-CanStep s subject w filed ready
  Planned-CanStep s (retires item reason h) filed ready =
      transition-CanStep s (retirement reason item) refl filed ready
  Planned-CanStep s (records run m) filed ready = evidence-CanStep s run m filed
