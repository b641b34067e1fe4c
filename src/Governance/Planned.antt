-- ===== src/Governance/Planned.antt =====
-- The actions that src/llm_router/governance.py's `plan` may hold, over an in-memory store.
use production_local_llm_inf.Prelude.{
  ◌≡◌, refl, ap, sym, ◌∙◌, ◌⊎◌, inl, inr, Bool, true, false, not, Option, none, some, List, ◌++◌,
  ◌∈◌, map, elem_iff, mem-filter, mem-map, map-mem, String, arith, string_eq, option_eq, is_some,
  and_split,
}
use production_local_llm_inf.Prelude.Dict.{get}
use production_local_llm_inf.Prelude.Loops.{only_if, mem-append, mem-flat_map, mem-gather, gather}
use production_local_llm_inf.Prelude.Keyed.{keyed-IsDistinct, mem-get}
use production_local_llm_inf.Prelude.Text.{mem-sorted_by}
use production_local_llm_inf.Prelude.Result.{ok, >>=-eq-ok, >>-eq-ok, raise_if}
use production_local_llm_inf.Models.Enums.{LifecycleStage, stage_eq}
use production_local_llm_inf.Registry.Records.{BenchmarkRun, Registry}
use production_local_llm_inf.Governance.Records.{
  GovernedVersion, RecordedVersion, Action, ActionKind,
}
use production_local_llm_inf.Governance.Plan.{
  registration, move, annotation, retirement, evidence, is_live, has_stage, has_tags, clashes,
  clash, corrections, own_actions, superseded, removed, missing_evidence, plan_subject,
  plan_versions, recorded_of,
}
use production_local_llm_inf.Governance.Memory.{InMemoryStore, memory}
use production_local_llm_inf.Governance.Filed.{find, IsFiled, get-recorded_of, mem-versions}
use production_local_llm_inf.Governance.Wanted.{HasUniqueNames}

-- No version of the catalog is this one.
abbrev pub IsUnwanted : List GovernedVersion → String → String → Type 0
IsUnwanted wanted n r =
    (subject : GovernedVersion) → subject ∈ wanted → subject.name ≡ n → subject.revision ≡ r → ⊥

module _ {F : Type 0} (wanted : List GovernedVersion) (runs : List (BenchmarkRun F)) where
  pub data Planned : Action → Type 0 where
    registers : (subject : GovernedVersion) → subject ∈ wanted → Planned (registration subject)
    moves :
        (subject : GovernedVersion) (from_stage : Option LifecycleStage)
        → subject ∈ wanted
        → Planned (move subject from_stage)
    annotates : (subject : GovernedVersion) → subject ∈ wanted → Planned (annotation subject)
    retires :
        (item : RecordedVersion) (reason : String)
        → IsUnwanted wanted item.name item.revision
        → Planned (retirement reason item)
    records : (run : BenchmarkRun F) → run ∈ runs → Planned (evidence run.id)

module _ {F : Type 0} where
  -- What an action needs of the store: a version to change.
  abbrev pub is_ready : InMemoryStore F → Action → Bool
  is_ready s action = elim action.kind [
    | ActionKind.transition ↦ is_some (find s action.name action.revision)
    | ActionKind.annotate ↦ is_some (find s action.name action.revision)
    | _ ↦ true
  ]

mem-only_if : {A : Type 0} (b : Bool) (a x : A) → x ∈ only_if b a → x ≡ a
mem-only_if true a x (inl e) = e
mem-only_if true a x (inr m) = absurd m
mem-only_if false a x m = absurd m

mem-corrections :
    (subject : GovernedVersion) (current : RecordedVersion) (action : Action)
    → action ∈ corrections subject current
    → (action ≡ move subject current.stage) ⊎ (action ≡ annotation subject)
unfolding corrections
mem-corrections subject current action m =
    let restaged =
      mem-only_if (not (has_stage subject current)) (move subject current.stage) action in
    let retagged = mem-only_if (not (has_tags subject current)) (annotation subject) action in
    elim (mem-append action _ _ m) [ inl k ↦ inl (restaged k) | inr k ↦ inr (retagged k) ]

mem-own_actions :
    (subject : GovernedVersion) (o : Option RecordedVersion) {own : List Action}
    → own_actions subject o ≡ ok own
    → (action : Action) → action ∈ own
    → ((o ≡ none) × (action ≡ registration subject))
      ⊎ (current : RecordedVersion) × (o ≡ some current)
        × ((action ≡ move subject current.stage) ⊎ (action ≡ annotation subject))
unfolding own_actions
mem-own_actions subject none {own = own} h action m = inl (refl, ground arith)
mem-own_actions subject (some current) {own = own} h action m =
    let (u, rest) =
      >>-eq-ok (raise_if (clashes subject current) (clash subject current))
        (ok (corrections subject current)) h in
    let m₁ : action ∈ corrections subject current = ground arith in
    inr (current, refl, mem-corrections subject current action m₁)

module _ {F : Type 0} (s : InMemoryStore F) (filed : IsFiled s) (wanted : List GovernedVersion)
    (unique : HasUniqueNames wanted) (runs : List (BenchmarkRun F)) where
  own-Planned :
      (subject : GovernedVersion) {own : List Action}
      → subject ∈ wanted
      → own_actions subject (find s subject.name subject.revision) ≡ ok own
      → (action : Action) → action ∈ own
      → Planned wanted runs action × (is_ready s action ≡ true)
  own-Planned subject w h action m = elim (mem-own_actions subject _ h action m) [
    | inl (missing, e) ↦ (rw e (registers subject w), rw e)
    | inr (current, held, inl e) ↦ (rw e (moves subject current.stage w), rw (e, held))
    | inr (current, held, inr e) ↦ (rw e (annotates subject w), rw (e, held))
  ]

  retired-Planned :
      (n r : String) (item : RecordedVersion) (reason : String)
      → find s n r ≡ some item
      → IsUnwanted wanted n r
      → Planned wanted runs (retirement reason item) × (is_ready s (retirement reason item) ≡ true)
  retired-Planned n r item reason held unwanted =
      let named = filed.names_match n r item held in
      let revised = filed.revisions_match n r item held in
      (
        retires item reason (λ subject w e q. unwanted subject w (e ∙ named) (q ∙ revised)),
        rw (named, revised, held),
      )

  -- A live version that the catalog does not name, and its retirement.
  abbrev pub Retired : Action → Type 0
  Retired action =
      (n : String) × (r : String) × (reason : String) × (v : RecordedVersion) × (find s n r
        ≡ some v)
      × IsUnwanted wanted n r
      × (is_live v ≡ true)
      × (action ≡ retirement reason v)

  Retired-Planned :
      (action : Action) → Retired action → Planned wanted runs action × (is_ready s action ≡ true)
  Retired-Planned action (n, r, reason, v, held, unwanted, live, e) =
      rw e (retired-Planned n r v reason held unwanted)

  pub mem-superseded :
      (subject : GovernedVersion)
      → subject ∈ wanted
      → (action : Action) → action ∈ superseded memory s subject
      → Retired action
  unfolding superseded recorded_of
  mem-superseded subject w action m =
      let (entry, m₁, e) = mem-map _ _ action m in
      let (m₂, other) = mem-filter _ _ entry m₁ in
      let m₃ = mem-sorted_by (λ entry. entry.0) entry (recorded_of memory s subject.name) m₂ in
      let unfiled = keyed-IsDistinct (λ item. item.revision) (memory.versions s subject.name) in
      let found = mem-get entry.0 entry.1 (recorded_of memory s subject.name) unfiled m₃ in
      let held = sym (get-recorded_of s subject.name entry.0 filed) ∙ found in
      let differs = string_eq.beq_iff entry.0 subject.revision in
      (
        subject.name,
        entry.0,
        "superseded in the catalog",
        entry.1,
        held,
        (λ rival k same revised. ground (arith, unique rival subject k w same)),
        (and_split _ _ other).1,
        e,
      )

  pub mem-removed :
      (action : Action)
      → action ∈ removed memory s (map (λ subject. subject.name) wanted)
      → Retired action
  unfolding removed
  mem-removed action m =
      let (name, m₁, m₂) = mem-flat_map _ _ action m in
      let m₃ = mem-sorted_by (λ text. text) name _ m₁ in
      let (m₄, unknown) = mem-filter _ _ name m₃ in
      let (item, m₅, e) = mem-map _ _ action m₂ in
      let (m₆, live) = mem-filter _ _ item m₅ in
      (
        name,
        item.revision,
        "removed from the catalog",
        item,
        mem-versions s name item filed m₆,
        (λ subject w same revised.
            let known = map-mem (λ subject. subject.name) wanted name subject (sym same) w in
            let found = (elem_iff name (map (λ subject. subject.name) wanted)).1 known in
            absurd (ground arith)),
        live,
        e,
      )

  evidence-Planned :
      (action : Action)
      → action ∈ missing_evidence memory s runs
      → Planned wanted runs action × (is_ready s action ≡ true)
  unfolding missing_evidence
  evidence-Planned action m =
      let (run, m₁, e) = mem-map _ _ action m in
      let (m₂, missing) = mem-filter _ _ run m₁ in (rw e (records run m₂), rw e)

  subject-Planned :
      (subject : GovernedVersion) {actions : List Action}
      → subject ∈ wanted
      → plan_subject memory s subject ≡ ok actions
      → (action : Action) → action ∈ actions
      → Planned wanted runs action × (is_ready s action ≡ true)
  unfolding plan_subject
  subject-Planned subject {actions = actions} w h action m =
      let (own, h₁, e) =
        >>=-eq-ok (own_actions subject (get subject.revision (recorded_of memory s subject.name)))
          (λ own. ok (own ++ superseded memory s subject)) h in
      let h₂ =
        ap (own_actions subject) (sym (get-recorded_of s subject.name subject.revision filed))
        ∙ h₁ in
      let m₁ : action ∈ (own ++ superseded memory s subject) = ground arith in
      elim (mem-append action own (superseded memory s subject) m₁) [
        | inl k ↦ own-Planned subject w h₂ action k
        | inr k ↦ Retired-Planned action (mem-superseded subject w action k)
      ]

  -- Every action of a plan is of a planned kind, and finds what it changes.
  pub plan_versions-Planned :
      (registry : Registry F) {actions : List Action}
      → registry.benchmarks ≡ runs
      → plan_versions memory registry s wanted ≡ ok actions
      → (action : Action) → action ∈ actions
      → Planned wanted runs action × (is_ready s action ≡ true)
  unfolding plan_versions
  plan_versions-Planned registry {actions = actions} same h action m =
      let known = map (λ subject. subject.name) wanted in
      let (own, h₁, e) =
        >>=-eq-ok (gather (plan_subject memory s) wanted)
          (λ own.
            ok (own ++ (removed memory s known ++ missing_evidence memory s registry.benchmarks)))
          h in
      let m₁ : action
          ∈ (own ++ (removed memory s known ++ missing_evidence memory s registry.benchmarks)) =
        ground arith in
      elim (mem-append action own _ m₁) [
        | inl k ↦
            let (subject, w, ys, q, l) = mem-gather (plan_subject memory s) wanted h₁ action k in
            subject-Planned subject w q action l
        | inr k ↦ elim (mem-append action (removed memory s known) _ k) [
          | inl l ↦ Retired-Planned action (mem-removed action l)
          | inr l ↦ evidence-Planned action (rw same at l)
        ]
      ]
