-- ===== src/Governance/Covers.antt =====
-- What src/llm_router/governance.py's `plan` finds: each way in which an in-memory store differs from
-- the catalog.
use production_local_llm_inf.Prelude.{
  ◌≡◌, refl, ap, sym, ◌∙◌, inl, inr, Bool, true, false, not, Option, none, some, List, ◌++◌, ◌∈◌,
  map, elem, elem_iff, filter-mem, mem-map, map-mem, String, arith, string_eq, option_eq, ◌==◌,
  Bool-cases,
}
use production_local_llm_inf.Prelude.Dict.{get}
use production_local_llm_inf.Prelude.Loops.{only_if, append-mem, flat_map-mem, gather-mem, gather}
use production_local_llm_inf.Prelude.Keyed.{get-mem}
use production_local_llm_inf.Prelude.Text.{sorted_by-mem}
use production_local_llm_inf.Prelude.Result.{ok, >>=-eq-ok, >>-eq-ok, raise_if-ok, raise_if}
use production_local_llm_inf.Models.Enums.{stage_eq}
use production_local_llm_inf.Registry.Records.{BenchmarkRun, Registry}
use production_local_llm_inf.Governance.Records.{GovernedVersion, RecordedVersion, Action}
use production_local_llm_inf.Governance.Plan.{
  registration, move, annotation, retirement, evidence, is_live, has_stage, has_tags, clashes,
  clash, corrections, own_actions, superseded, removed, missing_evidence, plan_subject,
  plan_versions, recorded_of,
}
use production_local_llm_inf.Governance.Memory.{InMemoryStore, memory}
use production_local_llm_inf.Governance.Filed.{
  find, IsFiled, get-recorded_of, versions-mem, names-mem,
}
use production_local_llm_inf.Governance.Planned.{IsUnwanted}

only_if-mem : {A : Type 0} (b : Bool) (a : A) → b ≡ true → a ∈ only_if b a
only_if-mem true a h = inl refl
only_if-mem false a h = absurd (ground arith)

-- What the actions on a wanted version are, by what the store holds.
abbrev pub Covers : GovernedVersion → List Action → Option RecordedVersion → Type 0
Covers subject actions none = registration subject ∈ actions
Covers subject actions (some v) =
    (clashes subject v ≡ false)
    × (has_stage subject v ≡ false → move subject v.stage ∈ actions)
    × (has_tags subject v ≡ false → annotation subject ∈ actions)

own_actions-Covers :
    (subject : GovernedVersion) (o : Option RecordedVersion) {own : List Action}
    → own_actions subject o ≡ ok own
    → (actions : List Action) → ((action : Action) → action ∈ own → action ∈ actions)
    → Covers subject actions o
unfolding own_actions corrections
own_actions-Covers subject none {own = own} h actions within =
    within (registration subject) (ground arith)
own_actions-Covers subject (some v) {own = own} h actions within =
    let (u, rest) =
      >>-eq-ok (raise_if (clashes subject v) (clash subject v)) (ok (corrections subject v)) h in
    let same : corrections subject v ≡ own = ground arith in
    let staging = only_if (not (has_stage subject v)) (move subject v.stage) in
    let tagging = only_if (not (has_tags subject v)) (annotation subject) in
    (
      raise_if-ok (clashes subject v) (clash subject v) u,
      λ off. within (move subject v.stage) (
          rw same at
            (append-mem (move subject v.stage) staging tagging (inl (only_if-mem _ _ (rw off))))),
      λ off. within (annotation subject) (
          rw same at
            (append-mem (annotation subject) staging tagging (inr (only_if-mem _ _ (rw off))))),
    )

module _ {F : Type 0} (s : InMemoryStore F) (filed : IsFiled s) (wanted : List GovernedVersion)
    (registry : Registry F) {actions : List Action}
    (planned : plan_versions memory registry s wanted ≡ ok actions) where
  abbrev known : List String
  known = map (λ subject. subject.name) wanted

  parts :
      (own : List Action) × (gather (plan_subject memory s) wanted ≡ ok own)
      × (actions ≡ own ++ (removed memory s known ++ missing_evidence memory s registry.benchmarks))
  unfolding plan_versions
  parts =
      let (own, h, e) =
        >>=-eq-ok (gather (plan_subject memory s) wanted)
          (λ own.
            ok (own ++ (removed memory s known ++ missing_evidence memory s registry.benchmarks)))
          planned in
      (own, h, ground arith)

  subject_parts :
      (subject : GovernedVersion)
      → subject ∈ wanted
      → (own : List Action) × (own_actions subject (find s subject.name subject.revision) ≡ ok own)
        × ((action : Action) → action ∈ (own ++ superseded memory s subject) → action ∈ actions)
  unfolding plan_subject
  subject_parts subject w =
      let (all_own, h, e) = parts in
      let (ys, q, within) = gather-mem (plan_subject memory s) wanted h subject w in
      let (own, h₁, r) =
        >>=-eq-ok (own_actions subject (get subject.revision (recorded_of memory s subject.name)))
          (λ own. ok (own ++ superseded memory s subject)) q in
      let same : (own ++ superseded memory s subject) ≡ ys = ground arith in
      (
        own,
        ap (own_actions subject) (sym (get-recorded_of s subject.name subject.revision filed)) ∙ h₁,
        λ action m. rw e (append-mem action all_own _ (inl (within action (rw same at m)))),
      )

  -- A wanted version is registered, moved to its stage or annotated wherever the store differs.
  pub plan-Covers :
      (subject : GovernedVersion)
      → subject ∈ wanted
      → Covers subject actions (find s subject.name subject.revision)
  plan-Covers subject w =
      let (own, h, within) = subject_parts subject w in
      own_actions-Covers subject (find s subject.name subject.revision) h actions
        (λ action m. within action (append-mem action own (superseded memory s subject) (inl m)))

  superseded-mem :
      (subject : GovernedVersion) (r : String) (v : RecordedVersion)
      → find s subject.name r ≡ some v
      → is_live v ≡ true
      → (r == subject.revision) ≡ false
      → retirement "superseded in the catalog" v ∈ superseded memory s subject
  unfolding superseded
  superseded-mem subject r v held live differs =
      let there = get-recorded_of s subject.name r filed ∙ held in
      let entry = get-mem r (recorded_of memory s subject.name) there in
      map-mem _ _ _ (r, v) refl
        (filter-mem _ _ (r, v)
          (sorted_by-mem (λ entry. entry.0) (r, v) (recorded_of memory s subject.name) entry)
          (rw (differs, live)))

  removed-mem :
      (n r : String) (v : RecordedVersion)
      → find s n r ≡ some v
      → is_live v ≡ true
      → elem n known ≡ false
      → retirement "removed from the catalog" v ∈ removed memory s known
  unfolding removed
  removed-mem n r v held live unknown =
      flat_map-mem _ _ n _
        (sorted_by-mem (λ text. text) n _
          (filter-mem (λ name. not (elem name known)) (memory.names s) n (names-mem s n r v held)
            (rw unknown)))
        (map-mem (retirement "removed from the catalog") _ _ v refl
          (filter-mem is_live (memory.versions s n) v (versions-mem s n r v held) live))

  -- A live version that the catalog does not name is retired.
  pub plan-retires :
      (n r : String) (v : RecordedVersion)
      → find s n r ≡ some v
      → IsUnwanted wanted n r
      → is_live v ≡ true
      → (reason : String) × (retirement reason v ∈ actions)
  plan-retires n r v held unwanted live =
      let (all_own, h, e) = parts in
      elim (Bool-cases (elem n known)) [
        | inl present ↦
            let (subject, w, same) =
              mem-map (λ subject. subject.name) wanted n ((elem_iff n known).0 present) in
            let (own, q, within) = subject_parts subject w in
            let differs : (r == subject.revision) ≡ false = other subject w same in
            let held₁ : find s subject.name r ≡ some v = rw same at held in
            (
              "superseded in the catalog",
              within _ (
                  append-mem _ own (superseded memory s subject)
                    (inr (superseded-mem subject r v held₁ live differs))),
            )
        | inr absent ↦ (
          "removed from the catalog",
          rw e (
              append-mem _ all_own _ (
                inr (
                  append-mem _ (removed memory s known) _
                    (inl (removed-mem n r v held live absent))))),
        )
      ]
    where
      other :
          (subject : GovernedVersion)
          → subject ∈ wanted
          → n ≡ subject.name
          → (r == subject.revision) ≡ false
      other subject w same = elim (Bool-cases (r == subject.revision)) [
        | inl equal ↦
            absurd
              (unwanted subject w (sym same) (sym ((string_eq.beq_iff r subject.revision).0 equal)))
        | inr differs ↦ differs
      ]

  -- A benchmark without a recorded run is logged.
  pub plan-logs :
      (run : BenchmarkRun F)
      → run ∈ registry.benchmarks
      → elem run.id (memory.benchmark_ids s) ≡ false
      → evidence run.id ∈ actions
  unfolding missing_evidence
  plan-logs run m absent =
      let (all_own, h, e) = parts in
      rw e (
        append-mem _ all_own _ (
          inr (
            append-mem _ (removed memory s known) _ (
              inr (
                map-mem (λ (run : BenchmarkRun F). evidence run.id) _ _ run refl
                  (filter-mem _ registry.benchmarks run m (rw absent)))))))
