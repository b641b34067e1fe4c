-- ===== src/Governance/Plan.antt =====
-- src/llm_router/governance.py: what a governance store offers, and `plan`, `apply`, `sync` and
-- `verify` over it. The clock's readings enter by the place of the action.
use production_local_llm_inf.Prelude.{
  ℕ, suc, Bool, not, ◌&&◌, Option, none, some, List, [], ◌∷◌, ◌++◌, map, String, filter, elem,
  string_eq, option_eq, pair_eq, ◌==◌,
}
use production_local_llm_inf.Prelude.Dict.{Dict, get}
use production_local_llm_inf.Prelude.Loops.{flat_map, gather, only_if}
use production_local_llm_inf.Prelude.Keyed.{keyed}
use production_local_llm_inf.Prelude.Text.{sorted_by, sorted_texts, join}
use production_local_llm_inf.Prelude.Result.{Result, ok, raise, ◌>>=◌, raise_if}
use production_local_llm_inf.Models.{or_else}
use production_local_llm_inf.Models.Enums.{LifecycleStage, stage_eq}
use production_local_llm_inf.Registry.Records.{BenchmarkRun, Registry}
use production_local_llm_inf.Governance.Records.{
  GovernedVersion, RecordedVersion, Promotion, ActionKind, Action, describe, GovernanceError,
  duplicated, immutable_revision, missing_key, is_given,
}
use production_local_llm_inf.Governance.Catalog.{
  governed_versions, recorded_tags, card_tags, same_tags,
}

pub record GovernanceStore (S F : Type 0) : Type 0 where
  pub names : S → List String
  pub versions : S → String → List RecordedVersion
  pub register : GovernedVersion → S → Result GovernanceError S
  pub annotate : GovernedVersion → S → Result GovernanceError S
  pub set_stage : String → String → LifecycleStage → S → Result GovernanceError S
  pub benchmark_ids : S → List String
  pub log_benchmark : BenchmarkRun F → S → S
  pub log_promotion : Promotion → S → S
  pub promotions : S → String → List Promotion

abbrev pub is_live : RecordedVersion → Bool
is_live item = not (item.stage == some LifecycleStage.deprecated)

abbrev pub retirement : String → RecordedVersion → Action
retirement reason recorded = record {
  kind = ActionKind.transition;
  name = recorded.name;
  revision = recorded.revision;
  from_stage = recorded.stage;
  to_stage = some LifecycleStage.deprecated;
  reason = reason;
}

abbrev pub registration : GovernedVersion → Action
registration subject = record {
  kind = ActionKind.register;
  name = subject.name;
  revision = subject.revision;
  from_stage = none;
  to_stage = some subject.stage;
  reason = "new revision in the catalog";
}

abbrev pub move : GovernedVersion → Option LifecycleStage → Action
move subject from_stage = record {
  kind = ActionKind.transition;
  name = subject.name;
  revision = subject.revision;
  from_stage = from_stage;
  to_stage = some subject.stage;
  reason = "stage differs from the catalog";
}

abbrev pub annotation : GovernedVersion → Action
annotation subject = record {
  kind = ActionKind.annotate;
  name = subject.name;
  revision = subject.revision;
  from_stage = none;
  to_stage = none;
  reason = "card metadata changed in the catalog";
}

abbrev pub evidence : String → Action
evidence id = record {
  kind = ActionKind.benchmark;
  name = id;
  revision = "";
  from_stage = none;
  to_stage = none;
  reason = "evidence not yet recorded";
}

-- Both sides give a checksum, and they differ.
unfoldable pub is_changed : Option String → Option String → Bool
is_changed recorded wanted = is_given recorded && is_given wanted && not (recorded == wanted)

abbrev pub has_stage : GovernedVersion → RecordedVersion → Bool
has_stage subject current = current.stage == some subject.stage

abbrev pub has_tags : GovernedVersion → RecordedVersion → Bool
has_tags subject current = same_tags (card_tags current.tags) (card_tags (recorded_tags subject))

abbrev pub clashes : GovernedVersion → RecordedVersion → Bool
clashes subject current = is_changed current.checksum subject.checksum

abbrev pub clash : GovernedVersion → RecordedVersion → GovernanceError
clash subject current =
    immutable_revision subject.name subject.revision (or_else current.checksum "")
      (or_else subject.checksum "")

-- The changes to the revision that the catalog names.
unfoldable pub corrections : GovernedVersion → RecordedVersion → List Action
corrections subject current =
    only_if (not (has_stage subject current)) (move subject current.stage)
    ++ only_if (not (has_tags subject current)) (annotation subject)

-- The actions on that revision, from what the store holds of it.
unfoldable pub own_actions :
    GovernedVersion → Option RecordedVersion → Result GovernanceError (List Action)
unfolding is_changed corrections
own_actions subject none = ok (registration subject ∷ [])
own_actions subject (some current) =
    raise_if (clashes subject current) (clash subject current) >>= λ _.
    ok (corrections subject current)

abbrev pub promotion_of :
    {F : Type 0} → Registry F → String → ℕ → Action → LifecycleStage → Promotion
promotion_of registry commit now action stage = record {
  name = action.name;
  revision = action.revision;
  from_stage = action.from_stage;
  to_stage = stage;
  commit = commit;
  policy_version = registry.policy.version;
  reason = action.reason;
  recorded_at_ms = now;
}

-- `subjects[...]` and `benchmarks[...]`.
abbrev pub look_up : {A : Type 0} → Option A → Result GovernanceError A
look_up none = raise missing_key
look_up (some a) = ok a

abbrev pub subjects_of : List GovernedVersion → Dict (String × String) GovernedVersion
subjects_of = keyed (λ subject. (subject.name, subject.revision))

module _ {S F : Type 0} (store : GovernanceStore S F) where
  unfoldable pub recorded_of : S → String → Dict String RecordedVersion
  recorded_of s name = keyed (λ item. item.revision) (store.versions s name)

  -- The other revisions of a governed name.
  unfoldable pub superseded : S → GovernedVersion → List Action
  unfolding recorded_of
  superseded s subject =
      map (λ entry. retirement "superseded in the catalog" entry.1)
        (filter (λ entry. not (entry.0 == subject.revision) && is_live entry.1)
          (sorted_by (λ entry. entry.0) (recorded_of s subject.name)))

  unfoldable pub plan_subject : S → GovernedVersion → Result GovernanceError (List Action)
  unfolding own_actions recorded_of superseded
  plan_subject s subject =
      own_actions subject (get subject.revision (recorded_of s subject.name)) >>= λ own.
      ok (own ++ superseded s subject)

  -- The revisions of the names that the catalog no longer has.
  unfoldable pub removed : S → List String → List Action
  removed s known =
      flat_map
        (λ name.
          map (retirement "removed from the catalog") (filter is_live (store.versions s name)))
        (sorted_texts (filter (λ name. not (elem name known)) (store.names s)))

  unfoldable pub missing_evidence : S → List (BenchmarkRun F) → List Action
  missing_evidence s runs =
      map (λ run. evidence run.id) (filter (λ run. not (elem run.id (store.benchmark_ids s))) runs)

  unfoldable pub plan_versions :
      Registry F → S → List GovernedVersion → Result GovernanceError (List Action)
  unfolding plan_subject removed missing_evidence
  plan_versions registry s wanted = gather (plan_subject s) wanted >>= λ actions. ok (
      actions
      ++ (removed s (map (λ subject. subject.name) wanted)
          ++ missing_evidence s registry.benchmarks))

  module _ (registry : Registry F) (subjects : Dict (String × String) GovernedVersion)
      (commit : String) where
    unfoldable pub promote : ℕ → Action → S → Result GovernanceError S
    promote now action s =
        let stage = or_else action.to_stage LifecycleStage.development in
        store.set_stage action.name action.revision stage s >>= λ staged.
        ok (store.log_promotion (promotion_of registry commit now action stage) staged)

    unfoldable pub carry_out : ℕ → Action → S → Result GovernanceError S
    unfolding promote
    carry_out now action s = elim action.kind [
      | ActionKind.benchmark ↦
          look_up (get action.name (keyed (λ run. run.id) registry.benchmarks)) >>= λ run.
          ok (store.log_benchmark run s)
      | ActionKind.annotate ↦ look_up (get (action.name, action.revision) subjects) >>= λ subject.
          store.annotate subject s
      | ActionKind.register ↦ look_up (get (action.name, action.revision) subjects) >>= λ subject.
          store.register subject s >>= promote now action
      | ActionKind.transition ↦ promote now action s
    ]

    unfoldable pub carry_out_all : (ℕ → ℕ) → ℕ → List Action → S → Result GovernanceError S
    unfolding carry_out
    carry_out_all clock i [] s = ok s
    carry_out_all clock i (action ∷ actions) s =
        carry_out (clock i) action s >>= carry_out_all clock (suc i) actions

  module _ (general_format : F → String) (registry : Registry F) (artifact_root : String) where
    unfoldable pub plan : S → Result GovernanceError (List Action)
    unfolding plan_versions
    plan s = governed_versions general_format registry artifact_root >>= plan_versions registry s

    unfoldable pub apply : String → (ℕ → ℕ) → List Action → S → Result GovernanceError S
    unfolding carry_out_all
    apply commit clock actions s =
        governed_versions general_format registry artifact_root >>= λ wanted.
        carry_out_all registry (subjects_of wanted) commit clock 0 actions s

    unfoldable pub sync : String → (ℕ → ℕ) → S → Result GovernanceError (List Action × S)
    unfolding plan apply
    sync commit clock s =
        plan s >>= λ actions. apply commit clock actions s >>= λ t. ok (actions, t)

    abbrev immutable_text : String → String → String → String → String
    immutable_text name revision recorded wanted = join "" (
        name ∷ "@" ∷ revision ∷ " is recorded with checksum " ∷ recorded ∷ " but the catalog gives "
        ∷ wanted ∷ "; a changed artifact needs a new revision" ∷ [])

    abbrev drift : Result GovernanceError (List Action) → Result GovernanceError (List String)
    drift (ok actions) = ok (map describe actions)
    drift (raise (immutable_revision name revision recorded wanted)) =
        ok (immutable_text name revision recorded wanted ∷ [])
    drift (raise (duplicated names)) = raise (duplicated names)
    drift (raise missing_key) = raise missing_key

    unfoldable pub verify : S → Result GovernanceError (List String)
    unfolding plan
    verify s = drift (plan s)
