-- ===== src/Governance/Records.antt =====
-- src/llm_router/governance.py: the versions, actions and promotions that governance records. A
-- BENCHMARK action names a run; the other kinds name a revision.
use production_local_llm_inf.Prelude.{
  ℕ, Bool, true, false, Option, none, some, List, String, concat, string_eq, ◌==◌, if◌then◌else◌,
}
use production_local_llm_inf.Prelude.Dict.{Dict}
use production_local_llm_inf.Models.Enums.{LifecycleStage}
use production_local_llm_inf.Models.Values.{stage_value}

pub data SubjectKind : Type 0 where
  model adapter : SubjectKind

abbrev pub subject_kind_value : SubjectKind → String
subject_kind_value SubjectKind.model = "model"
subject_kind_value SubjectKind.adapter = "adapter"

pub record GovernedVersion : Type 0 where
  pub name : String
  pub kind : SubjectKind
  pub revision : String
  pub stage : LifecycleStage
  pub source : String
  pub checksum : Option String
  pub description : String
  pub tags : Dict String String

pub record RecordedVersion : Type 0 where
  pub name : String
  pub revision : String
  pub stage : Option LifecycleStage
  pub checksum : Option String
  pub tags : Dict String String

pub record Promotion : Type 0 where
  pub name : String
  pub revision : String
  pub from_stage : Option LifecycleStage
  pub to_stage : LifecycleStage
  pub commit : String
  pub policy_version : String
  pub reason : String
  pub recorded_at_ms : ℕ

pub data ActionKind : Type 0 where
  register transition annotate benchmark : ActionKind

pub record Action : Type 0 where
  pub kind : ActionKind
  pub name : String
  pub revision : String
  pub from_stage : Option LifecycleStage
  pub to_stage : Option LifecycleStage
  pub reason : String

-- How `None` prints in a text.
abbrev stage_text : String → Option LifecycleStage → String
stage_text other none = other
stage_text other (some stage) = stage_value stage

unfoldable pub subject_text : String → String → String
subject_text name revision = if revision == "" then name else concat name (concat "@" revision)

unfoldable pub describe : Action → String
unfolding subject_text
describe action = elim action.kind [
  | ActionKind.register ↦
      concat (subject_text action.name action.revision)
        (concat " is not recorded; the catalog has it in " (stage_text "None" action.to_stage))
  | ActionKind.transition ↦ concat (subject_text action.name action.revision) (
      concat " is recorded as " (
        concat (stage_text "unstaged" action.from_stage) (
          concat ", expected "
            (concat (stage_text "None" action.to_stage) (concat " (" (concat action.reason ")"))))))
  | ActionKind.annotate ↦
      concat (subject_text action.name action.revision)
        " is recorded with out-of-date card metadata"
  | ActionKind.benchmark ↦ concat "benchmark " (
      concat (subject_text action.name action.revision)
        " is in the catalog but has no recorded run")
]

-- The exceptions: models and adapters that share a name, a recorded revision that now claims
-- another artifact, and a KeyError.
pub data GovernanceError : Type 0 where
  duplicated : List String → GovernanceError
  immutable_revision : String → String → String → String → GovernanceError
  missing_key : GovernanceError

-- `bool(checksum)`, of a text or `None`.
unfoldable pub is_given : Option String → Bool
is_given none = false
is_given (some text) = if text == "" then false else true
