-- ===== src/Governance/Memory.antt =====
-- src/llm_router/governance.py: `InMemoryStore`, the governance store with no backing service.
use production_local_llm_inf.Prelude.{
  none, some, List, [], ◌∷◌, ◌++◌, map, String, filter, string_eq, ◌==◌,
}
use production_local_llm_inf.Prelude.Dict.{Dict, get, put}
use production_local_llm_inf.Prelude.Result.{Result, ok, raise}
use production_local_llm_inf.Models.{or_else}
use production_local_llm_inf.Models.Enums.{LifecycleStage}
use production_local_llm_inf.Registry.Records.{BenchmarkRun}
use production_local_llm_inf.Governance.Records.{
  GovernedVersion, RecordedVersion, Promotion, GovernanceError, missing_key,
}
use production_local_llm_inf.Governance.Catalog.{recorded_tags}
use production_local_llm_inf.Governance.Plan.{GovernanceStore}

pub record InMemoryStore (F : Type 0) : Type 0 where
  pub recorded : Dict String (Dict String RecordedVersion)
  pub runs : Dict String (BenchmarkRun F)
  pub history : List Promotion

abbrev pub first_record : GovernedVersion → RecordedVersion
first_record subject = record {
  name = subject.name;
  revision = subject.revision;
  stage = none;
  checksum = subject.checksum;
  tags = recorded_tags subject;
}

abbrev pub annotated : GovernedVersion → RecordedVersion → RecordedVersion
annotated subject item = record item { checksum = subject.checksum; tags = recorded_tags subject }

abbrev pub staged : LifecycleStage → RecordedVersion → RecordedVersion
staged stage item = record item { stage = some stage }

module _ {F : Type 0} where
  abbrev pub empty_store : InMemoryStore F
  empty_store = record { recorded = []; runs = []; history = [] }

  -- `self._versions.get(name, {})`.
  unfoldable pub stored : InMemoryStore F → String → Dict String RecordedVersion
  stored s name = or_else (get name s.recorded) []

  unfoldable pub hold : String → String → RecordedVersion → InMemoryStore F → InMemoryStore F
  unfolding stored
  hold name revision item s = record s {
    recorded = put name (put revision item (stored s name)) s.recorded;
  }

  unfoldable pub register : GovernedVersion → InMemoryStore F → InMemoryStore F
  unfolding hold
  register subject s = hold subject.name subject.revision (first_record subject) s

  -- An assignment to the fields of the version that is held, with the KeyError of a missing one.
  unfoldable pub amend :
      String
      → String
      → (RecordedVersion → RecordedVersion)
      → InMemoryStore F
      → Result GovernanceError (InMemoryStore F)
  unfolding hold stored
  amend name revision change s = elim (get revision (stored s name)) [
    | none ↦ raise missing_key
    | some item ↦ ok (hold name revision (change item) s)
  ]

  abbrev pub memory : GovernanceStore (InMemoryStore F) F
  memory = record {
    names = λ s. map (λ entry. entry.0) s.recorded;
    versions = λ s name. map (λ entry. entry.1) (stored s name);
    register = λ subject s. ok (register subject s);
    annotate = λ subject. amend subject.name subject.revision (annotated subject);
    set_stage = λ name revision stage. amend name revision (staged stage);
    benchmark_ids = λ s. map (λ entry. entry.0) s.runs;
    log_benchmark = λ run s. record s { runs = put run.id run s.runs };
    log_promotion = λ promotion s. record s { history = s.history ++ promotion ∷ [] };
    promotions = λ s name. filter (λ promotion. promotion.name == name) s.history;
  }
