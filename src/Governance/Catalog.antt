-- ===== src/Governance/Catalog.antt =====
-- src/llm_router/governance.py: `_slug`, `_checksums`, `_model_version`, `_adapter_version`,
-- `governed_versions` and the tags of a record. Python's `:g` format of a float is a parameter.
use Prim.Native.String.{[] as empty, ◌∷◌ as cons}
use Prim.Native.Char.{Char, code}
use production_local_llm_inf.Prelude.{
  ℕ, Bool, true, false, not, ◌&&◌, ◌||◌, Option, none, some, List, [], ◌∷◌, ◌++◌, map, String,
  concat, ltb, leb, filter, all, is_empty, count_if, string_eq, option_eq, ◌==◌, if◌then◌else◌,
}
use production_local_llm_inf.Prelude.Dict.{Dict, get, put}
use production_local_llm_inf.Prelude.Text.{
  starts_with, is_char, rstrip, strip, join, decimal, lower_bool, sorted_texts, distinct,
}
use production_local_llm_inf.Prelude.Result.{Result, ok, raise}
use production_local_llm_inf.Models.Enums.{LifecycleStage, stage_eq}
use production_local_llm_inf.Models.Values.{
  task_value, modality_value, quantization_value, tier_value,
}
use production_local_llm_inf.Registry.Records.{
  ModelCard, AdapterProfile, DeploymentRevision, Registry,
}
use production_local_llm_inf.Governance.Records.{
  SubjectKind, subject_kind_value, GovernedVersion, GovernanceError, duplicated, is_given,
}

abbrev between : ℕ → ℕ → ℕ → Bool
between low high n = leb low n && leb n high

-- A character of `[A-Za-z0-9._-]`.
abbrev is_slug_char : Char → Bool
is_slug_char c =
    between 65 90 (code c)
    || between 97 122 (code c)
    || between 48 57 (code c)
    || is_char 46 c
    || is_char 95 c
    || is_char 45 c

-- Each run of other characters becomes one dash; the flag says that a run has begun.
unfoldable slug_runs : Bool → String → String
slug_runs in_run empty = empty
slug_runs in_run (cons c text) =
    let kept = slug_runs false text in
    let dropped = slug_runs true text in
    if is_slug_char c then cons c kept else if in_run then dropped else concat "-" dropped

unfoldable pub slug : String → String
unfolding slug_runs strip
slug revision = strip 45 (slug_runs false revision)

-- `d.update(e)`.
unfoldable pub update : Dict String String → Dict String String → Dict String String
update d [] = d
update d ((key, value) ∷ e) = update (put key value d) e

abbrev production_checksums :
    (DeploymentRevision → Dict String String)
    → List DeploymentRevision
    → Dict String String
    → Dict String String
production_checksums field [] d = d
production_checksums field (deployment ∷ deployments) d =
    production_checksums field deployments
      (if deployment.stage == LifecycleStage.production then update d (field deployment) else d)

unfoldable pub checksums : {F : Type 0} → Registry F → Dict String String × Dict String String
checksums registry = (
  production_checksums (λ d. d.model_checksums) registry.deployments [],
  production_checksums (λ d. d.adapter_checksums) registry.deployments [],
)

unfoldable pub recorded_tags : GovernedVersion → Dict String String
recorded_tags subject =
    let tags =
      put "catalog.revision" subject.revision (put "catalog.managed" "true" subject.tags) in
    elim subject.checksum [
      | none ↦ tags
      | some sum ↦ if is_given (some sum) then put "catalog.checksum" sum tags else tags
    ]

unfoldable pub card_tags : Dict String String → Dict String String
card_tags = filter (λ entry. starts_with entry.0 "catalog." && not (entry.0 == "catalog.stage"))

-- `==` of two dictionaries: they agree at every key of either.
unfoldable pub same_tags : Dict String String → Dict String String → Bool
same_tags d e = all (λ entry. get entry.0 d == get entry.0 e) (d ++ e)

-- The names that stand more than once.
unfoldable pub duplicates : List String → List String
duplicates names =
    sorted_texts (distinct (filter (λ name. ltb 1 (count_if (λ n. n == name) names)) names))

module _ {F : Type 0} (general_format : F → String) where
  unfoldable pub model_version : ModelCard F → String → Option String → GovernedVersion
  unfolding slug
  model_version card artifact_root checksum =
      let hardware = card.hardware in
      record {
        name = card.id;
        kind = SubjectKind.model;
        revision = card.revision;
        stage = card.stage;
        source =
            if card.local
            then concat artifact_root
                (concat "/models/" (concat card.id (concat "/" (slug card.revision))))
            else concat "litellm://" card.id;
        checksum = checksum;
        description = card.intended_tasks;
        tags =
            ("catalog.kind", subject_kind_value SubjectKind.model)
            ∷ ("catalog.tier", tier_value card.tier)
            ∷ ("catalog.local", lower_bool card.local)
            ∷ ("catalog.license", card.license)
            ∷ ("catalog.tokenizer", card.tokenizer)
            ∷ ("catalog.context_limit", decimal card.context_limit)
            ∷ ("catalog.quantization", quantization_value card.quantization)
            ∷ (
              "catalog.hardware",
              join "" (
                  decimal hardware.count
                  ∷ "x "
                  ∷ hardware.accelerator
                  ∷ ", "
                  ∷ decimal hardware.minimum_memory_gb
                  ∷ " GB, tensor parallel "
                  ∷ decimal hardware.tensor_parallel_size
                  ∷ []),
            )
            ∷ ("catalog.modalities", join "," (sorted_texts (map modality_value card.modalities)))
            ∷ (
              "catalog.supported_tasks",
              join "," (sorted_texts (map task_value card.supported_tasks)),
            )
            ∷ ("catalog.intended_tasks", card.intended_tasks)
            ∷ ("catalog.limitations", card.limitations)
            ∷ ("catalog.evaluation_references", join "," card.evaluation_references)
            ∷ [];
      }

  unfoldable pub adapter_version : AdapterProfile F → String → Option String → GovernedVersion
  unfolding slug
  adapter_version adapter artifact_root checksum = record {
    name = adapter.id;
    kind = SubjectKind.adapter;
    revision = adapter.adapter_revision;
    stage = adapter.stage;
    source =
        concat artifact_root
          (concat "/adapters/" (concat adapter.id (concat "/" (slug adapter.adapter_revision))));
    checksum = checksum;
    description = concat adapter.domain (concat " adapter for " adapter.base_model_id);
    tags =
        ("catalog.kind", subject_kind_value SubjectKind.adapter)
        ∷ ("catalog.base_model_id", adapter.base_model_id)
        ∷ ("catalog.base_revision", adapter.base_revision)
        ∷ ("catalog.domain", adapter.domain)
        ∷ (
          "catalog.intended_tasks",
          join "," (sorted_texts (map task_value adapter.intended_tasks)),
        )
        ∷ ("catalog.dataset_version", adapter.dataset_version)
        ∷ ("catalog.quality_delta", general_format adapter.benchmark.quality_delta)
        ∷ ("catalog.regressions", join "," adapter.benchmark.regressions)
        ∷ ("catalog.quantized", lower_bool adapter.quantized)
        ∷ [];
  }

  -- The version of every model, then of every adapter.
  unfoldable pub all_versions : Registry F → String → List GovernedVersion
  unfolding checksums
  all_versions registry artifact_root =
      let root = rstrip 47 artifact_root in
      let (model_checksums, adapter_checksums) = checksums registry in
      map (λ card. model_version card root (get card.id model_checksums)) registry.models
      ++ map (λ adapter. adapter_version adapter root (get adapter.id adapter_checksums))
          registry.adapters

  unfoldable pub governed_versions :
      Registry F → String → Result GovernanceError (List GovernedVersion)
  unfolding all_versions duplicates
  governed_versions registry artifact_root =
      let versions = all_versions registry artifact_root in
      let names = duplicates (map (λ version. version.name) versions) in
      if is_empty names then ok versions else raise (duplicated names)
