-- ===== src/Recipes/Entry.antt =====
-- `catalog_entry` of src/llm_router/adapters.py. The artifact is the output directory.
use production_local_llm_inf.Prelude.{List, [], none, String, concat, if◌then◌else◌}
use production_local_llm_inf.Prelude.Float.{Float}
use production_local_llm_inf.Prelude.Result.{Result, ok, raise}
use production_local_llm_inf.Models.Enums.{LifecycleStage}
use production_local_llm_inf.Registry.Records.{AdapterProfile}
use production_local_llm_inf.Artifacts.Files.{Artifact, Readers}
use production_local_llm_inf.Artifacts.Scan.{ArtifactKind, ScanReport, Finding, passed, scan}
use production_local_llm_inf.Recipes.Records.{AdapterRecipe, is_qlora}

-- The AdapterError of an artifact that failed its scan, with the adapter and the findings.
pub data AdapterError : Type 0 where
  failed_scan : String → List Finding → AdapterError

module _ {F : Type 0} ⦃f : Float F⦄ where
  abbrev pub entry_of : AdapterRecipe F → ScanReport → AdapterProfile F
  entry_of recipe report = record {
    id = recipe.id;
    base_model_id = recipe.base_model_id;
    base_revision = recipe.base_revision;
    adapter_revision = concat recipe.id (concat "@" report.digest);
    domain = recipe.domain;
    intended_tasks = recipe.intended_tasks;
    dataset_version = recipe.dataset.version;
    benchmark = record { quality_delta = f.of_nat 0; regressions = [] };
    stage = LifecycleStage.development;
    quantized = is_qlora recipe.method;
  }

  unfoldable pub catalog_entry :
      Readers → AdapterRecipe F → Artifact → Result AdapterError (AdapterProfile F)
  unfolding scan passed
  catalog_entry readers recipe output =
      let report = scan readers ArtifactKind.adapter output none in
      if passed report
      then ok (entry_of recipe report)
      else raise (failed_scan recipe.id report.findings)
