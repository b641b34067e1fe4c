-- ===== src/Tests/Trained.antt =====
-- The recipe of the catalog's adapter.
use production_local_llm_inf.Prelude.{
  string_eq, ◌≡◌, refl, ◌⊎◌, ◌↔◌, true, false, some, none, [], ◌∷◌, String, elem, all,
}
use production_local_llm_inf.Prelude.Int.{ℤ, pos}
use production_local_llm_inf.Prelude.Float.{milli_float}
use production_local_llm_inf.Prelude.Dict.{Dict, get, put}
use production_local_llm_inf.Prelude.Loops.{flat_map}
use production_local_llm_inf.Prelude.Keyed.{keyed}
use production_local_llm_inf.Prelude.Text.{distinct}
use production_local_llm_inf.Prelude.Result.{ok}
use production_local_llm_inf.Models.Enums.{TaskClass, LifecycleStage}
use production_local_llm_inf.Registry.Records.{AdapterProfile}
use production_local_llm_inf.Artifacts.Scan.{ArtifactKind, passed, scan}
use production_local_llm_inf.Tests.Scans.{legal_adapter, readers}
use production_local_llm_inf.Recipes.Records.{Method, Framework, AdapterRecipe}
use production_local_llm_inf.Recipes.Check.{check_recipes, base_of}
use production_local_llm_inf.Recipes.Entry.{catalog_entry}
use production_local_llm_inf.Recipes.Reproducible.{
  IsReproducible, check_recipes-nil_iff, catalog_entry-check,
}
use production_local_llm_inf.Tests.Data.{registry}

abbrev recipe : AdapterRecipe ℤ
recipe = record {
  id = "legal";
  base_model_id = "small";
  base_revision = "r1";
  hf_repo = "org/small";
  hf_revision = "0123456789abcdef0123456789abcdef01234567";
  domain = "law";
  intended_tasks = TaskClass.general ∷ [];
  method = Method.lora;
  framework = Framework.peft;
  rank = 16;
  alpha = 32;
  dropout = pos 50;
  target_modules = "q_proj" ∷ [];
  dataset = record { path = "data.jsonl"; version = "d1"; text_field = "text" };
  training = record {
    epochs = pos 3000;
    learning_rate = pos 1;
    batch_size = 8;
    gradient_accumulation_steps = 1;
    max_seq_length = 2048;
    warmup_ratio = pos 30;
    seed = 0;
  };
}

abbrev recipes : Dict String (AdapterRecipe ℤ)
recipes = ("legal", recipe) ∷ []

check_recipes-nil_iff_example :
    (check_recipes registry recipes ≡ []) ↔ IsReproducible registry recipes
check_recipes-nil_iff_example = check_recipes-nil_iff registry recipes

no_problem : check_recipes registry recipes ≡ []
unfolding check_recipes get distinct flat_map all elem base_of keyed put
no_problem = refl

held : get "legal" recipes ≡ some recipe
unfolding get
held = refl

catalog_entry-check_example :
    ((passed (scan readers ArtifactKind.adapter legal_adapter none) ≡ false)
      × ((entry : AdapterProfile ℤ) → catalog_entry readers recipe legal_adapter ≡ ok entry → ⊥))
    ⊎ (entry : AdapterProfile ℤ) × (passed (scan readers ArtifactKind.adapter legal_adapter none)
        ≡ true)
      × (catalog_entry readers recipe legal_adapter ≡ ok entry)
      × (entry.stage ≡ LifecycleStage.development)
      × (entry.benchmark.quality_delta ≡ pos 0)
      × (check_recipes (record registry { adapters = entry ∷ registry.adapters }) recipes ≡ [])
catalog_entry-check_example =
    catalog_entry-check registry recipes recipe readers legal_adapter no_problem held
