-- ===== src/Recipes/Records.antt =====
-- The recipes of src/llm_router/adapters.py.
use Prim.Native.String.{[] as empty, ◌∷◌ as cons, count}
use Prim.Native.Char.{Char, code}
use production_local_llm_inf.Prelude.{
  ℕ, Bool, true, false, not, ◌&&◌, ◌||◌, List, String, ltb, leb, nat_beq, is_empty,
}
use production_local_llm_inf.Prelude.Result.{Result, ok, raise_if, ◌>>=◌}
use production_local_llm_inf.Models.Enums.{TaskClass}

pub data Method : Type 0 where
  lora qlora : Method

abbrev pub method_value : Method → String
method_value Method.lora = "lora"
method_value Method.qlora = "qlora"

abbrev pub is_qlora : Method → Bool
is_qlora Method.lora = false
is_qlora Method.qlora = true

pub data Framework : Type 0 where
  peft unsloth : Framework

pub record DatasetReference : Type 0 where
  pub path : String
  pub version : String
  pub text_field : String

pub record TrainingSettings (F : Type 0) : Type 0 where
  pub epochs : F
  pub learning_rate : F
  pub batch_size : ℕ
  pub gradient_accumulation_steps : ℕ
  pub max_seq_length : ℕ
  pub warmup_ratio : F
  pub seed : ℕ

pub record AdapterRecipe (F : Type 0) : Type 0 where
  pub id : String
  pub base_model_id : String
  pub base_revision : String
  pub hf_repo : String
  pub hf_revision : String
  pub domain : String
  pub intended_tasks : List TaskClass
  pub method : Method
  pub framework : Framework
  pub rank : ℕ
  pub alpha : ℕ
  pub dropout : F
  pub target_modules : List String
  pub dataset : DatasetReference
  pub training : TrainingSettings F

pub data RecipeError : Type 0 where
  revision_can_move rank_not_loaded no_target_module : String → RecipeError

-- A character of `[0-9a-f]`.
abbrev is_hex : Char → Bool
is_hex c = (leb 48 (code c) && leb (code c) 57) || (leb 97 (code c) && leb (code c) 102)

unfoldable all_hex : String → Bool
all_hex empty = true
all_hex (cons c text) = is_hex c && all_hex text

-- `COMMIT.fullmatch(text)`.
unfoldable pub is_commit : String → Bool
unfolding all_hex
is_commit text = all_hex text && nat_beq (count text) 40

-- `keep_the_recipe_servable_and_reproducible`.
unfoldable pub validate_recipe :
    {F : Type 0} → AdapterRecipe F → Result RecipeError (AdapterRecipe F)
unfolding is_commit
validate_recipe recipe =
    raise_if (not (is_commit recipe.hf_revision)) (revision_can_move recipe.id) >>= λ _.
    raise_if (ltb 32 recipe.rank) (rank_not_loaded recipe.id) >>= λ _.
    raise_if (is_empty recipe.target_modules) (no_target_module recipe.id) >>= λ _. ok recipe
