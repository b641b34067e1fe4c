-- ===== src/Recipes/Check.antt =====
-- `check_recipes` of src/llm_router/adapters.py.
use production_local_llm_inf.Prelude.{
  Bool, not, ◌&&◌, Option, none, some, List, [], ◌∷◌, ◌++◌, map, String, string_eq, option_eq, ◌==◌,
  elem, all, if◌then◌else◌,
}
use production_local_llm_inf.Prelude.Dict.{Dict, get}
use production_local_llm_inf.Prelude.Loops.{flat_map, only_if}
use production_local_llm_inf.Prelude.Keyed.{keyed}
use production_local_llm_inf.Prelude.Text.{join, lower_bool, distinct}
use production_local_llm_inf.Models.Enums.{TaskClass, task_eq}
use production_local_llm_inf.Registry.Records.{AdapterProfile, ModelCard, Registry}
use production_local_llm_inf.Recipes.Records.{AdapterRecipe, method_value, is_qlora}

-- `==` of two frozensets.
abbrev pub same_set : List TaskClass → List TaskClass → Bool
same_set xs ys = all (λ x. elem x ys) xs && all (λ y. elem y xs) ys

abbrev differ : Bool → Bool → Bool
differ a b = if a then not b else b

module _ {F : Type 0} where
  abbrev pub revision_of : Option (ModelCard F) → Option String
  revision_of none = none
  revision_of (some card) = some card.revision

  -- `bases.get(id)`.
  unfoldable pub base_of : Registry F → String → Option String
  base_of registry id =
      revision_of (get id (keyed (λ (card : ModelCard F). card.id) registry.models))

  abbrev pub has_base : AdapterProfile F → AdapterRecipe F → Bool
  has_base adapter recipe =
      recipe.base_model_id == adapter.base_model_id && recipe.base_revision == adapter.base_revision

  abbrev pub has_scope : AdapterProfile F → AdapterRecipe F → Bool
  has_scope adapter recipe =
      recipe.domain == adapter.domain && same_set recipe.intended_tasks adapter.intended_tasks

  -- What is wrong with a catalog adapter, from its recipe.
  unfoldable pub adapter_problems : AdapterProfile F → Option (AdapterRecipe F) → List String
  adapter_problems adapter none =
      join "" (adapter.id ∷ ": in the catalog but has no recipe" ∷ []) ∷ []
  adapter_problems adapter (some recipe) =
      only_if (not (has_base adapter recipe)) (
        join "" (
          adapter.id ∷ ": recipe trains on " ∷ recipe.base_model_id ∷ "@" ∷ recipe.base_revision
          ∷ ", the catalog says " ∷ adapter.base_model_id ∷ "@" ∷ adapter.base_revision ∷ []))
      ++ (only_if (not (recipe.dataset.version == adapter.dataset_version)) (
            join "" (
              adapter.id ∷ ": recipe uses dataset " ∷ recipe.dataset.version ∷ ", the catalog says "
              ∷ adapter.dataset_version ∷ []))
          ++ (only_if (differ (is_qlora recipe.method) adapter.quantized) (
                join "" (
                  adapter.id
                  ∷ ": recipe method is "
                  ∷ method_value recipe.method
                  ∷ " but the catalog records quantized="
                  ∷ lower_bool adapter.quantized
                  ∷ []))
              ++ only_if (not (has_scope adapter recipe))
                  (join "" (adapter.id ∷ ": recipe domain or tasks differ from the catalog" ∷ []))))

  abbrev pub has_catalog_base : Registry F → AdapterRecipe F → Bool
  has_catalog_base registry recipe =
      base_of registry recipe.base_model_id == some recipe.base_revision

  unfoldable pub recipe_problems : Registry F → AdapterRecipe F → List String
  recipe_problems registry recipe = only_if (not (has_catalog_base registry recipe)) (
      join "" (
        recipe.id ∷ ": base " ∷ recipe.base_model_id ∷ "@" ∷ recipe.base_revision
        ∷ " is not a revision in the catalog" ∷ []))

  unfoldable pub check_recipes : Registry F → Dict String (AdapterRecipe F) → List String
  unfolding adapter_problems recipe_problems
  check_recipes registry recipes = distinct (
      flat_map (λ adapter. adapter_problems adapter (get adapter.id recipes)) registry.adapters
      ++ flat_map (recipe_problems registry) (map (λ entry. entry.1) recipes))
