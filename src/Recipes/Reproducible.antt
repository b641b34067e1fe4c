-- ===== src/Recipes/Reproducible.antt =====
-- When the recipes and the catalog agree, in src/llm_router/adapters.py.
use production_local_llm_inf.Prelude.{
  ◌≡◌, refl, ap, ◌↔◌, ◌⊎◌, inl, inr, true, false, Option, none, some, List, [], ◌∷◌, ◌++◌, ◌∈◌, map,
  String, arith, string_eq, option_eq, elem, elem_iff, all-of, is_empty, mem-map, map-mem,
  Bool-cases,
}
use production_local_llm_inf.Prelude.Dict.{Dict, get}
use production_local_llm_inf.Prelude.Loops.{
  flat_map, is_empty-append, is_empty-flat_map, flat_map-is_empty,
}
use production_local_llm_inf.Prelude.Text.{distinct}
use production_local_llm_inf.Prelude.Result.{Result, ok, raise}
use production_local_llm_inf.Prelude.Float.{Float}
use production_local_llm_inf.Models.Enums.{TaskClass, task_eq, LifecycleStage}
use production_local_llm_inf.Registry.Records.{AdapterProfile, Registry}
use production_local_llm_inf.Artifacts.Files.{Artifact, Readers}
use production_local_llm_inf.Artifacts.Scan.{ArtifactKind, ScanReport, passed, scan}
use production_local_llm_inf.Recipes.Records.{AdapterRecipe, is_qlora}
use production_local_llm_inf.Recipes.Check.{
  same_set, base_of, adapter_problems, recipe_problems, check_recipes,
}
use production_local_llm_inf.Recipes.Entry.{entry_of, catalog_entry, AdapterError, failed_scan}

is_empty-distinct : (xs : List String) → is_empty (distinct xs) ≡ is_empty xs
unfolding distinct
is_empty-distinct [] = refl
is_empty-distinct (x ∷ xs) = refl

nil_of_is_empty : {A : Type 0} (xs : List A) → is_empty xs ≡ true → xs ≡ []
nil_of_is_empty [] h = refl
nil_of_is_empty (x ∷ xs) h = absurd (ground arith)

module _ {F : Type 0} where
  -- The adapter is the result of the recipe: base, dataset, quantization, domain and tasks agree.
  pub record IsRun (adapter : AdapterProfile F) (recipe : AdapterRecipe F) : Type 0 where
    pub base_model : recipe.base_model_id ≡ adapter.base_model_id
    pub base_revision : recipe.base_revision ≡ adapter.base_revision
    pub dataset : recipe.dataset.version ≡ adapter.dataset_version
    pub quantized : is_qlora recipe.method ≡ adapter.quantized
    pub domain : recipe.domain ≡ adapter.domain
    pub tasks : same_set recipe.intended_tasks adapter.intended_tasks ≡ true

  -- Every adapter of the catalog is the result of its recipe, and every recipe starts from a revision
  -- of the catalog.
  pub record IsReproducible (registry : Registry F) (recipes : Dict String (AdapterRecipe F))
      : Type 0 where
    pub runs :
        (adapter : AdapterProfile F)
        → adapter ∈ registry.adapters
        → (recipe : AdapterRecipe F) × (get adapter.id recipes ≡ some recipe) × IsRun adapter recipe
    pub bases :
        (id : String) (recipe : AdapterRecipe F)
        → (id, recipe) ∈ recipes
        → base_of registry recipe.base_model_id ≡ some recipe.base_revision

  problems-IsRun :
      (adapter : AdapterProfile F) (recipe : AdapterRecipe F)
      → is_empty (adapter_problems adapter (some recipe)) ≡ true
      → IsRun adapter recipe
  unfolding adapter_problems
  problems-IsRun adapter recipe h = record {
    base_model = ground (arith, string_eq.beq_iff recipe.base_model_id adapter.base_model_id);
    base_revision = ground (arith, string_eq.beq_iff recipe.base_revision adapter.base_revision);
    dataset = ground (arith, string_eq.beq_iff recipe.dataset.version adapter.dataset_version);
    quantized = ground arith;
    domain = ground (arith, string_eq.beq_iff recipe.domain adapter.domain);
    tasks = ground arith;
  }

  IsRun-problems :
      (adapter : AdapterProfile F) (recipe : AdapterRecipe F)
      → IsRun adapter recipe
      → is_empty (adapter_problems adapter (some recipe)) ≡ true
  unfolding adapter_problems
  IsRun-problems adapter recipe run =
      let base = (string_eq.beq_iff recipe.base_model_id adapter.base_model_id).1 run.base_model in
      let revision =
        (string_eq.beq_iff recipe.base_revision adapter.base_revision).1 run.base_revision in
      let dataset =
        (string_eq.beq_iff recipe.dataset.version adapter.dataset_version).1 run.dataset in
      let domain = (string_eq.beq_iff recipe.domain adapter.domain).1 run.domain in
      let quantized = run.quantized in let tasks = run.tasks in ground arith

  adapter-IsRun :
      (adapter : AdapterProfile F) (o : Option (AdapterRecipe F))
      → is_empty (adapter_problems adapter o) ≡ true
      → (recipe : AdapterRecipe F) × (o ≡ some recipe) × IsRun adapter recipe
  unfolding adapter_problems
  adapter-IsRun adapter none h = absurd (ground arith)
  adapter-IsRun adapter (some recipe) h = (recipe, refl, problems-IsRun adapter recipe h)

  module _ (registry : Registry F) (recipes : Dict String (AdapterRecipe F)) where
    base_iff :
        (recipe : AdapterRecipe F)
        → (is_empty (recipe_problems registry recipe) ≡ true)
          ↔ (base_of registry recipe.base_model_id ≡ some recipe.base_revision)
    unfolding recipe_problems
    base_iff recipe =
        let same =
          option_eq.beq_iff (base_of registry recipe.base_model_id) (some recipe.base_revision) in
        (λ h. same.0 (ground arith), λ e. let held = same.1 e in ground arith)

    -- The check finds no problem exactly when the catalog is reproducible: every adapter in it has a
    -- recipe under its id, with the same base revision, dataset version, quantization, domain and
    -- tasks, and every recipe starts from the revision that the catalog gives its base model.
    pub check_recipes-nil_iff :
        (check_recipes registry recipes ≡ []) ↔ IsReproducible registry recipes
    unfolding check_recipes
    check_recipes-nil_iff =
        let of_adapter =
          λ (adapter : AdapterProfile F). adapter_problems adapter (get adapter.id recipes) in
        let first = flat_map of_adapter registry.adapters in
        let second = flat_map (recipe_problems registry) (map (λ entry. entry.1) recipes) in
        let whole = is_empty-distinct (first ++ second) in
        let parts = is_empty-append first second in
        (
          (λ h.
              let empty : is_empty (distinct (first ++ second)) ≡ true = ap is_empty h in
              let one : is_empty first ≡ true = ground arith in
              let two : is_empty second ≡ true = ground arith in
              record {
                runs = λ adapter m.
                    adapter-IsRun adapter (get adapter.id recipes)
                      (is_empty-flat_map of_adapter registry.adapters one adapter m);
                bases = λ id recipe m. (base_iff recipe).0 (
                    is_empty-flat_map (recipe_problems registry) (map (λ entry. entry.1) recipes)
                      two recipe (map-mem (λ entry. entry.1) recipes recipe (id, recipe) refl m));
              }),
          λ good.
              let one = flat_map-is_empty of_adapter registry.adapters (λ adapter m.
                let (recipe, held, run) = good.runs adapter m in
                rw held (IsRun-problems adapter recipe run)) in
              let two =
                flat_map-is_empty (recipe_problems registry) (map (λ entry. entry.1) recipes)
                  (λ recipe m.
                    let (entry, k, same) = mem-map (λ entry. entry.1) recipes recipe m in
                    rw same ((base_iff entry.1).1 (good.bases entry.0 entry.1 k))) in
              nil_of_is_empty (distinct (first ++ second)) (ground arith),
        )

same_set_refl : (xs : List TaskClass) → same_set xs xs ≡ true
same_set_refl xs =
    let within = all-of (λ x. elem x xs) xs (λ x m. (elem_iff x xs).1 m) in ground arith

module _ {F : Type 0} ⦃f : Float F⦄ where
  entry-IsRun :
      (recipe : AdapterRecipe F) (report : ScanReport) → IsRun (entry_of recipe report) recipe
  entry-IsRun recipe report = record {
    base_model = refl;
    base_revision = refl;
    dataset = refl;
    quantized = refl;
    domain = refl;
    tasks = same_set_refl recipe.intended_tasks;
  }

  -- Where the check finds no problem and the recipes hold one under its id: for an artifact that
  -- failed its scan no entry is made; for one that passed, the entry is made, in development and
  -- without a measured gain, and the check still finds no problem in the catalog with the entry added.
  pub catalog_entry-check :
      (registry : Registry F) (recipes : Dict String (AdapterRecipe F)) (recipe : AdapterRecipe F)
      (readers : Readers) (output : Artifact)
      → check_recipes registry recipes ≡ []
      → get recipe.id recipes ≡ some recipe
      → ((passed (scan readers ArtifactKind.adapter output none) ≡ false)
          × ((entry : AdapterProfile F) → catalog_entry readers recipe output ≡ ok entry → ⊥))
        ⊎ (entry : AdapterProfile F) × (passed (scan readers ArtifactKind.adapter output none)
            ≡ true)
          × (catalog_entry readers recipe output ≡ ok entry)
          × (entry.stage ≡ LifecycleStage.development)
          × (entry.benchmark.quality_delta ≡ f.of_nat 0)
          × (check_recipes (record registry { adapters = entry ∷ registry.adapters }) recipes ≡ [])
  unfolding catalog_entry base_of
  catalog_entry-check registry recipes recipe readers output sound held =
      elim (Bool-cases (passed (scan readers ArtifactKind.adapter output none))) [
        | inr failed ↦
            inl (failed, λ entry h. absurd (never entry (rw (catalog_entry, failed) at h)))
        | inl scanned ↦ inr (
          entry_of recipe (scan readers ArtifactKind.adapter output none),
          scanned,
          rw scanned,
          refl,
          refl,
          (check_recipes-nil_iff
                (record registry {
                  adapters =
                      entry_of recipe (scan readers ArtifactKind.adapter output none)
                      ∷ registry.adapters;
                })
                recipes).1
              extended,
        )
      ]
    where
      good : IsReproducible registry recipes
      good = (check_recipes-nil_iff registry recipes).0 sound

      never :
          (entry : AdapterProfile F)
          → ◌≡◌ {A = Result AdapterError (AdapterProfile F)}
              (raise
                (failed_scan recipe.id (scan readers ArtifactKind.adapter output none).findings))
              (ok entry)
          → ⊥
      never entry q = ground arith

      extended :
          IsReproducible
            (record registry {
              adapters =
                  entry_of recipe (scan readers ArtifactKind.adapter output none)
                  ∷ registry.adapters;
            })
            recipes
      extended = record {
        runs = λ adapter m. elim m [
          | inl e ↦
              rw e
                (recipe, held, entry-IsRun recipe (scan readers ArtifactKind.adapter output none))
          | inr k ↦ good.runs adapter k
        ];
        bases = good.bases;
      }
